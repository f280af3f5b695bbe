-- ===== src/Utils.antt =====
-- pkg/utils: the book of running routines.
pub mod RoutineBook
pub mod ValidatorIndexes

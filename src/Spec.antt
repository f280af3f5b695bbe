-- ===== src/Spec.antt =====
-- pkg/spec: the fork-agnostic data model and what is computed from one state.
pub mod Constants
pub mod Slots
pub mod Validator
pub mod Block
pub mod State
pub mod Rewards

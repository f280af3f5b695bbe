-- ===== src/Analyzer/Blocks/Process/Returns.antt =====
-- `ProcessBlock` returns (pkg/analyzer/process_block.go), and what it leaves in the book.
use goteth.Utils.RoutineBook.{RoutineBook}
use goteth.Analyzer.Services.{Services}

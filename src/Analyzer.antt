-- ===== src/Analyzer.antt =====
-- pkg/analyzer: the parts of the chain analyzer that keep state between epochs.
pub mod Aggregation
pub mod AgnosticMap
pub mod ChainCache
pub mod Services
pub mod Blocks
pub mod States
pub mod Download
pub mod Reorg
pub mod Routines
pub mod Startup

-- ===== src/Scenarios.antt =====
-- Small states, blocks and requests, and the theorems at them.
pub mod Fixtures
pub mod SpecRuns
pub mod MetricsRuns
pub mod ElectraRuns
pub mod AnalyzerRuns
pub mod FlagRuns
pub mod CacheRuns
pub mod BundleRuns
pub mod AnalyzerFixtures
pub mod BlockRuns
pub mod StateRuns
pub mod ReorgRuns
pub mod RoutineRuns
pub mod RelayRuns

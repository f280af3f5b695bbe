-- ===== src/Relay.antt =====
-- pkg/relay: the relays that deliver the payloads of the builders, and the bids that they report.
pub mod Bids
pub mod Breaker
pub mod Monitor
pub mod Constants

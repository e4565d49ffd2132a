-- ===== src/Engine.antt =====
-- engine/: the long-only portfolio engine that trades whole shares from target weights.
pub mod Errors
pub mod Config
pub mod Orders
pub mod Costs
pub mod State
pub mod Risk
pub mod Broker
pub mod Execution
pub mod Portfolio
pub mod Runner
pub mod Fixtures

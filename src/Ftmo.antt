-- ===== src/Ftmo.antt =====
-- ftmo-bot: a trading bot for a funded challenge, with its controls against overfitting.
pub mod Ledger
pub mod Rules
pub mod Simulation
pub mod Live

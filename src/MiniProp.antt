-- ===== src/MiniProp.antt =====
-- mini_prop_os: an intraday trading system around a broker's callbacks.
pub mod Types
pub mod Oms
pub mod Guardrails
pub mod EventCalendar
pub mod KillFile
pub mod App

-- ===== src/Engine/State.antt =====
-- engine/state.py: what the engine remembers between two daily cycles. A date is read only through
-- its ordinal and its year and month (the "period"); "" is `none`.
pub mod Store
use trading_bot.Base.{ℕ, Bool, false, Option, none, []}
use trading_bot.Base.Dict.{Dict}
use trading_bot.Base.Float.{Float, nought}

pub record Date : Type 0 where
  pub ordinal : ℕ
  pub period : ℕ

-- The reason strings of the pre-trade gate.
pub data HaltReason : Type 0 where
  below_floor drawdown_exceeded daily_loss_exceeded : HaltReason

pub record EngineState (F : Type 0) : Type 0 where
  pub schema_version : ℕ
  pub halted : Bool
  pub halt_reason : Option HaltReason
  pub peak_equity : F
  pub last_equity : F
  -- the ordinal of the ISO date
  pub last_equity_date : Option ℕ
  pub last_completed_period : Option ℕ
  pub rebalance_retries : ℕ
  pub retry_period : Option ℕ
  pub positions : Dict F
  pub cash : F

abbrev pub schema : ℕ
schema = 1

-- `EngineState()`
abbrev pub fresh_state : {F : Type 0} ⦃f : Float F⦄ → EngineState F
fresh_state = record {
  schema_version = schema;
  halted = false;
  halt_reason = none;
  peak_equity = nought;
  last_equity = nought;
  last_equity_date = none;
  last_completed_period = none;
  rebalance_retries = 0;
  retry_period = none;
  positions = [];
  cash = nought;
}

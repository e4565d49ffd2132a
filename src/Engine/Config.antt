-- ===== src/Engine/Config.antt =====
-- engine/config.py: the validated configuration. Its integers are numbers that are not negative; a
-- key that is missing or a file that is not there raises before any of this exists. Symbols are
-- only compared and sorted, so they are numbers.
pub mod Checked
mod Tests
use trading_bot.Base.{ℕ, Bool, true, false, not, ◌&&◌, ◌||◌, Option, none, some, List, [], ◌∷◌}
use trading_bot.Base.Checks.{leb, ltb, ◌==◌}
use trading_bot.Base.Lists.{length, contains}
use trading_bot.Base.Float.{Float, nought}
use trading_bot.Engine.Errors.{Result, ok, config_error, ◌>>◌, raise_if}

pub data FeeModel : Type 0 where
  fixed_per_order proportional : FeeModel

pub record CostConfig (F : Type 0) : Type 0 where
  -- a fee model with another name is `none`
  pub fee_model : Option FeeModel
  pub fixed_min_fee : F
  pub per_share_fee : F
  pub proportional_rate : F
  pub spread_bps : F
  pub slippage_bps : F

pub record RiskConfig (F : Type 0) : Type 0 where
  pub max_drawdown_pct : F
  pub min_equity_floor : F
  pub max_daily_loss_pct : F
  pub max_position_weight : F
  pub max_gross_exposure : F
  pub allow_short : Bool
  pub allow_leverage : Bool
  pub max_orders_per_day : ℕ
  pub min_order_notional : F
  pub max_cost_fraction : F
  pub no_trade_band : F
  pub rebalance_tolerance : F
  pub max_rebalance_retries : ℕ

pub record ExecutionConfig (F : Type 0) : Type 0 where
  pub live_min_equity : F
  pub escalation_max_hops : ℕ
  pub order_wait_seconds : F

pub record DataConfig : Type 0 where
  pub max_staleness_days : ℕ

pub record EngineConfig (F : Type 0) : Type 0 where
  pub universe : List ℕ
  pub costs : CostConfig F
  pub risk : RiskConfig F
  pub execution : ExecutionConfig F
  pub feed : DataConfig

-- `len(set(xs)) == len(xs)`
pub has_duplicates : List ℕ → Bool
has_duplicates [] = false
has_duplicates (s ∷ ss) = contains s ss || has_duplicates ss

abbrev check : Bool → Result (Unit {0})
check cond = raise_if (not cond) config_error

abbrev is_proportional : Option FeeModel → Bool
is_proportional (some proportional) = true
is_proportional _ = false

abbrev is_valid_model : Option FeeModel → Bool
is_valid_model none = false
is_valid_model (some m) = true

module _ {F : Type 0} ⦃f : Float F⦄ where
  open f use {lit, lt, le}

  check_costs : CostConfig F → Result (Unit {0})
  check_costs c = do
    check (is_valid_model c.fee_model)
    check (le nought c.fixed_min_fee && le nought c.per_share_fee)
    check (le nought c.proportional_rate && lt c.proportional_rate (lit 5 2))
    check (not (is_proportional c.fee_model) || lt nought c.proportional_rate)
    check (
        le nought c.spread_bps
        && lt c.spread_bps (lit 500 0)
        && le nought c.slippage_bps
        && lt c.slippage_bps (lit 500 0))

  check_risk : RiskConfig F → Result (Unit {0})
  check_risk r = do
    check (lt nought r.max_drawdown_pct && lt r.max_drawdown_pct (lit 1 0))
    check (le nought r.min_equity_floor)
    check (lt nought r.max_daily_loss_pct && lt r.max_daily_loss_pct (lit 1 0))
    check (lt nought r.max_position_weight && le r.max_position_weight (lit 1 0))
    check (lt nought r.max_gross_exposure && le r.max_gross_exposure (lit 10 0))
    check (le r.max_gross_exposure (lit 1 0) || r.allow_leverage)
    check (leb 1 r.max_orders_per_day)
    check (le nought r.min_order_notional)
    check (lt nought r.max_cost_fraction && lt r.max_cost_fraction (lit 1 0))
    check (le nought r.no_trade_band && lt r.no_trade_band (lit 1 0))
    check (lt nought r.rebalance_tolerance && lt r.rebalance_tolerance (lit 1 0))
    check (leb 1 r.max_rebalance_retries)

  check_execution : ExecutionConfig F → Result (Unit {0})
  check_execution e = do check (le nought e.live_min_equity); check (e.escalation_max_hops == 1)

  pub validate_config : EngineConfig F → Result (Unit {0})
  validate_config cfg = do
    check (ltb 0 (length cfg.universe))
    check (not (has_duplicates cfg.universe))
    check_costs cfg.costs
    check_risk cfg.risk
    check_execution cfg.execution
    check (leb 1 cfg.feed.max_staleness_days)

-- ===== src/Engine/Risk.antt =====
-- engine/risk.py: the pre-trade gate, the weight clamps and the filter that every order passes on its
-- way to a broker.
pub mod Gate
pub mod Clamp
pub mod Filter
pub mod Single
pub mod Sample
mod Tests
use trading_bot.Base.{
  ℕ, Bool, true, false, not, ◌&&◌, Option, none, some, List, [], ◌∷◌, ◌++◌, ◌≡◌, arith,
}
use trading_bot.Base.Checks.{◌==◌, if◌then◌else◌}
use trading_bot.Base.Dict.{Dict, lookup}
use trading_bot.Base.Float.{Float, nought, max_of, min_of, abs_of, is_nan}
use trading_bot.Engine.Errors.{
  Result, ok, err, halt_error, value_error, data_error, ◌>>=◌, ◌>>◌, raise_if,
}
use trading_bot.Engine.Config.{RiskConfig, CostConfig}
use trading_bot.Engine.Costs.{all_in_fraction}
use trading_bot.Engine.Orders.{
  Order, DroppedOrder, Reason, drop_for, no_valid_price, below_min_notional, cost_too_high,
  dust_position, truncate_to_cap,
}
use trading_bot.Engine.State.{
  EngineState, Date, HaltReason, below_floor, drawdown_exceeded, daily_loss_exceeded,
}

pub data PreTradeDecision : Type 0 where
  proceed stand_down hard_kill : PreTradeDecision

pub record PreTradeResult (F : Type 0) : Type 0 where
  pub decision : PreTradeDecision
  pub reason : Option HaltReason
  pub daily_return : F
  pub drawdown_from_peak : F

-- The field is private: only this module builds the stamp that brokers ask for.
pub record ApprovedOrders (F : Type 0) : Type 0 where
  approved : List (Order F)

unfoldable pub orders_in : {F : Type 0} → ApprovedOrders F → List (Order F)
orders_in a = a.approved

abbrev same_day : Option ℕ → ℕ → Bool
same_day none today = false
same_day (some day) today = day == today

-- The orders kept and those dropped.
abbrev Sorted : Type 0 → Type 0
Sorted F = List (Order F) × List (DroppedOrder F)

module _ {F : Type 0} ⦃f : Float F⦄ where
  open f use {lit, add, sub, mul, div, neg, lt, le}

  unfoldable pub check_not_halted : EngineState F → Result (Unit {0})
  check_not_halted prior = raise_if prior.halted halt_error

  drawdown_of : F → F → F
  drawdown_of peak equity = if le peak nought then nought else div (sub peak equity) peak

  daily_return_of : EngineState F → F → ℕ → F → F
  daily_return_of prior equity today flows =
      if lt nought prior.last_equity && not (same_day prior.last_equity_date today)
      then sub (div (sub equity flows) prior.last_equity) (lit 1 0)
      else nought

  abbrev verdict : PreTradeDecision → Option HaltReason → F → F → PreTradeResult F
  verdict d r daily drawdown = record {
    decision = d;
    reason = r;
    daily_return = daily;
    drawdown_from_peak = drawdown;
  }

  decide : RiskConfig F → F → F → F → F → PreTradeResult F
  decide cfg prior_peak equity daily drawdown =
      if le cfg.min_equity_floor prior_peak && lt equity cfg.min_equity_floor
      then verdict hard_kill (some below_floor) daily drawdown
      else if lt cfg.max_drawdown_pct drawdown
      then verdict hard_kill (some drawdown_exceeded) daily drawdown
      else if lt daily (neg cfg.max_daily_loss_pct)
      then verdict stand_down (some daily_loss_exceeded) daily drawdown
      else verdict proceed none daily drawdown

  pub pre_trade : RiskConfig F → EngineState F → F → Date → F → Result (PreTradeResult F)
  unfolding check_not_halted
  pre_trade cfg prior equity today flows = do
    check_not_halted prior
    raise_if (lt flows nought) value_error
    ok (
        decide cfg prior.peak_equity equity (daily_return_of prior equity today.ordinal flows)
          (drawdown_of (max_of (add prior.peak_equity flows) equity) equity))

  -- The loop body of `clamp_weights`.
  clamp_one : RiskConfig F → F → F
  clamp_one cfg w =
      let floored = if cfg.allow_short then w else max_of nought w in
      min_of floored cfg.max_position_weight

  clamp_each : RiskConfig F → Dict F → Result (Dict F)
  clamp_each cfg [] = ok []
  clamp_each cfg ((sym, w) ∷ ws) = do
    raise_if (is_nan w) data_error
    rest ← clamp_each cfg ws
    ok ((sym, clamp_one cfg w) ∷ rest)

  gross_from : F → Dict F → F
  gross_from total [] = total
  gross_from total ((sym, w) ∷ ws) = gross_from (add total (abs_of w)) ws

  scale_each : F → Dict F → Dict F
  scale_each scale [] = []
  scale_each scale ((sym, w) ∷ ws) = (sym, mul w scale) ∷ scale_each scale ws

  abbrev gross_cap : RiskConfig F → F
  gross_cap cfg =
      if cfg.allow_leverage then cfg.max_gross_exposure else min_of (lit 1 0) cfg.max_gross_exposure

  scale_to_cap : RiskConfig F → Dict F → Dict F
  scale_to_cap cfg clamped =
      let gross = gross_from nought clamped in
      if lt (gross_cap cfg) gross && lt nought gross
      then scale_each (div (gross_cap cfg) gross) clamped
      else clamped

  pub clamp_weights : RiskConfig F → Dict F → Result (Dict F)
  clamp_weights cfg weights = do clamped ← clamp_each cfg weights; ok (scale_to_cap cfg clamped)

  -- The loop body of `filter_orders` at a price: `none` keeps the order.
  judge_cost : RiskConfig F → Order F → F → Option Reason
  judge_cost cfg o frac =
      if lt cfg.max_cost_fraction frac && not o.is_full_exit
      then some cost_too_high
      else if o.is_full_exit && le (lit 1 0) frac
      then some dust_position
      else none

  judge_at : RiskConfig F → CostConfig F → Order F → F → Result (Option Reason)
  judge_at cfg costs o px =
      if le px nought
      then ok (some no_valid_price)
      else if lt (mul o.shares px) cfg.min_order_notional && not o.is_full_exit
      then ok (some below_min_notional)
      else (all_in_fraction costs o.shares px >>= λ frac. ok (judge_cost cfg o frac))

  judge : RiskConfig F → CostConfig F → Order F → Option F → Result (Option Reason)
  judge cfg costs o none = ok (some no_valid_price)
  judge cfg costs o (some px) = judge_at cfg costs o px

  put_by : Order F → Option Reason → Sorted F → Sorted F
  put_by o none (kept, dropped) = (o ∷ kept, dropped)
  put_by o (some r) (kept, dropped) = (kept, drop_for r o ∷ dropped)

  sift : RiskConfig F → CostConfig F → Dict F → List (Order F) → Result (Sorted F)
  sift cfg costs prices [] = ok ([], [])
  sift cfg costs prices (o ∷ os) = do
    verdict ← judge cfg costs o (lookup o.symbol prices)
    rest ← sift cfg costs prices os
    ok (put_by o verdict rest)

  cap_kept : RiskConfig F → Sorted F → ApprovedOrders F × List (DroppedOrder F)
  cap_kept cfg (kept, dropped) =
      let (within, over) = truncate_to_cap kept cfg.max_orders_per_day in
      (record { approved = within }, dropped ++ over)

  pub filter_orders :
      RiskConfig F
      → CostConfig F
      → List (Order F)
      → Dict F
      → Result (ApprovedOrders F × List (DroppedOrder F))
  filter_orders cfg costs orders prices = do
    sorted ← sift cfg costs prices orders
    ok (cap_kept cfg sorted)

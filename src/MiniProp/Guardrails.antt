-- ===== src/MiniProp/Guardrails.antt =====
-- mini_prop_os/risk/guardrails.py: the gate before the order manager, and the daily-loss breaker.
-- Symbols are numbered in the order of their names, which is how `sorted` puts them; 0 is a blank
-- name. The type of a quantity needs no test here.
pub mod Gate
pub mod Flatten
pub mod Breaker
mod Tests
use trading_bot.Base.{
  ℕ, zero, suc, ◌+◌, Bool, true, false, not, ◌&&◌, ◌||◌, Option, none, some, List, [], ◌∷◌, map,
}
use trading_bot.Base.Checks.{ltb, leb, ◌==◌, if◌then◌else◌}
use trading_bot.Base.Dict.{Dict, lookup, lookup_or}
use trading_bot.Base.Int.{ℤ, pos, negsuc, ◌+ℤ◌, abs_ℤ, ltb_ℤ, leb_ℤ, eqb_ℤ}
use trading_bot.Base.Float.{Float, nought, min_of}
use trading_bot.MiniProp.Types.{
  Action, buy, sell, OrderType, market, limit, IntentSource, strategy, risk_flatten, operator,
  OrderIntent, signed_quantity,
}

-- Why an intent is rejected.
pub data Rejection : Type 0 where
  kill_switch_active empty_symbol bad_quantity bad_limit_price no_reference_price : Rejection
  above_order_cap would_short above_position_shares above_position_notional : Rejection
  unpriced_positions above_gross_notional : Rejection

pub data RiskDecision : Type 0 where
  approved : RiskDecision
  reject : Rejection → RiskDecision

-- What the guardrails read of the configuration.
pub record RiskLimits (F : Type 0) : Type 0 where
  pub max_position_shares : ℤ
  pub max_position_notional : F
  pub max_order_quantity : ℤ
  pub max_gross_notional : F
  pub max_daily_loss : F
  pub max_daily_loss_pct : F
  pub allow_short : Bool

pub record PortfolioSnapshot (F : Type 0) : Type 0 where
  pub positions : Dict ℤ
  pub last_prices : Dict F
  pub multipliers : Dict F

pub data KillReason : Type 0 where
  daily_loss : KillReason
  called : ℕ → KillReason

pub record RiskGuardrails (F : Type 0) : Type 0 where
  pub kill_switch : Bool
  pub kill_reason : Option KillReason
  pub start_of_day_equity : Option F
  pub last_equity : Option F

abbrev pub is_flatten : IntentSource → Bool
is_flatten risk_flatten = true
is_flatten strategy = false
is_flatten operator = false

abbrev pub is_limit : OrderType → Bool
is_limit limit = true
is_limit market = false

-- `sorted(positions.items())`
insert_sorted : ℕ → ℤ → Dict ℤ → Dict ℤ
insert_sorted symbol qty [] = (symbol, qty) ∷ []
insert_sorted symbol qty ((other, n) ∷ rest) =
    if leb symbol other
    then (symbol, qty) ∷ (other, n) ∷ rest
    else (other, n) ∷ insert_sorted symbol qty rest

sorted : Dict ℤ → Dict ℤ
sorted [] = []
sorted ((symbol, qty) ∷ rest) = insert_sorted symbol qty (sorted rest)

module _ {F : Type 0} where
  unfoldable pub trip : KillReason → RiskGuardrails F → RiskGuardrails F
  trip reason g =
      if g.kill_switch then g else record g { kill_switch = true; kill_reason = some reason }

  -- An empty operator tag is `none`, and raises.
  reset : Option ℕ → RiskGuardrails F → Option (RiskGuardrails F)
  reset none g = none
  reset (some tag) g = some (record g { kill_switch = false; kill_reason = none })

  -- An order that closes `qty`.
  abbrev closing : ℕ → ℕ → ℤ → OrderIntent F
  closing id symbol qty = record {
    action = if ltb_ℤ (pos 0) qty then sell else buy;
    symbol = symbol;
    quantity = pos (abs_ℤ qty);
    order_type = market;
    limit_price = none;
    source = risk_flatten;
    intent_id = id;
  }

  close_each : ℕ → Dict ℤ → List (OrderIntent F)
  close_each id [] = []
  close_each id ((symbol, qty) ∷ rest) =
      if eqb_ℤ qty (pos 0)
      then close_each id rest
      else closing id symbol qty ∷ close_each (suc id) rest

  -- `id` is the next number of the process-wide counter of intents.
  unfoldable pub flatten_intents : ℕ → Dict ℤ → List (OrderIntent F)
  unfolding close_each sorted insert_sorted
  flatten_intents id positions = close_each id (sorted positions)

module _ {F : Type 0} ⦃f : Float F⦄ where
  open f use {lit, add, sub, mul, lt, le, of_int, is_finite}

  pub daily_pnl : RiskGuardrails F → Option F
  daily_pnl g = elim g.start_of_day_equity [
    | none ↦ none
    | some start ↦ elim g.last_equity [ none ↦ none | some last ↦ some (sub last start) ]
  ]

  -- `none` is the refusal of a mark that is not positive.
  unfoldable pub mark_start_of_day : F → RiskGuardrails F → Option (RiskGuardrails F)
  mark_start_of_day equity g =
      if not (is_finite equity) || le equity nought
      then none
      else some (record g { start_of_day_equity = some equity; last_equity = some equity })

  abbrev loss_limit : RiskLimits F → F → F
  loss_limit cfg start = min_of cfg.max_daily_loss (mul cfg.max_daily_loss_pct start)

  breaker : RiskLimits F → F → Option F → RiskGuardrails F → RiskGuardrails F × Bool
  breaker cfg equity none g = (g, false)
  breaker cfg equity (some start) g =
      if g.kill_switch
      then (g, false)
      else if le (loss_limit cfg start) (sub start equity)
      then (trip daily_loss g, true)
      else (g, false)

  -- The state, and whether this mark tripped the breaker.
  unfoldable pub update_equity : RiskLimits F → F → RiskGuardrails F → RiskGuardrails F × Bool
  unfolding breaker
  update_equity cfg equity g =
      if not (is_finite equity)
      then (g, false)
      else breaker cfg equity g.start_of_day_equity (record g { last_equity = some equity })

  abbrev pub valid_price : Option F → Bool
  valid_price none = false
  valid_price (some p) = is_finite p && not (le p nought)

  -- What one position adds to the gross notional; `none` when it has no valid price.
  leg_of : PortfolioSnapshot F → ℕ → ℤ → Option F → Option F
  leg_of s symbol qty none = none
  leg_of s symbol qty (some p) =
      if valid_price (some p)
      then some (mul (mul (of_int (pos (abs_ℤ qty))) p) (lookup_or symbol (lit 1 0) s.multipliers))
      else none

  abbrev unless_none : Option F → (F → Option F) → Option F
  unless_none none next = none
  unless_none (some leg) next = next leg

  gross_from : F → PortfolioSnapshot F → Dict ℤ → Option F
  gross_from total s [] = some total
  gross_from total s ((symbol, qty) ∷ rest) =
      let flat_here = gross_from total s rest in
      let open_here = λ (leg : F). gross_from (add total leg) s rest in
      if eqb_ℤ qty (pos 0)
      then flat_here
      else unless_none (leg_of s symbol qty (lookup symbol s.last_prices)) open_here

  pub gross_notional : PortfolioSnapshot F → Option F
  gross_notional s = gross_from nought s s.positions

  -- The position that the order would leave.
  abbrev pub resulting : OrderIntent F → PortfolioSnapshot F → ℤ
  resulting i s = lookup_or i.symbol (pos 0) s.positions +ℤ signed_quantity i

  abbrev pub notional_of : OrderIntent F → PortfolioSnapshot F → ℤ → F → F
  notional_of i s units price =
      mul (mul (of_int (pos (abs_ℤ units))) price) (lookup_or i.symbol (lit 1 0) s.multipliers)

  -- Gross exposure with the order's own leg replaced.
  abbrev pub gross_after : OrderIntent F → PortfolioSnapshot F → F → F → F
  gross_after i s price gross =
      let current = lookup_or i.symbol (pos 0) s.positions in
      add (sub gross (notional_of i s current price)) (notional_of i s (resulting i s) price)

  check_gross : RiskLimits F → OrderIntent F → PortfolioSnapshot F → F → Option F → RiskDecision
  check_gross cfg i s price none = reject unpriced_positions
  check_gross cfg i s price (some gross) =
      if lt cfg.max_gross_notional (gross_after i s price gross)
      then reject above_gross_notional
      else approved

  check_caps : RiskLimits F → OrderIntent F → PortfolioSnapshot F → F → RiskDecision
  check_caps cfg i s price =
      if ltb_ℤ cfg.max_order_quantity i.quantity
      then reject above_order_cap
      else if ltb_ℤ (resulting i s) (pos 0) && not cfg.allow_short
      then reject would_short
      else if ltb_ℤ cfg.max_position_shares (pos (abs_ℤ (resulting i s)))
      then reject above_position_shares
      else if lt cfg.max_position_notional (notional_of i s (resulting i s) price)
      then reject above_position_notional
      else check_gross cfg i s price (gross_notional s)

  abbrev pub reference_price : OrderIntent F → PortfolioSnapshot F → Option F
  reference_price i s =
      if is_limit i.order_type then i.limit_price else lookup i.symbol s.last_prices

  check_price : RiskLimits F → OrderIntent F → PortfolioSnapshot F → Option F → RiskDecision
  check_price cfg i s none = reject no_reference_price
  check_price cfg i s (some price) =
      if not (valid_price (some price))
      then reject no_reference_price
      else if is_flatten i.source
      then approved
      else check_caps cfg i s price

  unfoldable pub validate :
      RiskLimits F → OrderIntent F → PortfolioSnapshot F → RiskGuardrails F → RiskDecision
  unfolding check_price check_caps check_gross gross_notional gross_from leg_of
  validate cfg i s g =
      if g.kill_switch && not (is_flatten i.source)
      then reject kill_switch_active
      else if i.symbol == 0
      then reject empty_symbol
      else if leb_ℤ i.quantity (pos 0)
      then reject bad_quantity
      else if is_limit i.order_type && not (valid_price i.limit_price)
      then reject bad_limit_price
      else check_price cfg i s (reference_price i s)

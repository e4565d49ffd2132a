-- ===== src/Ftmo/Live/Sizing.antt =====
-- ftmo-bot/src/ftmo_bot/risk/sizing.py: how many lots a signal is worth.
pub mod Lots
mod Tests
use trading_bot.Base.{Bool, not, ◌||◌}
use trading_bot.Base.Checks.{if◌then◌else◌}
use trading_bot.Base.Float.{Float, nought, max_of, min_of, abs_of}
use trading_bot.Base.Outcome.{Outcome, raised, returned, ◌>>=◌}
use trading_bot.Ftmo.Rules.{Side, long, short}
use trading_bot.Ftmo.Live.Store.{LiveError, value_error, zero_division_error}

pub record ContractSpec (F : Type 0) : Type 0 where
  pub contract_size : F
  pub slippage : F
  pub commission_per_lot_side : F
  pub typical_spread : F
  pub min_lot : F
  pub lot_step : F
  pub max_lot : F
  pub quote_to_account : F

module _ {F : Type 0} ⦃f : Float F⦄ where
  open f use {lit, add, sub, mul, div, lt, le, eq, is_finite, floor, of_int, round}

  abbrev pub quotient : F → F → Outcome LiveError F
  quotient a b = if eq b nought then raised zero_division_error else returned (div a b)

  -- `math.floor`, which takes no NaN and no infinity
  abbrev pub floor_of : F → Outcome LiveError F
  floor_of a = if is_finite a then returned (of_int (floor a)) else raised value_error

  unfoldable pub value_per_price_unit : ContractSpec F → F → F
  value_per_price_unit spec lots = mul (mul lots spec.contract_size) spec.quote_to_account

  unfoldable pub stop_distance : F → F → Outcome LiveError F
  stop_distance entry stop =
      let dist = abs_of (sub entry stop) in
      if le dist nought || not (is_finite dist) then raised value_error else returned dist

  -- `risk_amount / (stop_distance * value_per_price_unit(1.0))`
  unfoldable pub raw_lots : F → F → ContractSpec F → F → Outcome LiveError F
  unfolding stop_distance value_per_price_unit
  raw_lots entry stop spec risk_amount = stop_distance entry stop >>= λ dist.
      quotient risk_amount (mul dist (value_per_price_unit spec (lit 1 0)))

  -- Below the smallest size there is no trade.
  abbrev pub capped : ContractSpec F → F → F
  capped spec lots = if lt lots spec.min_lot then nought else min_of lots spec.max_lot

  unfoldable pub size_for : F → F → ContractSpec F → F → Outcome LiveError F
  unfolding raw_lots
  size_for entry stop spec risk_amount =
      if le risk_amount nought
      then raised value_error
      else raw_lots entry stop spec risk_amount >>= λ raw. quotient raw spec.lot_step >>= λ steps.
          floor_of (add steps (lit 1 9)) >>= λ whole.
          returned (capped spec (round (mul whole spec.lot_step) 8))

  unfoldable pub round_trip_costs : ContractSpec F → F → F → F
  unfolding value_per_price_unit
  round_trip_costs spec lots spread =
      let effective_spread = max_of spread spec.typical_spread in
      add (mul (mul (lit 2 0) spec.commission_per_lot_side) lots)
        (mul (value_per_price_unit spec lots) (add effective_spread (mul (lit 2 0) spec.slippage)))

  unfoldable pub projected_loss : F → F → ContractSpec F → F → F → Outcome LiveError F
  unfolding raw_lots round_trip_costs
  projected_loss entry stop spec risk_amount spread =
      raw_lots entry stop spec risk_amount >>= λ max_lots.
      returned (add risk_amount (round_trip_costs spec max_lots spread))

  abbrev move_to : Side → F → F → F
  move_to long mark stop = sub mark stop
  move_to short mark stop = sub stop mark

  unfoldable pub risk_to_stop : Side → F → F → F → ContractSpec F → F
  unfolding value_per_price_unit
  risk_to_stop side lots mark stop spec =
      let exit_costs =
        add (mul spec.commission_per_lot_side lots)
          (mul (value_per_price_unit spec lots) spec.slippage) in
      add (mul (max_of (move_to side mark stop) nought) (value_per_price_unit spec lots)) exit_costs

-- ===== src/Engine/Costs.antt =====
-- engine/costs.py: the cost of one order, from its own size and price.
use trading_bot.Base.{Bool, true, false, ◌||◌, Option, some, ◌≡◌, refl}
use trading_bot.Base.Checks.{if◌then◌else◌}
use trading_bot.Base.Float.{Float, nought, max_of}
use trading_bot.Engine.Errors.{Result, ok, err, value_error, ◌>>=◌}
use trading_bot.Engine.Config.{CostConfig, FeeModel, fixed_per_order}

pub record OrderCost (F : Type 0) : Type 0 where
  pub commission : F
  pub spread_cost : F
  pub slippage_cost : F

-- The source's `else` also takes a fee model that is unknown.
abbrev is_fixed : Option FeeModel → Bool
is_fixed (some fixed_per_order) = true
is_fixed _ = false

module _ {F : Type 0} ⦃f : Float F⦄ where
  open f use {lit, add, mul, div, lt, le}

  unfoldable pub total : OrderCost F → F
  total c = add (add c.commission c.spread_cost) c.slippage_cost

  commission_of : CostConfig F → F → F → F
  commission_of cfg shares notional =
      if is_fixed cfg.fee_model
      then (if lt nought shares
          then max_of cfg.fixed_min_fee (mul cfg.per_share_fee shares)
          else nought)
      else mul cfg.proportional_rate notional

  unfoldable pub order_cost : CostConfig F → F → F → Result (OrderCost F)
  unfolding commission_of
  order_cost cfg shares price =
      let notional = mul shares price in
      let cost : OrderCost F = record {
        commission = commission_of cfg shares notional;
        spread_cost = mul (div (div cfg.spread_bps (lit 2 0)) (lit 10_000 0)) notional;
        slippage_cost = mul (div cfg.slippage_bps (lit 10_000 0)) notional;
      } in
      if lt shares nought || lt price nought then err value_error else ok cost

  -- The cost as a fraction of the order's notional.
  unfoldable pub all_in_fraction : CostConfig F → F → F → Result F
  unfolding order_cost total
  all_in_fraction cfg shares price =
      let notional = mul shares price in
      if le notional nought
      then ok f.infinity
      else (order_cost cfg shares price >>= λ c. ok (div (total c) notional))

  -- A size and a price that are not negative have a cost.
  pub order_cost-ok :
      (cfg : CostConfig F) (shares price : F)
      → lt shares nought ≡ false
      → lt price nought ≡ false
      → (c : OrderCost F) × (order_cost cfg shares price ≡ ok c)
  unfolding order_cost
  order_cost-ok cfg shares price h k = rw (h, k) (_, refl)

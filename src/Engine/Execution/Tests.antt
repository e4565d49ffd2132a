-- ===== src/Engine/Execution/Tests.antt =====
-- A rebalance of three orders on the paper broker.
use trading_bot.Base.{◌+◌, ◌≤◌, ◌≡◌, refl, true, false, arith}
use trading_bot.Base.Int.{ℤ, pos, ◌<ℤ◌, ◌+ℤ◌, ◌-ℤ◌}
use trading_bot.Base.Lists.{length}
use trading_bot.Base.Float.Milli.{Milli, milli_float}
use trading_bot.Engine.Errors.{ok}
use trading_bot.Engine.Costs.{OrderCost, order_cost, order_cost-ok, total}
use trading_bot.Engine.Broker.Paper.Laws.{paper-IsTraced}
use trading_bot.Engine.Execution.{execute_rebalance}
use trading_bot.Engine.Execution.Resize.{shrink_to_fit, affordable, shrink_to_fit_total, Fits}
use trading_bot.Engine.Execution.Cap.{execute_rebalance-cap, execute_rebalance_order, SellsThenBuys}
use trading_bot.Engine.Fixtures.{setup, world, batch, costs}

execute_rebalance-cap_example :
    length (paper-IsTraced.trail (execute_rebalance setup false batch world).1.venue)
    ≤ length (paper-IsTraced.trail world.venue) + 2
execute_rebalance-cap_example = execute_rebalance-cap setup paper-IsTraced batch world

execute_rebalance_order_example :
    SellsThenBuys setup paper-IsTraced
      (paper-IsTraced.trail world.venue)
      (paper-IsTraced.trail (execute_rebalance setup true batch world).1.venue)
execute_rebalance_order_example = execute_rebalance_order setup paper-IsTraced true batch world

priced :
    (k : ℤ)
    → pos 0 <ℤ k
    → (cost : OrderCost Milli) × (order_cost costs (milli_float.of_int k) (pos 25_000) ≡ ok cost)
priced k h = order_cost-ok costs (milli_float.of_int k) (pos 25_000) (ground arith) refl

-- 4 shares at 25.00 do not fit 60.00 with their fee; 2 do.
two_fit : shrink_to_fit costs (pos 25_000) (pos 60_000) 4 (pos 4) ≡ ok (pos 2)
unfolding shrink_to_fit affordable order_cost total ◌+ℤ◌ ◌-ℤ◌
two_fit = refl

shrink_to_fit_total_example :
    (n : ℤ) × (shrink_to_fit costs (pos 25_000) (pos 60_000) 4 (pos 4) ≡ ok n)
    × Fits costs (pos 25_000) (pos 60_000) (pos 4) n
shrink_to_fit_total_example =
    shrink_to_fit_total costs (pos 25_000) (pos 60_000) 4 (pos 4) (omega arith) priced

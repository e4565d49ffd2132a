-- ===== src/Engine/Broker/Paper/Tests.antt =====
-- The paper broker on one sale, one purchase and an outage.
use trading_bot.Base.{◌≡◌, refl}
use trading_bot.Base.Int.{pos, ◌+ℤ◌, ◌-ℤ◌}
use trading_bot.Base.Float.Milli.{milli_float}
use trading_bot.Engine.Costs.{order_cost, total}
use trading_bot.Engine.Broker.Paper.{
  execute_one, execute_scripted, execute_at, fill_with, by_side, buy_at, sell_at, scripted,
}
use trading_bot.Engine.Broker.Paper.Money.{execute_one_lem, Settles}
use trading_bot.Engine.Fixtures.{paper, buy_2, sell_1}

-- A purchase beyond the cash is refused.
execute_one_lem_example : Settles paper buy_2 (execute_one paper buy_2)
execute_one_lem_example = execute_one_lem paper buy_2

after_sale : (execute_one paper sell_1).1.cash ≡ pos 129_000
unfolding execute_one execute_scripted execute_at fill_with by_side buy_at sell_at scripted
    order_cost total ◌+ℤ◌ ◌-ℤ◌
after_sale = refl

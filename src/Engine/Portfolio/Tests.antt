-- ===== src/Engine/Portfolio/Tests.antt =====
-- A holding whose target is less than a share.
use trading_bot.Base.{ℕ, ◌≡◌, refl, true, false, some, none, List, [], ◌∷◌}
use trading_bot.Base.Lists.{any}
use trading_bot.Base.Dict.{lookup}
use trading_bot.Base.Int.{pos, ◌-ℤ◌, neg_ℤ}
use trading_bot.Base.Float.Milli.{Milli, milli_float}
use trading_bot.Engine.Errors.{ok}
use trading_bot.Engine.Orders.{Order, sell, buy, sort_for_submission, check_order}
use trading_bot.Engine.Portfolio.{
  Plan, compute_orders, add_symbol, symbols_where, held_symbols, traded_symbols, is_unpriced,
  target_shares, current_shares, delta, is_full_exit_of, is_below_band, order_at, append_checked,
  orders_at, orders_for,
}
use trading_bot.Engine.Portfolio.Exits.{compute_orders_lem, HasExit}
use trading_bot.Engine.Fixtures.{prices}

-- 8 shares at 10.00 with a target of 5% of 130.00, and a new target of 60%.
abbrev plan : Plan Milli
plan = record {
  positions = (1, pos 8000) ∷ [];
  target_weights = (1, pos 50) ∷ (2, pos 600) ∷ [];
  prices = prices;
  equity = pos 130_000;
  no_trade_band = pos 10;
}

abbrev wanted : List (Order Milli)
wanted =
    record {
      symbol = 1;
      side = sell;
      shares = pos 8000;
      is_full_exit = true;
      limit_price = none;
      id = 11;
    }
    ∷ record {
      symbol = 2;
      side = buy;
      shares = pos 3000;
      is_full_exit = false;
      limit_price = none;
      id = 12;
    }
    ∷ []

planned : compute_orders plan 11 ≡ ok wanted
unfolding compute_orders add_symbol symbols_where held_symbols traded_symbols is_unpriced
    target_shares current_shares delta is_full_exit_of is_below_band order_at append_checked
    orders_at orders_for sort_for_submission check_order ◌-ℤ◌ neg_ℤ
planned = refl

compute_orders_lem_example :
    (any (is_unpriced plan.prices) (held_symbols plan.positions) ≡ false)
    × ((s : ℕ) (held px : Milli)
        → lookup s plan.positions ≡ some held
        → milli_float.lt (pos 0) held ≡ true
        → lookup s plan.prices ≡ some px
        → target_shares plan s px ≡ pos 0
        → HasExit plan s wanted)
compute_orders_lem_example = compute_orders_lem plan 11 wanted planned

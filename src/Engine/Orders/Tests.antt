-- ===== src/Engine/Orders/Tests.antt =====
-- The cap of engine/orders.py on a batch of three.
use mathlib.Core.List.{Perm}
use trading_bot.Base.{◌≡◌, refl, [], ◌∷◌}
use trading_bot.Base.Lists.{length}
use trading_bot.Engine.Orders.{sort_for_submission, truncate_to_cap, drop_for, order_cap}
use trading_bot.Engine.Orders.Laws.{truncate_to_cap_lem, SellsFirst}
use trading_bot.Engine.Fixtures.{batch, sell_1, small_buy, buy_2}

cap_at_two : truncate_to_cap batch 2 ≡ (sell_1 ∷ buy_2 ∷ [], drop_for order_cap small_buy ∷ [])
unfolding truncate_to_cap sort_for_submission
cap_at_two = refl

truncate_to_cap_lem_example :
    (length (sell_1 ∷ buy_2 ∷ []) ≡ 2)
    × Perm (sell_1 ∷ buy_2 ∷ small_buy ∷ []) batch
    × SellsFirst (sell_1 ∷ buy_2 ∷ []) (small_buy ∷ [])
unfolding truncate_to_cap sort_for_submission
truncate_to_cap_lem_example = truncate_to_cap_lem batch 2

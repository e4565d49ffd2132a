-- ===== src/MiniProp/Types/Tests.antt =====
-- A short position that a purchase reverses.
use trading_bot.Base.{◌≡◌, refl}
use trading_bot.Base.Int.{pos, negsuc, ◌+ℤ◌, ◌-ℤ◌, neg_ℤ}
use trading_bot.Base.Float.Milli.{Milli, milli_float}
use trading_bot.MiniProp.Types.{Position, flat, apply_fill, add_to, reduce}
use trading_bot.MiniProp.Types.Accounting.{apply_fill_lem, IsAccounted}

abbrev short_ten : Position Milli
short_ten = record (flat 4) { quantity = negsuc 9; avg_price = pos 20_000 }

-- 15 bought at 18.00: 10 close with a gain of 20.00, 5 open.
reversed :
    apply_fill (pos 15) (pos 18_000) short_ten
    ≡ record short_ten { quantity = pos 5; avg_price = pos 18_000; realized_pnl = pos 20_000 }
unfolding apply_fill add_to reduce ◌+ℤ◌ ◌-ℤ◌ neg_ℤ
reversed = refl

apply_fill_lem_example :
    IsAccounted (pos 10) (pos 18_000) short_ten (apply_fill (pos 10) (pos 18_000) short_ten)
apply_fill_lem_example =
    apply_fill_lem (pos 10) (pos 18_000) short_ten (record { no_price = λ h. cc })

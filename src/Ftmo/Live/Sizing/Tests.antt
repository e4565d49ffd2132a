-- ===== src/Ftmo/Live/Sizing/Tests.antt =====
-- Five lots for 5.00 at risk and a stop one point away.
use trading_bot.Base.{◌≡◌, refl, false, true}
use trading_bot.Base.Int.{pos, ◌+ℤ◌, ◌-ℤ◌}
use trading_bot.Base.Float.{nought, abs_of}
use trading_bot.Base.Float.Milli.{milli_float, Milli-IsOrdered}
use trading_bot.Base.Outcome.{returned}
use trading_bot.Ftmo.Live.Sizing.{size_for}
use trading_bot.Ftmo.Live.Sizing.Lots.{InRange, InSteps, size_for_lem}
use trading_bot.Ftmo.Live.Sample.{contract}

sized : size_for (pos 10_000) (pos 9000) contract (pos 5000) ≡ returned (pos 5000)
unfolding size_for ◌-ℤ◌ ◌+ℤ◌
sized = refl

size_for_lem_example :
    InRange contract (pos 5000)
    × InSteps contract (pos 5000)
    × (milli_float.le (pos 5000) nought ≡ false)
    × (milli_float.le (abs_of (milli_float.sub (pos 10_000) (pos 9000))) nought ≡ false)
    × (milli_float.is_finite (abs_of (milli_float.sub (pos 10_000) (pos 9000))) ≡ true)
size_for_lem_example =
    size_for_lem Milli-IsOrdered (pos 10_000) (pos 9000) contract (pos 5000) (pos 5000) refl sized

-- ===== src/MiniProp/EventCalendar/Tests.antt =====
-- A calendar with a blackout that is found, and one whose blackout is missed.
use trading_bot.Base.{◌≡◌, true, false, [], ◌∷◌, arith}
use trading_bot.Base.Lists.{any}
use trading_bot.Base.Int.{pos, ◌-ℤ◌, ◌≤ℤ◌}
use trading_bot.Base.Outcome.{returned}
use trading_bot.MiniProp.EventCalendar.{
  BlackoutWindow, ScheduledEvent, high, low, aware, make_calendar, add, is_blackout, covers, span,
}
use trading_bot.MiniProp.EventCalendar.Blackout.{IsShort}
use trading_bot.MiniProp.EventCalendar.Order.{IsUniform, made, grown, Built-is_blackout}
use trading_bot.MiniProp.EventCalendar.Missed.{default_window, shadowed, is_blackout-shadowed}

-- A quarter of an hour around every release.
abbrev quarter : BlackoutWindow
quarter = record {
  high_before = pos 900_000_000;
  high_after = pos 900_000_000;
  medium_before = pos 900_000_000;
  medium_after = pos 900_000_000;
  low_before = pos 900_000_000;
  low_after = pos 900_000_000;
}

quarter-IsShort : IsShort quarter
unfolding span
quarter-IsShort = record {
  before = λ i. ground arith;
  after = λ i. ground arith;
  within_day = λ i. ground arith;
}

quarter-IsUniform : IsUniform quarter
unfolding span
quarter-IsUniform i j = ground arith

abbrev cpi : ScheduledEvent
cpi = record { name = 1; timestamp = pos 10_000_000_000; impact = high }

abbrev survey : ScheduledEvent
survey = record { name = 2; timestamp = pos 9_500_000_000; impact = low }

Built-is_blackout_example :
    is_blackout (aware (pos 9_200_000_000)) (add survey (make_calendar (cpi ∷ []) quarter))
    ≡ returned (
        any
          (covers quarter (pos 9_200_000_000))
          (add survey (make_calendar (cpi ∷ []) quarter)).events)
Built-is_blackout_example =
    Built-is_blackout quarter (pos 9_200_000_000) (add survey (make_calendar (cpi ∷ []) quarter))
      quarter-IsShort quarter-IsUniform (grown survey (made (cpi ∷ [])))

inside : pos 10_000_000_000 -ℤ pos 900_000_000 ≤ℤ pos 9_400_000_000
unfolding ◌-ℤ◌
inside = omega arith

is_blackout-shadowed_example :
    (is_blackout (aware (pos 9_400_000_000)) (
        shadowed
          (pos 9_400_000_000)
          (pos 9_500_000_000)
          (pos 9_600_000_000)
          (pos 10_000_000_000)
          1
          2
          3)
      ≡ returned false)
    × (covers default_window
          (pos 9_400_000_000)
          (record { name = 3; timestamp = pos 10_000_000_000; impact = high })
        ≡ true)
is_blackout-shadowed_example =
    is_blackout-shadowed (pos 9_400_000_000) (pos 9_500_000_000) (pos 9_600_000_000)
      (pos 10_000_000_000) 1 2 3 (omega arith) (omega arith) (omega arith) inside

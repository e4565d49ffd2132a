-- ===== src/MiniProp/EventCalendar/Missed.antt =====
-- Where `active_event` of mini_prop_os/risk/event_calendar.py misses a blackout.
use trading_bot.Base.{ℕ, map, ◌≡◌, refl, true, false, none, [], ◌∷◌, arith}
use trading_bot.Base.Int.{ℤ, pos, ◌-ℤ◌, ◌≤ℤ◌, ◌<ℤ◌, +ℤ_parts, -ℤ_parts}
use trading_bot.Base.Outcome.{returned}
use trading_bot.Base.Bisect.{bisect_left}
use trading_bot.MiniProp.EventCalendar.{
  ScheduledEvent, BlackoutWindow, EventCalendar, high, low, aware, make_calendar, sort_events,
  insert_event, is_blackout, active_event, active_at, scan_back, look, covers, start_of, end_of,
  span,
}

-- The window of the class's defaults.
abbrev pub default_window : BlackoutWindow
default_window = record {
  high_before = pos 900_000_000;
  high_after = pos 900_000_000;
  medium_before = pos 300_000_000;
  medium_after = pos 300_000_000;
  low_before = pos 0;
  low_after = pos 0;
}

module _ (now x y z : ℤ) (a b c : ℕ) where
  abbrev first : ScheduledEvent
  first = record { name = a; timestamp = x; impact = low }

  abbrev second : ScheduledEvent
  second = record { name = b; timestamp = y; impact = low }

  abbrev release : ScheduledEvent
  release = record { name = c; timestamp = z; impact = high }

  abbrev pub shadowed : EventCalendar
  shadowed = make_calendar (first ∷ second ∷ release ∷ []) default_window

  sorted_already :
      x ≤ℤ y → y ≤ℤ z → sort_events (first ∷ second ∷ release ∷ []) ≡ first ∷ second ∷ release ∷ []
  unfolding sort_events insert_event
  sorted_already p q = ground arith

  starts_after :
      now <ℤ x
      → x ≤ℤ y
      → bisect_left (map (start_of default_window) (first ∷ second ∷ release ∷ [])) now ≡ 0
  unfolding bisect_left start_of span
  starts_after p q = ground (arith, -ℤ_parts x (pos 0), -ℤ_parts y (pos 0))

  not_active : now <ℤ x → scan_back default_window (first ∷ second ∷ release ∷ []) now 0 ≡ none
  unfolding scan_back look covers start_of end_of span
  not_active p =
      ground (arith, -ℤ_parts x (pos 0), +ℤ_parts x (pos 0), -ℤ_parts now (pos 86_400_000_000))

  -- In a calendar of exactly three events, with the default widths: when two low-impact events come after
  -- the present and before a high-impact release, the calendar says that entries may be made, at a time
  -- that lies in the release's window. The search for the start is made in a list that is not sorted.
  pub is_blackout-shadowed :
      now <ℤ x
      → x ≤ℤ y
      → y ≤ℤ z
      → z -ℤ pos 900_000_000 ≤ℤ now
      → (is_blackout (aware now) shadowed ≡ returned false)
        × (covers default_window now release ≡ true)
  unfolding is_blackout active_event active_at make_calendar covers start_of end_of span
  is_blackout-shadowed before p q inside = (
    rw (sorted_already p q, starts_after before p, not_active before) refl,
    ground (arith, before, inside, -ℤ_parts z (pos 900_000_000), +ℤ_parts z (pos 900_000_000)),
  )

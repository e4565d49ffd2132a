-- ===== src/MiniProp/EventCalendar.antt =====
-- mini_prop_os/risk/event_calendar.py: stand aside around scheduled releases. A time is its
-- microseconds from a fixed instant; a width is what timedelta makes of the window's minutes. Names are
-- numbers. Reading the calendar's file is left out.
pub mod Blackout
pub mod Order
pub mod Missed
mod Tests
use trading_bot.Base.{
  ℕ, zero, suc, ◌+◌, ◌-◌, Bool, true, false, not, ◌&&◌, ◌||◌, Option, none, some, List, [], ◌∷◌,
  ◌++◌, map,
}
use trading_bot.Base.Checks.{ltb, leb, if◌then◌else◌}
use trading_bot.Base.Lists.{length, take, drop, select, any}
use trading_bot.Base.Int.{ℤ, pos, ◌+ℤ◌, ◌-ℤ◌, ltb_ℤ, leb_ℤ}
use trading_bot.Base.Bisect.{bisect_left}
use trading_bot.Base.Outcome.{Outcome, raised, returned, ◌>>=◌}

pub data CalendarError : Type 0 where
  value_error : CalendarError

pub data EventImpact : Type 0 where
  high medium low : EventImpact

-- A time with a zone, or without one.
pub data Stamp : Type 0 where
  aware : ℤ → Stamp
  naive : Stamp

pub record ScheduledEvent : Type 0 where
  pub name : ℕ
  pub timestamp : ℤ
  pub impact : EventImpact

pub record BlackoutWindow : Type 0 where
  pub high_before : ℤ
  pub high_after : ℤ
  pub medium_before : ℤ
  pub medium_after : ℤ
  pub low_before : ℤ
  pub low_after : ℤ

-- `require aware`
abbrev pub instant_of : Stamp → Outcome CalendarError ℤ
instant_of (aware t) = returned t
instant_of naive = raised value_error

-- `ScheduledEvent(…)`, where `is_blank` says that the name is only space
pub make_event : Bool → ℕ → Stamp → EventImpact → Outcome CalendarError ScheduledEvent
make_event is_blank name stamp impact =
    if is_blank
    then raised value_error
    else instant_of stamp >>= λ t. returned (record { name = name; timestamp = t; impact = impact })

pub span : BlackoutWindow → EventImpact → ℤ × ℤ
span w high = (w.high_before, w.high_after)
span w medium = (w.medium_before, w.medium_after)
span w low = (w.low_before, w.low_after)

abbrev is_negative : ℤ → Bool
is_negative a = ltb_ℤ a (pos 0)

-- `BlackoutWindow(…)`: no width may be negative.
pub make_window : BlackoutWindow → Outcome CalendarError BlackoutWindow
make_window w =
    if is_negative w.high_before
      || (is_negative w.high_after
          || (is_negative w.medium_before
              || (is_negative w.medium_after
                  || (is_negative w.low_before || is_negative w.low_after))))
    then raised value_error
    else returned w

pub record EventCalendar : Type 0 where
  pub window : BlackoutWindow
  pub events : List ScheduledEvent
  pub starts : List ℤ

unfoldable pub start_of : BlackoutWindow → ScheduledEvent → ℤ
unfolding span
start_of w e = e.timestamp -ℤ (span w e.impact).0

unfoldable pub end_of : BlackoutWindow → ScheduledEvent → ℤ
unfolding span
end_of w e = e.timestamp +ℤ (span w e.impact).1

abbrev pub timestamps : List ScheduledEvent → List ℤ
timestamps es = map (λ e. e.timestamp) es

-- `_reindex`
abbrev pub reindex : BlackoutWindow → List ScheduledEvent → EventCalendar
reindex w es = record { window = w; events = es; starts = map (start_of w) es }

-- `sorted(events, key=…)`, which is stable
pub insert_event : ScheduledEvent → List ScheduledEvent → List ScheduledEvent
insert_event e [] = e ∷ []
insert_event e (x ∷ xs) =
    if leb_ℤ e.timestamp x.timestamp then e ∷ x ∷ xs else x ∷ insert_event e xs

pub sort_events : List ScheduledEvent → List ScheduledEvent
unfolding insert_event
sort_events [] = []
sort_events (e ∷ es) = insert_event e (sort_events es)

-- `EventCalendar(events, window)`
pub make_calendar : List ScheduledEvent → BlackoutWindow → EventCalendar
unfolding sort_events
make_calendar es w = reindex w (sort_events es)

pub add : ScheduledEvent → EventCalendar → EventCalendar
add e c =
    let i = bisect_left (timestamps c.events) e.timestamp in
    reindex c.window (take i c.events ++ (e ∷ drop i c.events))

abbrev pub event_at : List ScheduledEvent → ℕ → Option ScheduledEvent
event_at [] i = none
event_at (e ∷ es) zero = some e
event_at (e ∷ es) (suc i) = event_at es i

-- `start <= now <= end`
unfoldable pub covers : BlackoutWindow → ℤ → ScheduledEvent → Bool
unfolding start_of end_of
covers w now e = leb_ℤ (start_of w e) now && leb_ℤ now (end_of w e)

-- a day in microseconds
abbrev pub a_day : ℤ
a_day = pos 86_400_000_000

-- One round of the loop: the event, unless it is out of range, does not cover the time, or ends the
-- loop because it is over for more than a day.
pub look :
    BlackoutWindow → ℤ → Option ScheduledEvent → Option ScheduledEvent → Option ScheduledEvent
unfolding covers end_of
look w now none earlier = earlier
look w now (some e) earlier =
    if covers w now e then some e else if ltb_ℤ (end_of w e) (now -ℤ a_day) then none else earlier

-- `for i in range(idx, -1, -1)`
pub scan_back : BlackoutWindow → List ScheduledEvent → ℤ → ℕ → Option ScheduledEvent
unfolding look
scan_back w es now zero = look w now (event_at es zero) none
scan_back w es now (suc i) = look w now (event_at es (suc i)) (scan_back w es now i)

abbrev pub no_events : List ScheduledEvent → Bool
no_events [] = true
no_events (e ∷ es) = false

pub active_at : ℤ → EventCalendar → Option ScheduledEvent
unfolding scan_back
active_at now c =
    if no_events c.events then none else scan_back c.window c.events now (bisect_left c.starts now)

pub active_event : Stamp → EventCalendar → Outcome CalendarError (Option ScheduledEvent)
unfolding active_at
active_event stamp c = instant_of stamp >>= λ now. returned (active_at now c)

abbrev pub is_some : Option ScheduledEvent → Bool
is_some none = false
is_some (some e) = true

pub is_blackout : Stamp → EventCalendar → Outcome CalendarError Bool
unfolding active_event
is_blackout stamp c = active_event stamp c >>= λ e. returned (is_some e)

-- The next event at or after a time.
pub next_event : Stamp → EventCalendar → Outcome CalendarError (Option ScheduledEvent)
next_event stamp c =
    instant_of stamp >>= λ now. returned (event_at c.events (bisect_left (timestamps c.events) now))

-- Events from before a time are dropped, and counted.
pub prune : Stamp → EventCalendar → Outcome CalendarError (EventCalendar × ℕ)
prune stamp c = instant_of stamp >>= λ before.
    let keep = select (λ e. leb_ℤ before e.timestamp) c.events in
    returned (reindex c.window keep, length c.events - length keep)

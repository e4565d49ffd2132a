-- ===== src/MiniProp/EventCalendar/Order.antt =====
-- The calendar keeps its events in the order of time.
use trading_bot.Base.{
  ℕ, zero, suc, ◌<◌, ◌≡◌, refl, ap, subst, ◌∙◌, inl, inr, Bool, List, [], ◌∷◌, ◌++◌, map, arith,
}
use trading_bot.Base.Checks.{Bool-cases}
use trading_bot.Base.Lists.{
  length, take, drop, any, select, All, All-imp, All-append, All-take, All-drop, All-select_sub,
}
use trading_bot.Base.Int.{ℤ, ◌≤ℤ◌, leb_ℤ, -ℤ_parts}
use trading_bot.Base.Outcome.{returned}
use trading_bot.Base.Bisect.{at, IsSorted, Splits, bisect_left, bisect_left-Splits}
use trading_bot.MiniProp.EventCalendar.{
  ScheduledEvent, EventImpact, BlackoutWindow, EventCalendar, Stamp, aware, naive, insert_event,
  sort_events, make_calendar, add, prune, reindex, timestamps, start_of, span, covers, is_blackout,
}
use trading_bot.MiniProp.EventCalendar.Blackout.{
  event_in, at-map, length-map, in_order, IsShort, is_blackout-any,
}

abbrev pub Ascending : List ScheduledEvent → Type 0
Ascending [] = Unit
Ascending (e ∷ es) = All (λ x. e.timestamp ≤ℤ x.timestamp) es × Ascending es

insert_event-All :
    (t : ℤ) (e : ScheduledEvent) (es : List ScheduledEvent)
    → t ≤ℤ e.timestamp
    → All (λ x. t ≤ℤ x.timestamp) es
    → All (λ x. t ≤ℤ x.timestamp) (insert_event e es)
unfolding insert_event
insert_event-All t e [] h k = (h, tt)
insert_event-All t e (x ∷ es) h (k, ks) = elim (Bool-cases (leb_ℤ e.timestamp x.timestamp)) [
  | inl before ↦ rw before (h, (k, ks))
  | inr after ↦ rw after (k, insert_event-All t e es h ks)
]

insert_event-Ascending :
    (e : ScheduledEvent) (es : List ScheduledEvent) → Ascending es → Ascending (insert_event e es)
unfolding insert_event
insert_event-Ascending e [] s = (tt, tt)
insert_event-Ascending e (x ∷ es) (low, s) = elim (Bool-cases (leb_ℤ e.timestamp x.timestamp)) [
  | inl before ↦
      let h : e.timestamp ≤ℤ x.timestamp = ground (arith, before) in
      rw before (
        (
          h,
          All-imp (λ y. x.timestamp ≤ℤ y.timestamp) (λ y. e.timestamp ≤ℤ y.timestamp)
              (λ y k. omega (arith, h, k)) es low,
        ),
        (low, s),
      )
  | inr after ↦
      rw after (
        insert_event-All x.timestamp e es (ground (arith, after)) low,
        insert_event-Ascending e es s,
      )
]

sort_events-Ascending : (es : List ScheduledEvent) → Ascending (sort_events es)
unfolding sort_events
sort_events-Ascending [] = tt
sort_events-Ascending (e ∷ es) =
    insert_event-Ascending e (sort_events es) (sort_events-Ascending es)

select-Ascending :
    (keep : ScheduledEvent → Bool) (es : List ScheduledEvent)
    → Ascending es
    → Ascending (select keep es)
select-Ascending keep [] s = tt
select-Ascending keep (e ∷ es) (low, s) = elim (Bool-cases (keep e)) [
  | inl kept ↦
      rw kept
        (All-select_sub (λ x. e.timestamp ≤ℤ x.timestamp) keep es low, select-Ascending keep es s)
  | inr gone ↦ rw gone (select-Ascending keep es s)
]

All-above :
    (t : ℤ) (es : List ScheduledEvent)
    → ((i : ℕ) → i < length (timestamps es) → t ≤ℤ at (timestamps es) i)
    → All (λ x. t ≤ℤ x.timestamp) es
All-above t [] h = tt
All-above t (x ∷ es) h = (h 0 (omega arith), All-above t es (λ i p. h (suc i) (omega arith)))

-- Put in where the list splits at its time, an event leaves the order.
insert_at-Ascending :
    (e : ScheduledEvent) (es : List ScheduledEvent) (r : ℕ)
    → Ascending es
    → Splits (timestamps es) e.timestamp r
    → Ascending (take r es ++ (e ∷ drop r es))
insert_at-Ascending e es zero s p = (All-above e.timestamp es (λ i h. p.above i (omega arith) h), s)
insert_at-Ascending e [] (suc r) s p = (tt, tt)
insert_at-Ascending e (x ∷ es) (suc r) (low, s) p =
    let first : x.timestamp ≤ℤ e.timestamp = omega (arith, p.below 0 (omega arith)) in
    let below = λ (y : ScheduledEvent). x.timestamp ≤ℤ y.timestamp in
    (
      All-append below (take r es) (e ∷ drop r es) (All-take below r es low)
          (first, All-drop below r es low),
      insert_at-Ascending e es r s (record {
        inside = omega (arith, p.inside);
        below = λ i h. p.below (suc i) (omega arith);
        above = λ i h k. p.above (suc i) (omega arith) (omega arith);
      }),
    )

at-All :
    (t : ℤ) (es : List ScheduledEvent)
    → All (λ x. t ≤ℤ x.timestamp) es
    → (j : ℕ) → j < length (timestamps es)
    → t ≤ℤ at (timestamps es) j
at-All t [] h j k = absurd (omega arith)
at-All t (x ∷ es) (h, hs) zero k = h
at-All t (x ∷ es) (h, hs) (suc j) k = at-All t es hs j (omega arith)

Ascending-IsSorted : (es : List ScheduledEvent) → Ascending es → IsSorted (timestamps es)
Ascending-IsSorted [] s i j le k = absurd (omega arith)
Ascending-IsSorted (x ∷ es) (low, s) zero zero le k = omega arith
Ascending-IsSorted (x ∷ es) (low, s) zero (suc j) le k = at-All x.timestamp es low j (omega arith)
Ascending-IsSorted (x ∷ es) (low, s) (suc i) zero le k = absurd (omega arith)
Ascending-IsSorted (x ∷ es) (low, s) (suc i) (suc j) le k =
    Ascending-IsSorted es s i j (omega arith) (omega arith)

-- Any calendar: built from a list of events, grown and pruned.
pub data Built (w : BlackoutWindow) : EventCalendar → Type 0 where
  made : (es : List ScheduledEvent) → Built w (make_calendar es w)
  grown : {c : EventCalendar} (e : ScheduledEvent) → Built w c → Built w (add e c)
  pruned :
      {c d : EventCalendar} (before : Stamp) {n : ℕ}
      → Built w c
      → prune before c ≡ returned (d, n)
      → Built w d

abbrev InOrder : BlackoutWindow → EventCalendar → Type 0
InOrder w c = (c ≡ reindex w c.events) × Ascending c.events

pruned-InOrder :
    (w : BlackoutWindow) (before : Stamp) (c d : EventCalendar) (n : ℕ)
    → prune before c ≡ returned (d, n)
    → InOrder w c
    → InOrder w d
unfolding prune
pruned-InOrder w naive c d n h k = cc
pruned-InOrder w (aware t) c d n h (same, s) =
    let keep = select (λ (e : ScheduledEvent). leb_ℤ t e.timestamp) c.events in
    let e : reindex c.window keep ≡ d = cc h in
    subst (InOrder w) e
      (ap (λ c. reindex c.window keep) same, select-Ascending (λ e. leb_ℤ t e.timestamp) c.events s)

Built-InOrder : (w : BlackoutWindow) {c : EventCalendar} → Built w c → InOrder w c
unfolding make_calendar add
Built-InOrder w (made es) = (refl, sort_events-Ascending es)
Built-InOrder w (grown {c} e b) =
    let (same, s) = Built-InOrder w b in
    let r = bisect_left (timestamps c.events) e.timestamp in
    (
      ap (λ c'. reindex c'.window (take r c.events ++ (e ∷ drop r c.events))) same,
      insert_at-Ascending e c.events r s
          (bisect_left-Splits (timestamps c.events) e.timestamp (Ascending-IsSorted c.events s)),
    )
Built-InOrder w (pruned {c} {d} before {n} b h) =
    pruned-InOrder w before c d n h (Built-InOrder w b)

-- One width before every release, whatever its impact.
abbrev pub IsUniform : BlackoutWindow → Type 0
IsUniform w = (i j : EventImpact) → (span w i).0 ≡ (span w j).0

start_of_mono :
    (w : BlackoutWindow) (x y : ScheduledEvent)
    → IsUniform w
    → x.timestamp ≤ℤ y.timestamp
    → start_of w x ≤ℤ start_of w y
unfolding start_of
start_of_mono w x y uniform h = rw (uniform x.impact y.impact) (
    omega (
      arith,
      h,
      -ℤ_parts x.timestamp (span w y.impact).0,
      -ℤ_parts y.timestamp (span w y.impact).0,
    ))

starts-IsSorted :
    (w : BlackoutWindow) (es : List ScheduledEvent)
    → IsUniform w
    → IsSorted (timestamps es)
    → IsSorted (map (start_of w) es)
starts-IsSorted w es uniform sorted i j le k =
    let n = length-map (start_of w) es in
    let (x, here) = event_in es i (omega arith) in
    let (y, there) = event_in es j (omega arith) in
    let ordered = in_order (λ x. x.timestamp) es sorted i j x y le here there in
    rw (at-map (start_of w) es i x here, at-map (start_of w) es j y there)
      (start_of_mono w x y uniform ordered)

-- A calendar that was built, grown and pruned in any way tells a blackout exactly when some event's
-- window holds the time, if the widths are not negative, no window is open for more than a day after its
-- release, and all impacts have the same width before it.
pub Built-is_blackout :
    (w : BlackoutWindow) (now : ℤ) (c : EventCalendar)
    → IsShort w
    → IsUniform w
    → Built w c
    → is_blackout (aware now) c ≡ returned (any (covers w now) c.events)
Built-is_blackout w now c short uniform built =
    let (same, s) = Built-InOrder w built in
    let sorted = Ascending-IsSorted c.events s in
    ap (is_blackout (aware now)) same
    ∙ is_blackout-any w short now c.events sorted (starts-IsSorted w c.events uniform sorted)

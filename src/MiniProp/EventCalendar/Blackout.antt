-- ===== src/MiniProp/EventCalendar/Blackout.antt =====
-- Where the search agrees with a look at every event.
use trading_bot.Base.{
  ℕ, zero, suc, ◌≤◌, ◌<◌, ◌≡◌, refl, sym, ap, ◌∙◌, ◌⊎◌, inl, inr, Bool, true, false, Option, none,
  some, List, [], ◌∷◌, map, arith,
}
use native.Mathlib.Decide.{dec_lt}
use trading_bot.Base.Checks.{Bool-cases, Option-cases}
use trading_bot.Base.Lists.{length, any}
use trading_bot.Base.Int.{ℤ, pos, ◌-ℤ◌, ◌≤ℤ◌, ltb_ℤ, +ℤ_parts, -ℤ_parts}
use trading_bot.Base.Outcome.{returned}
use trading_bot.Base.Bisect.{at, IsSorted, Splits, bisect_left, bisect_left-Splits}
use trading_bot.MiniProp.EventCalendar.{
  ScheduledEvent, EventImpact, BlackoutWindow, aware, is_blackout, active_event, active_at,
  scan_back, look, covers, start_of, end_of, span, event_at, timestamps, a_day, is_some, reindex,
  no_events,
}

-- A window as `make_window` lets through, that closes within a day.
pub record IsShort (w : BlackoutWindow) : Type 0 where
  pub before : (i : EventImpact) → pos 0 ≤ℤ (span w i).0
  pub after : (i : EventImpact) → pos 0 ≤ℤ (span w i).1
  pub within_day : (i : EventImpact) → (span w i).1 ≤ℤ a_day

module _ (w : BlackoutWindow) (now : ℤ) where
  -- What the search returns covers the time, and is an event of the calendar.
  found_any :
      (es : List ScheduledEvent) (i : ℕ) (e : ScheduledEvent)
      → event_at es i ≡ some e
      → covers w now e ≡ true
      → any (covers w now) es ≡ true
  found_any [] i e h c = cc
  found_any (x ∷ es) zero e h c = let same : x ≡ e = cc in rw (same, c)
  found_any (x ∷ es) (suc i) e h c = ground (arith, found_any es i e h c)

  look-covers :
      (o : Option ScheduledEvent) (earlier : Option ScheduledEvent) (e : ScheduledEvent)
      → look w now o earlier ≡ some e
      → ((o ≡ some e) × (covers w now e ≡ true)) ⊎ (earlier ≡ some e)
  unfolding look
  look-covers none earlier e h = inr h
  look-covers (some x) earlier e h = elim (Bool-cases (covers w now x)) [
    | inl c ↦
        let k = rw c at h in
        let same : x ≡ e = cc in inl (ap some same, ap (covers w now) (sym same) ∙ c)
    | inr c ↦ elim (Bool-cases (ltb_ℤ (end_of w x) (now -ℤ a_day))) [
      | inl gone ↦ let k = rw (c, gone) at h in cc k
      | inr near ↦ inr (rw (c, near) at h)
    ]
  ]

  scan_back-any :
      (es : List ScheduledEvent) (i : ℕ) (e : ScheduledEvent)
      → scan_back w es now i ≡ some e
      → any (covers w now) es ≡ true
  unfolding scan_back
  scan_back-any es zero e h = elim (look-covers (event_at es zero) none e h) [
    | inl (here, c) ↦ found_any es zero e here c
    | inr k ↦ cc k
  ]
  scan_back-any es (suc i) e h = elim (look-covers (event_at es (suc i)) _ e h) [
    | inl (here, c) ↦ found_any es (suc i) e here c
    | inr k ↦ scan_back-any es i e k
  ]

  -- An event that covers the time, by its place.
  any_index :
      (es : List ScheduledEvent)
      → any (covers w now) es ≡ true
      → (j : ℕ) × (e : ScheduledEvent) × (event_at es j ≡ some e) × (covers w now e ≡ true)
  any_index [] h = cc
  any_index (x ∷ es) h = elim (Bool-cases (covers w now x)) [
    | inl c ↦ (zero, x, refl, c)
    | inr c ↦ let (j, e, place, c') = any_index es (ground (arith, h, c)) in (suc j, e, place, c')
  ]

  abbrev Near : Option ScheduledEvent → Type 0
  Near none = Unit
  Near (some x) = ltb_ℤ (end_of w x) (now -ℤ a_day) ≡ false

  look-is_some :
      (o earlier : Option ScheduledEvent)
      → Near o
      → is_some earlier ≡ true
      → is_some (look w now o earlier) ≡ true
  unfolding look
  look-is_some none earlier near h = h
  look-is_some (some x) earlier near h = ground (arith, near, h)

  look-found :
      (e : ScheduledEvent) (earlier : Option ScheduledEvent)
      → covers w now e ≡ true
      → is_some (look w now (some e) earlier) ≡ true
  unfolding look
  look-found e earlier c = rw c refl

  scan_back-is_some :
      (es : List ScheduledEvent) (i j : ℕ) (e : ScheduledEvent)
      → j ≤ i
      → event_at es j ≡ some e
      → covers w now e ≡ true
      → ((k : ℕ) → j ≤ k → Near (event_at es k))
      → is_some (scan_back w es now i) ≡ true
  unfolding scan_back
  scan_back-is_some es zero j e le place c near =
      let same : 0 ≡ j = omega arith in rw (ap (event_at es) same ∙ place) (look-found e none c)
  scan_back-is_some es (suc i) j e le place c near = elim (dec_lt j (suc i)) [
    | yes lower ↦
        look-is_some (event_at es (suc i)) _ (near (suc i) le)
          (scan_back-is_some es i j e (omega arith) place c near)
    | no top ↦
        let same : suc i ≡ j = omega arith in rw (ap (event_at es) same ∙ place) (look-found e _ c)
  ]

pub event_in :
    (es : List ScheduledEvent) (i : ℕ)
    → i < length es
    → (x : ScheduledEvent) × (event_at es i ≡ some x)
event_in [] i h = absurd (omega arith)
event_in (x ∷ es) zero h = (x, refl)
event_in (x ∷ es) (suc i) h = event_in es i (omega arith)

pub index_in :
    (es : List ScheduledEvent) (i : ℕ) (x : ScheduledEvent) → event_at es i ≡ some x → i < length es
index_in [] i x h = cc
index_in (y ∷ es) zero x h = omega arith
index_in (y ∷ es) (suc i) x h = omega (arith, index_in es i x h)

pub at-map :
    (g : ScheduledEvent → ℤ) (es : List ScheduledEvent) (i : ℕ) (x : ScheduledEvent)
    → event_at es i ≡ some x
    → at (map g es) i ≡ g x
at-map g [] i x h = cc
at-map g (y ∷ es) zero x h = let same : y ≡ x = cc in ap g same
at-map g (y ∷ es) (suc i) x h = at-map g es i x h

pub length-map : (g : ScheduledEvent → ℤ) (es : List ScheduledEvent) → length (map g es) ≡ length es
length-map g [] = refl
length-map g (y ∷ es) = omega (arith, length-map g es)

no_events-any :
    (p : ScheduledEvent → Bool) (es : List ScheduledEvent) → no_events es ≡ true → any p es ≡ false
no_events-any p [] h = refl
no_events-any p (e ∷ es) h = cc

-- On a list that is sorted by `g`, two events are in that order.
pub in_order :
    (g : ScheduledEvent → ℤ) (es : List ScheduledEvent)
    → IsSorted (map g es)
    → (i j : ℕ) (x y : ScheduledEvent) → i ≤ j
    → event_at es i ≡ some x
    → event_at es j ≡ some y
    → g x ≤ℤ g y
in_order g es sorted i j x y le here there =
    let k = sorted i j le (omega (arith, length-map g es, index_in es j y there)) in
    rw (at-map g es i x here, at-map g es j y there) at k

module _ (w : BlackoutWindow) (short : IsShort w) (now : ℤ) where
  covers-bounds :
      (e : ScheduledEvent) → covers w now e ≡ true → (start_of w e ≤ℤ now) × (now ≤ℤ end_of w e)
  unfolding covers
  covers-bounds e c = ground (arith, c)

  -- The list is sorted, so no later event is over for a day.
  later-Near :
      (e x : ScheduledEvent)
      → covers w now e ≡ true
      → e.timestamp ≤ℤ x.timestamp
      → ltb_ℤ (end_of w x) (now -ℤ a_day) ≡ false
  unfolding end_of
  later-Near e x c h =
      let (_, open_still) = covers-bounds e c in
      ground (
        arith,
        open_still,
        h,
        short.within_day e.impact,
        short.after x.impact,
        +ℤ_parts e.timestamp (span w e.impact).1,
        +ℤ_parts x.timestamp (span w x.impact).1,
        -ℤ_parts now a_day,
      )

  -- An event that starts exactly now covers the time.
  starting-covers :
      (x : ScheduledEvent) → start_of w x ≤ℤ now → now ≤ℤ start_of w x → covers w now x ≡ true
  unfolding covers start_of end_of
  starting-covers x p q = ground (
    arith,
    p,
    q,
    short.before x.impact,
    short.after x.impact,
    -ℤ_parts x.timestamp (span w x.impact).0,
    +ℤ_parts x.timestamp (span w x.impact).1,
  )

  module _ (es : List ScheduledEvent) (in_time : IsSorted (timestamps es))
      (by_start : IsSorted (map (start_of w) es)) where
    event_at-Near :
        (j : ℕ) (e : ScheduledEvent)
        → event_at es j ≡ some e
        → covers w now e ≡ true
        → (k : ℕ) → j ≤ k
        → Near w now (event_at es k)
    event_at-Near j e place c k le = elim (Option-cases (event_at es k)) [
      | inl gap ↦ rw gap tt
      | inr (x, here) ↦
          rw here (later-Near e x c (in_order (λ x. x.timestamp) es in_time j k e x le place here))
    ]

    -- Where the search starts, an event that covers the time is at that index or below.
    reachable :
        (j : ℕ) (e : ScheduledEvent)
        → event_at es j ≡ some e
        → covers w now e ≡ true
        → (r : ℕ) → Splits (map (start_of w) es) now r
        → is_some (scan_back w es now r) ≡ true
    reachable j e place c r splits = elim (dec_lt r j) [
      | no lower ↦
          scan_back-is_some w now es r j e (omega arith) place c (event_at-Near j e place c)
      | yes higher ↦
          let (x, here) = event_in es r (omega (arith, index_in es j e place)) in
          let starts : start_of w x ≤ℤ start_of w e =
            in_order (start_of w) es by_start r j x e (omega arith) here place in
          let late : now ≤ℤ start_of w x = rw (at-map (start_of w) es r x here) at (
            splits.above r (omega arith)
              (omega (arith, length-map (start_of w) es, index_in es r x here))) in
          let c' = starting-covers x (omega (arith, starts, (covers-bounds e c).0)) late in
          scan_back-is_some w now es r r x (omega arith) here c' (event_at-Near r x here c')
    ]

    search-any :
        (n : Option ScheduledEvent)
        → scan_back w es now (bisect_left (map (start_of w) es) now) ≡ n
        → is_some n ≡ any (covers w now) es
    search-any (some e) h = sym (scan_back-any w now es _ e h)
    search-any none h = elim (Bool-cases (any (covers w now) es)) [
      | inr nothing ↦ sym nothing
      | inl something ↦
          let (j, e, place, c) = any_index w now es something in
          let found =
            reachable j e place c _ (bisect_left-Splits (map (start_of w) es) now by_start) in
          let lost = rw h at found in cc lost
    ]

    -- Where events and starts are both in order, the search is a look at every event.
    pub is_blackout-any : is_blackout (aware now) (reindex w es) ≡ returned (any (covers w now) es)
    unfolding is_blackout active_event active_at
    is_blackout-any = elim (Bool-cases (no_events es)) [
      | inl nothing ↦ rw (nothing, no_events-any (covers w now) es nothing) refl
      | inr something ↦ rw something (ap returned (search-any _ refl))
    ]

-- ===== src/MiniProp/Guardrails/Breaker.antt =====
-- The kill switch and the daily-loss breaker over a session.
use trading_bot.Base.{◌≡◌, refl, inl, inr, true, false, Option, some, arith}
use trading_bot.Base.Checks.{Bool-cases, Option-cases}
use trading_bot.Base.Float.{Float, IsMonotone}
use trading_bot.MiniProp.Types.{OrderIntent}
use trading_bot.MiniProp.Guardrails.{
  RiskGuardrails, RiskLimits, KillReason, daily_loss, trip, mark_start_of_day, update_equity,
  breaker, loss_limit, reject, kill_switch_active, validate, PortfolioSnapshot, is_flatten,
}

module _ {F : Type 0} ⦃f : Float F⦄ (cfg : RiskLimits F) where
  open f use {is_finite, le, sub}

  -- What trading logic may do to the guardrails in a session; `reset` is the operator's.
  pub data Move (g : RiskGuardrails F) : RiskGuardrails F → Type 0 where
    tripped : (reason : KillReason) → Move g (trip reason g)
    marked : (equity : F) {h : RiskGuardrails F} → mark_start_of_day equity g ≡ some h → Move g h
    updated : (equity : F) → Move g (update_equity cfg equity g).0

  pub data Session (g : RiskGuardrails F) : RiskGuardrails F → Type 0 where
    opened : Session g g
    moves : {h k : RiskGuardrails F} → Session g h → Move h k → Session g k

  -- The switch is on, for the reason it went on first.
  abbrev pub Killed : Option KillReason → RiskGuardrails F → Type 0
  Killed reason g = (g.kill_switch ≡ true) × (g.kill_reason ≡ reason)

  Move-Killed :
      (reason : Option KillReason) {g h : RiskGuardrails F}
      → Move g h
      → Killed reason g
      → Killed reason h
  unfolding trip mark_start_of_day update_equity breaker
  Move-Killed reason {g} (tripped why) (e, k) = ground (arith, e, k)
  Move-Killed reason {g} (marked equity m) (e, k) = ground (arith, m, e, k)
  Move-Killed reason {g} (updated equity) (e, k) = elim (Bool-cases (is_finite equity)) [
    | inl fin ↦ elim (Option-cases g.start_of_day_equity) [
      | inl no_start ↦ rw (fin, no_start) (e, k)
      | inr (start, has_start) ↦ rw (fin, has_start, e) (refl, k)
    ]
    | inr fin ↦ rw fin (e, k)
  ]

  -- Until an operator resets it, a tripped kill switch stays on with its first reason through every trip,
  -- mark and equity update, and the gate rejects every intent that is not a flattening one.
  pub Session-Killed :
      (reason : Option KillReason) (i : OrderIntent F) (s : PortfolioSnapshot F)
      {g h : RiskGuardrails F}
      → Session g h
      → Killed reason g
      → is_flatten i.source ≡ false
      → Killed reason h × (validate cfg i s h ≡ reject kill_switch_active)
  unfolding validate
  Session-Killed reason i s opened (e, k) m = ((e, k), rw (e, m) refl)
  Session-Killed reason i s (moves r step) e m =
      let (e', k') = Move-Killed reason step (Session-Killed reason i s r e m).0 in
      ((e', k'), rw (e', m) refl)

  pub trip-kill_switch :
      (reason : KillReason) (g : RiskGuardrails F) → (trip reason g).kill_switch ≡ true
  unfolding trip
  trip-kill_switch reason g = ground arith

  -- The breaker is monotone: where an equity mark trips it, so does every lower one, given finite marks;
  -- and when it trips the switch is on.
  pub update_equity_mono :
      (laws : IsMonotone F) (g : RiskGuardrails F) (start high low : F)
      → g.start_of_day_equity ≡ some start
      → is_finite start ≡ true
      → is_finite low ≡ true
      → le low high ≡ true
      → (update_equity cfg high g).1 ≡ true
      → ((update_equity cfg low g).1 ≡ true) × ((update_equity cfg low g).0.kill_switch ≡ true)
  unfolding update_equity breaker
  update_equity_mono laws g start high low has_start fin_start fin_low below k =
      let more_lost = laws.sub_antitone low high start fin_start below in
      let worse = laws.ordered.le_trans (loss_limit cfg start) (sub start high) (sub start low) in
      let killed = trip-kill_switch daily_loss (record g { last_equity = some low }) in
      ground (arith, has_start, fin_low, more_lost, worse, killed, k)

  -- The switch and its reason after an equity mark that did not trip the breaker.
  pub update_equity-kept :
      (g : RiskGuardrails F) (equity : F)
      → (update_equity cfg equity g).1 ≡ false
      → ((update_equity cfg equity g).0.kill_switch ≡ g.kill_switch)
        × ((update_equity cfg equity g).0.kill_reason ≡ g.kill_reason)
  unfolding update_equity breaker
  update_equity-kept g equity h = elim (Bool-cases (is_finite equity)) [
    | inr fin ↦ rw fin (refl, refl)
    | inl fin ↦ elim (Option-cases g.start_of_day_equity) [
      | inl no_start ↦ rw (fin, no_start) (refl, refl)
      | inr (start, has_start) ↦ elim (Bool-cases g.kill_switch) [
        | inl on ↦ rw (fin, has_start, on) (refl, refl)
        | inr off ↦ elim (Bool-cases (le (loss_limit cfg start) (sub start equity))) [
          | inl lost ↦ let never = rw (fin, has_start, off, lost) at h in cc
          | inr fine ↦ rw (fin, has_start, off, fine) (refl, refl)
        ]
      ]
    ]
  ]

  pub update_equity-tripped :
      (g : RiskGuardrails F) (equity : F)
      → (update_equity cfg equity g).1 ≡ true
      → ((update_equity cfg equity g).0.kill_switch ≡ true) × (g.kill_switch ≡ false)
  unfolding update_equity breaker
  update_equity-tripped g equity h =
      let killed = trip-kill_switch daily_loss (record g { last_equity = some equity }) in
      ground (arith, h, killed)

  pub mark_start_of_day-kept :
      (g h : RiskGuardrails F) (equity : F)
      → mark_start_of_day equity g ≡ some h
      → (h.kill_switch ≡ g.kill_switch) × (h.kill_reason ≡ g.kill_reason)
  unfolding mark_start_of_day
  mark_start_of_day-kept g h equity m = ground (arith, m)

  -- With the switch on, only a flattening intent passes.
  pub validate-killed :
      (i : OrderIntent F) (s : PortfolioSnapshot F) (g : RiskGuardrails F)
      → g.kill_switch ≡ true
      → is_flatten i.source ≡ false
      → validate cfg i s g ≡ reject kill_switch_active
  unfolding validate
  validate-killed i s g on plain = rw (on, plain) refl

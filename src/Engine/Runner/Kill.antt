-- ===== src/Engine/Runner/Kill.antt =====
-- A kill is on disk before anything is sold.
use trading_bot.Base.{◌≡◌, refl, ap, ◌∙◌, inl, inr, true, false, List, [], ◌∷◌}
use trading_bot.Base.Checks.{Bool-cases}
use trading_bot.Base.Float.{Float}
use trading_bot.Engine.Errors.{Result, ok, err, halt_error, bind-returns, ok-injective}
use trading_bot.Engine.Orders.{Order}
use trading_bot.Engine.State.{EngineState, schema}
use trading_bot.Engine.State.Store.{Codec, IsFaithful, Files, load, save}
use trading_bot.Engine.State.Store.Recovery.{load-save, load-schema}
use trading_bot.Engine.Risk.{
  PreTradeDecision, hard_kill, stand_down, proceed, check_not_halted, pre_trade,
}
use trading_bot.Engine.Broker.{AccountSnapshot}
use trading_bot.Engine.Execution.{RebalanceOutcome}
use trading_bot.Engine.Execution.Monad.{World, Event}
use trading_bot.Engine.Runner.Steps.{Job, Brief, Progress, brief_on, judged, closed, liquidation_of}
use trading_bot.Engine.Runner.{
  Desk, run_cycle, cycle_from, brief, act_on, kill, sell_all, caught, finish, store_closed,
  is_execution_error,
}

-- The state of a kill.
abbrev halted_by : {F : Type 0} → Brief F → EngineState F
halted_by b = record (b.prior) { halted = true; halt_reason = b.pre.reason }

-- What the branch leaves: the halted state, unless it raised.
abbrev Carries : {F : Type 0} → EngineState F → Result (Progress F) → Type 0
Carries s (err e) = Unit
Carries s (ok p) = (p.state ≡ s) × (p.decided ≡ false)

module _ {F : Type 0} ⦃f : Float F⦄ {c : Codec F} where
  -- The state on disk can be read, and is halted.
  abbrev pub IsHalted : Files c → Type 0
  IsHalted fs = (t : EngineState F) × (load c false fs ≡ ok t) × (t.halted ≡ true)

  saved-IsHalted :
      (laws : IsFaithful c) (s : EngineState F) (fs gs : Files c)
      → gs ≡ save c s fs
      → s.schema_version ≡ schema
      → s.halted ≡ true
      → IsHalted gs
  saved-IsHalted laws s fs gs e v h = (s, ap (load c false) e ∙ load-save c laws s fs false v, h)

module _ {F S : Type 0} ⦃f : Float F⦄ {c : Codec F} where
  -- What a cycle decides on was on disk.
  pub brief-load :
      (job : Job F S) (d : Desk F S c) (b : Brief F)
      → brief job d ≡ ok b
      → load c false d.files ≡ ok b.prior
  unfolding brief brief_on
  brief-load job d b h =
      let (prior, e, h1) = bind-returns (load c false d.files) _ h in
      let (_, _, h2) = bind-returns (check_not_halted prior) _ h1 in
      let (px, _, h3) = bind-returns (job.market _) _ h2 in
      let (pre, _, h4) = bind-returns (pre_trade _ prior _ _ _) _ h3 in
      e ∙ ap (λ b. ok b.prior) (ok-injective h4)

  -- A cycle on a halted desk refuses and touches nothing.
  run_cycle-IsHalted :
      (job : Job F S) (d : Desk F S c) → IsHalted d.files → run_cycle job d ≡ (err halt_error, d)
  unfolding run_cycle cycle_from brief brief_on check_not_halted
  run_cycle-IsHalted job d (t, e, k) = rw (e, k) refl

  abbrev Leaves : EngineState F → Files c → Result (Progress F) × Desk F S c → Type 0
  Leaves s fs r = Carries s r.0 × (r.1.files ≡ fs)

  caught-Leaves :
      (e : Event F) (p : Progress F) (d : Desk F S c) (r : Result (RebalanceOutcome F) × World F S)
      → p.decided ≡ false
      → Leaves p.state d.files (caught e p d r)
  unfolding caught
  caught-Leaves e p d (ok done, w) h = ((refl, h), refl)
  caught-Leaves e p d (err x, w) h = elim (Bool-cases (is_execution_error x)) [
    | inl t ↦ rw t ((refl, h), refl)
    | inr t ↦ rw t (tt, refl)
  ]

  sell_all-Leaves :
      (job : Job F S) (b : Brief F) (s : EngineState F) (orders : Result (List (Order F)))
      (d : Desk F S c)
      → Leaves s d.files (sell_all job b s orders d)
  unfolding sell_all
  sell_all-Leaves job b s (err e) d = (tt, refl)
  sell_all-Leaves job b s (ok []) d = ((refl, refl), refl)
  sell_all-Leaves job b s (ok (o ∷ os)) d = caught-Leaves _ _ d _ refl

  act_on-Leaves :
      (v : PreTradeDecision) (job : Job F S) (b : Brief F) (d : Desk F S c)
      → v ≡ hard_kill
      → Leaves (halted_by b) (save c (halted_by b) d.files) (act_on v job b d)
  unfolding act_on kill
  act_on-Leaves hard_kill job b d h =
      sell_all-Leaves job b (halted_by b) (liquidation_of d.world.next_id b.account.positions) _
  act_on-Leaves stand_down job b d h = cc
  act_on-Leaves proceed job b d h = cc

  module _ (laws : IsFaithful c) where
    store_closed-IsHalted :
        (job : Job F S) (b : Brief F) (p : Progress F) (account : AccountSnapshot F)
        (s : EngineState F) (fs : Files c) (d : Desk F S c)
        → Carries s (ok p)
        → d.files ≡ save c s fs
        → s.schema_version ≡ schema
        → s.halted ≡ true
        → IsHalted (store_closed job b p account (judged job b p account) d).1.files
    unfolding store_closed judged closed
    store_closed-IsHalted job b p account s fs d (same, undecided) e v h = rw undecided (
        saved-IsHalted laws (closed job b account p.state) d.files _ refl
          (ap (λ t. t.schema_version) same ∙ v) (ap (λ t. t.halted) same ∙ h))

    finish-IsHalted :
        (job : Job F S) (b : Brief F) (s : EngineState F) (fs : Files c)
        (r : Result (Progress F) × Desk F S c)
        → Leaves s (save c s fs) r
        → s.schema_version ≡ schema
        → s.halted ≡ true
        → IsHalted (finish job b r).1.files
    unfolding finish
    finish-IsHalted job b s fs (err e, d) (_, k) v h = saved-IsHalted laws s fs d.files k v h
    finish-IsHalted job b s fs (ok p, d) (carried, k) v h =
        store_closed-IsHalted job b p _ s fs d carried k v h

    -- A kill is final. Once the gate decides HARD_KILL, whatever the venue does in the liquidation, an
    -- exception included, every later cycle refuses with HaltError and changes nothing.
    pub run_cycle-run_cycle :
        (job later : Job F S) (d : Desk F S c) (b : Brief F)
        → brief job d ≡ ok b
        → b.pre.decision ≡ hard_kill
        → let after = (run_cycle job d).1 in run_cycle later after ≡ (err halt_error, after)
    unfolding run_cycle cycle_from kill act_on
    run_cycle-run_cycle job later d b e h = run_cycle-IsHalted later (run_cycle job d).1 (
        rw e (
          finish-IsHalted job b (halted_by b) d.files _ (act_on-Leaves b.pre.decision job b _ h)
            (load-schema c d.files b.prior (brief-load job d b e)) refl))

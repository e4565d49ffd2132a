-- ===== src/Engine/Runner/Retries.antt =====
-- The count of retries that is on disk.
pub mod Count
use trading_bot.Engine.Runner.Retries.Count.{
  IsWithin, Leaves, Counts, for_period-IsWithin, judged-Counts,
}
use trading_bot.Base.{
  ℕ, suc, ◌≤◌, ◌&&◌, Bool, ◌≡◌, refl, ◌∙◌, sym, ap, subst, inl, inr, true, false, List, [], ◌∷◌,
  arith,
}
use trading_bot.Base.Checks.{leb, Bool-cases}
use trading_bot.Base.Float.{Float, nought}
use trading_bot.Base.Dict.{Dict}
use trading_bot.Engine.Errors.{Result, ok, err, ok-injective}
use trading_bot.Engine.Orders.{Order}
use trading_bot.Engine.State.{EngineState, schema}
use trading_bot.Engine.State.Store.{Codec, IsFaithful, Files, load, save}
use trading_bot.Engine.State.Store.Recovery.{load-save, load-schema}
use trading_bot.Engine.Risk.{PreTradeDecision, hard_kill, stand_down, proceed}
use trading_bot.Engine.Broker.{AccountSnapshot}
use trading_bot.Engine.Execution.{RebalanceOutcome}
use trading_bot.Engine.Execution.Monad.{World, Event}
use trading_bot.Engine.Runner.Steps.{
  Job, Brief, Progress, planned, for_period, same_date, is_empty, judged, completed, closed,
  liquidation_of,
}
use trading_bot.Engine.Runner.Kill.{brief-load}
use trading_bot.Engine.Runner.{
  Desk, run_cycle, cycle_from, brief, act_on, kill, sell_all, rebalance, trade, trade_planned,
  caught, finish, store_closed, is_execution_error,
}

module _ {F : Type 0} ⦃f : Float F⦄ {c : Codec F} where
  -- Whatever state loads has a count of retries within the cap.
  abbrev pub LoadsWithin : ℕ → Files c → Type 0
  LoadsWithin most fs = (s : EngineState F) → load c false fs ≡ ok s → s.rebalance_retries ≤ most

  pub saved-LoadsWithin :
      (laws : IsFaithful c) (most : ℕ) (s : EngineState F) (fs : Files c)
      → IsWithin most s
      → LoadsWithin most (save c s fs)
  saved-LoadsWithin laws most s fs (v, h) t e =
      subst (λ t. t.rebalance_retries ≤ most)
        (ok-injective (sym (load-save c laws s fs false v) ∙ e)) h

module _ {F S : Type 0} ⦃f : Float F⦄ {c : Codec F} where
  abbrev Keeps : ℕ → Result (Progress F) × Desk F S c → Type 0
  Keeps most r = Leaves most r.0 × LoadsWithin most r.1.files

  caught-Keeps :
      (most : ℕ) (e : Event F) (p : Progress F) (d : Desk F S c)
      (r : Result (RebalanceOutcome F) × World F S)
      → Leaves most (ok p)
      → LoadsWithin most d.files
      → Keeps most (caught e p d r)
  unfolding caught
  caught-Keeps most e p d (ok done, w) h k = (h, k)
  caught-Keeps most e p d (err x, w) h k = elim (Bool-cases (is_execution_error x)) [
    | inl t ↦ rw t (h, k)
    | inr t ↦ rw t (tt, k)
  ]

  sell_all-Keeps :
      (most : ℕ) (job : Job F S) (b : Brief F) (s : EngineState F)
      (orders : Result (List (Order F))) (d : Desk F S c)
      → IsWithin most s
      → LoadsWithin most d.files
      → Keeps most (sell_all job b s orders d)
  unfolding sell_all
  sell_all-Keeps most job b s (err e) d h k = (tt, k)
  sell_all-Keeps most job b s (ok []) d h k = ((h, λ e. cc), k)
  sell_all-Keeps most job b s (ok (o ∷ os)) d h k = caught-Keeps most _ _ d _ (h, λ e. cc) k

  trade-Keeps :
      (job : Job F S) (b : Brief F) (weights : Dict F) (s : EngineState F) (orders : List (Order F))
      (d : Desk F S c)
      → let most = job.cfg.risk.max_rebalance_retries in
        IsWithin most s → LoadsWithin most d.files → Keeps most (trade job b weights s orders d)
  unfolding trade
  trade-Keeps job b weights s orders d h k =
      let most = job.cfg.risk.max_rebalance_retries in
      elim (Bool-cases (same_date s.last_completed_period job.today.period)) [
        | inl t ↦ rw t ((h, λ e. cc), k)
        | inr t ↦ elim (Bool-cases (is_empty orders)) [
          | inl u ↦ rw (t, u) ((h, λ e. cc), k)
          | inr u ↦ elim (Bool-cases (leb most s.rebalance_retries)) [
            | inl v ↦ rw (t, u, v) ((h, λ e. cc), k)
            | inr v ↦ rw (t, u, v) (caught-Keeps most _ _ d _ (h, λ e. ground arith) k)
          ]
        ]
      ]

  trade_planned-Keeps :
      (job : Job F S) (b : Brief F) (r : Result (Dict F × List (Order F))) (d : Desk F S c)
      → let most = job.cfg.risk.max_rebalance_retries in
        IsWithin most b.prior → LoadsWithin most d.files → Keeps most (trade_planned job b r d)
  unfolding trade_planned
  trade_planned-Keeps job b (err e) d h k = (tt, k)
  trade_planned-Keeps job b (ok (weights, orders)) d h k =
      trade-Keeps job b weights _ orders _
        (for_period-IsWithin job.cfg.risk.max_rebalance_retries job.today.period b.prior h) k

  rebalance-Keeps :
      (job : Job F S) (b : Brief F) (d : Desk F S c)
      → let most = job.cfg.risk.max_rebalance_retries in
        IsWithin most b.prior → LoadsWithin most d.files → Keeps most (rebalance job b d)
  unfolding rebalance
  rebalance-Keeps job b d h k = elim (Bool-cases job.decision_day) [
    | inr e ↦ simp e ((h, λ e. cc), k)
    | inl e ↦ elim (Bool-cases (f.le b.account.equity nought)) [
      | inl poor ↦ simp (e, poor) ((h, λ e. cc), k)
      | inr rich ↦ simp (e, rich) (trade_planned-Keeps job b (planned job b d.world.next_id) d h k)
    ]
  ]

  act_on-Keeps :
      (laws : IsFaithful c) (v : PreTradeDecision) (job : Job F S) (b : Brief F) (d : Desk F S c)
      → let most = job.cfg.risk.max_rebalance_retries in
        IsWithin most b.prior → LoadsWithin most d.files → Keeps most (act_on v job b d)
  unfolding act_on kill
  act_on-Keeps laws stand_down job b d h k = ((h, λ e. cc), k)
  act_on-Keeps laws proceed job b d h k = rebalance-Keeps job b d h k
  act_on-Keeps laws hard_kill job b d h k =
      let most = job.cfg.risk.max_rebalance_retries in
      let halted = record b.prior { halted = true; halt_reason = b.pre.reason } in
      sell_all-Keeps most job b halted (liquidation_of d.world.next_id b.account.positions) _ h
        (saved-LoadsWithin laws most halted d.files h)

  store_closed-LoadsWithin :
      (laws : IsFaithful c) (most : ℕ) (job : Job F S) (b : Brief F) (p : Progress F)
      (account : AccountSnapshot F) (s : Result (EngineState F)) (d : Desk F S c)
      → Counts most s
      → LoadsWithin most d.files
      → LoadsWithin most (store_closed job b p account s d).1.files
  unfolding store_closed closed
  store_closed-LoadsWithin laws most job b p account (err e) d h k = k
  store_closed-LoadsWithin laws most job b p account (ok s) d h k =
      saved-LoadsWithin laws most (closed job b account s) d.files h

  finish-LoadsWithin :
      (laws : IsFaithful c) (most : ℕ) (job : Job F S) (b : Brief F)
      (r : Result (Progress F) × Desk F S c)
      → Keeps most r
      → LoadsWithin most (finish job b r).1.files
  unfolding finish
  finish-LoadsWithin laws most job b (err e, d) (h, k) = k
  finish-LoadsWithin laws most job b (ok p, d) (h, k) =
      store_closed-LoadsWithin laws most job b p _ _ d (judged-Counts most job b p _ h) k

  cycle_from-LoadsWithin :
      (laws : IsFaithful c) (job : Job F S) (d : Desk F S c) (r : Result (Brief F))
      → brief job d ≡ r
      → let most = job.cfg.risk.max_rebalance_retries in
        LoadsWithin most d.files → LoadsWithin most (cycle_from job r d).1.files
  unfolding cycle_from
  cycle_from-LoadsWithin laws job d (err e) same h = h
  cycle_from-LoadsWithin laws job d (ok b) same h =
      let loaded = brief-load job d b same in
      finish-LoadsWithin laws job.cfg.risk.max_rebalance_retries job b _ (
        act_on-Keeps laws b.pre.decision job b _
          (load-schema c d.files b.prior loaded, h b.prior loaded) h)

  -- The retries stay capped: if a state that loads before a cycle counts at most
  -- `max_rebalance_retries` of them, so does one that loads after it, also when the cycle raises.
  pub run_cycle-LoadsWithin :
      (laws : IsFaithful c) (job : Job F S) (d : Desk F S c)
      → LoadsWithin job.cfg.risk.max_rebalance_retries d.files
      → LoadsWithin job.cfg.risk.max_rebalance_retries (run_cycle job d).1.files
  unfolding run_cycle
  run_cycle-LoadsWithin laws job d h = cycle_from-LoadsWithin laws job d (brief job d) refl h

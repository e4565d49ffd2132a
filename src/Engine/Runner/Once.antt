-- ===== src/Engine/Runner/Once.antt =====
-- The limits on trading a period again: a period that has converged, and the cap on retries.
use trading_bot.Base.{◌≤◌, ◌≡◌, refl, ◌∙◌, ◌⊎◌, inl, inr, some, List, arith}
use trading_bot.Base.Checks.{==_refl, Bool-cases}
use trading_bot.Base.Float.{Float}
use trading_bot.Base.Dict.{Dict}
use trading_bot.Engine.Errors.{Result, ok, err}
use trading_bot.Engine.Orders.{Order}
use trading_bot.Engine.State.{EngineState}
use trading_bot.Engine.State.Store.{Codec}
use trading_bot.Engine.Risk.{PreTradeDecision, hard_kill, stand_down, proceed}
use trading_bot.Engine.Broker.{AccountSnapshot}
use trading_bot.Engine.Runner.Steps.{Job, Brief, Progress, judged, planned, for_period, same_date}
use trading_bot.Engine.Runner.{
  Desk, run_cycle, cycle_from, brief, act_on, rebalance, trade, trade_planned, finish, store_closed,
}

-- The day's period has converged, or its retries are used up.
abbrev pub IsDone : {F S : Type 0} → Job F S → EngineState F → Type 0
IsDone job s =
    (s.last_completed_period ≡ some job.today.period)
    ⊎ ((s.retry_period ≡ some job.today.period)
        × (job.cfg.risk.max_rebalance_retries ≤ s.rebalance_retries))

module _ {F S : Type 0} ⦃f : Float F⦄ where
  for_period-IsDone :
      (job : Job F S) (s : EngineState F)
      → IsDone job s
      → IsDone job (for_period job.today.period s)
  unfolding for_period
  for_period-IsDone job s (inl e) = elim (Bool-cases (same_date s.retry_period job.today.period)) [
    | inl t ↦ rw t (inl e)
    | inr t ↦ rw t (inl e)
  ]
  for_period-IsDone job s (inr (e, k)) =
      inr (rw (e, ==_refl job.today.period) refl, rw (e, ==_refl job.today.period) k)

module _ {F S : Type 0} ⦃f : Float F⦄ {c : Codec F} where
  store_closed-venue :
      (job : Job F S) (b : Brief F) (p : Progress F) (account : AccountSnapshot F)
      (s : Result (EngineState F)) (d : Desk F S c)
      → (store_closed job b p account s d).1.world.venue ≡ d.world.venue
  unfolding store_closed
  store_closed-venue job b p account (err e) d = refl
  store_closed-venue job b p account (ok s) d = refl

  finish-venue :
      (job : Job F S) (b : Brief F) (r : Result (Progress F) × Desk F S c)
      → (finish job b r).1.world.venue ≡ r.1.world.venue
  unfolding finish
  finish-venue job b (err e, d) = refl
  finish-venue job b (ok p, d) = store_closed-venue job b p _ (judged job b p _) d

  trade-venue :
      (job : Job F S) (b : Brief F) (weights : Dict F) (s : EngineState F) (orders : List (Order F))
      (d : Desk F S c)
      → IsDone job s
      → (trade job b weights s orders d).1.world.venue ≡ d.world.venue
  unfolding trade
  trade-venue job b weights s orders d h = ground arith

  trade_planned-venue :
      (job : Job F S) (b : Brief F) (r : Result (Dict F × List (Order F))) (d : Desk F S c)
      → IsDone job b.prior
      → (trade_planned job b r d).1.world.venue ≡ d.world.venue
  unfolding trade_planned for_period
  trade_planned-venue job b (err e) d h = refl
  trade_planned-venue job b (ok (weights, orders)) d h =
      trade-venue job b weights _ orders _ (for_period-IsDone job b.prior h)

  rebalance-venue :
      (job : Job F S) (b : Brief F) (d : Desk F S c)
      → IsDone job b.prior
      → (rebalance job b d).1.world.venue ≡ d.world.venue
  unfolding rebalance
  rebalance-venue job b d h =
      ground (arith, trade_planned-venue job b (planned job b d.world.next_id) d h)

  act_on-IsDone :
      (v : PreTradeDecision) (job : Job F S) (b : Brief F) (d : Desk F S c)
      → IsDone job b.prior
      → ¬ (v ≡ hard_kill)
      → (act_on v job b d).1.world.venue ≡ d.world.venue
  unfolding act_on
  act_on-IsDone stand_down job b d h alive = refl
  act_on-IsDone proceed job b d h alive = rebalance-venue job b d h
  act_on-IsDone hard_kill job b d h alive = absurd (alive refl)

  -- A period is traded no more, short of a kill, once it has converged or its retries have reached
  -- `max_rebalance_retries`: the cycle leaves the venue as it is.
  pub run_cycle_once :
      (job : Job F S) (d : Desk F S c) (b : Brief F)
      → brief job d ≡ ok b
      → IsDone job b.prior
      → ¬ (b.pre.decision ≡ hard_kill)
      → (run_cycle job d).1.world.venue ≡ d.world.venue
  unfolding run_cycle cycle_from
  run_cycle_once job d b e h alive =
      rw e (finish-venue job b _ ∙ act_on-IsDone b.pre.decision job b _ h alive)

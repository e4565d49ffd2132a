-- ===== src/Engine/Runner.antt =====
-- engine/runner.py: one daily cycle. It reads the state, asks the gate, trades, reads the account
-- again and saves the state last; a kill is saved before anything is sold. The frame of prices
-- (engine/data.py) and the strategy are arguments: what they return or raise on the day. The report's
-- text and the suite of tests that a job runs first are left out.
pub mod Steps
pub mod Kill
pub mod Once
pub mod Retries
mod Tests
use trading_bot.Base.{
  ℕ, zero, suc, ◌+◌, Bool, true, false, not, ◌&&◌, ◌||◌, Option, none, some, List, [], ◌∷◌, ◌++◌,
}
use trading_bot.Base.Checks.{leb, ltb, ◌==◌, if◌then◌else◌}
use trading_bot.Base.Lists.{length}
use trading_bot.Base.Dict.{Dict}
use trading_bot.Base.Float.{Float, nought, max_of}
use trading_bot.Engine.Errors.{
  Error, config_error, halt_error, state_error, data_error, execution_error, value_error,
  type_error, Result, ok, err, ◌>>=◌, ◌>>◌,
}
use trading_bot.Engine.Config.{EngineConfig}
use trading_bot.Engine.Orders.{Order, sell, check_order}
use trading_bot.Engine.State.{EngineState, Date, HaltReason}
use trading_bot.Engine.State.Store.{Codec, Files, load, save}
use trading_bot.Engine.Risk.{
  PreTradeDecision, proceed, stand_down, hard_kill, PreTradeResult, check_not_halted, pre_trade,
  clamp_weights,
}
use trading_bot.Engine.Broker.{Broker, AccountSnapshot}
use trading_bot.Engine.Execution.{Setup, RebalanceOutcome, execute_rebalance}
use trading_bot.Engine.Execution.Monad.{
  World, Event, pre_traded, liquidation_aborted, rebalance_aborted, cycle_done,
}
use trading_bot.Engine.Portfolio.{Plan, compute_orders, converged, symbols_where, add_symbol}
use trading_bot.Engine.Runner.Steps.{
  Job, Brief, Progress, CycleResult, same_date, is_empty, plain, liquidation_of, for_period,
  brief_on, setup_of, issue, plan_of, planned, judged, closed,
}

-- What the cycle works on: the venue with its counters and journal, and the state's files.
pub record Desk (F S : Type 0) (c : Codec F) : Type 0 where
  pub world : World F S
  pub files : Files c

abbrev pub Cycle : (F S : Type 0) → Codec F → Type 0 → Type 0
Cycle F S c A = Desk F S c → Result A × Desk F S c

abbrev is_execution_error : Error → Bool
is_execution_error execution_error = true
is_execution_error _ = false

module _ {F S : Type 0} ⦃f : Float F⦄ {c : Codec F} where
  open f use {add, lt, le}

  abbrev note : Event F → Desk F S c → Desk F S c
  note e d = record d { world = record (d.world) { journal = d.world.journal ++ (e ∷ []) } }

  abbrev pub save_state : EngineState F → Desk F S c → Desk F S c
  save_state s d = record d { files = save c s d.files }

  -- Up to the gate's verdict; none of this changes anything.
  pub brief : Job F S → Desk F S c → Result (Brief F)
  brief job d =
      load c false d.files >>= λ prior. brief_on job (job.broker.get_account d.world.venue) prior

  -- A venue's failure is caught and noted; any other exception goes on.
  caught :
      Event F
      → Progress F
      → Desk F S c
      → Result (RebalanceOutcome F) × World F S
      → Result (Progress F) × Desk F S c
  caught aborted p d (ok done, w) = (ok (record p { outcome = some done }), record d { world = w })
  caught aborted p d (err e, w) =
      let d' = record d { world = w } in
      if is_execution_error e then (ok p, note aborted d') else (err e, d')

  sell_all : Job F S → Brief F → EngineState F → Result (List (Order F)) → Cycle F S c (Progress F)
  sell_all job b halted (err e) d = (err e, d)
  sell_all job b halted (ok []) d = (ok (plain halted), d)
  sell_all job b halted (ok (o ∷ os)) d =
      let orders = o ∷ os in
      caught liquidation_aborted (record (plain halted) { traded = true }) d
        (execute_rebalance (setup_of job b.px) true orders (issue orders d.world))

  kill : Job F S → Brief F → Cycle F S c (Progress F)
  kill job b d =
      let halted = record b.prior { halted = true; halt_reason = b.pre.reason } in
      sell_all job b halted (liquidation_of d.world.next_id b.account.positions)
        (save_state halted d)

  trade : Job F S → Brief F → Dict F → EngineState F → List (Order F) → Cycle F S c (Progress F)
  trade job b weights s orders d =
      let decided = record (plain s) { target_weights = weights; decided = true } in
      let run =
        caught rebalance_aborted (record decided { traded = true }) d
          (execute_rebalance (setup_of job b.px) false orders d.world) in
      if same_date s.last_completed_period job.today.period
      then (ok decided, d)
      else if is_empty orders
      then (ok decided, d)
      else if leb job.cfg.risk.max_rebalance_retries s.rebalance_retries
      then (ok decided, d)
      else run

  trade_planned : Job F S → Brief F → Result (Dict F × List (Order F)) → Cycle F S c (Progress F)
  trade_planned job b (err e) d = (err e, d)
  trade_planned job b (ok (weights, orders)) d =
      trade job b weights (for_period job.today.period b.prior) orders
        (record d { world = issue orders d.world })

  rebalance : Job F S → Brief F → Cycle F S c (Progress F)
  rebalance job b d =
      if not job.decision_day
      then (ok (plain b.prior), d)
      else if le b.account.equity nought
      then (ok (plain b.prior), d)
      else trade_planned job b (planned job b d.world.next_id) d

  act_on : PreTradeDecision → Job F S → Brief F → Cycle F S c (Progress F)
  act_on hard_kill job b d = kill job b d
  act_on stand_down job b d = (ok (plain b.prior), d)
  act_on proceed job b d = rebalance job b d

  store_closed :
      Job F S
      → Brief F
      → Progress F
      → AccountSnapshot F
      → Result (EngineState F)
      → Cycle F S c (CycleResult F)
  store_closed job b p account (err e) d = (err e, d)
  store_closed job b p account (ok s) d =
      let final = closed job b account s in
      (
        ok (record { traded = p.traded; outcome = p.outcome }),
        note (cycle_done p.traded account.equity final.halted) (save_state final d),
      )

  pub finish :
      Job F S → Brief F → Result (Progress F) × Desk F S c → Result (CycleResult F) × Desk F S c
  finish job b (err e, d) = (err e, d)
  finish job b (ok p, d) =
      let account = job.broker.get_account d.world.venue in
      store_closed job b p account (judged job b p account) d

  cycle_from : Job F S → Result (Brief F) → Cycle F S c (CycleResult F)
  cycle_from job (err e) d = (err e, d)
  cycle_from job (ok b) d = finish job b (act_on b.pre.decision job b (note (pre_traded b.pre) d))

  pub run_cycle : Job F S → Cycle F S c (CycleResult F)
  run_cycle job d = cycle_from job (brief job d) d

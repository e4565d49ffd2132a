-- ===== src/Engine/Runner/Steps.antt =====
-- engine/runner.py: what a cycle computes between its calls of the venue and of the store.
use trading_bot.Base.{ℕ, suc, ◌+◌, Bool, true, false, not, ◌&&◌, Option, none, some, List, [], ◌∷◌}
use trading_bot.Base.Checks.{◌==◌, if◌then◌else◌}
use trading_bot.Base.Lists.{length}
use trading_bot.Base.Dict.{Dict}
use trading_bot.Base.Float.{Float, nought, max_of}
use trading_bot.Engine.Errors.{Result, ok, err, ◌>>=◌, ◌>>◌}
use trading_bot.Engine.Config.{EngineConfig}
use trading_bot.Engine.Orders.{Order, sell, check_order}
use trading_bot.Engine.State.{EngineState, Date}
use trading_bot.Engine.Risk.{PreTradeResult, check_not_halted, pre_trade, clamp_weights}
use trading_bot.Engine.Broker.{Broker, AccountSnapshot}
use trading_bot.Engine.Execution.{Setup, RebalanceOutcome}
use trading_bot.Engine.Execution.Monad.{World}
use trading_bot.Engine.Portfolio.{Plan, compute_orders, converged, symbols_where, add_symbol}

-- What one cycle is called with.
pub record Job (F S : Type 0) : Type 0 where
  pub today : Date
  pub cfg : EngineConfig F
  pub broker : Broker F S
  -- `validate_prices` and `latest_prices`, of the symbols that are required
  pub market : List ℕ → Result (Dict F)
  -- `strategy.target_weights(prices, today)`
  pub strategy : Result (Dict F)
  pub decision_day : Bool
  pub net_flows : F

-- What the cycle knows when it decides.
pub record Brief (F : Type 0) : Type 0 where
  pub prior : EngineState F
  pub account : AccountSnapshot F
  pub px : Dict F
  pub net_flows : F
  pub pre : PreTradeResult F

-- What a branch of the decision leaves for the end of the cycle.
pub record Progress (F : Type 0) : Type 0 where
  pub state : EngineState F
  pub target_weights : Dict F
  pub decided : Bool
  pub traded : Bool
  pub outcome : Option (RebalanceOutcome F)

pub record CycleResult (F : Type 0) : Type 0 where
  pub traded : Bool
  pub outcome : Option (RebalanceOutcome F)

abbrev pub same_date : Option ℕ → ℕ → Bool
same_date none day = false
same_date (some d) day = d == day

abbrev pub is_empty {ℓ} : {A : Type ℓ} → List A → Bool
is_empty [] = true
is_empty (x ∷ xs) = false

module _ {F : Type 0} ⦃f : Float F⦄ where
  open f use {add, lt, le}

  abbrev pub plain : EngineState F → Progress F
  plain s = record {
    state = s;
    target_weights = [];
    decided = false;
    traded = false;
    outcome = none;
  }

  -- One full exit for each holding, with ids from `id`.
  unfoldable pub liquidation_of : ℕ → Dict F → Result (List (Order F))
  liquidation_of id [] = ok []
  liquidation_of id ((s, sh) ∷ rest) =
      let order : Order F = record {
        symbol = s;
        side = sell;
        shares = sh;
        is_full_exit = true;
        limit_price = none;
        id = id;
      } in
      let others = liquidation_of (suc id) rest in
      let skipped = liquidation_of id rest in
      if lt nought sh then (check_order order >>= λ o. others >>= λ os. ok (o ∷ os)) else skipped

  -- Retries belong to one period.
  unfoldable pub for_period : ℕ → EngineState F → EngineState F
  for_period period s =
      if same_date s.retry_period period
      then s
      else record s { retry_period = some period; rebalance_retries = 0 }

module _ {F S : Type 0} ⦃f : Float F⦄ where
  open f use {add, lt, le}

  unfoldable pub required : Job F S → AccountSnapshot F → List ℕ
  required job account =
      symbols_where (λ sh. lt nought sh) account.positions (universe_set job.cfg.universe)
    where
      universe_set : List ℕ → List ℕ
      universe_set [] = []
      universe_set (s ∷ ss) = add_symbol s (universe_set ss)

  unfoldable pub flows_of : Job F S → EngineState F → F
  flows_of job prior =
      if same_date prior.last_equity_date job.today.ordinal then nought else job.net_flows

  unfoldable pub brief_on : Job F S → AccountSnapshot F → EngineState F → Result (Brief F)
  brief_on job account prior = do
    check_not_halted prior
    px ← job.market (required job account)
    pre ← pre_trade job.cfg.risk prior account.equity job.today (flows_of job prior)
    ok (record {
      prior = prior;
      account = account;
      px = px;
      net_flows = flows_of job prior;
      pre = pre;
    })

  unfoldable pub setup_of : Job F S → Dict F → Setup F S
  setup_of job px = record {
    broker = job.broker;
    risk = job.cfg.risk;
    costs = job.cfg.costs;
    prices = px;
    max_hops = job.cfg.execution.escalation_max_hops;
  }

  abbrev pub issue : List (Order F) → World F S → World F S
  issue orders w = record w { next_id = w.next_id + length orders }

  unfoldable pub plan_of : Job F S → Brief F → Dict F → AccountSnapshot F → Plan F
  plan_of job b weights account = record {
    positions = account.positions;
    target_weights = weights;
    prices = b.px;
    equity = account.equity;
    no_trade_band = job.cfg.risk.no_trade_band;
  }

  unfoldable pub planned : Job F S → Brief F → ℕ → Result (Dict F × List (Order F))
  planned job b id = do
    raw ← job.strategy
    weights ← clamp_weights job.cfg.risk raw
    orders ← compute_orders (plan_of job b weights b.account) id
    ok (weights, orders)

  unfoldable pub completed : Job F S → Progress F → Result Bool → Result (EngineState F)
  completed job p (err e) = err e
  completed job p (ok true) =
      ok (record (p.state) { last_completed_period = some job.today.period; rebalance_retries = 0 })
  completed job p (ok false) =
      if p.traded
      then ok (record (p.state) { rebalance_retries = p.state.rebalance_retries + 1 })
      else ok p.state

  unfoldable pub judged :
      Job F S → Brief F → Progress F → AccountSnapshot F → Result (EngineState F)
  judged job b p account =
      let near =
        converged (plan_of job b p.target_weights account) job.cfg.risk.rebalance_tolerance in
      if p.decided && not p.state.halted then completed job p near else ok p.state

  -- The state after the cycle, with the account read again.
  unfoldable pub closed : Job F S → Brief F → AccountSnapshot F → EngineState F → EngineState F
  closed job b account s = record s {
    peak_equity = max_of (add s.peak_equity (max_of b.net_flows nought)) account.equity;
    last_equity = account.equity;
    last_equity_date = some job.today.ordinal;
    positions = account.positions;
    cash = account.cash;
  }

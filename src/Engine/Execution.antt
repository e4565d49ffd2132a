-- ===== src/Engine/Execution.antt =====
-- engine/execution.py: sells first, then buys sized off cash that is there; one escalation at most.
pub mod Monad
pub mod Resize
pub mod Keeps
pub mod Batch
pub mod Cap
mod Tests
unfoldable pub use Monad.*
use Resize.{min_ℤ, shrink_to_fit}
use trading_bot.Base.{
  ℕ, zero, suc, ◌+◌, ◌-◌, Bool, true, false, not, ◌&&◌, ◌||◌, Option, none, some, List, [], ◌∷◌,
  ◌++◌, map,
}
use trading_bot.Base.Checks.{ltb, leb, if◌then◌else◌}
use trading_bot.Base.Lists.{select, any, all}
use trading_bot.Base.Int.{ℤ, pos, negsuc, pos_part, ◌-ℤ◌, ltb_ℤ, leb_ℤ}
use trading_bot.Base.Dict.{Dict, lookup}
use trading_bot.Base.Float.{Float, nought}
use trading_bot.Engine.Errors.{Error, Result, ok, err, execution_error}
use trading_bot.Engine.Config.{RiskConfig, CostConfig}
use trading_bot.Engine.Costs.{order_cost, total}
use trading_bot.Engine.Orders.{
  Order, DroppedOrder, Side, buy, is_sell, is_buy, is_success, is_terminal, drop_for, order_cap,
  budget_exhausted, no_price_at_buy, insufficient_cash, truncate_to_cap, check_order,
}
use trading_bot.Engine.Risk.{ApprovedOrders, orders_in, filter_orders}
use trading_bot.Engine.Broker.{Broker, OrderResult}

pub record RebalanceOutcome (F : Type 0) : Type 0 where
  pub results : List (OrderResult F)
  pub dropped : List (DroppedOrder F)
  pub escalations : ℕ

module _ {F : Type 0} where
  abbrev pub nothing_done : RebalanceOutcome F
  nothing_done = record { results = []; dropped = []; escalations = 0 }

  abbrev only_dropped : List (DroppedOrder F) → RebalanceOutcome F
  only_dropped ds = record { results = []; dropped = ds; escalations = 0 }

  -- `outcome.results += …; outcome.dropped += …; outcome.escalations += …`
  abbrev pub join : RebalanceOutcome F → RebalanceOutcome F → RebalanceOutcome F
  join a b = record {
    results = a.results ++ b.results;
    dropped = a.dropped ++ b.dropped;
    escalations = a.escalations + b.escalations;
  }

  pub any_failures : RebalanceOutcome F → Bool
  any_failures o = any (λ r. not (is_success r.status)) o.results

abbrev is_spent : Option ℕ → Bool
is_spent none = false
is_spent (some n) = ltb n 1

abbrev is_empty {ℓ} : {A : Type ℓ} → List A → Bool
is_empty [] = true
is_empty (x ∷ xs) = false

abbrev has_limit : {F : Type 0} → Option F → Bool
has_limit none = false
has_limit (some p) = true

-- What one submission returns.
abbrev Submitted : Type 0 → Type 0
Submitted F = List (OrderResult F) × List (DroppedOrder F)

-- The results of both submissions, and one escalation if the second reached the venue.
abbrev sent_twice : {F : Type 0} → Submitted F → Submitted F → RebalanceOutcome F
sent_twice first more = record {
  results = first.0 ++ more.0;
  dropped = first.1 ++ more.1;
  escalations = if is_empty more.0 then 0 else 1;
}

-- What one rebalance is run with: the broker, the limits, the costs and the prices.
pub record Setup (F : Type 0) (S : Type 0) : Type 0 where
  pub broker : Broker F S
  pub risk : RiskConfig F
  pub costs : CostConfig F
  pub prices : Dict F
  pub max_hops : ℕ

module _ {F S : Type 0} ⦃f : Float F⦄ (c : Setup F S) where
  open f use {lit, add, sub, mul, div, lt, le, eq}

  pub record_dropped : List (DroppedOrder F) → Action F S (Unit {0})
  record_dropped [] = pure tt
  record_dropped (d ∷ ds) = do record_event (order_dropped d); record_dropped ds

  -- The loop over the results of a submission: a status that is not terminal raises.
  record_results : List (OrderResult F) → Action F S (Unit {0})
  record_results [] = pure tt
  record_results (r ∷ rs) = do
    record_event (order_result r)
    if is_terminal r.status then record_results rs else raise execution_error

  -- `budget[0] -= 1` and the call of the venue
  send : ApprovedOrders F → Action F S (List (OrderResult F))
  send a w =
      let (r, s) = c.broker.submit a w.venue in (r, record w { venue = s; budget = spend w.budget })

  send_approved : ApprovedOrders F → List (DroppedOrder F) → Action F S (Submitted F)
  send_approved approved dropped =
      if is_empty (orders_in approved)
      then pure ([], dropped)
      else (do results ← send approved; record_results results; pure (results, dropped))

  submit_filtered : Order F → Action F S (Submitted F)
  submit_filtered o = do
    gated ← lift (filter_orders c.risk c.costs (o ∷ []) c.prices)
    record_dropped gated.1
    send_approved gated.0 gated.1

  -- `_submit_single`: every order that reaches the venue counts against the budget.
  submit_single : Order F → Action F S (Submitted F)
  submit_single o w =
      let spent = drop_for budget_exhausted o in
      if is_spent w.budget
      then (record_event (order_dropped spent) >> pure ([], spent ∷ [])) w
      else submit_filtered o w

  -- `Order(…)`: a fresh id, and a refusal of a size that is not positive
  make_order : Order F → Action F S (Order F)
  make_order o w = (check_order (record o { id = w.next_id }), record w { next_id = suc w.next_id })

  abbrev got_nothing : OrderResult F → Bool
  got_nothing r = eq r.filled_shares nought

  should_escalate : Order F → List (OrderResult F) → Bool
  should_escalate o results =
      has_limit o.limit_price
      && leb 1 c.max_hops
      && not (is_empty results)
      && not (any (λ r. is_success r.status) results)
      && all got_nothing results

  note_failed : ℕ → List (OrderResult F) → Action F S (Unit {0})
  note_failed id more =
      if not (is_empty more) && not (any (λ r. is_success r.status) more)
      then record_event (escalation_failed id)
      else pure tt

  escalate : Order F → Submitted F → Action F S (RebalanceOutcome F)
  escalate o first = do
    market ← make_order (record o { limit_price = none })
    record_event (escalation o.id market.id)
    more ← submit_single market
    note_failed market.id more.0
    pure (sent_twice first more)

  -- `_submit_with_escalation`: a limit order that got nothing is sent once more, as a market order.
  submit_with_escalation : Order F → Action F S (RebalanceOutcome F)
  submit_with_escalation o = do
    first ← submit_single o
    if should_escalate o first.0
        then escalate o first
        else pure (record { results = first.0; dropped = first.1; escalations = 0 })

  pub run_sells : List (Order F) → Action F S (RebalanceOutcome F)
  run_sells [] = pure nothing_done
  run_sells (o ∷ os) = do one ← submit_with_escalation o; rest ← run_sells os; pure (join one rest)

  resized_order : Order F → ℤ → Order F
  resized_order o n = record {
    symbol = o.symbol;
    side = buy;
    shares = f.of_int n;
    is_full_exit = false;
    limit_price = o.limit_price;
    id = o.id;
  }

  place_resized : Order F → ℤ → F → Action F S (RebalanceOutcome F)
  place_resized o n available =
      if leb_ℤ n (pos 0) then pure (only_dropped (drop_for insufficient_cash o ∷ [])) else (do
        record_event (buy_resized o.id o.shares available)
        order ← make_order (resized_order o n)
        submit_with_escalation order)

  -- A buy that the cash does not cover is sized down, from what the cash alone would buy.
  resize_buy : Order F → F → F → Action F S (RebalanceOutcome F)
  resize_buy o px available =
      let most = if lt nought px then f.floor (div available px) else pos 0 in
      let start = min_ℤ most (f.floor o.shares) in
      do
        n ← lift (shrink_to_fit c.costs px available (pos_part start) start)
        place_resized o n available

  buy_at_price : Order F → F → F → Action F S (RebalanceOutcome F)
  buy_at_price o available px =
      if le px nought then pure (only_dropped (drop_for no_price_at_buy o ∷ [])) else (do
        cost ← lift (order_cost c.costs o.shares px)
        if lt available (add (mul o.shares px) (total cost))
            then resize_buy o px available
            else submit_with_escalation o)

  run_buy_at : Order F → F → Option F → Action F S (RebalanceOutcome F)
  run_buy_at o available none = pure (only_dropped (drop_for no_price_at_buy o ∷ []))
  run_buy_at o available (some px) = buy_at_price o available px

  -- The account is read again before every buy.
  run_buy : Order F → Action F S (RebalanceOutcome F)
  run_buy o w = run_buy_at o (c.broker.get_account w.venue).cash (lookup o.symbol c.prices) w

  pub run_buys : List (Order F) → Action F S (RebalanceOutcome F)
  run_buys [] = pure nothing_done
  run_buys (o ∷ os) = do one ← run_buy o; rest ← run_buys os; pure (join one rest)

  pub run_batch : List (Order F) → Action F S (RebalanceOutcome F)
  run_batch orders = do
    sold ← run_sells (select is_sell orders)
    bought ← run_buys (select is_buy orders)
    pure (join sold bought)

  abbrev set_budget : Option ℕ → Action F S (Unit {0})
  set_budget b w = (ok tt, record w { budget = b })

  run_capped : List (Order F) → List (DroppedOrder F) → Action F S (RebalanceOutcome F)
  run_capped orders over = do
    record_dropped over
    done ← run_batch orders
    pure (join (only_dropped over) done)

  -- A liquidation has no cap and an infinite budget.
  pub execute_rebalance : Bool → List (Order F) → Action F S (RebalanceOutcome F)
  execute_rebalance true orders = do set_budget none; run_batch orders
  execute_rebalance false orders =
      let cap = c.risk.max_orders_per_day in
      do
        set_budget (some cap)
        run_capped (truncate_to_cap orders cap).0 (truncate_to_cap orders cap).1

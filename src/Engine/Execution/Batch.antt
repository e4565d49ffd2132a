-- ===== src/Engine/Execution/Batch.antt =====
-- What a whole rebalance keeps: one property while sells are sent, another while buys are.
use trading_bot.Base.{ℕ, Bool, true, false, Option, none, some, List, arith}
use trading_bot.Base.Lists.{select, All-select}
use trading_bot.Base.Float.{Float}
use trading_bot.Engine.Orders.{Order, buy, sell, is_sell, is_buy, truncate_to_cap}
use trading_bot.Engine.Orders.Laws.{IsSell, IsBuy}
use trading_bot.Engine.Broker.{IsTraced}
use trading_bot.Engine.Execution.Monad.{World, ◌>>=◌, pure}
use trading_bot.Engine.Execution.{
  Setup, join, record_dropped, run_sells, run_buys, run_batch, execute_rebalance, run_capped,
  only_dropped,
}
use trading_bot.Engine.Execution.Keeps.{
  AllowsSide, Holds, Leads, Leads-bind, run_sells-Keeps, run_buys-Keeps, record_dropped-Keeps,
}

-- The submissions that a rebalance may make; a liquidation has no limit.
abbrev pub start_budget : ℕ → Bool → Option ℕ
start_budget most true = none
start_budget most false = some most

-- A batch: `I` holds while sells are sent, `J` while buys are.
module _ {F S : Type 0} ⦃f : Float F⦄ (c : Setup F S) (t : IsTraced c.broker)
    (I J : Option ℕ → List (Order F) → Type 0) where
  pub run_batch-Holds :
      (orders : List (Order F))
      → AllowsSide c t I sell
      → AllowsSide c t J buy
      → ((b : Option ℕ) (os : List (Order F)) → I b os → J b os)
      → Leads (Holds c t I) (Holds c t J) (run_batch c orders)
  unfolding run_batch
  run_batch-Holds orders sells buys turn =
      let I' = Holds c t I in
      let J' = Holds c t J in
      Leads-bind I' I' J' (run_sells c (select is_sell orders)) _
        (λ w h. turn w.budget (t.trail w.venue) h)
        (run_sells-Keeps c t I sell sells (select is_sell orders)
          (All-select IsSell is_sell (λ o h. ground arith) orders)).by
        λ sold.
          Leads-bind I' J' J' (run_buys c (select is_buy orders)) _ (λ w h. h)
            (λ w h.
              (run_buys-Keeps c t J buys (select is_buy orders)
                  (All-select IsBuy is_buy (λ o e. ground arith) orders)).by
                w (turn w.budget (t.trail w.venue) h))
            (λ bought w h. h)

  -- From the budget that the rebalance sets itself.
  pub execute_rebalance-Holds :
      (liquidation : Bool) (orders : List (Order F))
      → AllowsSide c t I sell
      → AllowsSide c t J buy
      → ((b : Option ℕ) (os : List (Order F)) → I b os → J b os)
      → (w : World F S) → I (start_budget c.risk.max_orders_per_day liquidation) (t.trail w.venue)
      → Holds c t J (execute_rebalance c liquidation orders w).1
  unfolding execute_rebalance run_capped
  execute_rebalance-Holds true orders sells buys turn w h =
      run_batch-Holds orders sells buys turn (record w { budget = none }) h
  execute_rebalance-Holds false orders sells buys turn w h =
      let most = c.risk.max_orders_per_day in
      let within = (truncate_to_cap orders most).0 in
      let over = (truncate_to_cap orders most).1 in
      let I' = Holds c t I in
      let J' = Holds c t J in
      Leads-bind I' I' J' (record_dropped c over)
        (λ _. run_batch c within >>= λ done. pure (join (only_dropped over) done))
        (λ w h. turn w.budget (t.trail w.venue) h) (record_dropped-Keeps c t I over).by
        (λ _.
          Leads-bind I' J' J' (run_batch c within) (λ done. pure (join (only_dropped over) done))
            (λ w h. h) (run_batch-Holds within sells buys turn) (λ done w h. h))
        (record w { budget = some most }) h

-- ===== src/Engine/Execution/Keeps.antt =====
-- What every action of engine/execution.py keeps, on the paths that raise included: a property of the
-- budget left and of the orders that reached the venue.
use mathlib.Core.List.{append-nil}
use trading_bot.Base.{
  ℕ, zero, suc, Bool, true, false, Option, none, some, List, [], ◌∷◌, ◌++◌, ◌≡◌, refl, ◌⊎◌, inl,
  inr,
}
use trading_bot.Base.Checks.{if◌then◌else◌, Bool-cases}
use trading_bot.Base.Lists.{take, All}
use trading_bot.Base.Int.{ℤ, pos, leb_ℤ}
use trading_bot.Base.Dict.{lookup}
use trading_bot.Base.Float.{Float, nought}
use trading_bot.Engine.Errors.{Result, ok, err, execution_error}
use trading_bot.Engine.Costs.{order_cost}
use trading_bot.Engine.Orders.{Order, DroppedOrder, Side, buy, is_terminal, check_order}
use trading_bot.Engine.Orders.Laws.{IsBuy}
use trading_bot.Engine.Risk.{ApprovedOrders, orders_in, filter_orders}
use trading_bot.Engine.Risk.Single.{filter_single}
use trading_bot.Engine.Broker.{OrderResult, IsTraced}
use trading_bot.Engine.Execution.Monad.{
  Event, order_dropped, order_result, escalation, escalation_failed, buy_resized, World, go_on,
  Action, ◌>>=◌, ◌>>◌, pure, raise, lift, record_event, spend,
}
use trading_bot.Engine.Execution.{
  Setup, sent_twice, nothing_done, join, Submitted, is_spent, record_dropped, record_results, send,
  send_approved, submit_filtered, submit_single, make_order, should_escalate, note_failed, escalate,
  submit_with_escalation, run_sells, resized_order, place_resized, resize_buy, buy_at_price,
  run_buy_at, run_buy, run_buys, is_empty,
}

module _ {F S : Type 0} where
  -- From `P` before to `Q` after, however the action ends.
  abbrev pub Leads :
      {A : Type 0} → (World F S → Type 0) → (World F S → Type 0) → Action F S A → Type 0
  Leads P Q m = (w : World F S) → P w → Q (m w).1

  go_on_lem :
      {A B : Type 0} (R Q : World F S → Type 0) (f : A → Action F S B) (r : Result A × World F S)
      → ((w : World F S) → R w → Q w)
      → ((a : A) → Leads R Q (f a))
      → R r.1
      → Q (go_on r f).1
  go_on_lem R Q f (ok a, w) weaken rest h = rest a w h
  go_on_lem R Q f (err e, w) weaken rest h = weaken w h

  pub Leads-bind :
      {A B : Type 0} (P R Q : World F S → Type 0) (m : Action F S A) (f : A → Action F S B)
      → ((w : World F S) → R w → Q w)
      → Leads P R m
      → ((a : A) → Leads R Q (f a))
      → Leads P Q (m >>= f)
  Leads-bind P R Q m f weaken first rest w p = go_on_lem R Q f (m w) weaken rest (first w p)

module _ {F S : Type 0} ⦃f : Float F⦄ (c : Setup F S) (t : IsTraced c.broker)
    (I : Option ℕ → List (Order F) → Type 0) where
  abbrev pub Holds : World F S → Type 0
  Holds w = I w.budget (t.trail w.venue)

  abbrev pub IsReady : World F S → Type 0
  IsReady w = Holds w × (is_spent w.budget ≡ false)

  -- `I` survives a submission of an order of side `d`, whether or not it reaches the trail.
  pub record AllowsSide (d : Side) : Type 0 where
    pub grow :
        (b : Option ℕ) (os : List (Order F)) (o : Order F)
        → o.side ≡ d
        → is_spent b ≡ false
        → I b os
        → I (spend b) (os ++ (o ∷ []))
    pub idle : (b : Option ℕ) (os : List (Order F)) → is_spent b ≡ false → I b os → I (spend b) os

  pub record Keeps {A : Type 0} (m : Action F S A) : Type 0 where
    pub by : Leads Holds Holds m

  Keeps-bind :
      {A B : Type 0} (m : Action F S A) (k : A → Action F S B)
      → Keeps m
      → ((a : A) → Keeps (k a))
      → Keeps (m >>= k)
  Keeps-bind m k hm hk = record {
    by = Leads-bind Holds Holds Holds m k (λ w h. h) hm.by λ a. (hk a).by;
  }

  Keeps-if :
      {A : Type 0} (b : Bool) (m n : Action F S A) → Keeps m → Keeps n → Keeps (if b then m else n)
  Keeps-if true m n hm hn = hm
  Keeps-if false m n hm hn = hn

  Keeps-pure : {A : Type 0} (a : A) → Keeps (pure a)
  Keeps-pure a = record { by = λ w h. h }

  Keeps-event : (e : Event F) → Keeps (record_event e)
  Keeps-event e = record { by = λ w h. h }

  Keeps-lift : {A : Type 0} (r : Result A) → Keeps (lift r)
  Keeps-lift r = record { by = λ w h. h }

  sent_cases :
      (a : ApprovedOrders F) (o : Order F)
      → (orders_in a ≡ []) ⊎ (orders_in a ≡ o ∷ [])
      → (n : ℕ) → (take n (orders_in a) ≡ []) ⊎ (take n (orders_in a) ≡ o ∷ [])
  sent_cases a o one zero = inl refl
  sent_cases a o (inl e) (suc n) = inl (rw e)
  sent_cases a o (inr e) (suc zero) = inr (rw e)
  sent_cases a o (inr e) (suc (suc n)) = inr (rw e)

  pub record_dropped-Keeps : (ds : List (DroppedOrder F)) → Keeps (record_dropped c ds)
  unfolding record_dropped
  record_dropped-Keeps [] = Keeps-pure tt
  record_dropped-Keeps (d ∷ ds) =
      Keeps-bind (record_event (order_dropped d)) _ (Keeps-event (order_dropped d))
        λ _. record_dropped-Keeps ds

  record_dropped-IsReady :
      (ds : List (DroppedOrder F)) → Leads IsReady IsReady (record_dropped c ds)
  unfolding record_dropped
  record_dropped-IsReady [] w h = h
  record_dropped-IsReady (d ∷ ds) w h = record_dropped-IsReady ds _ h

  record_results-Keeps : (rs : List (OrderResult F)) → Keeps (record_results c rs)
  unfolding record_results
  record_results-Keeps [] = Keeps-pure tt
  record_results-Keeps (r ∷ rs) =
      Keeps-bind (record_event (order_result r)) _ (Keeps-event (order_result r)) λ _.
        Keeps-if (is_terminal r.status) (record_results c rs) (raise execution_error)
          (record_results-Keeps rs) (Keeps-lift (err execution_error))

  module _ (d : Side) (allows : AllowsSide d) where
    open allows use {grow, idle}

    -- One call of the venue, with at most one order of side `d`.
    send-Keeps :
        (a : ApprovedOrders F) (o : Order F)
        → o.side ≡ d
        → (orders_in a ≡ []) ⊎ (orders_in a ≡ o ∷ [])
        → Leads IsReady Holds (send c a)
    unfolding send
    send-Keeps a o side one w (h, ready) =
        let (n, e) = t.trail-submit a w.venue in
        elim (sent_cases a o one n) [
          | inl none_sent ↦ rw (e, none_sent, append-nil) (idle w.budget (t.trail w.venue) ready h)
          | inr one_sent ↦ rw (e, one_sent) (grow w.budget (t.trail w.venue) o side ready h)
        ]

    send_approved-Keeps :
        (a : ApprovedOrders F) (ds : List (DroppedOrder F)) (o : Order F)
        → o.side ≡ d
        → (orders_in a ≡ []) ⊎ (orders_in a ≡ o ∷ [])
        → Leads IsReady Holds (send_approved c a ds)
    unfolding send_approved
    send_approved-Keeps a ds o side one w ready = elim (Bool-cases (is_empty (orders_in a))) [
      | inl e ↦ rw e ready.0
      | inr e ↦ rw e (
          Leads-bind IsReady Holds Holds (send c a)
            (λ results. record_results c results >> pure (results, ds)) (λ w h. h)
            (send-Keeps a o side one)
            (λ results.
              (Keeps-bind (record_results c results) (λ _. pure (results, ds))
                (record_results-Keeps results) (λ _. Keeps-pure (results, ds))).by)
            w ready)
    ]

    filtered_keeps :
        (o : Order F)
        → o.side ≡ d
        → (r : Result (ApprovedOrders F × List (DroppedOrder F)))
        → filter_orders c.risk c.costs (o ∷ []) c.prices ≡ r
        → Leads IsReady Holds
            (lift r >>= λ gated. record_dropped c gated.1 >> send_approved c gated.0 gated.1)
    filtered_keeps o side (err e) h = λ w ready. ready.0
    filtered_keeps o side (ok gated) h =
        Leads-bind IsReady IsReady Holds (record_dropped c gated.1)
          (λ _. send_approved c gated.0 gated.1) (λ w r. r.0) (record_dropped-IsReady gated.1)
          (λ _.
            send_approved-Keeps gated.0 gated.1 o side (filter_single c.risk c.costs o c.prices h))

    submit_single-Holds : (o : Order F) → o.side ≡ d → Leads Holds Holds (submit_single c o)
    unfolding submit_single submit_filtered
    submit_single-Holds o side w h = elim (Bool-cases (is_spent w.budget)) [
      | inl spent ↦ rw spent h
      | inr ready ↦ rw ready (filtered_keeps o side _ refl w (h, ready))
    ]

    submit_single-Keeps : (o : Order F) → o.side ≡ d → Keeps (submit_single c o)
    submit_single-Keeps o side = record { by = submit_single-Holds o side }

    note_failed-Keeps : (id : ℕ) (more : List (OrderResult F)) → Keeps (note_failed c id more)
    unfolding note_failed
    note_failed-Keeps id more = Keeps-if _ _ _ (Keeps-event (escalation_failed id)) (Keeps-pure tt)

    make_order-Holds :
        {B : Type 0} (o : Order F) (k : Order F → Action F S B)
        → o.side ≡ d
        → ((o' : Order F) → o'.side ≡ d → Keeps (k o'))
        → Leads Holds Holds (make_order c o >>= k)
    unfolding make_order check_order
    make_order-Holds o k side next w h = elim (Bool-cases (f.le o.shares nought)) [
      | inl bad ↦ rw bad h
      | inr good ↦ rw good ((next (record o { id = w.next_id }) side).by _ h)
    ]

    make_order-then :
        {B : Type 0} (o : Order F) (k : Order F → Action F S B)
        → o.side ≡ d
        → ((o' : Order F) → o'.side ≡ d → Keeps (k o'))
        → Keeps (make_order c o >>= k)
    make_order-then o k side next = record { by = make_order-Holds o k side next }

    escalate-Keeps : (o : Order F) (first : Submitted F) → o.side ≡ d → Keeps (escalate c o first)
    unfolding escalate
    escalate-Keeps o first side =
        make_order-then (record o { limit_price = none }) _ side
          λ market same.
            Keeps-bind (record_event (escalation o.id market.id)) _ (Keeps-event _) λ _.
              Keeps-bind (submit_single c market) _ (submit_single-Keeps market same) λ more.
                Keeps-bind (note_failed c market.id more.0) _ (note_failed-Keeps market.id more.0)
                  λ _. Keeps-pure (sent_twice first more)

    submit_with_escalation-Keeps : (o : Order F) → o.side ≡ d → Keeps (submit_with_escalation c o)
    unfolding submit_with_escalation
    submit_with_escalation-Keeps o side =
        Keeps-bind (submit_single c o) _ (submit_single-Keeps o side) λ first.
          Keeps-if (should_escalate c o first.0) _ _ (escalate-Keeps o first side) (Keeps-pure _)

    pub run_sells-Keeps : (os : List (Order F)) → All (λ o. o.side ≡ d) os → Keeps (run_sells c os)
    unfolding run_sells
    run_sells-Keeps [] side = Keeps-pure nothing_done
    run_sells-Keeps (o ∷ os) (side, sides) =
        Keeps-bind (submit_with_escalation c o) _ (submit_with_escalation-Keeps o side) λ one.
          Keeps-bind (run_sells c os) _ (run_sells-Keeps os sides)
            λ rest. Keeps-pure (join one rest)

  module _ (allows : AllowsSide buy) where
    place_resized-Keeps : (o : Order F) (n : ℤ) (a : F) → Keeps (place_resized c o n a)
    unfolding place_resized resized_order
    place_resized-Keeps o n a = Keeps-if (leb_ℤ n (pos 0)) _ _ (Keeps-pure _) (
        Keeps-bind (record_event (buy_resized o.id o.shares a)) _ (Keeps-event _) λ _.
          make_order-then buy allows (resized_order c o n) _ refl
            λ o' side. submit_with_escalation-Keeps buy allows o' side)

    resize_buy-Keeps : (o : Order F) (px a : F) → Keeps (resize_buy c o px a)
    unfolding resize_buy
    resize_buy-Keeps o px a = Keeps-bind (lift _) _ (Keeps-lift _) λ n. place_resized-Keeps o n a

    run_buy_at-Keeps :
        (o : Order F) (a : F) (quote : Option F) → o.side ≡ buy → Keeps (run_buy_at c o a quote)
    unfolding run_buy_at buy_at_price
    run_buy_at-Keeps o a none side = Keeps-pure _
    run_buy_at-Keeps o a (some px) side = Keeps-if (f.le px nought) _ _ (Keeps-pure _) (
        Keeps-bind (lift (order_cost c.costs o.shares px)) _ (Keeps-lift _) λ cost.
          Keeps-if _ _ _ (resize_buy-Keeps o px a) (submit_with_escalation-Keeps buy allows o side))

    run_buy-Keeps : (o : Order F) → o.side ≡ buy → Keeps (run_buy c o)
    unfolding run_buy
    run_buy-Keeps o side = record {
      by = λ w.
          (run_buy_at-Keeps o (c.broker.get_account w.venue).cash (lookup o.symbol c.prices)
              side).by
            w;
    }

    pub run_buys-Keeps : (os : List (Order F)) → All IsBuy os → Keeps (run_buys c os)
    unfolding run_buys
    run_buys-Keeps [] side = Keeps-pure nothing_done
    run_buys-Keeps (o ∷ os) (side, sides) = Keeps-bind (run_buy c o) _ (run_buy-Keeps o side) λ one.
        Keeps-bind (run_buys c os) _ (run_buys-Keeps os sides) λ rest. Keeps-pure (join one rest)

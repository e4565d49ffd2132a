-- ===== src/Engine/Broker/Paper/Laws.antt =====
-- The paper broker's money, positions and audit trail.
use mathlib.Core.List.{append-nil, append_assoc}
use trading_bot.Base.{
  ℕ, suc, ◌+◌, false, Option, none, some, List, [], ◌∷◌, ◌++◌, ◌≡◌, refl, sym, ap, ◌∙◌, inl, inr,
  arith,
}
use trading_bot.Base.Checks.{Bool-cases}
use trading_bot.Base.Lists.{take}
use trading_bot.Base.Dict.{lookup, lookup_or}
use trading_bot.Base.Float.{Float, nought}
use trading_bot.Engine.Errors.{Error, Result, ok, err}
use trading_bot.Engine.Costs.{OrderCost, order_cost}
use trading_bot.Engine.Orders.{Order, OrderStatus, Side, buy, sell, rejected, cancelled}
use trading_bot.Engine.Risk.{orders_in}
use trading_bot.Engine.Broker.{IsTraced}
use trading_bot.Engine.Broker.Paper.{
  unfilled, PaperBroker, Outcome, execute_one, execute_scripted, execute_at, fill_with, by_side,
  buy_at, sell_at, scripted, submit_each, submit, is_out, then_append, paper_broker,
}

module _ {F : Type 0} ⦃f : Float F⦄ where
  open f use {lit, add, sub, mul, lt, le, neg}

  -- To show something of an execution: it fills nothing and changes nothing, or it buys or sells at a
  -- positive price and size, at the cost of that size.
  module _ (P : Outcome F → Type 0) (b : PaperBroker F) (o : Order F) where
    abbrev pub Ends : Type 0
    Ends =
        ((s : OrderStatus) → P (ok (unfilled o s), b))
        × ((e : Error) → P (err e, b))
        × ((px fraction amount : F) (cost : OrderCost F)
            → le px nought ≡ false
            → le amount nought ≡ false
            → order_cost b.costs amount px ≡ ok cost
            → P (by_side o.side b o px fraction amount cost))

    fill_with-ends :
        (px fraction amount : F)
        → le px nought ≡ false
        → le amount nought ≡ false
        → Ends
        → (r : Result (OrderCost F)) → order_cost b.costs amount px ≡ r
        → P (fill_with b o px fraction amount r)
    unfolding fill_with
    fill_with-ends px fr amount hp ha (idle, fails, fills) (ok cost) e =
        fills px fr amount cost hp ha e
    fill_with-ends px fr amount hp ha (idle, fails, fills) (err why) e = fails why

    execute_at-ends : Ends → (quote : Option F) → P (execute_at b o quote)
    unfolding execute_at
    execute_at-ends ends none = ends.0 rejected
    execute_at-ends ends (some px) =
        let fr = lookup_or o.symbol (lit 1 0) b.knobs.fill_fraction in
        let amount = mul o.shares fr in
        elim (Bool-cases (le px nought)) [
          | inl bad ↦ rw bad (ends.0 rejected)
          | inr good ↦ elim (Bool-cases (le amount nought)) [
            | inl nothing ↦ rw (good, nothing) (ends.0 cancelled)
            | inr some_shares ↦
                rw (good, some_shares) (fill_with-ends px fr amount good some_shares ends _ refl)
          ]
        ]

    execute_scripted-ends : Ends → (s : Option OrderStatus) → P (execute_scripted b o s)
    unfolding execute_scripted
    execute_scripted-ends ends none = execute_at-ends ends (lookup o.symbol b.prices)
    execute_scripted-ends ends (some s) = ends.0 s

    pub execute_one-ends : Ends → P (execute_one b o)
    unfolding execute_one
    execute_one-ends ends = execute_scripted-ends ends (scripted b.knobs o)

  by_side-submissions :
      (d : Side) (b : PaperBroker F) (o : Order F) (px fr amount : F) (cost : OrderCost F)
      → (by_side d b o px fr amount cost).1.submissions ≡ b.submissions
  unfolding by_side buy_at sell_at
  by_side-submissions buy b o px fr amount cost = ground arith
  by_side-submissions sell b o px fr amount cost = ground arith

  execute_one-submissions :
      (b : PaperBroker F) (o : Order F) → (execute_one b o).1.submissions ≡ b.submissions
  execute_one-submissions b o =
      execute_one-ends (λ r. r.1.submissions ≡ b.submissions) b o
        (
          λ s. refl,
          λ e. refl,
          λ px fr amount cost _ _ _. by_side-submissions o.side b o px fr amount cost,
        )

  -- What a batch leaves on the trail, by whether the first order went through.
  then_append-trail :
      (o : Order F) (os : List (Order F)) (b : PaperBroker F) (r : Outcome F)
      → r.1.submissions ≡ b.submissions ++ (o ∷ [])
      → ((c : PaperBroker F)
          → (n : ℕ) × ((submit_each os c).1.submissions ≡ c.submissions ++ take n os))
      → (n : ℕ) × ((then_append r (submit_each os)).1.submissions
          ≡ b.submissions ++ take n (o ∷ os))
  then_append-trail o os b (err e, c) h ih = (1, h)
  then_append-trail o os b (ok r, c) h ih =
      let (n, e) = ih c in
      (suc n, e ∙ (ap (λ t. t ++ take n os) h ∙ append_assoc b.submissions (o ∷ []) (take n os)))

  submit_each-trail :
      (os : List (Order F)) (b : PaperBroker F)
      → (n : ℕ) × ((submit_each os b).1.submissions ≡ b.submissions ++ take n os)
  unfolding submit_each
  submit_each-trail [] b = (0, sym (append-nil _))
  submit_each-trail (o ∷ os) b =
      let seen = b.orders_seen + 1 in
      let noted = record b { orders_seen = seen; submissions = b.submissions ++ (o ∷ []) } in
      elim (Bool-cases (is_out b.knobs.outage_after_n_orders seen)) [
        | inl out ↦ rw out (0, sym (append-nil _))
        | inr up ↦ rw up (
            then_append-trail o os b (execute_one noted o) (execute_one-submissions noted o)
              (submit_each-trail os))
      ]

  -- The paper broker's audit trail is what the engine's theorems ask of a venue.
  pub paper-IsTraced : IsTraced {F = F} paper_broker
  unfolding submit
  paper-IsTraced = record {
    trail = λ b. b.submissions;
    trail-submit = λ a b. submit_each-trail (orders_in a) b;
  }

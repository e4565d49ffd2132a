-- ===== src/MiniProp/Oms/Terminal.antt =====
-- An order that is done stays as it is, whatever the broker still reports.
use trading_bot.Base.{
  ℕ, map, ◌≡◌, refl, ◌∙◌, ◌⊎◌, inl, inr, ◌≢◌, true, false, some, List, [], ◌∷◌, ◌||◌, arith, subst,
}
use trading_bot.Base.Checks.{if◌then◌else◌, Bool-cases, Option-cases, ◌==◌}
use trading_bot.Base.Int.{ℤ, pos, abs_ℤ, ltb_ℤ}
use trading_bot.Base.Float.{Float}
use trading_bot.MiniProp.Types.{Fill}
use trading_bot.MiniProp.Oms.Lookup.{find-put_ne, find_order_id, put-find}
use trading_bot.MiniProp.Oms.Reachable.{
  Report, cancelled_one, cancelled_all, reported, filled_by, seeded, seeded-orders,
}
use trading_bot.MiniProp.Oms.{
  OrderState, pending_cancel, ManagedOrder, Oms, cancel, cancel_all, on_order_status, on_fill,
  find_order, put_order, is_terminal, is_terminal_state, allowed, transition, cancel_found,
  cancel_each, open_orders, status_found, fill_found, accept, is_fill_state, same_state, seen,
  remaining_quantity, moved, with_fill, state_after,
}

allowed-terminal : (s t : OrderState) → allowed s t ≡ true → is_terminal_state s ≡ false
allowed-terminal s t h = ground arith

module _ {F : Type 0} where
  -- Of the orders only one is stored anew, and that one was open.
  pub record Stores (id : ℤ) (s t : Oms F) : Type 0 where
    pub before : ManagedOrder F
    pub after : ManagedOrder F
    pub found : find_order id s.orders ≡ some before
    pub is_open : is_terminal before ≡ false
    pub same_id : after.order_id ≡ id
    pub result : t.orders ≡ put_order after s.orders

  abbrev pub Touches : ℤ → Oms F → Oms F → Type 0
  Touches id s t = (t.orders ≡ s.orders) ⊎ Stores id s t

  Done : ℤ → ManagedOrder F → Oms F → Type 0
  Done id mo s = (find_order id s.orders ≡ some mo) × (is_terminal mo ≡ true)

  Touches-Done :
      (other id : ℤ) (mo : ManagedOrder F) (s t : Oms F)
      → Touches other s t
      → Done id mo s
      → Done id mo t
  unfolding Done
  Touches-Done other id mo s t (inl e) (h, k) = (rw e h, k)
  Touches-Done other id mo s t (inr w) (h, k) =
      let apart : id ≢ w.after.order_id = λ e. ground (arith, w.found, w.is_open, w.same_id) in
      (rw w.result (find-put_ne id w.after s.orders apart ∙ h), k)

  transition-Touches :
      (id : ℤ) (new : OrderState) (mo : ManagedOrder F) (s : Oms F)
      → find_order id s.orders ≡ some mo
      → Touches id s (transition new mo s)
  unfolding transition
  transition-Touches id new mo s h = elim (Bool-cases (allowed mo.state new)) [
    | inl e ↦ inr (record {
      before = mo;
      after = moved new mo;
      found = h;
      is_open = allowed-terminal mo.state new e;
      same_id = find_order_id id s.orders mo h;
      result = rw e refl;
    })
    | inr e ↦ inl (rw e (put-find id s.orders mo h))
  ]

module _ {F : Type 0} ⦃f : Float F⦄ where
  cancel-Touches : (id : ℤ) (s : Oms F) → Touches id s (cancel id s)
  unfolding cancel cancel_found
  cancel-Touches id s = elim (Option-cases (find_order id s.orders)) [
    | inl e ↦ rw e (inl refl)
    | inr (mo, e) ↦ elim (Bool-cases (is_terminal mo)) [
      | inl t ↦ inl (rw (e, t) refl)
      | inr t ↦ subst (Touches id s) (rw (e, t) refl) (transition-Touches id pending_cancel mo s e)
    ]
  ]

  on_order_status-Touches :
      (id : ℤ) (new : OrderState) (s : Oms F) → Touches id s (on_order_status id new s)
  unfolding on_order_status status_found
  on_order_status-Touches id new s = elim (Option-cases (find_order id s.orders)) [
    | inl e ↦ inl (rw e refl)
    | inr (mo, e) ↦ elim (Bool-cases (same_state new mo.state)) [
      | inl t ↦ inl (rw (e, t) refl)
      | inr t ↦ elim (Bool-cases (is_fill_state new)) [
        | inl u ↦ inl (rw (e, t, u) refl)
        | inr u ↦ subst (Touches id s) (rw (e, t, u) refl) (transition-Touches id new mo s e)
      ]
    ]
  ]

  accept-Touches :
      (x : Fill F) (qty : ℕ) (mo : ManagedOrder F) (s : Oms F)
      → find_order x.order_id s.orders ≡ some mo
      → is_terminal mo ≡ false
      → Touches x.order_id s (accept x qty mo s)
  unfolding accept transition
  accept-Touches x qty mo s h live =
      let after = with_fill x qty mo in
      let new = state_after after in
      inr (record {
        before = mo;
        after = if allowed mo.state new then moved new after else after;
        found = h;
        is_open = live;
        same_id = ground (arith, find_order_id x.order_id s.orders mo h);
        result = ground arith;
      })

  on_fill-Touches : (x : Fill F) (s : Oms F) → Touches x.order_id s (on_fill x s)
  unfolding on_fill fill_found
  on_fill-Touches x s = elim (Bool-cases (seen x.exec_id s.seen_exec_ids)) [
    | inl e ↦ inl (rw e refl)
    | inr e ↦ elim (Option-cases (find_order x.order_id s.orders)) [
      | inl e' ↦ inl (rw (e, e') refl)
      | inr (mo, e') ↦
          let qty = abs_ℤ x.signed_quantity in
          elim (Bool-cases (is_terminal mo)) [
            | inl t ↦ inl (rw (e, e', t) refl)
            | inr t ↦ elim (Bool-cases (qty == 0 || ltb_ℤ (remaining_quantity mo) (pos qty))) [
              | inl u ↦ inl (rw (e, e', t, u) refl)
              | inr u ↦
                  subst (Touches x.order_id s) (rw (e, e', t, u) refl)
                    (accept-Touches x qty mo s e' t)
            ]
          ]
    ]
  ]

  cancel_each-Done :
      (ids : List ℤ) (id : ℤ) (mo : ManagedOrder F) (s : Oms F)
      → Done id mo s
      → Done id mo (cancel_each ids s)
  unfolding cancel_each
  cancel_each-Done [] id mo s h = h
  cancel_each-Done (first ∷ ids) id mo s h =
      cancel_each-Done ids id mo (cancel first s)
        (Touches-Done first id mo s (cancel first s) (cancel-Touches first s) h)

  Report-Done :
      (id : ℤ) (mo : ManagedOrder F) {s t : Oms F} → Report s t → Done id mo s → Done id mo t
  unfolding cancel_all
  Report-Done id mo {s} (cancelled_one other) h =
      Touches-Done other id mo s _ (cancel-Touches other s) h
  Report-Done id mo {s} cancelled_all h =
      cancel_each-Done (map (λ mo'. mo'.order_id) (open_orders s)) id mo s h
  Report-Done id mo {s} (reported other new) h =
      Touches-Done other id mo s _ (on_order_status-Touches other new s) h
  Report-Done id mo {s} (filled_by x) h = Touches-Done x.order_id id mo s _ (on_fill-Touches x s) h
  Report-Done id mo {s} {t} (seeded symbol quantity price e) h =
      Touches-Done id id mo s t (inl (seeded-orders symbol quantity price s e)) h

  -- An order that is FILLED, CANCELLED or REJECTED is found unchanged after any cancel, status report,
  -- fill or seed, late and duplicate ones included.
  pub Report-terminal :
      (id : ℤ) (mo : ManagedOrder F) {s t : Oms F}
      → Report s t
      → find_order id s.orders ≡ some mo
      → is_terminal mo ≡ true
      → find_order id t.orders ≡ some mo
  unfolding Done
  Report-terminal id mo r h k = (Report-Done id mo r (h, k)).0

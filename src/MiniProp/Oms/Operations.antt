-- ===== src/MiniProp/Oms/Operations.antt =====
-- Each operation keeps every order sound.
use trading_bot.Base.{
  ℕ, map, ◌≡◌, refl, true, false, Option, none, some, List, [], ◌∷◌, inl, inr, arith, ◌||◌, ◌≤◌,
}
use trading_bot.Base.Checks.{Bool-cases, Option-cases, ◌==◌}
use trading_bot.Base.Int.{ℤ, pos, ◌<ℤ◌, abs_ℤ, ltb_ℤ}
use trading_bot.Base.Float.{Float}
use trading_bot.MiniProp.Types.{OrderIntent, Fill}
use trading_bot.MiniProp.Oms.Lookup.{All-put_order, All-find_order}
use trading_bot.MiniProp.Oms.Invariant.{
  begin, step, CountsMatch, IsSound, IsConsistent, CountsMatch-move, CountsMatch-fill,
}
use trading_bot.MiniProp.Oms.{
  OrderState, created, submitted, pending_cancel, rejected, ManagedOrder, Oms, allowed,
  is_fill_state, is_terminal, same_state, moved, transition, fresh_order, submit, find_order,
  cancel, cancel_found, cancel_each, open_orders, cancel_all, status_found, on_order_status,
  on_fill, fill_found, accept, with_fill, state_after, remaining_quantity, seen,
}

module _ {F : Type 0} where
  transition-IsConsistent :
      (new : OrderState) (mo : ManagedOrder F) (s : Oms F)
      → (allowed mo.state new ≡ true → IsSound (moved new mo))
      → (allowed mo.state new ≡ false → IsSound mo)
      → IsConsistent s
      → IsConsistent (transition new mo s)
  unfolding transition
  transition-IsConsistent new mo s yes_sound no_sound h = elim (Bool-cases (allowed mo.state new)) [
    | inl e ↦ rw e (All-put_order IsSound (moved new mo) s.orders (yes_sound e) h)
    | inr e ↦ rw e (All-put_order IsSound mo s.orders (no_sound e) h)
  ]

  -- A move without a fill keeps an order sound.
  moved-IsSound :
      (new : OrderState) (mo : ManagedOrder F)
      → is_fill_state new ≡ false
      → IsSound mo
      → allowed mo.state new ≡ true
      → IsSound (moved new mo)
  moved-IsSound new mo k h e = record {
    asked = h.asked;
    counts =
        CountsMatch-move mo.state new mo.filled_quantity mo.intent.quantity e k h.asked h.counts;
    path = step h.path e;
  }

module _ {F : Type 0} ⦃f : Float F⦄ where
  fresh-IsSound :
      (new : OrderState) (id : ℤ) (i : OrderIntent F)
      → (CountsMatch new 0 i.quantity)
      → pos 0 <ℤ i.quantity
      → allowed created new ≡ true
      → IsSound (moved new (fresh_order id i))
  fresh-IsSound new id i c h e = record { asked = h; counts = c; path = step begin e }

  pub submit-IsConsistent :
      (i : OrderIntent F) (answer : Option ℤ) (s : Oms F)
      → pos 0 <ℤ i.quantity
      → IsConsistent s
      → IsConsistent (submit i answer s)
  unfolding submit
  submit-IsConsistent i none s h k =
      transition-IsConsistent rejected (fresh_order _ i) s (fresh-IsSound rejected _ i refl h)
        (λ e. cc) k
  submit-IsConsistent i (some id) s h k =
      transition-IsConsistent submitted (fresh_order id i) s (fresh-IsSound submitted id i refl h)
        (λ e. cc) k

  move-IsConsistent :
      (new : OrderState) (mo : ManagedOrder F) (s : Oms F)
      → is_fill_state new ≡ false
      → IsSound mo
      → IsConsistent s
      → IsConsistent (transition new mo s)
  move-IsConsistent new mo s k h =
      transition-IsConsistent new mo s (moved-IsSound new mo k h) (λ e. h)

  pub cancel-IsConsistent : (id : ℤ) (s : Oms F) → IsConsistent s → IsConsistent (cancel id s)
  unfolding cancel cancel_found
  cancel-IsConsistent id s k = elim (Option-cases (find_order id s.orders)) [
    | inl e ↦ rw e k
    | inr (mo, e) ↦
        let sound = All-find_order IsSound id s.orders k e in
        elim (Bool-cases (is_terminal mo)) [
          | inl t ↦ rw (e, t) k
          | inr t ↦ rw (e, t) (move-IsConsistent pending_cancel mo s refl sound k)
        ]
  ]

  cancel_each-IsConsistent :
      (ids : List ℤ) (s : Oms F) → IsConsistent s → IsConsistent (cancel_each ids s)
  unfolding cancel_each
  cancel_each-IsConsistent [] s k = k
  cancel_each-IsConsistent (id ∷ ids) s k =
      cancel_each-IsConsistent ids (cancel id s) (cancel-IsConsistent id s k)

  pub cancel_all-IsConsistent : (s : Oms F) → IsConsistent s → IsConsistent (cancel_all s).0
  unfolding cancel_all
  cancel_all-IsConsistent s k =
      cancel_each-IsConsistent (map (λ mo. mo.order_id) (open_orders s)) s k

  status_found-IsConsistent :
      (new : OrderState) (mo : ManagedOrder F) (s : Oms F)
      → IsSound mo
      → IsConsistent s
      → IsConsistent (status_found new (some mo) s)
  unfolding status_found
  status_found-IsConsistent new mo s h k = elim (Bool-cases (same_state new mo.state)) [
    | inl e ↦ rw e k
    | inr e ↦ elim (Bool-cases (is_fill_state new)) [
      | inl t ↦ rw (e, t) k
      | inr t ↦ rw (e, t) (move-IsConsistent new mo s t h k)
    ]
  ]

  pub on_order_status-IsConsistent :
      (id : ℤ) (new : OrderState) (s : Oms F)
      → IsConsistent s
      → IsConsistent (on_order_status id new s)
  unfolding on_order_status
  on_order_status-IsConsistent id new s k = elim (Option-cases (find_order id s.orders)) [
    | inl e ↦ rw e k
    | inr (mo, e) ↦
        rw e (status_found-IsConsistent new mo s (All-find_order IsSound id s.orders k e) k)
  ]

  accept-IsConsistent :
      (x : Fill F) (qty : ℕ) (mo : ManagedOrder F) (s : Oms F)
      → 1 ≤ qty
      → is_terminal mo ≡ false
      → ltb_ℤ (remaining_quantity mo) (pos qty) ≡ false
      → IsSound mo
      → IsConsistent s
      → IsConsistent (accept x qty mo s)
  unfolding accept remaining_quantity
  accept-IsConsistent x qty mo s some_shares live enough h k =
      let (counts, move) =
        CountsMatch-fill mo.state mo.filled_quantity qty mo.intent.quantity live h.counts
          some_shares enough in
      transition-IsConsistent (state_after (with_fill x qty mo)) (with_fill x qty mo) _
        (λ e. record { asked = h.asked; counts = counts; path = step h.path e })
        (λ e. ground (arith, move)) k

  fill_found-IsConsistent :
      (x : Fill F) (mo : ManagedOrder F) (s : Oms F)
      → IsSound mo
      → IsConsistent s
      → IsConsistent (fill_found x (some mo) s)
  unfolding fill_found
  fill_found-IsConsistent x mo s h k =
      let qty = abs_ℤ x.signed_quantity in
      elim (Bool-cases (is_terminal mo)) [
        | inl t ↦ rw t k
        | inr t ↦ elim (Bool-cases (qty == 0 || ltb_ℤ (remaining_quantity mo) (pos qty))) [
          | inl e ↦ rw (t, e) k
          | inr e ↦ rw (t, e) (accept-IsConsistent x qty mo s (ground arith) t (ground arith) h k)
        ]
      ]

  pub on_fill-IsConsistent : (x : Fill F) (s : Oms F) → IsConsistent s → IsConsistent (on_fill x s)
  unfolding on_fill
  on_fill-IsConsistent x s k = elim (Bool-cases (seen x.exec_id s.seen_exec_ids)) [
    | inl e ↦ rw e k
    | inr e ↦ elim (Option-cases (find_order x.order_id s.orders)) [
      | inl e' ↦ rw (e, e') k
      | inr (mo, e') ↦
          rw (e, e')
            (fill_found-IsConsistent x mo s (All-find_order IsSound x.order_id s.orders k e') k)
    ]
  ]

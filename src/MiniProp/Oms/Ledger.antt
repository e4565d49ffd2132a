-- ===== src/MiniProp/Oms/Ledger.antt =====
-- What one execution does to its order, to the positions and to the next report of it.
use trading_bot.Base.{
  ℕ, ◌≡◌, refl, ◌⊎◌, inl, inr, true, false, Option, none, some, ◌||◌, ap, arith, subst,
}
use trading_bot.Base.Checks.{Bool-cases, Option-cases, ◌==◌}
use trading_bot.Base.Lists.{contains}
use trading_bot.Base.Int.{pos, abs_ℤ, ltb_ℤ}
use trading_bot.Base.Float.{Float}
use trading_bot.MiniProp.Types.{Fill}
use trading_bot.MiniProp.Oms.Booking.{Books, Ignorable, accept-Books, refused}
use trading_bot.MiniProp.Oms.Lookup.{All-find_order}
use trading_bot.MiniProp.Oms.Invariant.{IsConsistent, IsSound}
use trading_bot.MiniProp.Oms.{
  ManagedOrder, Oms, on_fill, find_order, is_terminal, transition, fill_found, accept, seen,
  remaining_quantity,
}

module _ {F : Type 0} ⦃f : Float F⦄ where
  -- In a consistent state of the order manager, a fill either changes nothing, and then it was reported
  -- before, or is of no order that is open, or of no shares, or of more than were left; or it is of an
  -- open order and not reported before, and is booked on it: its shares are added to the order, which is
  -- FILLED when it has all that its intent wants and PARTIALLY_FILLED before, and the position moves by
  -- them in the direction of the intent, whatever sign the report has. Other positions stay.
  pub on_fill_lem :
      (x : Fill F) (s : Oms F)
      → IsConsistent s
      → (Ignorable x s × (on_fill x s ≡ s))
        ⊎ ((mo : ManagedOrder F) × (find_order x.order_id s.orders ≡ some mo)
            × (is_terminal mo ≡ false)
            × (seen x.exec_id s.seen_exec_ids ≡ false)
            × Books x mo s (on_fill x s))
  unfolding on_fill fill_found
  on_fill_lem x s k = elim (Bool-cases (seen x.exec_id s.seen_exec_ids)) [
    | inl e ↦ inl (inl e, rw e refl)
    | inr e ↦ elim (Option-cases (find_order x.order_id s.orders)) [
      | inl e' ↦ inl (inr (inl e'), rw (e, e') refl)
      | inr (mo, e') ↦
          let qty = abs_ℤ x.signed_quantity in
          elim (Bool-cases (is_terminal mo)) [
            | inl t ↦ inl (inr (inr (mo, e', inl t)), rw (e, e', t) refl)
            | inr t ↦ elim (Bool-cases (qty == 0 || ltb_ℤ (remaining_quantity mo) (pos qty))) [
              | inl u ↦ inl (inr (inr (mo, e', inr (refused mo qty u))), rw (e, e', t, u) refl)
              | inr u ↦ inr (
                mo,
                e',
                t,
                e,
                subst (Books x mo s) (rw (e, e', t, u) refl) (
                    accept-Books x mo s e' (All-find_order IsSound x.order_id s.orders k e') t
                      (ground arith) (ground arith)),
              )
            ]
          ]
    ]
  ]

  accept-seen :
      (x : Fill F) (qty id : ℕ) (mo : ManagedOrder F) (s : Oms F)
      → x.exec_id ≡ some id
      → contains id (accept x qty mo s).seen_exec_ids ≡ true
  unfolding accept transition
  accept-seen x qty id mo s h = ground (arith, h)

  fill_found-seen :
      (x : Fill F) (id : ℕ) (found : Option (ManagedOrder F)) (s : Oms F)
      → x.exec_id ≡ some id
      → (fill_found x found s ≡ s) ⊎ (contains id (fill_found x found s).seen_exec_ids ≡ true)
  unfolding fill_found
  fill_found-seen x id none s h = inl refl
  fill_found-seen x id (some mo) s h =
      ground (arith, accept-seen x (abs_ℤ x.signed_quantity) id mo s h)

  on_fill-seen :
      (x : Fill F) (id : ℕ) (s : Oms F)
      → x.exec_id ≡ some id
      → (on_fill x s ≡ s) ⊎ (seen x.exec_id (on_fill x s).seen_exec_ids ≡ true)
  unfolding on_fill
  on_fill-seen x id s h =
      ground (arith, h, fill_found-seen x id (find_order x.order_id s.orders) s h)

  on_fill-ignored :
      (x : Fill F) (s : Oms F) → seen x.exec_id s.seen_exec_ids ≡ true → on_fill x s ≡ s
  unfolding on_fill
  on_fill-ignored x s h = rw h refl

  -- An execution with an id that is reported twice is booked once.
  pub on_fill-on_fill :
      (x : Fill F) (id : ℕ) (s : Oms F)
      → x.exec_id ≡ some id
      → on_fill x (on_fill x s) ≡ on_fill x s
  on_fill-on_fill x id s h = elim (on_fill-seen x id s h) [
    | inl e ↦ ap (on_fill x) e
    | inr e ↦ on_fill-ignored x (on_fill x s) e
  ]

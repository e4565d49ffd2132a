-- ===== src/MiniProp/Oms/Booking.antt =====
-- What it is to book an execution on an order, and that `on_fill` does so once it accepts one.
use trading_bot.Base.{
  ℕ, ◌+◌, ◌≤◌, ◌≡◌, refl, sym, ◌∙◌, ◌⊎◌, inl, inr, ◌≢◌, true, false, none, some, ◌||◌, ap, arith,
}
use trading_bot.Base.Checks.{Bool-cases, ◌==◌}
use trading_bot.Base.Dict.{Dict, insert, lookup, lookup-insert_self, lookup-insert_ne}
use trading_bot.Base.Int.{
  pos, ℤ, ◌+ℤ◌, ◌-ℤ◌, neg_ℤ, ◌≤ℤ◌, ◌<ℤ◌, abs_ℤ, ltb_ℤ, -ℤ_parts, eq_of_parts,
}
use trading_bot.Base.Float.{Float}
use trading_bot.MiniProp.Types.{Fill, Position, Action, buy, sell, signed_quantity}
use trading_bot.MiniProp.Types.Accounting.{apply_fill-quantity}
use trading_bot.MiniProp.Oms.Lookup.{find-put_self, find_order_id}
use trading_bot.MiniProp.Oms.Invariant.{IsSound, CountsMatch-fill}
use trading_bot.MiniProp.Oms.{
  OrderState, filled, partially_filled, ManagedOrder, Oms, find_order, is_terminal, transition,
  accept, seen, remaining_quantity, moved, with_fill, state_after, signed_fill, position_of,
}

-- `n` shares more or less, by the side of the order.
abbrev pub Moves : Action → ℕ → ℤ → ℤ → Type 0
Moves a n before after =
    ((a ≡ buy) × (after ≡ before +ℤ pos n)) ⊎ ((a ≡ sell) × (after ≡ before -ℤ pos n))

-- An order is FILLED when it has all its shares, and PARTIALLY_FILLED before.
abbrev pub StateMatches : OrderState → ℕ → ℤ → Type 0
StateMatches st n wanted =
    ((st ≡ filled) × (pos n ≡ wanted)) ⊎ ((st ≡ partially_filled) × (pos n <ℤ wanted))

add_neg : (a : ℤ) (n : ℕ) → a +ℤ neg_ℤ (pos n) ≡ a -ℤ pos n
unfolding ◌+ℤ◌ ◌-ℤ◌ neg_ℤ
add_neg a n = ground arith

module _ {F : Type 0} ⦃f : Float F⦄ where
  -- `x` is booked on `mo`: its shares, no more than were left, are added to the order, and the position
  -- in the symbol moves by them, up for a purchase and down for a sale; the positions of other symbols
  -- stay.
  pub record Books (x : Fill F) (mo : ManagedOrder F) (s t : Oms F) : Type 0 where
    pub some_shares : 1 ≤ abs_ℤ x.signed_quantity
    pub within : pos (mo.filled_quantity + abs_ℤ x.signed_quantity) ≤ℤ mo.intent.quantity
    pub booked : ManagedOrder F
    pub order : find_order x.order_id t.orders ≡ some booked
    pub same_intent : booked.intent ≡ mo.intent
    pub shares : booked.filled_quantity ≡ mo.filled_quantity + abs_ℤ x.signed_quantity
    pub state : StateMatches booked.state booked.filled_quantity mo.intent.quantity
    pub position :
        Moves mo.intent.action
          (abs_ℤ x.signed_quantity)
          (position_of x.symbol s.positions).quantity
          (position_of x.symbol t.positions).quantity
    pub others :
        (symbol : ℕ) → symbol ≢ x.symbol → lookup symbol t.positions ≡ lookup symbol s.positions

  -- Reported before, of no order, or of one that is closed, of no shares, or of more than were left.
  abbrev pub Ignorable : Fill F → Oms F → Type 0
  Ignorable x s =
      (seen x.exec_id s.seen_exec_ids ≡ true)
      ⊎ ((find_order x.order_id s.orders ≡ none)
          ⊎ ((mo : ManagedOrder F) × (find_order x.order_id s.orders ≡ some mo)
              × ((is_terminal mo ≡ true)
                  ⊎ ((abs_ℤ x.signed_quantity ≡ 0)
                      ⊎ (mo.intent.quantity
                          <ℤ pos (mo.filled_quantity + abs_ℤ x.signed_quantity))))))

  position_of-insert :
      (symbol : ℕ) (p : Position F) (ps : Dict (Position F))
      → position_of symbol (insert symbol p ps) ≡ p
  unfolding position_of
  position_of-insert symbol p ps = rw (position_of, lookup-insert_self symbol p ps) refl

  -- The sign of a fill is the side of the order, whatever sign the broker reports.
  signed_fill-Moves :
      (mo : ManagedOrder F) (qty : ℕ) (before after : ℤ)
      → pos 0 <ℤ mo.intent.quantity
      → after ≡ before +ℤ signed_fill mo qty
      → Moves mo.intent.action qty before after
  unfolding signed_fill signed_quantity neg_ℤ
  signed_fill-Moves mo qty before after asked h = ground (arith, add_neg before qty)

  over_left :
      (mo : ManagedOrder F) (qty : ℕ)
      → ltb_ℤ (remaining_quantity mo) (pos qty) ≡ true
      → mo.intent.quantity <ℤ pos (mo.filled_quantity + qty)
  unfolding remaining_quantity
  over_left mo qty h = ground (arith, -ℤ_parts mo.intent.quantity (pos mo.filled_quantity))

  within_left :
      (mo : ManagedOrder F) (qty : ℕ)
      → ltb_ℤ (remaining_quantity mo) (pos qty) ≡ false
      → pos (mo.filled_quantity + qty) ≤ℤ mo.intent.quantity
  unfolding remaining_quantity
  within_left mo qty h = ground (arith, -ℤ_parts mo.intent.quantity (pos mo.filled_quantity))

  pub refused :
      (mo : ManagedOrder F) (qty : ℕ)
      → (qty == 0 || ltb_ℤ (remaining_quantity mo) (pos qty)) ≡ true
      → (qty ≡ 0) ⊎ (mo.intent.quantity <ℤ pos (mo.filled_quantity + qty))
  refused mo qty h = elim (Bool-cases (ltb_ℤ (remaining_quantity mo) (pos qty))) [
    | inl e ↦ inr (over_left mo qty e)
    | inr e ↦ inl (ground arith)
  ]

  state_after-StateMatches :
      (mo : ManagedOrder F)
      → pos mo.filled_quantity ≤ℤ mo.intent.quantity
      → StateMatches (state_after mo) mo.filled_quantity mo.intent.quantity
  unfolding remaining_quantity
  state_after-StateMatches mo within = ground (
    arith,
    within,
    -ℤ_parts mo.intent.quantity (pos mo.filled_quantity),
    eq_of_parts (pos mo.filled_quantity) mo.intent.quantity,
  )

  pub accept-Books :
      (x : Fill F) (mo : ManagedOrder F) (s : Oms F)
      → find_order x.order_id s.orders ≡ some mo
      → IsSound mo
      → is_terminal mo ≡ false
      → 1 ≤ abs_ℤ x.signed_quantity
      → ltb_ℤ (remaining_quantity mo) (pos (abs_ℤ x.signed_quantity)) ≡ false
      → Books x mo s (accept x (abs_ℤ x.signed_quantity) mo s)
  unfolding accept transition remaining_quantity
  accept-Books x mo s h sound live some_shares enough =
      let qty = abs_ℤ x.signed_quantity in
      let after = with_fill x qty mo in
      let (_, move) =
        CountsMatch-fill mo.state mo.filled_quantity qty mo.intent.quantity live sound.counts
          some_shares enough in
      let same_id = find_order_id x.order_id s.orders mo h in
      let within = within_left mo qty enough in
      record {
        some_shares = some_shares;
        within = within;
        booked = moved (state_after after) after;
        order =
            rw move (rw (sym same_id) (find-put_self (moved (state_after after) after) s.orders));
        same_intent = refl;
        shares = refl;
        state = state_after-StateMatches after within;
        position = rw move (
            signed_fill-Moves mo qty _ _ sound.asked (
              ap (λ p. p.quantity) (position_of-insert x.symbol _ s.positions)
              ∙ apply_fill-quantity _ x.price _));
        others = λ symbol apart. rw move (lookup-insert_ne symbol x.symbol _ s.positions apart);
      }

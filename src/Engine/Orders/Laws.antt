-- ===== src/Engine/Orders/Laws.antt =====
-- What the order cap of engine/orders.py keeps and what it drops.
use mathlib.Core.List.{Perm, perm_middle}
use mathlib.Core.List.Perm
use Prim.Native.Nat.{min}
use trading_bot.Base.{
  ℕ, zero, suc, ◌≤◌, ◌≡◌, refl, ap, ◌⊎◌, inl, inr, List, [], ◌∷◌, ◌++◌, map, arith,
}
use trading_bot.Base.Lists.{
  length, length-append, length-drop, take, drop, select, All, All-take, All-append, All-select_sub,
  All-drop, All-select, length-take, take-append-drop,
}
use trading_bot.Engine.Orders.{
  Order, DroppedOrder, buy, sell, is_sell, is_buy, drop_for, order_cap, sort_for_submission,
  truncate_to_cap,
}

module _ {F : Type 0} where
  orders_of : List (DroppedOrder F) → List (Order F)
  orders_of = map λ d. d.order

  -- Sorting neither loses an order nor invents one.
  pub sort_for_submission-perm :
      (orders : List (Order F)) → Perm (sort_for_submission orders) orders
  unfolding sort_for_submission
  sort_for_submission-perm [] = Perm.rfl
  sort_for_submission-perm (o ∷ os) =
      let rest = Perm.cons o (sort_for_submission-perm os) in
      ground (arith, rest, Perm.trans (perm_middle (select is_sell os) (select is_buy os)) rest)

  abbrev pub IsSell : Order F → Type 0
  IsSell o = o.side ≡ sell

  abbrev pub IsBuy : Order F → Type 0
  IsBuy o = o.side ≡ buy

  -- Either every order dropped is a buy, or no buy is kept.
  abbrev pub SellsFirst : List (Order F) → List (Order F) → Type 0
  SellsFirst kept dropped = All IsBuy dropped ⊎ All IsSell kept

  SellsFirst-split :
      (cap : ℕ) (sells buys : List (Order F))
      → All IsSell sells
      → All IsBuy buys
      → SellsFirst (take cap (sells ++ buys)) (drop cap (sells ++ buys))
  SellsFirst-split cap [] buys s b = inl (All-drop IsBuy cap buys b)
  SellsFirst-split zero (o ∷ sells) buys s b = inr tt
  SellsFirst-split (suc cap) (o ∷ sells) buys s b =
      ground (arith, SellsFirst-split cap sells buys s.1 b)

  sorted_split :
      (cap : ℕ) (orders : List (Order F))
      → SellsFirst (take cap (sort_for_submission orders)) (drop cap (sort_for_submission orders))
  unfolding sort_for_submission
  sorted_split cap orders =
      SellsFirst-split cap (select is_sell orders) (select is_buy orders)
        (All-select IsSell is_sell (λ o h. ground arith) orders)
        (All-select IsBuy is_buy (λ o h. ground arith) orders)

  orders_of-drop_for : (os : List (Order F)) → orders_of (map (drop_for order_cap) os) ≡ os
  unfolding orders_of
  orders_of-drop_for [] = refl
  orders_of-drop_for (o ∷ os) = ap (◌∷◌ o) (orders_of-drop_for os)

  length-sort_for_submission : (os : List (Order F)) → length (sort_for_submission os) ≡ length os
  unfolding sort_for_submission
  length-sort_for_submission [] = refl
  length-sort_for_submission (o ∷ os) = ground (
    arith,
    length-append (select is_sell os) (select is_buy os),
    length-append (select is_sell os) (o ∷ select is_buy os),
    length-sort_for_submission os,
  )

  -- The cap keeps as many orders as it allows, loses none (those dropped are reported), and drops a
  -- sell only when it keeps no buy.
  pub truncate_to_cap_lem :
      (orders : List (Order F)) (cap : ℕ)
      → let (kept, dropped) = truncate_to_cap orders cap in
        (length kept ≡ min cap (length orders))
        × Perm (kept ++ map (λ d. d.order) dropped) orders
        × SellsFirst kept (map (λ d. d.order) dropped)
  unfolding truncate_to_cap orders_of
  truncate_to_cap_lem orders cap =
      let sorted = sort_for_submission orders in
      rw (orders_of-drop_for (drop cap sorted)) (
        omega (arith, length-take cap sorted, length-sort_for_submission orders),
        rw (take-append-drop cap sorted) (sort_for_submission-perm orders),
        sorted_split cap orders,
      )

  -- What holds of every order holds of every order that the cap keeps.
  pub truncate_to_cap-All {ℓ} :
      (P : Order F → Type ℓ) (orders : List (Order F)) (cap : ℕ)
      → All P orders
      → All P (truncate_to_cap orders cap).0
  unfolding truncate_to_cap sort_for_submission
  truncate_to_cap-All P orders cap h =
      All-take P cap (select is_sell orders ++ select is_buy orders) (
        All-append P (select is_sell orders) (select is_buy orders)
          (All-select_sub P is_sell orders h) (All-select_sub P is_buy orders h))

  over-All {ℓ κ} :
      {Q : Type κ} (P : Order F → Type ℓ) (os : List (Order F))
      → (1 ≤ length os → Q)
      → All P os
      → All (λ d. P d.order × (d.reason ≡ order_cap) × Q) (map (drop_for order_cap) os)
  over-All P [] q h = tt
  over-All P (o ∷ os) q (h, hs) =
      ((h, refl, q (omega arith)), over-All P os (λ _. q (omega arith)) hs)

  -- What holds of every order holds of those over the cap, and then the cap is reached.
  pub truncate_to_cap-over {ℓ} :
      (P : Order F → Type ℓ) (orders : List (Order F)) (cap : ℕ)
      → All P orders
      → let (kept, dropped) = truncate_to_cap orders cap in
        All (λ d. P d.order × (d.reason ≡ order_cap) × (length kept ≡ cap)) dropped
  unfolding truncate_to_cap sort_for_submission
  truncate_to_cap-over P orders cap h =
      let sorted = sort_for_submission orders in
      over-All P (drop cap sorted)
        (λ some_over. omega (arith, length-drop cap sorted, length-take cap sorted))
        (All-drop P cap sorted (
          All-append P (select is_sell orders) (select is_buy orders)
            (All-select_sub P is_sell orders h) (All-select_sub P is_buy orders h)))

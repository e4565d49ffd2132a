-- ===== src/MiniProp/Oms/Lookup.antt =====
-- The dict of orders: what a lookup finds after an update.
use trading_bot.Base.{◌≡◌, ◌≢◌, some, List, [], ◌∷◌, arith, subst, inl, inr}
use trading_bot.Base.Checks.{Bool-cases}
use trading_bot.Base.Lists.{All}
use trading_bot.Base.Int.{ℤ, eqb_ℤ, eq_of_parts}
use trading_bot.MiniProp.Oms.{ManagedOrder, find_order, put_order}

some-injective : {A : Type 0} {x y : A} → some x ≡ some y → x ≡ y
some-injective h = cc

module _ {F : Type 0} where
  pub find-put_self :
      (mo : ManagedOrder F) (mos : List (ManagedOrder F))
      → find_order mo.order_id (put_order mo mos) ≡ some mo
  find-put_self mo [] = ground arith
  find-put_self mo (other ∷ mos) = ground (arith, find-put_self mo mos)

  pub find-put_ne :
      (id : ℤ) (mo : ManagedOrder F) (mos : List (ManagedOrder F))
      → id ≢ mo.order_id
      → find_order id (put_order mo mos) ≡ find_order id mos
  find-put_ne id mo [] h = ground (arith, eq_of_parts id mo.order_id)
  find-put_ne id mo (other ∷ mos) h = ground (
    arith,
    eq_of_parts mo.order_id other.order_id,
    eq_of_parts id mo.order_id,
    find-put_ne id mo mos h,
  )

  pub find_order_id :
      (id : ℤ) (mos : List (ManagedOrder F)) (mo : ManagedOrder F)
      → find_order id mos ≡ some mo
      → mo.order_id ≡ id
  find_order_id id [] mo h = cc
  find_order_id id (other ∷ mos) mo h =
      ground (arith, eq_of_parts id other.order_id, find_order_id id mos mo)

  -- Storing what is there changes nothing.
  pub put-find :
      (id : ℤ) (mos : List (ManagedOrder F)) (mo : ManagedOrder F)
      → find_order id mos ≡ some mo
      → put_order mo mos ≡ mos
  put-find id [] mo h = cc
  put-find id (other ∷ mos) mo h =
      ground (arith, eq_of_parts id other.order_id, find_order_id id mos mo, put-find id mos mo)

  pub All-put_order :
      (P : ManagedOrder F → Type 0) (mo : ManagedOrder F) (mos : List (ManagedOrder F))
      → P mo
      → All P mos
      → All P (put_order mo mos)
  All-put_order P mo [] p ps = (p, tt)
  All-put_order P mo (other ∷ mos) p (q, ps) =
      elim (Bool-cases (eqb_ℤ mo.order_id other.order_id)) [
        | inl e ↦ rw e (p, ps)
        | inr e ↦ rw e (q, All-put_order P mo mos p ps)
      ]

  pub All-find_order :
      (P : ManagedOrder F → Type 0) (id : ℤ) (mos : List (ManagedOrder F)) {mo : ManagedOrder F}
      → All P mos
      → find_order id mos ≡ some mo
      → P mo
  All-find_order P id [] ps h = cc
  All-find_order P id (other ∷ mos) (p, ps) h = elim (Bool-cases (eqb_ℤ id other.order_id)) [
    | inl e ↦ subst P (some-injective (rw e at h)) p
    | inr e ↦ All-find_order P id mos ps (rw e at h)
  ]

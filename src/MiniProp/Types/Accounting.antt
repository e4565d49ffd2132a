-- ===== src/MiniProp/Types/Accounting.antt =====
-- Average-cost accounting of one position.
use trading_bot.Base.{◌≡◌, ◌≢◌, min, sym, ◌∙◌, arith}
use trading_bot.Base.Int.{ℤ, pos, ◌+ℤ◌, abs_ℤ, neg_ℤ, ◌<ℤ◌}
use trading_bot.Base.Float.{Float, nought}
use trading_bot.MiniProp.Types.{Position, apply_fill, add_to, reduce, direction}

-- What closes a position is all of it, in its direction.
closing_all :
    (held qty : ℤ) → held +ℤ qty ≡ pos 0 → direction held (min (abs_ℤ qty) (abs_ℤ held)) ≡ held
unfolding ◌+ℤ◌ neg_ℤ
closing_all held qty h = ground arith

module _ {F : Type 0} ⦃f : Float F⦄ where
  open f use {add, sub, mul, of_int}

  -- Every branch moves the quantity by the fill.
  pub apply_fill-quantity :
      (qty : ℤ) (price : F) (p : Position F) → (apply_fill qty price p).quantity ≡ p.quantity +ℤ qty
  unfolding apply_fill add_to reduce ◌+ℤ◌
  apply_fill-quantity qty price p = ground arith

  -- A flat position carries no average price.
  pub record IsSettled (p : Position F) : Type 0 where
    pub no_price : p.quantity ≡ pos 0 → p.avg_price ≡ nought

  pub apply_fill-IsSettled :
      (qty : ℤ) (price : F) (p : Position F) → IsSettled p → IsSettled (apply_fill qty price p)
  unfolding apply_fill add_to reduce ◌+ℤ◌
  apply_fill-IsSettled qty price p h = record { no_price = ground (arith, h.no_price) }

  pub record IsAccounted (qty : ℤ) (price : F) (p q : Position F) : Type 0 where
    pub moved : q.quantity ≡ p.quantity +ℤ qty
    pub settled : IsSettled q
    pub closed :
        q.quantity ≡ pos 0
        → p.quantity ≢ pos 0
        → q.realized_pnl ≡ add p.realized_pnl (mul (of_int p.quantity) (sub price p.avg_price))
    pub reopened : (pos 0 <ℤ p.quantity) → (q.quantity <ℤ pos 0) → q.avg_price ≡ price

  apply_fill-closed :
      (qty : ℤ) (price : F) (p : Position F)
      → (apply_fill qty price p).quantity ≡ pos 0
      → p.quantity ≢ pos 0
      → (apply_fill qty price p).realized_pnl
        ≡ add p.realized_pnl (mul (of_int p.quantity) (sub price p.avg_price))
  unfolding apply_fill add_to reduce ◌+ℤ◌ neg_ℤ
  apply_fill-closed qty price p h k =
      ground (arith, h, k, closing_all p.quantity qty (sym (apply_fill-quantity qty price p) ∙ h))

  -- A fill moves the position by its quantity. A position that it closes has no average price left and
  -- has realised its whole quantity at the fill's price; one that it turns from long to short opens at
  -- the fill's price.
  pub apply_fill_lem :
      (qty : ℤ) (price : F) (p : Position F)
      → IsSettled p
      → IsAccounted qty price p (apply_fill qty price p)
  unfolding apply_fill add_to reduce ◌+ℤ◌
  apply_fill_lem qty price p h = record {
    moved = apply_fill-quantity qty price p;
    settled = apply_fill-IsSettled qty price p h;
    closed = apply_fill-closed qty price p;
    reopened = λ long short. ground arith;
  }

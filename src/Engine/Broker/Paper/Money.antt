-- ===== src/Engine/Broker/Paper/Money.antt =====
-- What one execution of the paper broker does to cash and positions.
use trading_bot.Base.{ℕ, Bool, true, false, ◌≡◌, ◌≢◌, refl, sym, inl, inr, arith}
use trading_bot.Base.Checks.{Bool-cases}
use trading_bot.Base.Dict.{Dict, lookup, lookup_or, insert, lookup-insert_ne, lookup-erase_ne}
use trading_bot.Base.Float.{Float, nought}
use trading_bot.Engine.Errors.{ok, err}
use trading_bot.Engine.Costs.{OrderCost, total}
use trading_bot.Engine.Orders.{Order, OrderStatus, Side, buy, sell, filled, partially_filled}
use trading_bot.Engine.Broker.Paper.{
  PaperBroker, Outcome, execute_one, by_side, buy_at, sell_at, set_position,
}
use trading_bot.Engine.Broker.Paper.Laws.{execute_one-ends}

abbrev is_fill : OrderStatus → Bool
is_fill filled = true
is_fill partially_filled = true
is_fill _ = false

module _ {F : Type 0} ⦃f : Float F⦄ where
  open f use {lit, add, sub, mul, lt, le, neg}

  -- No fill, no change; and no other symbol's position moves.
  abbrev pub Settles : PaperBroker F → Order F → Outcome F → Type 0
  Settles b o (err e, b') = b' ≡ b
  Settles b o (ok r, b') =
      (is_fill r.status ≡ false → (b' ≡ b) × (r.filled_shares ≡ nought))
      × ((j : ℕ) → j ≢ o.symbol → lookup j b'.positions ≡ lookup j b.positions)

  lookup-set_position :
      (j sym : ℕ) (left : F) (ps : Dict F)
      → j ≢ sym
      → lookup j (set_position sym left ps) ≡ lookup j ps
  unfolding set_position
  lookup-set_position j sym left ps h =
      ground (arith, lookup-insert_ne j sym left ps h, lookup-erase_ne j sym (insert sym left ps) h)

  by_side-Settles :
      (d : Side) (b : PaperBroker F) (o : Order F) (px fr amount : F) (cost : OrderCost F)
      → Settles b o (by_side d b o px fr amount cost)
  unfolding by_side buy_at sell_at
  by_side-Settles buy b o px fr amount cost =
      elim (Bool-cases (lt (add b.cash (lit 1 9)) (add (mul amount px) (total cost)))) [
        | inl short ↦ rw short (λ _. (refl, refl), λ j h. refl)
        | inr paid ↦
            rw paid (λ no_fill. ground arith, λ j h. lookup-insert_ne j o.symbol _ b.positions h)
      ]
  by_side-Settles sell b o px fr amount cost =
      elim (Bool-cases (lt (add (lookup_or o.symbol nought b.positions) (lit 1 9)) amount)) [
        | inl too_many ↦ rw too_many (λ _. (refl, refl), λ j h. refl)
        | inr held ↦ elim (Bool-cases (lt (mul amount px) (total cost))) [
          | inl dust ↦ rw (held, dust) (λ _. (refl, refl), λ j h. refl)
          | inr worth ↦
              rw (held, worth)
                (λ no_fill. ground arith, λ j h. lookup-set_position j o.symbol _ b.positions h)
        ]
      ]

  -- An execution that raises or does not fill leaves the account as it was and reports no shares,
  -- and no execution touches the position of another symbol.
  pub execute_one_lem : (b : PaperBroker F) (o : Order F) → Settles b o (execute_one b o)
  execute_one_lem b o = execute_one-ends (Settles b o) b o (
    λ s. (λ _. (refl, refl), λ j h. refl),
    λ e. refl,
    λ px fr amount cost _ _ _. by_side-Settles o.side b o px fr amount cost,
  )

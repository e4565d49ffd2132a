-- ===== src/MiniProp/Guardrails/Flatten.antt =====
-- The orders that close the book.
use mathlib.Core.List.{Perm, Memᴰ}
use mathlib.Core.List.Perm
use trading_bot.Base.{
  ℕ, suc, ◌≡◌, ◌≢◌, some, refl, ◌∙◌, inl, inr, Bool, true, false, not, [], ◌∷◌, map, arith, ap,
}
use trading_bot.Base.Checks.{leb, Bool-cases}
use trading_bot.Base.Lists.{All, All-Mem, select}
use trading_bot.Base.Dict.{Dict, lookup}
use trading_bot.Base.Int.{ℤ, pos, neg_ℤ, ◌<ℤ◌, eqb_ℤ}
use trading_bot.MiniProp.Types.{OrderIntent, signed_quantity}
use trading_bot.Base.Float.{Float}
use trading_bot.MiniProp.Guardrails.Gate.{flatten-approved}
use trading_bot.MiniProp.Guardrails.{
  RiskLimits, PortfolioSnapshot, RiskGuardrails, validate, approved, valid_price, flatten_intents,
  close_each, sorted, insert_sorted, closing, is_flatten, is_limit,
}

-- The positions that are not flat.
abbrev pub is_open_position : ℕ × ℤ → Bool
is_open_position e = not (eqb_ℤ e.1 (pos 0))

abbrev pub open_positions : Dict ℤ → Dict ℤ
open_positions = select is_open_position

insert_sorted-open :
    (symbol : ℕ) (qty : ℤ) (ps : Dict ℤ)
    → Perm (open_positions (insert_sorted symbol qty ps)) (open_positions ((symbol, qty) ∷ ps))
unfolding insert_sorted
insert_sorted-open symbol qty [] = Perm.rfl
insert_sorted-open symbol qty ((other, n) ∷ ps) =
    let ih = insert_sorted-open symbol qty ps in
    elim (Bool-cases (leb symbol other)) [
      | inl e ↦ rw e Perm.rfl
      | inr e ↦ elim (Bool-cases (is_open_position (other, n))) [
        | inr flat ↦ rw (e, flat) ih
        | inl here ↦ elim (Bool-cases (is_open_position (symbol, qty))) [
          | inr flat ↦ rw (e, here, flat) (Perm.cons (other, n) (rw flat at ih))
          | inl new ↦
              rw (e, here, new)
                (Perm.trans (Perm.cons (other, n) (rw new at ih))
                  (Perm.swap (symbol, qty) (other, n) (open_positions ps)))
        ]
      ]
    ]

sorted-open : (ps : Dict ℤ) → Perm (open_positions (sorted ps)) (open_positions ps)
unfolding sorted
sorted-open [] = Perm.rfl
sorted-open ((symbol, qty) ∷ ps) =
    let ih = sorted-open ps in
    Perm.trans (insert_sorted-open symbol qty (sorted ps))
      (elim (Bool-cases (is_open_position (symbol, qty))) [
        | inl here ↦ rw here (Perm.cons (symbol, qty) ih)
        | inr flat ↦ rw flat ih
      ])

module _ {F : Type 0} where
  -- The position that an order closes.
  abbrev pub undone : OrderIntent F → ℕ × ℤ
  undone i = (i.symbol, neg_ℤ (signed_quantity i))

  pub record IsClosing (i : OrderIntent F) : Type 0 where
    pub from_risk : is_flatten i.source ≡ true
    pub at_market : is_limit i.order_type ≡ false
    pub some_shares : pos 0 <ℤ i.quantity

module _ (F : Type 0) where
  closing-undone :
      (id symbol : ℕ) (qty : ℤ) → undone (closing {F = F} id symbol qty) ≡ (symbol, qty)
  unfolding signed_quantity neg_ℤ
  closing-undone id symbol qty = ground arith

  close_each-undone :
      (id : ℕ) (ps : Dict ℤ) → map undone (close_each {F = F} id ps) ≡ open_positions ps
  unfolding close_each
  close_each-undone id [] = refl
  close_each-undone id ((symbol, qty) ∷ ps) = elim (Bool-cases (eqb_ℤ qty (pos 0))) [
    | inl e ↦ rw e (close_each-undone id ps)
    | inr e ↦ rw e (
        ap (◌∷◌ (undone (closing {F = F} id symbol qty))) (close_each-undone (suc id) ps)
        ∙ ap (λ e. e ∷ open_positions ps) (closing-undone id symbol qty))
  ]

  close_each-IsClosing : (id : ℕ) (ps : Dict ℤ) → All IsClosing (close_each {F = F} id ps)
  unfolding close_each
  close_each-IsClosing id [] = tt
  close_each-IsClosing id ((symbol, qty) ∷ ps) = elim (Bool-cases (eqb_ℤ qty (pos 0))) [
    | inl e ↦ rw e (close_each-IsClosing id ps)
    | inr e ↦ rw e (
      record { from_risk = refl; at_market = refl; some_shares = ground arith },
      close_each-IsClosing (suc id) ps,
    )
  ]

  -- Flattening asks for market orders of the risk layer, each of a positive quantity, that undo exactly
  -- the open positions, each once.
  pub flatten_intents_lem :
      (id : ℕ) (ps : Dict ℤ)
      → All IsClosing (flatten_intents {F = F} id ps)
        × Perm (map undone (flatten_intents {F = F} id ps)) (open_positions ps)
  unfolding flatten_intents
  flatten_intents_lem id ps =
      (close_each-IsClosing id (sorted ps), rw (close_each-undone id (sorted ps)) (sorted-open ps))

module _ {F : Type 0} ⦃f : Float F⦄ where
  -- Every order of a flattening passes the gate, kill switch or not and whatever the caps, once its
  -- symbol has a name and a valid price.
  pub flatten_intents-approved :
      (cfg : RiskLimits F) (s : PortfolioSnapshot F) (g : RiskGuardrails F) (id : ℕ) (ps : Dict ℤ)
      (i : OrderIntent F) {price : F}
      → Memᴰ i (flatten_intents id ps)
      → i.symbol ≢ 0
      → lookup i.symbol s.last_prices ≡ some price
      → valid_price (some price) ≡ true
      → validate cfg i s g ≡ approved
  flatten_intents-approved cfg s g id ps i here named priced valid =
      let closing =
        All-Mem IsClosing (flatten_intents id ps) i (flatten_intents_lem F id ps).0 here in
      flatten-approved cfg i s g closing.from_risk closing.at_market named closing.some_shares
        priced valid

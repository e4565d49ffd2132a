-- ===== src/Engine/Execution/Resize.antt =====
-- The loop of engine/execution.py that shrinks a buy until its own cost fits the cash.
use trading_bot.Base.{ℕ, zero, suc, ◌≤◌, ◌≡◌, refl, subst, ◌⊎◌, inl, inr, Bool, true, false, arith}
use trading_bot.Base.Checks.{if◌then◌else◌, Bool-cases}
use trading_bot.Base.Int.{ℤ, pos, pos_part, ◌-ℤ◌, ◌≤ℤ◌, ◌<ℤ◌, ltb_ℤ, leb_ℤ, -ℤ_parts}
use trading_bot.Base.Float.{Float}
use trading_bot.Engine.Errors.{Result, ok, ◌>>=◌, bind-returns, ok-injective}
use trading_bot.Engine.Config.{CostConfig}
use trading_bot.Engine.Costs.{OrderCost, order_cost, total}

abbrev pub min_ℤ : ℤ → ℤ → ℤ
min_ℤ a b = if ltb_ℤ b a then b else a

module _ {F : Type 0} ⦃f : Float F⦄ (costs : CostConfig F) (px available : F) where
  open f use {add, sub, mul, div, le, floor, of_int}

  -- The whole price of `n` shares, at their own cost, is within the cash.
  unfoldable pub affordable : ℤ → F → Bool
  affordable n cost = le (add (mul (of_int n) px) cost) available

  -- `while resized > 0: …`, on fuel
  unfoldable pub shrink_to_fit : ℕ → ℤ → Result ℤ
  shrink_to_fit zero n = ok n
  shrink_to_fit (suc fuel) n =
      let next = λ (cost : F). min_ℤ (n -ℤ pos 1) (floor (div (sub available cost) px)) in
      let step = order_cost costs (of_int n) px >>= λ c.
      let rest = shrink_to_fit fuel (next (total c)) in
      if affordable n (total c) then ok n else rest in
      if leb_ℤ n (pos 0) then ok n else step

  -- The test of the loop, against the order's own cost.
  abbrev pub IsAffordable : ℤ → Type 0
  IsAffordable n =
      (cost : OrderCost F) × (order_cost costs (of_int n) px ≡ ok cost)
      × (le (add (mul (of_int n) px) (total cost)) available ≡ true)

  -- How the loop may end: no larger than it began, and with nothing left to buy or a size that the
  -- cash covers.
  abbrev pub Fits : ℤ → ℤ → Type 0
  Fits start n = (n ≤ℤ start) × ((n ≤ℤ pos 0) ⊎ IsAffordable n)

  min-le : (a b : ℤ) → min_ℤ a b ≤ℤ a
  min-le a b = ground arith

  Fits-mono : (low high n : ℤ) → low ≤ℤ high → Fits low n → Fits high n
  Fits-mono low high n h (below, end) = (omega arith, end)

  next_bounds :
      (start other : ℤ) (fuel : ℕ)
      → leb_ℤ start (pos 0) ≡ false
      → pos_part start ≤ suc fuel
      → let next = min_ℤ (start -ℤ pos 1) other in (pos_part next ≤ fuel) × (next ≤ℤ start)
  next_bounds start other fuel some_left h =
      let below = min-le (start -ℤ pos 1) other in
      let positive : pos 1 ≤ℤ start = ground arith in
      let parts = -ℤ_parts start (pos 1) in ground (arith, below, parts)

  -- Where the loop ends it ends by its own test.
  shrink_to_fit_lem :
      (fuel : ℕ) (start n : ℤ)
      → pos_part start ≤ fuel
      → shrink_to_fit fuel start ≡ ok n
      → Fits start n
  unfolding shrink_to_fit affordable
  shrink_to_fit_lem zero start n h e =
      subst (Fits start) (ok-injective e) (omega arith, inl (ground arith))
  shrink_to_fit_lem (suc fuel) start n h e = elim (Bool-cases (leb_ℤ start (pos 0))) [
    | inl none_left ↦
        subst (Fits start) (ok-injective (rw none_left at e)) (omega arith, inl (ground arith))
    | inr some_left ↦
        let (cost, paid, rest) =
          bind-returns (order_cost costs (of_int start) px) _ (rw some_left at e) in
        let other = floor (div (sub available (total cost)) px) in
        let next = min_ℤ (start -ℤ pos 1) other in
        let (enough, smaller) = next_bounds start other fuel some_left h in
        elim (Bool-cases (le (add (mul (of_int start) px) (total cost)) available)) [
          | inl fits ↦
              subst (Fits start) (ok-injective (rw fits at rest))
                (omega arith, inr (cost, paid, fits))
          | inr dear ↦
              Fits-mono next start n smaller
                (shrink_to_fit_lem fuel next n enough (rw dear at rest))
        ]
  ]

  shrink_to_fit_returns :
      (fuel : ℕ) (start : ℤ)
      → ((k : ℤ) → pos 0 <ℤ k → (cost : OrderCost F) × (order_cost costs (of_int k) px ≡ ok cost))
      → (n : ℤ) × (shrink_to_fit fuel start ≡ ok n)
  unfolding shrink_to_fit affordable
  shrink_to_fit_returns zero start priced = (start, refl)
  shrink_to_fit_returns (suc fuel) start priced = elim (Bool-cases (leb_ℤ start (pos 0))) [
    | inl none_left ↦ (start, rw none_left)
    | inr some_left ↦
        let (cost, paid) = priced start (ground arith) in
        let next = min_ℤ (start -ℤ pos 1) (floor (div (sub available (total cost)) px)) in
        elim (Bool-cases (le (add (mul (of_int start) px) (total cost)) available)) [
          | inl fits ↦ (start, rw (some_left, paid) (rw fits))
          | inr dear ↦
              let (n, e) = shrink_to_fit_returns fuel next priced in
              (n, rw (some_left, paid) (rw dear e))
        ]
  ]

  -- With as much fuel as the size that it starts from, and a cost for every positive size, the loop
  -- returns a size no larger than that, which is not positive or which the cash covers.
  pub shrink_to_fit_total :
      (fuel : ℕ) (start : ℤ)
      → pos_part start ≤ fuel
      → ((k : ℤ) → pos 0 <ℤ k → (cost : OrderCost F) × (order_cost costs (of_int k) px ≡ ok cost))
      → (n : ℤ) × (shrink_to_fit fuel start ≡ ok n) × Fits start n
  shrink_to_fit_total fuel start h priced =
      let (n, e) = shrink_to_fit_returns fuel start priced in
      (n, e, shrink_to_fit_lem fuel start n h e)

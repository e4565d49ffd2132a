-- ===== src/Ftmo/Live/Sizing/Lots.antt =====
-- What the size of a trade can be.
use trading_bot.Base.{◌≡◌, refl, ◌∙◌, ◌⊎◌, inl, inr, true, false, arith}
use trading_bot.Base.Checks.{Bool-cases}
use trading_bot.Base.Int.{ℤ}
use trading_bot.Base.Float.{Float, nought, abs_of, IsOrdered}
use trading_bot.Base.Outcome.{returned, bind-returned}
use trading_bot.Ftmo.Live.Sizing.{
  ContractSpec, size_for, raw_lots, stop_distance, quotient, floor_of, capped,
}

module _ {F : Type 0} ⦃f : Float F⦄ where
  -- No trade, or one between the smallest and the largest size.
  abbrev pub InRange : ContractSpec F → F → Type 0
  InRange spec lots =
      (lots ≡ nought) ⊎ ((f.lt lots spec.min_lot ≡ false) × (f.lt spec.max_lot lots ≡ false))

  -- A whole number of steps, unless it was cut to the largest size.
  abbrev pub InSteps : ContractSpec F → F → Type 0
  InSteps spec lots =
      (lots ≡ nought)
      ⊎ ((lots ≡ spec.max_lot) ⊎ ((n : ℤ) × (lots ≡ f.round (f.mul (f.of_int n) spec.lot_step) 8)))

  capped_lem :
      (laws : IsOrdered F) (spec : ContractSpec F) (lots : F)
      → f.lt spec.max_lot spec.min_lot ≡ false
      → InRange spec (capped spec lots)
        × ((capped spec lots ≡ nought)
            ⊎ ((capped spec lots ≡ spec.max_lot) ⊎ (capped spec lots ≡ lots)))
  capped_lem laws spec lots ordered = elim (Bool-cases (f.lt lots spec.min_lot)) [
    | inl small ↦ rw small (inl refl, inl refl)
    | inr fits ↦ elim (Bool-cases (f.lt spec.max_lot lots)) [
      | inl big ↦ rw (fits, big) (inr (ordered, laws.lt_irrefl spec.max_lot), inr (inl refl))
      | inr within ↦ rw (fits, within) (inr (fits, within), inr (inr refl))
    ]
  ]

  stop_distance-returned :
      (entry stop dist : F)
      → stop_distance entry stop ≡ returned dist
      → (f.le (abs_of (f.sub entry stop)) nought ≡ false)
        × (f.is_finite (abs_of (f.sub entry stop)) ≡ true)
  unfolding stop_distance
  stop_distance-returned entry stop dist h = ground (arith, h)

  floor_of-returned : (a whole : F) → floor_of a ≡ returned whole → (n : ℤ) × (whole ≡ f.of_int n)
  floor_of-returned a whole h = (f.floor a, ground (arith, h))

  size_for-capped :
      (entry stop : F) (spec : ContractSpec F) (risk_amount lots : F)
      → size_for entry stop spec risk_amount ≡ returned lots
      → ((n : ℤ) × (lots ≡ capped spec (f.round (f.mul (f.of_int n) spec.lot_step) 8)))
        × (f.le risk_amount nought ≡ false)
        × (f.le (abs_of (f.sub entry stop)) nought ≡ false)
        × (f.is_finite (abs_of (f.sub entry stop)) ≡ true)
  unfolding size_for raw_lots
  size_for-capped entry stop spec risk_amount lots h = elim (Bool-cases (f.le risk_amount nought)) [
    | inl bad ↦ let k = rw bad at h in cc k
    | inr good ↦
        let h1 = rw good at h in
        let (raw, sized, h2) = bind-returned (raw_lots entry stop spec risk_amount) _ h1 in
        let (dist, far, _) = bind-returned (stop_distance entry stop) _ sized in
        let (steps, _, h3) = bind-returned (quotient raw spec.lot_step) _ h2 in
        let (whole, floored, h4) = bind-returned (floor_of (f.add steps (f.lit 1 9))) _ h3 in
        let (n, e) = floor_of-returned _ whole floored in
        let (positive, finite) = stop_distance-returned entry stop dist far in
        ((n, ground (arith, h4, e)), good, positive, finite)
  ]

  -- A size is no trade, or lies between the smallest and the largest size of the contract and is a whole
  -- number of steps or the largest size; and there is a size only for a positive risk and a stop at a
  -- positive, finite distance, anything else raises.
  pub size_for_lem :
      (laws : IsOrdered F) (entry stop : F) (spec : ContractSpec F) (risk_amount lots : F)
      → f.lt spec.max_lot spec.min_lot ≡ false
      → size_for entry stop spec risk_amount ≡ returned lots
      → InRange spec lots
        × InSteps spec lots
        × (f.le risk_amount nought ≡ false)
        × (f.le (abs_of (f.sub entry stop)) nought ≡ false)
        × (f.is_finite (abs_of (f.sub entry stop)) ≡ true)
  size_for_lem laws entry stop spec risk_amount lots ordered h =
      let ((n, e), risky, positive, finite) = size_for-capped entry stop spec risk_amount lots h in
      let (range, steps) =
        capped_lem laws spec (f.round (f.mul (f.of_int n) spec.lot_step) 8) ordered in
      (
        rw e range,
        elim steps [
          | inl none_traded ↦ inl (e ∙ none_traded)
          | inr (inl most) ↦ inr (inl (e ∙ most))
          | inr (inr whole) ↦ inr (inr (n, e ∙ whole))
        ],
        risky,
        positive,
        finite,
      )

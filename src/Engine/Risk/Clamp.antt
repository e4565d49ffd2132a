-- ===== src/Engine/Risk/Clamp.antt =====
-- The weight clamps of engine/risk.py.
use trading_bot.Base.{ℕ, true, false, [], ◌∷◌, ◌≡◌, refl, ap, ◌∙◌, subst, inl, inr, arith}
use trading_bot.Base.Checks.{Bool-cases}
use trading_bot.Base.Lists.{All}
use trading_bot.Base.Dict.{Dict, keys}
use trading_bot.Base.Float.{Float, nought, IsMonotone}
use trading_bot.Engine.Errors.{ok, bind-returns, ok-injective}
use trading_bot.Engine.Config.{RiskConfig}
use trading_bot.Engine.Risk.{
  clamp_weights, clamp_each, clamp_one, scale_to_cap, scale_each, gross_from, gross_cap,
}

module _ {F : Type 0} ⦃f : Float F⦄ where
  open f use {lit, mul, div, lt, le, eq, is_finite}

  -- A weight between nought and the position limit.
  abbrev pub IsLong : RiskConfig F → ℕ × F → Type 0
  IsLong cfg (sym, w) = (le nought w ≡ true) × (le w cfg.max_position_weight ≡ true)

  -- The same symbols in the same order, each with a weight in its limits.
  abbrev pub Follows : RiskConfig F → Dict F → Dict F → Type 0
  Follows cfg ws out = (keys out ≡ keys ws) × All (IsLong cfg) out

  keys-scale_each : (k : F) (ws : Dict F) → keys (scale_each k ws) ≡ keys ws
  unfolding scale_each
  keys-scale_each k [] = refl
  keys-scale_each k ((sym, w) ∷ ws) = ap (◌∷◌ sym) (keys-scale_each k ws)

  keys-scale_to_cap : (cfg : RiskConfig F) (ws : Dict F) → keys (scale_to_cap cfg ws) ≡ keys ws
  unfolding scale_to_cap
  keys-scale_to_cap cfg ws =
      ground (arith, keys-scale_each (div (gross_cap cfg) (gross_from nought ws)) ws)

  module _ (laws : IsMonotone F) (cfg : RiskConfig F) where
    open laws use {
      ordered, finite_refl, num_of_eq, finite_between, nought_finite, one_finite, one_pos,
      mul_nonneg, mul_le_left, div_le_one, div_nonneg,
    }
    open ordered use {le_trans, lt_or_le, le_of_lt, lt_of_lt_of_le}

    -- Limits that a validated configuration has: finite and not negative.
    pub record HasLimits : Type 0 where
      pub weight_finite : is_finite cfg.max_position_weight ≡ true
      pub weight_nonneg : le nought cfg.max_position_weight ≡ true
      pub gross_finite : is_finite cfg.max_gross_exposure ≡ true
      pub gross_nonneg : le nought cfg.max_gross_exposure ≡ true

    module _ (limits : HasLimits) (long : cfg.allow_short ≡ false) where
      clamp_one-IsLong : (sym : ℕ) (w : F) → le w w ≡ true → IsLong cfg (sym, clamp_one cfg w)
      unfolding clamp_one
      clamp_one-IsLong sym w num =
          let m = cfg.max_position_weight in
          let zero_num = finite_refl nought nought_finite in
          let m_num = finite_refl m limits.weight_finite in
          ground (
            arith,
            le_of_lt nought w,
            limits.weight_nonneg,
            lt_or_le m w m_num num,
            lt_or_le m nought m_num zero_num,
          )

      clamp_each-IsLong : (ws out : Dict F) → clamp_each cfg ws ≡ ok out → Follows cfg ws out
      unfolding clamp_each
      clamp_each-IsLong [] out h = subst (Follows cfg []) (ok-injective h) (refl, tt)
      clamp_each-IsLong ((sym, w) ∷ ws) out h = elim (Bool-cases (eq w w)) [
        | inl num ↦
            let (rest, e, h') =
              bind-returns (clamp_each cfg ws) (λ rest. ok ((sym, clamp_one cfg w) ∷ rest))
                (rw num at h) in
            let (same, long_rest) = clamp_each-IsLong ws rest e in
            subst (Follows cfg ((sym, w) ∷ ws)) (ok-injective h')
              (ap (◌∷◌ sym) same, (clamp_one-IsLong sym w (num_of_eq w num), long_rest))
        | inr nan ↦ ground arith
      ]

      cap_bounds : (le nought (gross_cap cfg) ≡ true) × (is_finite (gross_cap cfg) ≡ true)
      cap_bounds = ground (
        arith,
        limits.gross_finite,
        limits.gross_nonneg,
        one_finite,
        le_of_lt nought (lit 1 0) one_pos,
      )

      scale_each-IsLong :
          (k : F) (ws : Dict F)
          → le nought k ≡ true
          → le k (lit 1 0) ≡ true
          → All (IsLong cfg) ws
          → All (IsLong cfg) (scale_each k ws)
      unfolding scale_each
      scale_each-IsLong k [] kp k1 a = tt
      scale_each-IsLong k ((sym, w) ∷ ws) kp k1 ((wp, wm), a) =
          let m = cfg.max_position_weight in
          let wf = finite_between w m limits.weight_finite wp wm in
          let kf = finite_between k (lit 1 0) one_finite kp k1 in
          (
            (mul_nonneg w k wf kf wp kp, le_trans (mul w k) w m (mul_le_left w k wf wp k1 kp) wm),
            scale_each-IsLong k ws kp k1 a,
          )

      scale_to_cap-IsLong :
          (ws : Dict F) → All (IsLong cfg) ws → All (IsLong cfg) (scale_to_cap cfg ws)
      unfolding scale_to_cap
      scale_to_cap-IsLong ws a =
          let gross = gross_from nought ws in
          let cap = gross_cap cfg in
          let (cp, cf) = cap_bounds in
          ground (
            arith,
            scale_each-IsLong (div cap gross) ws,
            div_nonneg cap gross cf,
            div_le_one cap gross cf,
            le_of_lt cap gross,
          )

      -- With shorting off, and limits that are finite and not negative, clamping keeps the symbols
      -- and gives each a weight from nought to the position limit.
      pub clamp_weights-Follows :
          (ws out : Dict F) → clamp_weights cfg ws ≡ ok out → Follows cfg ws out
      unfolding clamp_weights
      clamp_weights-Follows ws out h =
          let (clamped, e, h') =
            bind-returns (clamp_each cfg ws) (λ clamped. ok (scale_to_cap cfg clamped)) h in
          let (same, a) = clamp_each-IsLong ws clamped e in
          subst (Follows cfg ws) (ok-injective h')
            (keys-scale_to_cap cfg clamped ∙ same, scale_to_cap-IsLong clamped a)

-- ===== src/Engine/Config/Checked.antt =====
-- What `validate_config` of engine/config.py establishes for the rest of the engine: apart symbols, and
-- limits under which the clamps of engine/risk.py do their work.
use trading_bot.Base.{ℕ, ◌≡◌, ◌≢◌, refl, true, false, List, [], ◌∷◌, ◌++◌, arith}
use trading_bot.Base.Checks.{==_refl}
use trading_bot.Base.Lists.{contains}
use trading_bot.Base.Dict.{Dict}
use trading_bot.Base.Float.{Float, nought, IsMonotone}
use trading_bot.Engine.Errors.{ok}
use trading_bot.Engine.Config.{
  RiskConfig, EngineConfig, validate_config, check_risk, has_duplicates,
}
use trading_bot.Engine.Risk.{clamp_weights}
use trading_bot.Engine.Risk.Clamp.{HasLimits, Follows, clamp_weights-Follows}

contains_later : (a : ℕ) (ys zs : List ℕ) → contains a (ys ++ (a ∷ zs)) ≡ true
contains_later a [] zs = rw (==_refl a) refl
contains_later a (y ∷ ys) zs = ground (arith, contains_later a ys zs)

has_duplicates_twice :
    (a : ℕ) (xs ys zs : List ℕ) → has_duplicates (xs ++ (a ∷ (ys ++ (a ∷ zs)))) ≡ true
unfolding has_duplicates
has_duplicates_twice a [] ys zs = rw (contains_later a ys zs) refl
has_duplicates_twice a (x ∷ xs) ys zs = ground (arith, has_duplicates_twice a xs ys zs)

module _ {F : Type 0} ⦃f : Float F⦄ where
  open f use {lit, lt, le, is_finite}

  no_duplicates :
      (cfg : EngineConfig F) → validate_config cfg ≡ ok tt → has_duplicates cfg.universe ≡ false
  unfolding validate_config
  no_duplicates cfg h = ground arith

  -- Any two places in the universe of a configuration that passed validation hold different symbols.
  pub validate_config-apart :
      (cfg : EngineConfig F) (a b : ℕ) (xs ys zs : List ℕ)
      → validate_config cfg ≡ ok tt
      → cfg.universe ≡ xs ++ (a ∷ (ys ++ (b ∷ zs)))
      → a ≢ b
  validate_config-apart cfg a b xs ys zs valid places same =
      let once = no_duplicates cfg valid in let twice = has_duplicates_twice a xs ys zs in cc

  check_risk-ok :
      (r : RiskConfig F)
      → check_risk r ≡ ok tt
      → (lt nought r.max_position_weight ≡ true)
        × (le r.max_position_weight (lit 1 0) ≡ true)
        × (lt nought r.max_gross_exposure ≡ true)
        × (le r.max_gross_exposure (lit 10 0) ≡ true)
  unfolding check_risk
  check_risk-ok r h = ground arith

  risk_checked : (cfg : EngineConfig F) → validate_config cfg ≡ ok tt → check_risk cfg.risk ≡ ok tt
  unfolding validate_config
  risk_checked cfg h = ground arith

  module _ (laws : IsMonotone F) (ten_finite : is_finite (lit 10 0) ≡ true) where
    open laws use {ordered, finite_between, one_finite}
    open ordered use {le_of_lt}

    validated-HasLimits :
        (cfg : EngineConfig F) → validate_config cfg ≡ ok tt → HasLimits laws cfg.risk
    validated-HasLimits cfg valid =
        let (wp, w1, gp, g10) = check_risk-ok cfg.risk (risk_checked cfg valid) in
        let w_nonneg = le_of_lt nought cfg.risk.max_position_weight wp in
        let g_nonneg = le_of_lt nought cfg.risk.max_gross_exposure gp in
        record {
          weight_finite =
              finite_between cfg.risk.max_position_weight (lit 1 0) one_finite w_nonneg w1;
          weight_nonneg = w_nonneg;
          gross_finite =
              finite_between cfg.risk.max_gross_exposure (lit 10 0) ten_finite g_nonneg g10;
          gross_nonneg = g_nonneg;
        }

    -- With a configuration that passed validation, clamping never emits a short, also when leverage is
    -- allowed: with shorting off, whatever weights a strategy asks for, if `clamp_weights` returns, it
    -- keeps the symbols and gives each a weight from nought to the position limit. Rounding is monotone,
    -- and 10.0 is finite.
    pub validate_config-clamp_weights :
        (cfg : EngineConfig F) (ws out : Dict F)
        → validate_config cfg ≡ ok tt
        → cfg.risk.allow_short ≡ false
        → clamp_weights cfg.risk ws ≡ ok out
        → Follows cfg.risk ws out
    validate_config-clamp_weights cfg ws out valid long clamped =
        clamp_weights-Follows laws cfg.risk (validated-HasLimits cfg valid) long ws out clamped

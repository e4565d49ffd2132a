-- ===== src/Engine/Config/Tests.antt =====
-- A configuration that engine/config.py accepts, and one that it refuses.
use trading_bot.Base.{ℕ, ◌≡◌, ◌≢◌, refl, [], ◌∷◌}
use trading_bot.Base.Int.{pos, negsuc}
use trading_bot.Base.Float.Milli.{milli_float, Milli-IsMonotone}
use trading_bot.Engine.Errors.{ok, err, config_error}
use trading_bot.Engine.Config.{
  validate_config, has_duplicates, check_costs, check_risk, check_execution,
}
use trading_bot.Engine.Config.Checked.{validate_config-apart, validate_config-clamp_weights}
use trading_bot.Engine.Risk.Sample.{clamped}
use trading_bot.Engine.Risk.Clamp.{Follows}
use trading_bot.Engine.Fixtures.{config}

accepted : validate_config config ≡ ok tt
unfolding validate_config has_duplicates check_costs check_risk check_execution
accepted = refl

two_hops :
    validate_config
      (record config { execution = record (config.execution) { escalation_max_hops = 2 } })
    ≡ err config_error
unfolding validate_config has_duplicates check_costs check_risk check_execution
two_hops = refl

validate_config-apart_example : ◌≢◌ {A = ℕ} 1 2
validate_config-apart_example = validate_config-apart config 1 2 [] [] [] accepted refl

validate_config-clamp_weights_example :
    Follows config.risk
      ((1, pos 900) ∷ (2, pos 700) ∷ (3, negsuc 99) ∷ [])
      ((1, pos 499) ∷ (2, pos 499) ∷ (3, pos 0) ∷ [])
validate_config-clamp_weights_example =
    validate_config-clamp_weights Milli-IsMonotone refl config
      ((1, pos 900) ∷ (2, pos 700) ∷ (3, negsuc 99) ∷ [])
      ((1, pos 499) ∷ (2, pos 499) ∷ (3, pos 0) ∷ []) accepted refl clamped

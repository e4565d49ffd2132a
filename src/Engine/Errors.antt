-- ===== src/Engine/Errors.antt =====
-- engine/errors.py, with the built-in exceptions that the engine raises. A call that raises is `err`.
use trading_bot.Base.{Bool, true, false, ◌≡◌, refl}

-- Named after the exception classes.
pub data Error : Type 0 where
  config_error halt_error state_error data_error execution_error : Error
  value_error type_error : Error

pub data Result {ℓ} (X : Type ℓ) : Type ℓ where
  err : Error → Result X
  ok : X → Result X

module _ {ℓ κ} {X : Type ℓ} {Y : Type κ} where
  infixl 5 ◌>>=◌
  -- A raise ends the chain.
  abbrev pub ◌>>=◌ : Result X → (X → Result Y) → Result Y
  err raised >>= next = err raised
  ok x >>= next = next x

  -- A chain that returned came through its first call.
  pub bind-returns :
      (first : Result X) (next : X → Result Y) {y : Y}
      → (first >>= next) ≡ ok y
      → (x : X) × (first ≡ ok x) × (next x ≡ ok y)
  bind-returns (err raised) next h = cc
  bind-returns (ok x) next h = (x, refl, h)

infixl 5 ◌>>◌
abbrev pub ◌>>◌ {ℓ} : {Y : Type ℓ} → Result (Unit {0}) → Result Y → Result Y
check >> next = check >>= λ _. next

-- `if refused: raise e`
abbrev pub raise_if : Bool → Error → Result (Unit {0})
raise_if false e = ok tt
raise_if true e = err e

pub ok-injective {ℓ} : {X : Type ℓ} {x y : X} → ok x ≡ ok y → x ≡ y
ok-injective h = cc

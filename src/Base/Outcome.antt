-- ===== src/Base/Outcome.antt =====
-- A call that returns a value or raises an exception of the type `E`.
use mathlib.Core.Path.{◌≡◌, refl}

pub data Outcome {ℓ} (E : Type 0) (A : Type ℓ) : Type ℓ where
  raised : E → Outcome E A
  returned : A → Outcome E A

module _ {ℓ κ} {E : Type 0} {A : Type ℓ} {B : Type κ} where
  infixl 5 ◌>>=◌
  abbrev pub ◌>>=◌ : Outcome E A → (A → Outcome E B) → Outcome E B
  raised e >>= next = raised e
  returned a >>= next = next a

  -- What a chain that returned has passed.
  pub bind-returned :
      (first : Outcome E A) (next : A → Outcome E B) {b : B}
      → (first >>= next) ≡ returned b
      → (a : A) × (first ≡ returned a) × (next a ≡ returned b)
  bind-returned (raised e) next h = cc
  bind-returned (returned a) next h = (a, refl, h)

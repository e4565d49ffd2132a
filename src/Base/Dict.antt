-- ===== src/Base/Dict.antt =====
-- A Python dict keyed by numbers (symbols, order ids), in insertion order.
use Prim.Native.Nat.{ℕ}
use mathlib.Core.Path.{◌≡◌, refl}
use mathlib.Core.Logic.{◌≢◌}
use mathlib.Core.Option.{Option, none, some}
use mathlib.Core.List.{List, [], ◌∷◌, map}
use native.Mathlib.Omega.{arith}
use trading_bot.Base.Checks.{◌==◌, if◌then◌else◌}

abbrev pub Dict {ℓ} : Type ℓ → Type ℓ
Dict V = List (ℕ × V)

module _ {ℓ} {V : Type ℓ} where
  -- `d.get(k)`
  abbrev pub lookup : ℕ → Dict V → Option V
  lookup k [] = none
  lookup k ((j, v) ∷ d) = if k == j then some v else lookup k d

  -- `d.get(k, default)`
  abbrev pub lookup_or : ℕ → V → Dict V → V
  lookup_or k default [] = default
  lookup_or k default ((j, v) ∷ d) = if k == j then v else lookup_or k default d

  -- `d[key] = new`, at the place of the old value if there is one
  abbrev pub insert : ℕ → V → Dict V → Dict V
  insert key new [] = (key, new) ∷ []
  insert key new ((j, old) ∷ rest) =
      if key == j then (key, new) ∷ rest else (j, old) ∷ insert key new rest

  -- `d.pop(key, None)`
  abbrev pub erase : ℕ → Dict V → Dict V
  erase key [] = []
  erase key ((j, old) ∷ rest) = if key == j then rest else (j, old) ∷ erase key rest

  abbrev pub keys : Dict V → List ℕ
  keys = map λ e. e.0

  pub lookup-insert :
      (j k : ℕ) (v : V) (d : Dict V)
      → lookup j (insert k v d) ≡ (if j == k then some v else lookup j d)
  lookup-insert j k v [] = refl
  lookup-insert j k v ((i, w) ∷ d) = ground (arith, lookup-insert j k v d)

  pub lookup-insert_self : (k : ℕ) (v : V) (d : Dict V) → lookup k (insert k v d) ≡ some v
  lookup-insert_self k v d = ground (arith, lookup-insert k k v d)

  pub lookup-insert_ne :
      (j k : ℕ) (new : V) (d : Dict V) → j ≢ k → lookup j (insert k new d) ≡ lookup j d
  lookup-insert_ne j k new d h = ground (arith, lookup-insert j k new d)

  pub lookup-erase_ne : (j k : ℕ) (d : Dict V) → j ≢ k → lookup j (erase k d) ≡ lookup j d
  lookup-erase_ne j k [] h = refl
  lookup-erase_ne j k ((i, w) ∷ d) h = ground (arith, lookup-erase_ne j k d h)

-- ===== src/Base/Float.antt =====
-- Python's float, as an interface. The program's figures are doubles; the model takes the type and
-- its operations as an instance argument, so it fixes no rounding. NaN is the value for which
-- `eq x x` is false, as in the source's tests `x != x`.
pub mod Milli
use Prim.Native.Nat.{ℕ, zero, suc, ◌*◌, ◌/◌, ◌^◌}
use mathlib.Core.Path.{◌≡◌}
use mathlib.Core.Bool.{Bool, true, false, not}
use mathlib.Core.Logic.{◌⊎◌}
use native.Mathlib.Omega.{arith}
use trading_bot.Base.Checks.{if◌then◌else◌}
use trading_bot.Base.Int.{ℤ, pos, negsuc, ◌+ℤ◌, ◌-ℤ◌, ◌*ℤ◌, neg_ℤ, floor_div, ltb_ℤ, leb_ℤ, eqb_ℤ}

pub record Float (F : Type 0) : Type 0 where
  -- the literal m / 10^e: `lit 1 9` is 1e-9
  pub lit : ℕ → ℕ → F
  pub add : F → F → F
  pub sub : F → F → F
  pub mul : F → F → F
  pub div : F → F → F
  pub neg : F → F
  pub lt : F → F → Bool
  pub le : F → F → Bool
  pub eq : F → F → Bool
  -- `float("inf")` and `math.isfinite`
  pub infinity : F
  pub is_finite : F → Bool
  -- `math.floor` and the conversion of an int in mixed arithmetic
  pub floor : F → ℤ
  pub of_int : ℤ → F
  -- `round(x, digits)`
  pub round : F → ℕ → F

module _ {F : Type 0} ⦃f : Float F⦄ where
  abbrev pub nought : F
  nought = f.lit 0 0

  -- `max(a, b)` and `min(a, b)` keep the first argument unless the second is better.
  abbrev pub max_of : F → F → F
  max_of a b = if f.lt a b then b else a

  abbrev pub min_of : F → F → F
  min_of a b = if f.lt b a then b else a

  abbrev pub abs_of : F → F
  abs_of a = if f.lt a nought then f.neg a else a

  abbrev pub is_nan : F → Bool
  is_nan a = not (f.eq a a)

-- What IEEE comparisons guarantee away from NaN, which is unordered to everything.
pub record IsOrdered (F : Type 0) ⦃f : Float F⦄ : Type 0 where
  pub le_of_lt : (x y : F) → f.lt x y ≡ true → f.le x y ≡ true
  pub refl_of_le : (x y : F) → f.le x y ≡ true → (f.le x x ≡ true) × (f.le y y ≡ true)
  pub le_trans : (x y z : F) → f.le x y ≡ true → f.le y z ≡ true → f.le x z ≡ true
  pub lt_of_lt_of_le : (x y z : F) → f.lt x y ≡ true → f.le y z ≡ true → f.lt x z ≡ true
  pub lt_of_le_of_lt : (x y z : F) → f.le x y ≡ true → f.lt y z ≡ true → f.lt x z ≡ true
  pub lt_irrefl : (x : F) → f.lt x x ≡ false
  pub lt_or_le :
      (x y : F) → f.le x x ≡ true → f.le y y ≡ true → (f.lt x y ≡ true) ⊎ (f.le y x ≡ true)

-- Rounding is monotone: what IEEE arithmetic guarantees of finite operands.
pub record IsMonotone (F : Type 0) ⦃f : Float F⦄ : Type 0 where
  pub ordered : IsOrdered F
  pub finite_refl : (x : F) → f.is_finite x ≡ true → f.le x x ≡ true
  pub num_of_eq : (x : F) → f.eq x x ≡ true → f.le x x ≡ true
  pub finite_between :
      (x y : F)
      → f.is_finite y ≡ true
      → f.le nought x ≡ true
      → f.le x y ≡ true
      → f.is_finite x ≡ true
  pub one_finite : f.is_finite (f.lit 1 0) ≡ true
  pub one_pos : f.lt nought (f.lit 1 0) ≡ true
  pub nought_finite : f.is_finite nought ≡ true
  pub sub_antitone :
      (x y z : F) → f.is_finite z ≡ true → f.le x y ≡ true → f.le (f.sub z y) (f.sub z x) ≡ true
  pub sub_nonpos :
      (x y : F) → f.is_finite y ≡ true → f.le x y ≡ true → f.le (f.sub x y) nought ≡ true
  pub div_mono :
      (x y p : F)
      → f.is_finite p ≡ true
      → f.lt nought p ≡ true
      → f.le x y ≡ true
      → f.le (f.div x p) (f.div y p) ≡ true
  pub div_nonpos :
      (x p : F)
      → f.is_finite p ≡ true
      → f.lt nought p ≡ true
      → f.le x nought ≡ true
      → f.le (f.div x p) nought ≡ true
  pub div_nonneg :
      (x p : F)
      → f.is_finite x ≡ true
      → f.lt nought p ≡ true
      → f.le nought x ≡ true
      → f.le nought (f.div x p) ≡ true
  pub div_le_one :
      (x p : F)
      → f.is_finite x ≡ true
      → f.lt nought p ≡ true
      → f.le x p ≡ true
      → f.le (f.div x p) (f.lit 1 0) ≡ true
  pub mul_nonneg :
      (x y : F)
      → f.is_finite x ≡ true
      → f.is_finite y ≡ true
      → f.le nought x ≡ true
      → f.le nought y ≡ true
      → f.le nought (f.mul x y) ≡ true
  pub mul_le_left :
      (x y : F)
      → f.is_finite x ≡ true
      → f.le nought x ≡ true
      → f.le y (f.lit 1 0) ≡ true
      → f.le nought y ≡ true
      → f.le (f.mul x y) x ≡ true

-- What adding and taking away give in exact arithmetic.
pub record IsExact (F : Type 0) ⦃f : Float F⦄ : Type 0 where
  pub sub-add : (x y : F) → f.sub (f.add x y) y ≡ x
  pub sub-nought : (x : F) → f.sub x nought ≡ x
  pub sub-sub : (x y z : F) → f.sub x (f.sub y z) ≡ f.add (f.sub x y) z

-- ===== src/Base/Float/Milli.antt =====
-- The interface of floats and its laws can be met: fixed-point numbers in thousandths, where a product
-- or a quotient is rounded down and a division by zero gives 0. There is no NaN; numbers from 10^15
-- on count as infinite, and rounding to three digits or more changes nothing.
use Prim.Native.Nat.{ℕ, zero, suc, ◌+◌, ◌*◌, ◌/◌, ◌^◌, ◌≤◌}
use mathlib.Core.Path.{◌≡◌}
use mathlib.Core.Bool.{true}
use native.Mathlib.Omega.{arith}
use native.Mathlib.Nat.{le-div_iff_mul-le, mul-le-mul}
use trading_bot.Base.Int.{ℤ, pos, negsuc, ◌+ℤ◌, ◌-ℤ◌, neg_ℤ, floor_div, ltb_ℤ, leb_ℤ, eqb_ℤ}
use trading_bot.Base.Float.{Float, IsOrdered, IsMonotone, IsExact}

abbrev pub Milli : Type 0
Milli = ℤ

abbrev thousandfold : ℤ → ℤ
thousandfold (pos n) = pos (n * 1000)
thousandfold (negsuc n) = negsuc (n * 1000 + 999)

abbrev milli_div : ℤ → ℤ → ℤ
milli_div a (pos zero) = pos 0
milli_div a (pos (suc d)) = floor_div (thousandfold a) (suc d)
milli_div (pos n) (negsuc d) = neg_ℤ (floor_div (pos (n * 1000 + d)) (suc d))
milli_div (negsuc n) (negsuc d) = pos (suc n * 1000 / suc d)

abbrev milli_mul : ℤ → ℤ → ℤ
milli_mul (pos a) (pos b) = pos (a * b / 1000)
milli_mul (pos a) (negsuc b) = neg_ℤ (pos ((a * suc b + 999) / 1000))
milli_mul (negsuc a) (pos b) = neg_ℤ (pos ((suc a * b + 999) / 1000))
milli_mul (negsuc a) (negsuc b) = pos (suc a * suc b / 1000)

instance abbrev pub milli_float : Float Milli
milli_float = record {
  lit = λ m e. pos (m * 1000 / 10 ^ e);
  add = ◌+ℤ◌;
  sub = ◌-ℤ◌;
  mul = milli_mul;
  div = milli_div;
  neg = neg_ℤ;
  lt = ltb_ℤ;
  le = leb_ℤ;
  eq = eqb_ℤ;
  infinity = pos (10 ^ 15);
  is_finite = λ a. ltb_ℤ a (pos (10 ^ 15));
  floor = λ a. floor_div a 1000;
  of_int = thousandfold;
  round = λ a digits. a;
}

pub Milli-IsOrdered : IsOrdered Milli
Milli-IsOrdered = record {
  le_of_lt = λ x y h. ground arith;
  refl_of_le = λ x y h. ground arith;
  le_trans = λ x y z h k. ground arith;
  lt_of_lt_of_le = λ x y z h k. ground arith;
  lt_of_le_of_lt = λ x y z h k. ground arith;
  lt_irrefl = λ x. ground arith;
  lt_or_le = λ x y h k. ground arith;
}

div-le-div : (a b d : ℕ) → a ≤ b → a / suc d ≤ b / suc d
div-le-div a b d h =
    let below : a / suc d * suc d ≤ a =
      (le-div_iff_mul-le {k = suc d} {x = a / suc d} {y = a} (omega arith)).0 (omega arith) in
    (le-div_iff_mul-le {k = suc d} (omega arith)).1 (omega arith)

div-self_lem : (d : ℕ) → suc d * 1000 / suc d ≤ 1000
div-self_lem d = grind arith

milli_div_mono :
    (x y p : Milli)
    → ltb_ℤ (pos 0) p ≡ true
    → leb_ℤ x y ≡ true
    → leb_ℤ (milli_div x p) (milli_div y p) ≡ true
milli_div_mono x y (negsuc n) h k = ground arith
milli_div_mono x y (pos zero) h k = ground arith
milli_div_mono (pos x) (pos y) (pos (suc d)) h k =
    ground (arith, div-le-div (x * 1000) (y * 1000) d)
milli_div_mono (negsuc x) (pos y) (pos (suc d)) h k = ground arith
milli_div_mono (pos x) (negsuc y) (pos (suc d)) h k = ground arith
milli_div_mono (negsuc x) (negsuc y) (pos (suc d)) h k =
    ground (arith, div-le-div (y * 1000 + 999) (x * 1000 + 999) d)

milli_div_le_one :
    (x p : Milli)
    → ltb_ℤ (pos 0) p ≡ true
    → leb_ℤ x p ≡ true
    → leb_ℤ (milli_div x p) (pos 1000) ≡ true
milli_div_le_one x (negsuc n) h k = ground arith
milli_div_le_one x (pos zero) h k = ground arith
milli_div_le_one (pos x) (pos (suc d)) h k =
    ground (arith, div-le-div (x * 1000) (suc d * 1000) d, div-self_lem d)
milli_div_le_one (negsuc x) (pos (suc d)) h k = ground arith

div_nonpos_lem :
    (x p : Milli)
    → ltb_ℤ (pos 0) p ≡ true
    → leb_ℤ x (pos 0) ≡ true
    → leb_ℤ (milli_div x p) (pos 0) ≡ true
div_nonpos_lem x (negsuc n) h k = ground arith
div_nonpos_lem x (pos zero) h k = ground arith
div_nonpos_lem (pos x) (pos (suc d)) h k = ground (arith, div-le-div (x * 1000) 0 d)
div_nonpos_lem (negsuc x) (pos (suc d)) h k = ground arith

div_nonneg_lem :
    (x p : Milli)
    → ltb_ℤ (pos 0) p ≡ true
    → leb_ℤ (pos 0) x ≡ true
    → leb_ℤ (pos 0) (milli_div x p) ≡ true
div_nonneg_lem x (negsuc n) h k = ground arith
div_nonneg_lem x (pos zero) h k = ground arith
div_nonneg_lem (pos x) (pos (suc d)) h k = ground arith
div_nonneg_lem (negsuc x) (pos (suc d)) h k = ground arith

mul_nonneg_lem :
    (x y : Milli)
    → leb_ℤ (pos 0) x ≡ true
    → leb_ℤ (pos 0) y ≡ true
    → leb_ℤ (pos 0) (milli_mul x y) ≡ true
mul_nonneg_lem (pos x) (pos y) h k = ground arith
mul_nonneg_lem (negsuc x) (pos y) h k = ground arith
mul_nonneg_lem (pos x) (negsuc y) h k = ground arith
mul_nonneg_lem (negsuc x) (negsuc y) h k = ground arith

mul_le_left_lem :
    (x y : Milli)
    → leb_ℤ (pos 0) x ≡ true
    → leb_ℤ y (pos 1000) ≡ true
    → leb_ℤ (pos 0) y ≡ true
    → leb_ℤ (milli_mul x y) x ≡ true
mul_le_left_lem (pos x) (pos y) h k l =
    ground (arith, mul-le-mul {n₁ = x} {m₁ = y} {n₂ = x} {m₂ = 1000})
mul_le_left_lem (negsuc x) y h k l = ground arith
mul_le_left_lem (pos x) (negsuc y) h k l = ground arith

pub Milli-IsMonotone : IsMonotone Milli
unfolding ◌-ℤ◌
Milli-IsMonotone = record {
  ordered = Milli-IsOrdered;
  finite_refl = λ x h. ground arith;
  num_of_eq = λ x h. ground arith;
  finite_between = λ x y h k l. ground arith;
  one_finite = ground arith;
  one_pos = ground arith;
  nought_finite = ground arith;
  sub_antitone = λ x y z h k. ground arith;
  sub_nonpos = λ x y h k. ground arith;
  div_mono = λ x y p h k l. milli_div_mono x y p k l;
  div_nonpos = λ x p h k l. div_nonpos_lem x p k l;
  div_nonneg = λ x p h k l. div_nonneg_lem x p k l;
  div_le_one = λ x p h k l. milli_div_le_one x p k l;
  mul_nonneg = λ x y h k l m. mul_nonneg_lem x y l m;
  mul_le_left = λ x y h k l m. mul_le_left_lem x y k l m;
}

pub Milli-IsExact : IsExact Milli
unfolding ◌+ℤ◌ ◌-ℤ◌
Milli-IsExact = record {
  sub-add = λ x y. ground arith;
  sub-nought = λ x. ground arith;
  sub-sub = λ x y z. ground arith;
}

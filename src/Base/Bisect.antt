-- ===== src/Base/Bisect.antt =====
-- `bisect.bisect_left` of the standard library, which halves a range of indices. Its result is
-- determined only on a sorted list.
use Prim.Native.Nat.{ℕ, zero, suc, ◌+◌, ◌/◌, ◌≤◌, ◌<◌}
use mathlib.Core.Path.{◌≡◌}
use mathlib.Core.Bool.{true, false}
use mathlib.Core.Logic.{inl, inr}
use mathlib.Core.List.{List, [], ◌∷◌}
use native.Mathlib.Omega.{arith}
use trading_bot.Base.Checks.{ltb, if◌then◌else◌, Bool-cases}
use trading_bot.Base.Lists.{length}
use trading_bot.Base.Int.{ℤ, pos, ltb_ℤ, ◌≤ℤ◌, ◌<ℤ◌}

-- `a[i]`; only indices of the list are read.
abbrev pub at : List ℤ → ℕ → ℤ
at [] i = pos 0
at (x ∷ xs) zero = x
at (x ∷ xs) (suc i) = at xs i

-- `while lo < hi`, with the length of the range as fuel
bisect_loop : ℕ → List ℤ → ℤ → ℕ → ℕ → ℕ
bisect_loop zero a x lo hi = lo
bisect_loop (suc fuel) a x lo hi =
    let mid = (lo + hi) / 2 in
    let right = bisect_loop fuel a x (mid + 1) hi in
    let left = bisect_loop fuel a x lo mid in
    if ltb lo hi then if ltb_ℤ (at a mid) x then right else left else lo

unfoldable pub bisect_left : List ℤ → ℤ → ℕ
unfolding bisect_loop
bisect_left a x = bisect_loop (length a) a x 0 (length a)

abbrev pub IsSorted : List ℤ → Type 0
IsSorted a = (i j : ℕ) → i ≤ j → j < length a → at a i ≤ℤ at a j

-- The entries below `r` are less than `x`, the others are not.
pub record Splits (a : List ℤ) (x : ℤ) (r : ℕ) : Type 0 where
  pub inside : r ≤ length a
  pub below : (i : ℕ) → i < r → at a i <ℤ x
  pub above : (i : ℕ) → r ≤ i → i < length a → x ≤ℤ at a i

record Range (a : List ℤ) (x : ℤ) (lo hi : ℕ) : Type 0 where
  ordered : lo ≤ hi
  inside : hi ≤ length a
  below : (i : ℕ) → i < lo → at a i <ℤ x
  above : (i : ℕ) → hi ≤ i → i < length a → x ≤ℤ at a i

module _ (a : List ℤ) (x : ℤ) (sorted : IsSorted a) where
  right-Range :
      (lo hi : ℕ)
      → Range a x lo hi
      → lo < hi
      → ltb_ℤ (at a ((lo + hi) / 2)) x ≡ true
      → Range a x ((lo + hi) / 2 + 1) hi
  right-Range lo hi r h less = record {
    ordered = omega (arith, r.ordered);
    inside = r.inside;
    below = λ i p.
        ground (arith, less, sorted i ((lo + hi) / 2) (omega arith) (omega (arith, r.inside)));
    above = r.above;
  }

  left-Range :
      (lo hi : ℕ)
      → Range a x lo hi
      → lo < hi
      → ltb_ℤ (at a ((lo + hi) / 2)) x ≡ false
      → Range a x lo ((lo + hi) / 2)
  left-Range lo hi r h more = record {
    ordered = omega (arith, r.ordered);
    inside = omega (arith, r.inside);
    below = r.below;
    above = λ i p q. ground (arith, more, sorted ((lo + hi) / 2) i p q);
  }

  Range-Splits : (lo hi : ℕ) → Range a x lo hi → ltb lo hi ≡ false → Splits a x lo
  Range-Splits lo hi r done = record {
    inside = omega (arith, r.ordered, r.inside);
    below = r.below;
    above = λ i p q. r.above i (ground (arith, done)) q;
  }

  bisect_loop-Splits :
      (fuel lo hi : ℕ) → hi ≤ lo + fuel → Range a x lo hi → Splits a x (bisect_loop fuel a x lo hi)
  unfolding bisect_loop
  bisect_loop-Splits zero lo hi enough r = Range-Splits lo hi r (ground (arith, enough, r.ordered))
  bisect_loop-Splits (suc fuel) lo hi enough r = elim (Bool-cases (ltb lo hi)) [
    | inr done ↦ rw done (Range-Splits lo hi r done)
    | inl more ↦
        let h : lo < hi = ground (arith, more) in
        elim (Bool-cases (ltb_ℤ (at a ((lo + hi) / 2)) x)) [
          | inl less ↦
              rw (more, less)
                (bisect_loop-Splits fuel ((lo + hi) / 2 + 1) hi (omega arith)
                  (right-Range lo hi r h less))
          | inr not_less ↦
              rw (more, not_less)
                (bisect_loop-Splits fuel lo ((lo + hi) / 2) (omega arith)
                  (left-Range lo hi r h not_less))
        ]
  ]

  -- On a sorted list the fuel is enough, and the result splits the list at `x`.
  pub bisect_left-Splits : Splits a x (bisect_left a x)
  unfolding bisect_left
  bisect_left-Splits = bisect_loop-Splits (length a) 0 (length a) (omega arith) (record {
    ordered = omega arith;
    inside = omega arith;
    below = λ i p. absurd (omega arith);
    above = λ i p q. absurd (omega arith);
  })

-- ===== src/Ftmo/Live/Manage/Removal.antt =====
-- Taking tickets out of a list one by one, and what a list then contains.
use trading_bot.Base.{
  ℕ, ◌≡◌, refl, ap, ◌∙◌, inl, inr, ◌≢◌, Bool, true, false, not, ◌&&◌, ◌||◌, List, [], ◌∷◌, ◌++◌,
  arith,
}
use native.Mathlib.Decide.{ℕ_discrete}
use trading_bot.Base.Checks.{◌==◌, Bool-cases}
use trading_bot.Base.Lists.{contains, remove, select}

unfoldable pub remove_each : List ℕ → List ℕ → List ℕ
remove_each [] xs = xs
remove_each (g ∷ gs) xs = remove_each gs (remove g xs)

remove_self : (x : ℕ) (xs : List ℕ) → remove x (x ∷ xs) ≡ xs
remove_self x xs = ground arith

remove_ne : (g x : ℕ) (xs : List ℕ) → g ≢ x → remove g (x ∷ xs) ≡ x ∷ remove g xs
remove_ne g x xs h = ground (arith, h)

pub apart : (p : ℕ → Bool) (y x : ℕ) → p y ≡ true → p x ≡ false → y ≢ x
apart p y x e h same = cc

remove_each-kept :
    (p : ℕ → Bool) (ys : List ℕ) (x : ℕ) (xs : List ℕ)
    → p x ≡ false
    → remove_each (select p ys) (x ∷ xs) ≡ x ∷ remove_each (select p ys) xs
unfolding remove_each
remove_each-kept p [] x xs h = refl
remove_each-kept p (y ∷ ys) x xs h = elim (Bool-cases (p y)) [
  | inr e ↦ rw e (remove_each-kept p ys x xs h)
  | inl e ↦ rw e (
      ap (remove_each (select p ys)) (remove_ne y x xs (apart p y x e h))
      ∙ remove_each-kept p ys x (remove y xs) h)
]

-- Removing what passes a test, one by one, leaves what does not.
pub remove_each-select :
    (p : ℕ → Bool) (xs : List ℕ) → remove_each (select p xs) xs ≡ select (λ x. not (p x)) xs
unfolding remove_each
remove_each-select p [] = refl
remove_each-select p (x ∷ xs) = elim (Bool-cases (p x)) [
  | inl e ↦ rw e (ap (remove_each (select p xs)) (remove_self x xs) ∙ remove_each-select p xs)
  | inr e ↦ rw e (remove_each-kept p xs x xs e ∙ ap (◌∷◌ x) (remove_each-select p xs))
]

pub contains-select :
    (p : ℕ → Bool) (t : ℕ) (xs : List ℕ) → contains t (select p xs) ≡ (contains t xs && p t)
contains-select p t [] = refl
contains-select p t (x ∷ xs) = elim (ℕ_discrete t x) [
  | yes same ↦ rw same (elim (Bool-cases (p x)) [
    | inl e ↦ rw e (ground (arith))
    | inr e ↦ rw e (ground (arith, contains-select p x xs, e))
  ])
  | no other ↦ elim (Bool-cases (p x)) [
    | inl e ↦ rw e (ground (arith, contains-select p t xs, other))
    | inr e ↦ rw e (ground (arith, contains-select p t xs, other))
  ]
]

pub contains-snoc :
    (t x : ℕ) (xs : List ℕ) → contains t (xs ++ (x ∷ [])) ≡ (contains t xs || t == x)
contains-snoc t x [] = ground arith
contains-snoc t x (y ∷ xs) = ground (arith, contains-snoc t x xs)

-- What a list has is not news to it.
pub contains-again :
    (t x : ℕ) (xs : List ℕ) → contains x xs ≡ true → contains t xs ≡ (contains t xs || t == x)
contains-again t x xs h = elim (ℕ_discrete t x) [
  | yes same ↦ rw (same, h) refl
  | no other ↦ ground (arith, other)
]

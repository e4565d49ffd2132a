-- ===== src/Ftmo/Ledger/Once.antt =====
-- What a ledger of permitted runs looks like.
use trading_bot.Base.{
  ℕ, ◌+◌, ◌≤◌, ◌≡◌, refl, ◌⊎◌, inl, inr, Bool, true, false, List, [], ◌∷◌, ◌++◌, arith, subst,
}
use trading_bot.Base.Checks.{if◌then◌else◌}
use trading_bot.Base.Lists.{length, select, any}
use trading_bot.Ftmo.Ledger.{
  Split, insample, oos, holdout, Run, check, may_run, record_run, is_run, is_holdout, done,
}

-- Ledgers that grow by runs which `check` allowed.
pub data Kept : List Run → Type 0 where
  fresh : Kept []
  ran :
      {runs : List Run} (split : Split) (hash : ℕ)
      → Kept runs
      → check split hash runs ≡ may_run
      → Kept (record_run split hash runs)

abbrev pub count : (Run → Bool) → List Run → ℕ
count p runs = length (select p runs)

count-snoc :
    (p : Run → Bool) (runs : List Run) (r : Run)
    → count p (runs ++ (r ∷ [])) ≡ count p runs + (if p r then 1 else 0)
count-snoc p [] r = ground arith
count-snoc p (x ∷ runs) r = ground (arith, count-snoc p runs r)

count-none : (p : Run → Bool) (runs : List Run) → any p runs ≡ false → count p runs ≡ 0
count-none p [] h = refl
count-none p (x ∷ runs) h = ground (arith, h, count-none p runs)

-- What must have been run before a run.
abbrev pub Backed : List Run → Split → ℕ → Type 0
Backed before insample hash = Unit
Backed before oos hash = done insample hash before ≡ true
Backed before holdout hash = done oos hash before ≡ true

pub record IsClean (runs : List Run) : Type 0 where
  pub one_holdout : count is_holdout runs ≤ 1
  pub one_oos : (hash : ℕ) → count (is_run oos hash) runs ≤ 1
  pub backed :
      (before after : List Run) (r : Run)
      → runs ≡ before ++ (r ∷ after)
      → Backed before r.split r.params_hash

-- How a list that grew at its end splits at an entry.
snoc-split :
    (runs before after : List Run) (x r : Run)
    → runs ++ (x ∷ []) ≡ before ++ (r ∷ after)
    → ((runs ≡ before) × (x ≡ r)) ⊎ ((rest : List Run) × (runs ≡ before ++ (r ∷ rest)))
snoc-split [] [] after x r h = inl (refl, cc)
snoc-split [] (b ∷ []) after x r h = cc
snoc-split [] (b ∷ c ∷ before) after x r h = cc
snoc-split (y ∷ runs) [] after x r h = inr (runs, cc)
snoc-split (y ∷ runs) (b ∷ before) after x r h =
    let same : y ≡ b = cc in
    elim (snoc-split runs before after x r cc) [
      | inl (e, k) ↦ inl (cc, k)
      | inr (rest, e) ↦ inr (rest, cc)
    ]

check-Backed :
    (split : Split) (hash : ℕ) (runs : List Run)
    → check split hash runs ≡ may_run
    → Backed runs split hash
unfolding check
check-Backed insample hash runs h = tt
check-Backed oos hash runs h = ground (arith, h)
check-Backed holdout hash runs h = ground (arith, h)

check-holdout :
    (split : Split) (hash : ℕ) (runs : List Run)
    → check split hash runs ≡ may_run
    → count is_holdout runs ≤ 1
    → count is_holdout (record_run split hash runs) ≤ 1
unfolding check record_run
check-holdout split hash runs h k = ground (
  arith,
  h,
  k,
  count-snoc is_holdout runs (record { split = split; params_hash = hash }),
  count-none is_holdout runs,
)

check-oos :
    (split : Split) (hash other : ℕ) (runs : List Run)
    → check split hash runs ≡ may_run
    → count (is_run oos other) runs ≤ 1
    → count (is_run oos other) (record_run split hash runs) ≤ 1
unfolding check record_run
check-oos split hash other runs h k =
    let r : Run = record { split = split; params_hash = hash } in
    ground (arith, h, k, count-snoc (is_run oos other) runs r, count-none (is_run oos other) runs)

Backed-nil :
    (before after : List Run) (r : Run)
    → [] ≡ before ++ (r ∷ after)
    → Backed before r.split r.params_hash
Backed-nil [] after r e = cc
Backed-nil (x ∷ before) after r e = cc

Backed-snoc :
    (split : Split) (hash : ℕ) (runs : List Run)
    → check split hash runs ≡ may_run
    → IsClean runs
    → (before after : List Run) (r : Run) → record_run split hash runs ≡ before ++ (r ∷ after)
    → Backed before r.split r.params_hash
unfolding record_run
Backed-snoc split hash runs h clean before after r e =
    elim (snoc-split runs before after (record { split = split; params_hash = hash }) r e) [
      | inl (same, new) ↦
          subst (λ x. Backed before x.split x.params_hash) new
            (subst (λ b. Backed b split hash) same (check-Backed split hash runs h))
      | inr (rest, old) ↦ clean.backed before rest r old
    ]

-- In a ledger of permitted runs the hold-out was touched at most once, out-of-sample was run at most
-- once for each hash of the parameters, and every out-of-sample run comes after an in-sample run, and
-- every hold-out run after an out-of-sample run, of the same hash.
pub Kept-IsClean : {runs : List Run} → Kept runs → IsClean runs
Kept-IsClean fresh = record {
  one_holdout = omega arith;
  one_oos = λ hash. omega arith;
  backed = Backed-nil;
}
Kept-IsClean (ran {runs} split hash k h) =
    let ih = Kept-IsClean k in
    record {
      one_holdout = check-holdout split hash runs h ih.one_holdout;
      one_oos = λ other. check-oos split hash other runs h (ih.one_oos other);
      backed = Backed-snoc split hash runs h ih;
    }

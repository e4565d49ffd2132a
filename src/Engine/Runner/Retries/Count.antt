-- ===== src/Engine/Runner/Retries/Count.antt =====
-- What a cycle does to the count of retries in the state.
use trading_bot.Base.{ℕ, suc, ◌≤◌, ◌&&◌, Bool, ◌≡◌, refl, inl, inr, true, false, arith}
use trading_bot.Base.Checks.{Bool-cases}
use trading_bot.Base.Float.{Float}
use trading_bot.Engine.Errors.{Result, ok, err}
use trading_bot.Engine.State.{EngineState, schema}
use trading_bot.Engine.Broker.{AccountSnapshot}
use trading_bot.Engine.Runner.Steps.{Job, Brief, Progress, for_period, same_date, judged, completed}

-- A state of the current schema within the cap.
abbrev pub IsWithin : {F : Type 0} → ℕ → EngineState F → Type 0
IsWithin most s = (s.schema_version ≡ schema) × (s.rebalance_retries ≤ most)

-- A period that was traded has a retry left to count.
abbrev pub Leaves : {F : Type 0} → ℕ → Result (Progress F) → Type 0
Leaves most (err e) = Unit
Leaves most (ok p) =
    IsWithin most p.state × ((p.decided && p.traded) ≡ true → suc p.state.rebalance_retries ≤ most)

-- What the state that is saved has, if the cycle saves one.
abbrev pub Counts : {F : Type 0} → ℕ → Result (EngineState F) → Type 0
Counts most (err e) = Unit
Counts most (ok s) = IsWithin most s

module _ {F : Type 0} ⦃f : Float F⦄ where
  pub for_period-IsWithin :
      (most period : ℕ) (s : EngineState F) → IsWithin most s → IsWithin most (for_period period s)
  unfolding for_period
  for_period-IsWithin most period s (v, h) = elim (Bool-cases (same_date s.retry_period period)) [
    | inl t ↦ rw t (v, h)
    | inr t ↦ rw t (v, omega arith)
  ]

module _ {F S : Type 0} ⦃f : Float F⦄ where
  completed-Counts :
      (most : ℕ) (job : Job F S) (p : Progress F) (near : Result Bool)
      → p.decided ≡ true
      → Leaves most (ok p)
      → Counts most (completed job p near)
  unfolding completed
  completed-Counts most job p (err e) decided h = tt
  completed-Counts most job p (ok true) decided ((v, h), k) = (v, omega arith)
  completed-Counts most job p (ok false) decided ((v, h), k) = elim (Bool-cases p.traded) [
    | inl t ↦
        let room : suc p.state.rebalance_retries ≤ most = k (rw (decided, t) refl) in
        simp t (v, omega arith)
    | inr t ↦ simp t (v, h)
  ]

  pub judged-Counts :
      (most : ℕ) (job : Job F S) (b : Brief F) (p : Progress F) (account : AccountSnapshot F)
      → Leaves most (ok p)
      → Counts most (judged job b p account)
  unfolding judged
  judged-Counts most job b p account h = elim (Bool-cases p.decided) [
    | inr t ↦ simp t (h.0)
    | inl t ↦ elim (Bool-cases p.state.halted) [
      | inl u ↦ simp (t, u) (h.0)
      | inr u ↦ simp (t, u) (completed-Counts most job p _ t h)
    ]
  ]

-- ===== src/Ftmo/Simulation/Days.antt =====
-- What the days of a window say, and what a window that was looked through to some day has found.
use trading_bot.Base.{
  ℕ, ◌+◌, ◌≤◌, ◌≡◌, ap, subst, ◌∙◌, ◌⊎◌, ◌≢◌, inl, inr, Bool, true, false, Option, none, some, List,
  [], ◌∷◌, ◌++◌, arith,
}
use trading_bot.Base.Checks.{Bool-cases}
use trading_bot.Base.Lists.{length, select}
use trading_bot.Base.Float.{Float, max_of}
use trading_bot.Ftmo.Rules.{HaltKind, daily, overall, daily_loss, should_halt}
use trading_bot.Ftmo.Simulation.{
  Day, Outcome, passed, ftmo_failed, engine_halted, unresolved, Reason, by_rule, target,
  WindowResult, Challenge, Progress, last_of, elapsed_to, state_of, at_target,
}

-- The days on which the account traded.
abbrev pub traded_days : {F : Type 0} → List (Day F) → ℕ
traded_days ds = length (select (λ d. d.traded) ds)

abbrev pub is_daily : Option HaltKind → Bool
is_daily (some daily) = true
is_daily _ = false

-- How many entries of a list pass a test, entry by entry.
counted-cons {ℓ} :
    {A : Type ℓ} (test : A → Bool) (x : A) (xs : List A)
    → length (select test (x ∷ xs)) ≡ length (select test (x ∷ [])) + length (select test xs)
counted-cons test x xs = elim (Bool-cases (test x)) [
  | inl e ↦ rw e (omega arith)
  | inr e ↦ rw e (omega arith)
]

counted_from {ℓ} :
    {A : Type ℓ} (test : A → Bool) (n n' : ℕ) (x : A) (xs : List A)
    → n' ≡ n + length (select test (x ∷ []))
    → n' + length (select test xs) ≡ n + length (select test (x ∷ xs))
counted_from test n n' x xs h = omega (arith, h, counted-cons test x xs)

pub no_split : {A : Type 0} (xs : List A) (x : A) (ys : List A) → [] ≢ xs ++ (x ∷ ys)
no_split [] x ys h = cc
no_split (y ∷ xs) x ys h = cc

module _ {F : Type 0} ⦃f : Float F⦄ (c : Challenge F) (first : Day F) where
  -- What the rules say of a day at its low.
  abbrev pub ftmo_says : Day F → Option HaltKind
  ftmo_says d = should_halt (state_of c first d) c.ftmo

  abbrev pub engine_says : Day F → Option HaltKind
  engine_says d = should_halt (state_of c first d) c.engine

  -- The worst daily loss, as a share of the initial balance.
  abbrev pub worst : F → List (Day F) → F
  worst m [] = m
  worst m (d ∷ ds) =
      worst (max_of m (f.div (daily_loss (state_of c first d)) c.ftmo.initial_balance)) ds

  -- The target is reached at the close, after `n` days of trading with this one.
  abbrev pub Passes : ℕ → Day F → Type 0
  Passes n d = (at_target c first d ≡ true) × (c.min_trading_days ≤ n)

  -- A day that neither ends the challenge nor passes it.
  pub record Undecided (n : ℕ) (d : Day F) : Type 0 where
    pub no_breach : ftmo_says d ≡ none
    pub no_halt : engine_says d ≢ some overall
    pub no_pass : Passes n d → ⊥

  -- The rules are asked in this order.
  pub data Ends (n : ℕ) (d : Day F) : Outcome → Reason → Type 0 where
    breach : (k : HaltKind) → ftmo_says d ≡ some k → Ends n d ftmo_failed (by_rule k)
    halt :
        ftmo_says d ≡ none → engine_says d ≡ some overall → Ends n d engine_halted (by_rule overall)
    pass : ftmo_says d ≡ none → engine_says d ≢ some overall → Passes n d → Ends n d passed target

  abbrev pub daily_halts : List (Day F) → ℕ
  daily_halts ds = length (select (λ d. is_daily (engine_says d)) ds)

  -- A breach ends the window before the day's own halt is counted.
  abbrev pub halted_days : Outcome → List (Day F) → Day F → ℕ
  halted_days ftmo_failed looked d = daily_halts looked
  halted_days _ looked d = daily_halts (looked ++ (d ∷ []))

  -- All days of a list are undecided, each after the trading of the days before.
  abbrev pub AllUndecided : ℕ → List (Day F) → Type 0
  AllUndecided n ds =
      (xs : List (Day F)) (d : Day F) (ys : List (Day F))
      → ds ≡ xs ++ (d ∷ ys)
      → Undecided (n + traded_days (xs ++ (d ∷ []))) d

  -- `looked` are the days before the one that decides, `last`. The figures go on from `g`.
  pub record Decided (g : Progress F) (ds : List (Day F)) (r : WindowResult F) : Type 0 where
    pub looked : List (Day F)
    pub last : Day F
    pub later : List (Day F)
    pub split : ds ≡ looked ++ (last ∷ later)
    pub undecided : AllUndecided g.trading looked
    pub ends : Ends (g.trading + traded_days (looked ++ (last ∷ []))) last r.outcome r.reason
    pub start_day : r.start_day ≡ first.day
    pub elapsed : r.days_elapsed ≡ elapsed_to c first last
    pub trading : r.trading_days ≡ g.trading + traded_days (looked ++ (last ∷ []))
    pub max_dd : r.max_daily_dd_pct ≡ worst g.max_dd (looked ++ (last ∷ []))
    pub halts : r.engine_daily_halts ≡ g.engine_daily + halted_days r.outcome looked last

  -- No day decides.
  pub record Open (g : Progress F) (before : Day F) (ds : List (Day F)) (r : WindowResult F)
      : Type 0 where
    pub undecided : AllUndecided g.trading ds
    pub outcome : r.outcome ≡ unresolved
    pub start_day : r.start_day ≡ first.day
    pub elapsed : r.days_elapsed ≡ elapsed_to c first (last_of before ds)
    pub trading : r.trading_days ≡ g.trading + traded_days ds
    pub max_dd : r.max_daily_dd_pct ≡ worst g.max_dd ds
    pub halts : r.engine_daily_halts ≡ g.engine_daily + daily_halts ds

  halted-cons :
      (o : Outcome) (d : Day F) (looked : List (Day F)) (last : Day F)
      → halted_days o (d ∷ looked) last ≡ daily_halts (d ∷ []) + halted_days o looked last
  halted-cons passed d looked last =
      counted-cons (λ x. is_daily (engine_says x)) d (looked ++ (last ∷ []))
  halted-cons ftmo_failed d looked last = counted-cons (λ x. is_daily (engine_says x)) d looked
  halted-cons engine_halted d looked last =
      counted-cons (λ x. is_daily (engine_says x)) d (looked ++ (last ∷ []))
  halted-cons unresolved d looked last =
      counted-cons (λ x. is_daily (engine_says x)) d (looked ++ (last ∷ []))

  -- The figures after an undecided day.
  pub record Next (g : Progress F) (d : Day F) (g' : Progress F) : Type 0 where
    pub undecided : Undecided (g.trading + traded_days (d ∷ [])) d
    pub trading : g'.trading ≡ g.trading + traded_days (d ∷ [])
    pub max_dd : g'.max_dd ≡ worst g.max_dd (d ∷ [])
    pub halts : g'.engine_daily ≡ g.engine_daily + daily_halts (d ∷ [])

  undecided-cons :
      (g g' : Progress F) (d : Day F) (ds : List (Day F))
      → Next g d g'
      → AllUndecided g'.trading ds
      → AllUndecided g.trading (d ∷ ds)
  undecided-cons g g' d ds n h [] e ys split =
      subst (λ x. Undecided (g.trading + traded_days (x ∷ [])) x) (cc) n.undecided
  undecided-cons g g' d ds n h (x ∷ xs) e ys split =
      let same : d ≡ x = cc in
      subst (λ m. Undecided m e)
        (counted_from (λ v. v.traded) g.trading g'.trading x (xs ++ (e ∷ []))
          (subst (λ v. g'.trading ≡ g.trading + traded_days (v ∷ [])) same n.trading))
        (h xs e ys cc)

  -- What is known of the list below an undecided day, of the whole.
  abbrev pub Result : Progress F → Day F → List (Day F) → WindowResult F → Type 0
  Result g before ds r = Decided g ds r ⊎ Open g before ds r

  Decided-cons :
      (g g' : Progress F) (d : Day F) (ds : List (Day F)) (r : WindowResult F)
      → Next g d g'
      → Decided g' ds r
      → Decided g (d ∷ ds) r
  Decided-cons g g' d ds r n k =
      let sum =
        counted_from (λ v. v.traded) g.trading g'.trading d (k.looked ++ (k.last ∷ [])) n.trading in
      record {
        looked = d ∷ k.looked;
        last = k.last;
        later = k.later;
        split = ap (◌∷◌ d) k.split;
        undecided = undecided-cons g g' d k.looked n k.undecided;
        ends = subst (λ m. Ends m k.last r.outcome r.reason) sum k.ends;
        start_day = k.start_day;
        elapsed = k.elapsed;
        trading = k.trading ∙ sum;
        max_dd = k.max_dd ∙ ap (λ m. worst m (k.looked ++ (k.last ∷ []))) n.max_dd;
        halts = omega (arith, k.halts, n.halts, halted-cons r.outcome d k.looked k.last);
      }

  Open-cons :
      (before : Day F) (g g' : Progress F) (d : Day F) (ds : List (Day F)) (r : WindowResult F)
      → Next g d g'
      → Open g' d ds r
      → Open g before (d ∷ ds) r
  Open-cons before g g' d ds r n k = record {
    undecided = undecided-cons g g' d ds n k.undecided;
    outcome = k.outcome;
    start_day = k.start_day;
    elapsed = k.elapsed;
    trading = k.trading ∙ counted_from (λ v. v.traded) g.trading g'.trading d ds n.trading;
    max_dd = k.max_dd ∙ ap (λ m. worst m ds) n.max_dd;
    halts =
        k.halts
        ∙ counted_from (λ v. is_daily (engine_says v)) g.engine_daily g'.engine_daily d ds n.halts;
  }

  pub Result-cons :
      (before : Day F) (g g' : Progress F) (d : Day F) (ds : List (Day F)) (r : WindowResult F)
      → Next g d g'
      → Result g' d ds r
      → Result g before (d ∷ ds) r
  Result-cons before g g' d ds r n (inl k) = inl (Decided-cons g g' d ds r n k)
  Result-cons before g g' d ds r n (inr k) = inr (Open-cons before g g' d ds r n k)

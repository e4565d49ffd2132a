-- ===== src/Ftmo/Simulation/First.antt =====
-- What decides a window: its first day that can.
use trading_bot.Base.{
  ℕ, suc, ◌+◌, ◌≤◌, ◌≡◌, refl, sym, subst, ◌⊎◌, ◌≢◌, inl, inr, true, false, ◌&&◌, Option, none,
  some, List, [], ◌∷◌, arith,
}
use trading_bot.Base.Checks.{leb, leb→le, Bool-cases}
use trading_bot.Base.Float.{Float, nought}
use trading_bot.Ftmo.Rules.{HaltKind, daily, overall}
use trading_bot.Ftmo.Simulation.{
  Day, Outcome, passed, ftmo_failed, engine_halted, Reason, by_rule, target, WindowResult,
  Challenge, Progress, result, at_target, counted, scan, check_ftmo, check_engine, check_target,
  window,
}
use trading_bot.Ftmo.Simulation.Days.{
  traded_days, no_split, breach, halt, pass, ftmo_says, engine_says, worst, Passes, Ends,
  daily_halts, halted_days, Decided, Next, Result, Result-cons,
}

not_leb : (a b : ℕ) → leb a b ≡ false → a ≤ b → ⊥
not_leb a b h k = ground arith

module _ {F : Type 0} ⦃f : Float F⦄ (c : Challenge F) (first : Day F) where
  Decided-now :
      (g g' : Progress F) (d : Day F) (ds : List (Day F)) (o : Outcome) (why : Reason)
      → Ends c first (g.trading + traded_days (d ∷ [])) d o why
      → g'.trading ≡ g.trading + traded_days (d ∷ [])
      → g'.max_dd ≡ worst c first g.max_dd (d ∷ [])
      → g'.engine_daily ≡ g.engine_daily + halted_days c first o [] d
      → Decided c first g (d ∷ ds) (result c first o why d g')
  Decided-now g g' d ds o why ends trading max_dd halts = record {
    looked = [];
    last = d;
    later = ds;
    split = refl;
    undecided = λ xs e ys split. absurd (no_split xs e ys split);
    ends = ends;
    start_day = refl;
    elapsed = refl;
    trading = trading;
    max_dd = max_dd;
    halts = halts;
  }

  counted-trading :
      (d : Day F) (g : Progress F)
      → (counted c first d g).trading ≡ g.trading + traded_days (d ∷ [])
  counted-trading d g = elim (Bool-cases d.traded) [
    | inl e ↦ simp e (omega arith)
    | inr e ↦ simp e (omega arith)
  ]

  -- The figures before the target is asked for.
  record Ready (g : Progress F) (d : Day F) (g' : Progress F) : Type 0 where
    no_breach : ftmo_says c first d ≡ none
    no_halt : engine_says c first d ≢ some overall
    trading : g'.trading ≡ g.trading + traded_days (d ∷ [])
    max_dd : g'.max_dd ≡ worst c first g.max_dd (d ∷ [])
    halts : g'.engine_daily ≡ g.engine_daily + daily_halts c first (d ∷ [])

  Ready-Next :
      (g g' : Progress F) (d : Day F)
      → Ready g d g'
      → (Passes c first g'.trading d → ⊥)
      → Next c first g d g'
  Ready-Next g g' d k no_pass = record {
    undecided = record {
      no_breach = k.no_breach;
      no_halt = k.no_halt;
      no_pass = λ p. no_pass (p.0, subst (λ m. c.min_trading_days ≤ m) (sym k.trading) p.1);
    };
    trading = k.trading;
    max_dd = k.max_dd;
    halts = k.halts;
  }

  Passes-cases :
      (n : ℕ) (d : Day F)
      → (((at_target c first d && leb c.min_trading_days n) ≡ true) × Passes c first n d)
        ⊎ (((at_target c first d && leb c.min_trading_days n) ≡ false) × (Passes c first n d → ⊥))
  Passes-cases n d = elim (Bool-cases (at_target c first d)) [
    | inl e ↦ elim (Bool-cases (leb c.min_trading_days n)) [
      | inl e' ↦ inl (rw (e, e') (refl, (refl, leb→le c.min_trading_days n e')))
      | inr e' ↦ inr (rw (e, e') (refl, λ p. not_leb c.min_trading_days n e' p.1))
    ]
    | inr e ↦ inr (rw e (refl, λ p. let h = p.0 in cc))
  ]

  check_target-Result :
      (before : Day F) (g g' : Progress F) (d : Day F) (ds : List (Day F)) (later : WindowResult F)
      → Ready g d g'
      → Result c first g' d ds later
      → Result c first g before (d ∷ ds) (check_target c first d g' later)
  unfolding check_target
  check_target-Result before g g' d ds later k rest = elim (Passes-cases g'.trading d) [
    | inl (e, p) ↦ rw e (
        inl (
          Decided-now g g' d ds passed target
            (pass k.no_breach k.no_halt (subst (λ m. Passes c first m d) k.trading p)) k.trading
            k.max_dd k.halts))
    | inr (e, no_pass) ↦
        rw e (Result-cons c first before g g' d ds later (Ready-Next g g' d k no_pass) rest)
  ]

  check_engine-Result :
      (before : Day F) (g : Progress F) (d : Day F) (ds : List (Day F))
      (later : Progress F → WindowResult F) (o : Option HaltKind)
      → engine_says c first d ≡ o
      → ftmo_says c first d ≡ none
      → ((g' : Progress F) → Result c first g' d ds (later g'))
      → Result c first g before (d ∷ ds) (check_engine c first o d (counted c first d g) later)
  unfolding check_engine
  check_engine-Result before g d ds later (some overall) e ok rest = inl (
      Decided-now g (counted c first d g) d ds engine_halted (by_rule overall) (halt ok e)
        (counted-trading d g) refl (rw e (omega arith)))
  check_engine-Result before g d ds later (some daily) e ok rest =
      let g' = record (counted c first d g) { engine_daily = suc g.engine_daily } in
      check_target-Result before g g' d ds (later g')
        (record {
          no_breach = ok;
          no_halt = λ h. cc;
          trading = counted-trading d g;
          max_dd = refl;
          halts = rw e (omega arith);
        })
        (rest g')
  check_engine-Result before g d ds later none e ok rest =
      let g' = counted c first d g in
      check_target-Result before g g' d ds (later g')
        (record {
          no_breach = ok;
          no_halt = λ h. cc;
          trading = counted-trading d g;
          max_dd = refl;
          halts = rw e (omega arith);
        })
        (rest g')

  check_ftmo-Result :
      (before : Day F) (g : Progress F) (d : Day F) (ds : List (Day F))
      (later : Progress F → WindowResult F) (o : Option HaltKind)
      → ftmo_says c first d ≡ o
      → ((g' : Progress F) → Result c first g' d ds (later g'))
      → Result c first g before (d ∷ ds) (check_ftmo c first o d (counted c first d g) later)
  unfolding check_ftmo
  check_ftmo-Result before g d ds later (some k) e rest = inl (
      Decided-now g (counted c first d g) d ds ftmo_failed (by_rule k) (breach k e)
        (counted-trading d g) refl (omega arith))
  check_ftmo-Result before g d ds later none e rest =
      check_engine-Result before g d ds later (engine_says c first d) refl e rest

  scan-Result :
      (before : Day F) (ds : List (Day F)) (g : Progress F)
      → Result c first g before ds (scan c first before ds g)
  unfolding scan
  scan-Result before [] g = inr (record {
    undecided = λ xs e ys split. absurd (no_split xs e ys split);
    outcome = refl;
    start_day = refl;
    elapsed = refl;
    trading = omega arith;
    max_dd = refl;
    halts = omega arith;
  })
  scan-Result before (d ∷ ds) g =
      check_ftmo-Result before g d ds (scan c first d ds) (ftmo_says c first d) refl
        (scan-Result d ds)

  abbrev pub start : Progress F
  start = record { trading = 0; max_dd = nought; engine_daily = 0 }

  -- A window is decided by its first day that can decide it, asked in this order: a breach of the
  -- challenge's limits at the day's low fails it, an overall breach of the engine's limits halts it, and
  -- the target at the close, after enough days of trading with this one, passes it. A day on which only
  -- the engine's daily limit is breached is counted and does not end it. When no day decides, the window
  -- is unresolved. The result's days of trading, worst daily loss, elapsed days and daily halts are those
  -- of the days up to the one that decides.
  pub window-Result : (ds : List (Day F)) → Result c first start first ds (window c first ds)
  unfolding window
  window-Result ds = scan-Result first ds start

-- ===== src/Ftmo/Live/Guard/Breach.antt =====
-- A breach that the guard sees is on disk, whatever the terminal does afterwards.
use trading_bot.Base.{
  ℕ, ◌≡◌, ◌≢◌, refl, sym, ◌∙◌, subst, inl, inr, true, false, Option, some, ◌&&◌, arith,
}
use trading_bot.Base.Checks.{Bool-cases}
use trading_bot.Base.Float.{Float}
use trading_bot.Base.Outcome.{Outcome, raised, returned}
use trading_bot.Ftmo.Rules.{
  Moment, HaltKind, daily, overall, Baseline, resolve_baseline, should_halt,
}
use trading_bot.Ftmo.Live.Store.{
  LiveError, File, missing, garbled, misshapen, holds, Files, HaltRecord, rules, is_daily,
  load_baseline, read_halt, clear_daily_halt, write_heartbeat,
}
use trading_bot.Ftmo.Live.{Account, IsTraced, World, pure, write, go_on, ◌>>=◌, ◌>>◌}
use trading_bot.Ftmo.Live.Guard.{
  GuardTick, Watch, tick, watch, watch_account, settle, flatten, record_halt, decided, clear_halt,
  day_baseline, is_overall, is_stored, state_of,
}
use trading_bot.Ftmo.Live.Guard.Calls.{IsClosed, flatten-Keeps}

-- A halt that is at least of this kind.
abbrev pub Halts : HaltKind → File HaltRecord → Type 0
Halts k missing = ⊥
Halts k misshapen = ⊥
Halts k garbled = Unit
Halts k (holds r) = is_overall k ≡ true → is_daily r.kind ≡ false

overall-is_daily : (k : HaltKind) → is_overall k ≡ true → is_daily (rules k) ≡ false
overall-is_daily daily h = cc
overall-is_daily overall h = refl

unraised :
    {F : Type 0} (today : ℕ) (fs : Files F) (e : LiveError)
    → clear_daily_halt today fs ≡ raised e
    → fs.halt ≡ misshapen
unfolding clear_daily_halt read_halt
unraised today fs e h = ground (arith, h)

cleared-readable :
    {F : Type 0} (today : ℕ) (fs gs : Files F)
    → clear_daily_halt today fs ≡ returned gs
    → fs.halt ≢ misshapen
    → gs.halt ≢ misshapen
unfolding clear_daily_halt read_halt
cleared-readable today fs gs h ok_file = ground (arith, h)

module _ {F S : Type 0} ⦃f : Float F⦄ (g : Watch F S) (t : IsTraced g.client) where
  SameFiles-IsClosed : IsClosed g t (λ w w'. w'.files ≡ w.files)
  SameFiles-IsClosed = record {
    refl = λ w. refl;
    trans = λ u v w p q. q ∙ p;
    asks = λ w s same. refl;
  }

  -- What follows the record leaves the file alone.
  after_record :
      (k : HaltKind) (now : Moment) (o : Outcome LiveError (Option HaltRecord) × World F S)
      → Halts k o.1.files.halt
      → Halts k
          (go_on o (λ halt. flatten g now halt >>= λ done.
            write (write_heartbeat now.instant) >> pure done)).1.files.halt
  after_record k now (raised e, w) h = h
  after_record k now (returned halt, w) h = flattened k now (flatten g now halt w) (
      subst (λ fs. Halts k fs.halt) (sym ((flatten-Keeps g t _ SameFiles-IsClosed now halt).by w))
        h)
    where
      flattened :
          (k : HaltKind) (now : Moment) (o : Outcome LiveError GuardTick × World F S)
          → Halts k o.1.files.halt
          → Halts k
              (go_on o (λ done. write (write_heartbeat now.instant) >> pure done)).1.files.halt
      flattened k now (raised e, w) h = h
      flattened k now (returned done, w) h = h

  recorded :
      (k : HaltKind) (now : Moment) (w : World F S) (halt : File HaltRecord)
      → w.files.halt ≡ halt
      → halt ≢ misshapen
      → Halts k (record_halt g (some k) now w).1.files.halt
  unfolding record_halt decided read_halt
  recorded k now w missing e ok_file = rw e (overall-is_daily k)
  recorded k now w garbled e ok_file = ground (arith, e)
  recorded k now w misshapen e ok_file = absurd (ok_file refl)
  recorded k now w (holds r) e ok_file = elim (Bool-cases (is_daily r.kind && is_overall k)) [
    | inl worse ↦ rw (e, worse) (overall-is_daily k)
    | inr known ↦ rw (e, known) (λ h. ground (arith, h, known))
  ]

  after_clear :
      (k : HaltKind) (now : Moment) (equity : F) (b : Baseline F) (w : World F S)
      (o : Outcome LiveError (Files F))
      → clear_daily_halt now.day w.files ≡ o
      → w.files.halt ≢ misshapen
      → should_halt (state_of g now equity b) g.limits ≡ some k
      → Halts k (settle g now equity b w).1.files.halt
  unfolding settle clear_halt
  after_clear k now equity b w (raised e) h ok_file breach =
      ground (arith, unraised now.day w.files e h)
  after_clear k now equity b w (returned fs) h ok_file breach =
      rw (h, breach)
        (after_record k now _ (
          recorded k now (record w { files = fs }) fs.halt refl
            (cleared-readable now.day w.files fs h ok_file)))

  settle-Halts :
      (k : HaltKind) (now : Moment) (equity : F) (b : Baseline F) (w : World F S)
      → w.files.halt ≢ misshapen
      → should_halt (state_of g now equity b) g.limits ≡ some k
      → Halts k (settle g now equity b w).1.files.halt
  settle-Halts k now equity b w =
      after_clear k now equity b w (clear_daily_halt now.day w.files) refl

  -- When the equity that the guard reads breaches a limit against the day's baseline, a record of that
  -- kind at least is on disk after the poll, even if flattening failed or raised; the files must be
  -- readable as json records or as no json at all.
  pub tick-Halts :
      (k : HaltKind) (now : Moment) (w : World F S) (account : Account F) (s : S)
      (stored : Option (Baseline F))
      → g.client.account w.terminal ≡ (returned account, s)
      → load_baseline w.files ≡ returned stored
      → w.files.halt ≢ misshapen
      → should_halt
          (state_of g now account.equity (resolve_baseline stored now account.equity))
          g.limits
        ≡ some k
      → Halts k (tick g now w).1.files.halt
  unfolding tick watch_account watch day_baseline
  tick-Halts k now w account s stored seen loaded ok_file breach =
      let b = resolve_baseline stored now account.equity in
      rw (seen, loaded)
        (elim (Bool-cases (is_stored stored now)) [
          | inl same ↦ rw same (settle-Halts k now account.equity b _ ok_file breach)
          | inr new ↦ rw new (settle-Halts k now account.equity b _ ok_file breach)
        ])

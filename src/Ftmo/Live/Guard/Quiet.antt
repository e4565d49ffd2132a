-- ===== src/Ftmo/Live/Guard/Quiet.antt =====
-- What a poll of the guard leaves alone.
use trading_bot.Base.{ℕ, ◌≡◌, refl, sym, ◌∙◌, subst, inl, inr, false, Option, none, some, arith}
use trading_bot.Base.Checks.{Bool-cases}
use trading_bot.Base.Float.{Float}
use trading_bot.Base.Outcome.{Outcome, raised, returned}
use trading_bot.Ftmo.Rules.{Moment, HaltKind, Baseline}
use trading_bot.Ftmo.Live.Store.{
  LiveError, File, missing, garbled, misshapen, holds, Files, HaltRecord, is_daily, load_baseline,
  read_halt, clear_daily_halt,
}
use trading_bot.Ftmo.Live.{Account, IsTraced, World, read, ask, attempt}
use trading_bot.Ftmo.Live.Guard.{
  Watch, tick, watch, watch_account, settle, flatten, record_halt, decided, clear_halt,
  day_baseline, is_stored,
}
use trading_bot.Ftmo.Live.Guard.Calls.{
  IsClosed, Keeps, Keeps-pure, Keeps-read, Keeps-ask, Keeps-bind, Keeps-attempt, flatten-Keeps,
}

-- A halt that only a human removes.
abbrev pub IsFinal : File HaltRecord → Type 0
IsFinal missing = ⊥
IsFinal garbled = Unit
IsFinal misshapen = Unit
IsFinal (holds h) = is_daily h.kind ≡ false

cleared_files :
    {F : Type 0} (today : ℕ) (fs gs : Files F)
    → clear_daily_halt today fs ≡ returned gs
    → (gs.idempotency ≡ fs.idempotency) × (IsFinal fs.halt → gs.halt ≡ fs.halt)
unfolding clear_daily_halt read_halt
cleared_files today fs gs h = (ground (arith, h), λ k. ground (arith, h, k))

module _ {F S : Type 0} ⦃f : Float F⦄ (g : Watch F S) (t : IsTraced g.client) where
  -- No order is sent, no key is written, and a final halt stays.
  abbrev pub Mild : World F S → World F S → Type 0
  Mild w w' =
      (t.trail w'.terminal ≡ t.trail w.terminal)
      × (w'.files.idempotency ≡ w.files.idempotency)
      × (IsFinal w.files.halt → w'.files.halt ≡ w.files.halt)

  Mild-trans : (u v w : World F S) → Mild u v → Mild v w → Mild u w
  Mild-trans u v w (a, b, c) (a', b', c') =
      (a' ∙ a, b' ∙ b, λ h. c' (subst IsFinal (sym (c h)) h) ∙ c h)

  Mild-IsClosed : IsClosed g t Mild
  Mild-IsClosed = record {
    refl = λ w. (refl, refl, λ h. refl);
    trans = Mild-trans;
    asks = λ w s same. (same, refl, λ h. refl);
  }

  day_baseline-Keeps :
      (now : Moment) (equity : F) → Keeps g t Mild Mild-IsClosed (day_baseline g now equity)
  unfolding day_baseline
  day_baseline-Keeps now equity =
      Keeps-bind g t Mild Mild-IsClosed (read load_baseline) _
        (Keeps-read g t Mild Mild-IsClosed load_baseline)
        λ stored. elim (Bool-cases (is_stored stored now)) [
          | inl same ↦ rw same (Keeps-pure g t Mild Mild-IsClosed _)
          | inr new ↦ rw new (record { by = λ w. (refl, refl, λ h. refl) })
        ]

  cleared-Mild :
      (today : ℕ) (w : World F S) (o : Outcome LiveError (Files F))
      → clear_daily_halt today w.files ≡ o
      → Mild w (clear_halt g today w).1
  unfolding clear_halt
  cleared-Mild today w (raised e) h = rw h (refl, refl, λ k. refl)
  cleared-Mild today w (returned fs) h =
      let (kept, final) = cleared_files today w.files fs h in rw h (refl, kept, final)

  clear_halt-Keeps : (today : ℕ) → Keeps g t Mild Mild-IsClosed (clear_halt g today)
  clear_halt-Keeps today = record {
    by = λ w. cleared-Mild today w (clear_daily_halt today w.files) refl;
  }

  decided-Mild :
      (k : HaltKind) (now : Moment) (w : World F S) (halt : File HaltRecord)
      → w.files.halt ≡ halt
      → Mild w (record_halt g (some k) now w).1
  unfolding record_halt decided read_halt
  decided-Mild k now w missing e = rw e (refl, refl, λ h. absurd h)
  decided-Mild k now w garbled e = rw e (refl, refl, λ h. refl)
  decided-Mild k now w misshapen e = rw e (refl, refl, λ h. refl)
  decided-Mild k now w (holds r) e =
      (ground (arith, e), ground (arith, e), λ h. ground (arith, e, h))

  record_halt-Keeps :
      (decision : Option HaltKind) (now : Moment)
      → Keeps g t Mild Mild-IsClosed (record_halt g decision now)
  unfolding record_halt
  record_halt-Keeps none now = Keeps-read g t Mild Mild-IsClosed read_halt
  record_halt-Keeps (some k) now = record { by = λ w. decided-Mild k now w w.files.halt refl }

  settle-Keeps :
      (now : Moment) (equity : F) (b : Baseline F)
      → Keeps g t Mild Mild-IsClosed (settle g now equity b)
  unfolding settle
  settle-Keeps now equity b =
      Keeps-bind g t Mild Mild-IsClosed (clear_halt g now.day) _ (clear_halt-Keeps now.day) λ _.
        Keeps-bind g t Mild Mild-IsClosed (record_halt g _ now) _ (record_halt-Keeps _ now) λ halt.
          Keeps-bind g t Mild Mild-IsClosed (flatten g now halt) _
            (flatten-Keeps g t Mild Mild-IsClosed now halt)
            λ done. record { by = λ w. (refl, refl, λ h. refl) }

  watch_account-Keeps :
      (now : Moment) (seen : Option (Account F))
      → Keeps g t Mild Mild-IsClosed (watch_account g now seen)
  unfolding watch_account watch
  watch_account-Keeps now none = Keeps-pure g t Mild Mild-IsClosed _
  watch_account-Keeps now (some account) =
      Keeps-bind g t Mild Mild-IsClosed (day_baseline g now account.equity) _
        (day_baseline-Keeps now account.equity) (settle-Keeps now account.equity)

  pub tick-Mild : (now : Moment) (w : World F S) → Mild w (tick g now w).1
  unfolding tick
  tick-Mild now w =
      (Keeps-bind g t Mild Mild-IsClosed (attempt (ask g.client.account)) _
          (Keeps-attempt g t Mild Mild-IsClosed _
            (Keeps-ask g t Mild Mild-IsClosed g.client.account t.account_trail))
          (watch_account-Keeps now)).by
        w

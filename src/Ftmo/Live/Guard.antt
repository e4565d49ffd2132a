-- ===== src/Ftmo/Live/Guard.antt =====
-- ftmo-bot/src/ftmo_bot/risk/guard.py: one poll of the kill switch. What it only logs or sends to the
-- operator is left out: the tickets it closed, its messages, the daily summary.
pub mod Calls
pub mod Quiet
pub mod Breach
use trading_bot.Base.{ℕ, Bool, true, false, not, ◌&&◌, ◌||◌, Option, none, some, List, [], ◌∷◌}
use trading_bot.Base.Checks.{ltb, leb, ◌==◌, if◌then◌else◌}
use trading_bot.Base.Lists.{select}
use trading_bot.Base.Dict.{Dict, lookup}
use trading_bot.Base.Float.{Float}
use trading_bot.Ftmo.Rules.{
  Moment, Limits, AccountState, HaltKind, daily, overall, Baseline, resolve_baseline, should_halt,
  past_friday_cutoff,
}
use trading_bot.Ftmo.Live.Store.{
  Files, HaltRecord, RecordKind, rules, manual, is_daily, load_baseline, save_baseline,
  clear_daily_halt, read_halt, write_halt, write_heartbeat,
}
use trading_bot.Ftmo.Live.{
  Account, PositionInfo, OrderResult, Client, World, Act, pure, read, lift, ask, attempt, write,
  go_on, ◌>>=◌, ◌>>◌,
}

-- What the guard is configured with. `session` is `session_start_utc` and `flatten_time_utc` of an
-- instrument on a day, as the time zone's library gives them; `none` is an instrument that is not
-- configured.
pub record Watch (F S : Type 0) : Type 0 where
  pub client : Client F S
  pub limits : Limits F
  pub instrument_of : Dict ℕ
  pub session : ℕ → ℕ → Option (ℕ × ℕ)

-- What the poll did.
pub data GuardTick : Type 0 where
  mt5_down friday outside_session all_well flatten_error : GuardTick
  halted : RecordKind → GuardTick

abbrev within : Moment → Option (ℕ × ℕ) → Bool
within now none = false
within now (some (start, flatten)) = leb start now.instant && ltb now.instant flatten

-- `baseline is stored`
abbrev pub is_stored : {F : Type 0} → Option (Baseline F) → Moment → Bool
is_stored none now = false
is_stored (some b) now = b.day == now.day

abbrev is_overall : HaltKind → Bool
is_overall overall = true
is_overall daily = false

-- A new decision is written over no record, and an overall one over a daily one.
abbrev pub supersedes : HaltKind → Option HaltRecord → Bool
supersedes k none = true
supersedes k (some r) = is_daily r.kind && is_overall k

abbrev done_or_error : Option GuardTick → GuardTick
done_or_error none = flatten_error
done_or_error (some o) = o

abbrev is_empty : {F : Type 0} → List (PositionInfo F) → Bool
is_empty [] = true
is_empty (p ∷ ps) = false

module _ {F S : Type 0} ⦃f : Float F⦄ (g : Watch F S) where
  in_window : Moment → PositionInfo F → Bool
  in_window now p = elim (lookup p.symbol g.instrument_of) [
    | none ↦ false
    | some name ↦ within now (g.session name now.day)
  ]

  -- The day's baseline, written when it is new.
  day_baseline : Moment → F → Act F S (Baseline F)
  day_baseline now equity = do
    stored ← read load_baseline
    let b = resolve_baseline stored now equity
    if is_stored stored now then pure b else (write (save_baseline b) >> pure b)

  clear_halt : ℕ → Act F S (Unit {0})
  clear_halt today = do cleared ← read (clear_daily_halt today); write (λ _. cleared)

  abbrev pub state_of : Moment → F → Baseline F → AccountState F
  state_of now equity b = record {
    now = now;
    equity = equity;
    day_baseline = b.equity;
    overall_reference = g.limits.initial_balance;
    open_positions = [];
    consecutive_losses_today = 0;
  }

  decided : HaltKind → Moment → Option HaltRecord → Act F S (Option HaltRecord)
  decided k now halt =
      if supersedes k halt
      then (write (write_halt (record { kind = rules k; day = now.day; at_utc = now.instant }))
          >> read read_halt)
      else pure halt

  -- The decision of the rules, on disk before anything else is done.
  record_halt : Option HaltKind → Moment → Act F S (Option HaltRecord)
  record_halt none now = read read_halt
  record_halt (some k) now = do halt ← read read_halt; decided k now halt

  cancel_each : List ℕ → Act F S (Unit {0})
  cancel_each [] = pure tt
  cancel_each (t ∷ ts) = do done ← ask (g.client.cancel_order t); cancel_each ts

  close_each : List (PositionInfo F) → Act F S (Unit {0})
  close_each [] = pure tt
  close_each (p ∷ ps) = do done ← ask (g.client.close_position p); close_each ps

  close_outside : Moment → List (PositionInfo F) → Act F S GuardTick
  close_outside now ps =
      let targets = select (λ p. not (in_window now p)) ps in
      close_each targets >> pure (if is_empty targets then all_well else outside_session)

  targets_for : Moment → Option HaltRecord → List (PositionInfo F) → Act F S GuardTick
  targets_for now (some r) ps = do
    pending ← ask g.client.pending_orders
    cancel_each pending
    close_each ps
    pure (halted r.kind)
  targets_for now none ps =
      if past_friday_cutoff now g.limits then close_each ps >> pure friday else close_outside now ps

  -- A failure to flatten is tried again at the next poll.
  pub flatten : Moment → Option HaltRecord → Act F S GuardTick
  flatten now halt = do
    done ← attempt (do ps ← ask g.client.positions; targets_for now halt ps)
    pure (done_or_error done)

  settle : Moment → F → Baseline F → Act F S GuardTick
  settle now equity b = do
    clear_halt now.day
    halt ← record_halt (should_halt (state_of now equity b) g.limits) now
    done ← flatten now halt
    write (write_heartbeat now.instant)
    pure done

  watch : Moment → F → Act F S GuardTick
  watch now equity = do b ← day_baseline now equity; settle now equity b

  watch_account : Moment → Option (Account F) → Act F S GuardTick
  watch_account now none = pure mt5_down
  watch_account now (some account) = watch now account.equity

  -- No heartbeat is written unless the account could be read.
  unfoldable pub tick : Moment → Act F S GuardTick
  unfolding watch_account watch day_baseline settle clear_halt record_halt decided flatten
      targets_for close_outside close_each cancel_each in_window
  tick now = do seen ← attempt (ask g.client.account); watch_account now seen

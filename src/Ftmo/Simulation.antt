-- ===== src/Ftmo/Simulation.antt =====
-- ftmo-bot/src/ftmo_bot/backtest/ftmo_sim.py: a challenge replayed from each day of a backtest, under
-- the rules of Ftmo/Rules. `noon` is what the time zone's library gives for 12:00 of a day. The median
-- and the percentiles of a summary, which numpy computes, and the table of the windows are left out.
pub mod Days
pub mod First
pub mod Counts
mod Tests
use trading_bot.Base.{
  ℕ, zero, suc, ◌+◌, ◌-◌, Bool, true, false, ◌&&◌, Option, none, some, List, [], ◌∷◌,
}
use trading_bot.Base.Checks.{leb, ltb, ◌==◌, if◌then◌else◌}
use trading_bot.Base.Lists.{length, select, drop}
use trading_bot.Base.Int.{ℤ, pos, ◌+ℤ◌, ◌-ℤ◌}
use trading_bot.Base.Float.{Float, nought, max_of}
use trading_bot.Ftmo.Rules.{
  Moment, Limits, AccountState, HaltKind, daily, overall, daily_loss, should_halt, target_reached,
}

pub record Day (F : Type 0) : Type 0 where
  pub day : ℕ
  pub start : F
  pub low : F
  pub close : F
  pub traded : Bool

pub data Outcome : Type 0 where
  passed ftmo_failed engine_halted unresolved : Outcome

-- The values of the source's text.
pub data Reason : Type 0 where
  by_rule : HaltKind → Reason
  target data_end : Reason

pub record WindowResult (F : Type 0) : Type 0 where
  pub start_day : ℕ
  pub outcome : Outcome
  pub reason : Reason
  pub days_elapsed : ℤ
  pub trading_days : ℕ
  pub max_daily_dd_pct : F
  pub engine_daily_halts : ℕ

pub record Challenge (F : Type 0) : Type 0 where
  pub engine : Limits F
  pub ftmo : Limits F
  pub target_pct : F
  pub min_trading_days : ℕ
  pub noon : ℕ → Moment

-- What the loop carries from day to day.
pub record Progress (F : Type 0) : Type 0 where
  pub trading : ℕ
  pub max_dd : F
  pub engine_daily : ℕ

abbrev pub same_outcome : Outcome → Outcome → Bool
same_outcome passed passed = true
same_outcome ftmo_failed ftmo_failed = true
same_outcome engine_halted engine_halted = true
same_outcome unresolved unresolved = true
same_outcome _ _ = false

-- `days[-1]` of a list that starts with `d`
abbrev pub last_of : {F : Type 0} → Day F → List (Day F) → Day F
last_of d [] = d
last_of d (e ∷ es) = last_of e es

module _ {F : Type 0} ⦃f : Float F⦄ (c : Challenge F) where
  open f use {add, sub, div}

  module _ (first : Day F) where
    abbrev pub offset : F
    offset = sub c.ftmo.initial_balance first.start

    abbrev pub elapsed_to : Day F → ℤ
    elapsed_to d = (pos d.day -ℤ pos first.day) +ℤ pos 1

    abbrev pub state_of : Day F → AccountState F
    state_of d = record {
      now = c.noon d.day;
      equity = add d.low offset;
      day_baseline = add d.start offset;
      overall_reference = c.ftmo.initial_balance;
      open_positions = [];
      consecutive_losses_today = 0;
    }

    abbrev pub result : Outcome → Reason → Day F → Progress F → WindowResult F
    result outcome reason d g = record {
      start_day = first.day;
      outcome = outcome;
      reason = reason;
      days_elapsed = elapsed_to d;
      trading_days = g.trading;
      max_daily_dd_pct = g.max_dd;
      engine_daily_halts = g.engine_daily;
    }

    abbrev pub at_target : Day F → Bool
    at_target d = target_reached (add d.close offset) c.ftmo.initial_balance c.target_pct

    -- The figures with a day in them.
    abbrev pub counted : Day F → Progress F → Progress F
    counted d g = record g {
      trading = if d.traded then suc g.trading else g.trading;
      max_dd = max_of g.max_dd (div (daily_loss (state_of d)) c.ftmo.initial_balance);
    }

    check_target : Day F → Progress F → WindowResult F → WindowResult F
    check_target d g later =
        if at_target d && leb c.min_trading_days g.trading then result passed target d g else later

    -- A daily halt of the engine is counted, and the window goes on.
    check_engine :
        Option HaltKind → Day F → Progress F → (Progress F → WindowResult F) → WindowResult F
    check_engine (some overall) d g later = result engine_halted (by_rule overall) d g
    check_engine (some daily) d g later =
        let g' = record g { engine_daily = suc g.engine_daily } in check_target d g' (later g')
    check_engine none d g later = check_target d g (later g)

    check_ftmo :
        Option HaltKind → Day F → Progress F → (Progress F → WindowResult F) → WindowResult F
    check_ftmo (some kind) d g later = result ftmo_failed (by_rule kind) d g
    check_ftmo none d g later = check_engine (should_halt (state_of d) c.engine) d g later

    -- `before` is the last day that was looked at.
    scan : Day F → List (Day F) → Progress F → WindowResult F
    scan before [] g = result unresolved data_end before g
    scan before (d ∷ ds) g =
        check_ftmo (should_halt (state_of d) c.ftmo) d (counted d g) (scan d ds)

    pub window : List (Day F) → WindowResult F
    unfolding scan check_ftmo check_engine check_target
    window ds = scan first ds (record { trading = 0; max_dd = nought; engine_daily = 0 })

  -- `none` is the IndexError of a window that starts after the last day.
  abbrev window_from : List (Day F) → Option (WindowResult F)
  window_from [] = none
  window_from (d ∷ ds) = some (window d (d ∷ ds))

  pub simulate_window : List (Day F) → ℕ → Option (WindowResult F)
  unfolding window
  simulate_window days i = window_from (drop i days)

  abbrev kept : Option (WindowResult F) → List (WindowResult F) → List (WindowResult F)
  kept none rest = rest
  kept (some w) rest = w ∷ rest

  -- `[simulate_window(days, j, …) for j in range(i, i + n)]`
  windows_from : List (Day F) → ℕ → ℕ → List (WindowResult F)
  windows_from days i zero = []
  windows_from days i (suc n) =
      let rest = windows_from days (suc i) n in kept (simulate_window days i) rest

  pub rolling : List (Day F) → List (WindowResult F)
  unfolding windows_from simulate_window
  rolling days = windows_from days 0 (length days)

abbrev pub count : {F : Type 0} → Outcome → List (WindowResult F) → ℕ
count o ws = length (select (λ w. same_outcome w.outcome o) ws)

pub record Summary (F : Type 0) : Type 0 where
  pub windows : ℕ
  pub passed_windows : ℕ
  pub failed_windows : ℕ
  pub halted_windows : ℕ
  pub unresolved_windows : ℕ
  pub pass_rate : F
  pub pass_rate_all_windows : F
  pub ftmo_fail_rate : F
  pub engine_overall_halt_rate : F
  pub windows_with_engine_daily_halt : ℕ

module _ {F : Type 0} ⦃f : Float F⦄ where
  -- `a / b if b else 0.0`
  abbrev rate : ℕ → ℕ → F
  rate a zero = nought
  rate a (suc b) = f.div (f.of_int (pos a)) (f.of_int (pos (suc b)))

  pub summarize : List (WindowResult F) → Summary F
  summarize ws =
      let n = length ws in
      let resolved = n - count unresolved ws in
      record {
        windows = n;
        passed_windows = count passed ws;
        failed_windows = count ftmo_failed ws;
        halted_windows = count engine_halted ws;
        unresolved_windows = count unresolved ws;
        pass_rate = rate (count passed ws) resolved;
        pass_rate_all_windows = rate (count passed ws) n;
        ftmo_fail_rate = rate (count ftmo_failed ws) resolved;
        engine_overall_halt_rate = rate (count engine_halted ws) resolved;
        windows_with_engine_daily_halt = length (select (λ w. ltb 0 w.engine_daily_halts) ws);
      }

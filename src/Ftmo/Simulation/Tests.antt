-- ===== src/Ftmo/Simulation/Tests.antt =====
-- Four days of an account of 1,000.00: limits of 5% and 10%, the engine's half of each, a target of 10%
-- and two days of trading.
use trading_bot.Base.{◌≡◌, refl, true, false, some, none, List, [], ◌∷◌}
use trading_bot.Base.Int.{pos, ◌+ℤ◌, ◌-ℤ◌, neg_ℤ}
use trading_bot.Base.Float.Milli.{Milli, milli_float}
use trading_bot.Ftmo.Rules.{Limits, should_halt, target_reached, daily}
use trading_bot.Ftmo.Simulation.{
  Day, Challenge, passed, ftmo_failed, by_rule, target, window, scan, check_ftmo, check_engine,
  check_target, simulate_window,
}
use trading_bot.Ftmo.Simulation.Days.{Result}
use trading_bot.Ftmo.Simulation.First.{start, window-Result}

abbrev limits : Limits Milli
limits = record {
  initial_balance = pos 1_000_000;
  daily_loss_pct = pos 50;
  overall_loss_pct = pos 100;
  max_open_slots = 2;
  correlated_groups = [];
  max_consecutive_losses = 2;
  friday_cutoff = 75_600;
}

abbrev challenge : Challenge Milli
challenge = record {
  engine = record limits { daily_loss_pct = pos 25; overall_loss_pct = pos 60 };
  ftmo = limits;
  target_pct = pos 100;
  min_trading_days = 2;
  noon = λ day. record {
    day = day;
    weekday = 2;
    time_of_day = 43_200;
    since_reset = 43_200;
    instant = 43_200_000_000;
  };
}

abbrev first_day : Day Milli
first_day = record {
  day = 1;
  start = pos 1_000_000;
  low = pos 990_000;
  close = pos 1_010_000;
  traded = true;
}

abbrev days : List (Day Milli)
days =
    first_day
    ∷ record {
      day = 2;
      start = pos 1_010_000;
      low = pos 980_000;
      close = pos 1_110_000;
      traded = false;
    }
    ∷ record {
      day = 5;
      start = pos 1_110_000;
      low = pos 1_100_000;
      close = pos 1_120_000;
      traded = true;
    }
    ∷ record {
      day = 6;
      start = pos 1_120_000;
      low = pos 1_060_000;
      close = pos 1_060_000;
      traded = true;
    }
    ∷ []

-- The target is reached on the second day, and counts from the second day of trading on.
passed_test :
    simulate_window challenge days 0
    ≡ some (record {
      start_day = 1;
      outcome = passed;
      reason = target;
      days_elapsed = pos 5;
      trading_days = 2;
      max_daily_dd_pct = pos 30;
      engine_daily_halts = 1;
    })
unfolding simulate_window window scan check_ftmo check_engine check_target should_halt
    target_reached ◌+ℤ◌ ◌-ℤ◌ neg_ℤ
passed_test = refl

failed_test :
    simulate_window challenge days 3
    ≡ some (record {
      start_day = 6;
      outcome = ftmo_failed;
      reason = by_rule daily;
      days_elapsed = pos 1;
      trading_days = 1;
      max_daily_dd_pct = pos 60;
      engine_daily_halts = 0;
    })
unfolding simulate_window window scan check_ftmo check_engine check_target should_halt
    target_reached ◌+ℤ◌ ◌-ℤ◌ neg_ℤ
failed_test = refl

no_day_test : simulate_window challenge days 4 ≡ none
unfolding simulate_window
no_day_test = refl

window-Result_example :
    Result challenge first_day
      (start challenge first_day)
      first_day
      days
      (window challenge first_day days)
window-Result_example = window-Result challenge first_day days

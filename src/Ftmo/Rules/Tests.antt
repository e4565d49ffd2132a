-- ===== src/Ftmo/Rules/Tests.antt =====
-- An account of 1,000.00 with one position, limits of 2.5% and 6%.
use trading_bot.Base.{◌≡◌, ◌≢◌, refl, none, [], ◌∷◌}
use trading_bot.Base.Int.{pos, ◌+ℤ◌, ◌-ℤ◌}
use trading_bot.Base.Float.Milli.{Milli, milli_float, Milli-IsExact}
use trading_bot.Ftmo.Rules.{
  AccountState, Limits, Moment, long, allowed, can_open, check_open, check_projected, unless_halted,
  should_halt, past_friday_cutoff, slots_used, slots_from, group_from, members, worst_case,
  stop_losses,
}
use trading_bot.Ftmo.Rules.Opening.{can_open-Permits, Permits}

abbrev limits : Limits Milli
limits = record {
  initial_balance = pos 1_000_000;
  daily_loss_pct = pos 25;
  overall_loss_pct = pos 60;
  max_open_slots = 2;
  correlated_groups = (1 ∷ 2 ∷ []) ∷ [];
  max_consecutive_losses = 2;
  friday_cutoff = 75_600;
}

abbrev noon : Moment
noon = record {
  day = 700;
  weekday = 2;
  time_of_day = 43_200;
  since_reset = 43_200;
  instant = 43_200_000_000;
}

abbrev account : AccountState Milli
account = record {
  now = noon;
  equity = pos 995_000;
  day_baseline = pos 1_000_000;
  overall_reference = pos 1_000_000;
  open_positions = record { symbol = 1; side = long; risk_to_stop = pos 5000 } ∷ [];
  consecutive_losses_today = 1;
}

permitted : can_open 2 long account limits (pos 9000) ≡ allowed
unfolding can_open check_open check_projected unless_halted should_halt past_friday_cutoff
    slots_used slots_from group_from members worst_case stop_losses ◌+ℤ◌ ◌-ℤ◌
permitted = refl

can_open-Permits_example : Permits 2 long account limits (pos 9000)
can_open-Permits_example = can_open-Permits Milli-IsExact 2 long account limits (pos 9000) permitted

abbrev broke : AccountState Milli
broke = record account { equity = pos 940_000 }

broke_halts : should_halt broke limits ≢ none
unfolding should_halt ◌-ℤ◌
broke_halts h = cc

-- ===== src/MiniProp/App/Tests.antt =====
-- A strategy that buys ten on the first bar and raises on the second, and a venue that takes every order.
use trading_bot.Base.{ℕ, ◌+◌, ◌≡◌, refl, subst, inl, inr, true, false, none, some, [], ◌∷◌}
use trading_bot.Base.Checks.{◌==◌, if◌then◌else◌, Bool-cases}
use trading_bot.Base.Lists.{length, All}
use trading_bot.Base.Int.{pos, ◌+ℤ◌, ◌-ℤ◌}
use trading_bot.Base.Float.Milli.{Milli, milli_float}
use trading_bot.MiniProp.Types.{
  OrderIntent, Fill, signed_quantity, apply_fill, add_to, reduce, buy, sell, market, strategy,
  risk_flatten,
}
use trading_bot.MiniProp.Guardrails.{
  is_flatten, called, trip, flatten_intents, mark_start_of_day, validate,
}
use trading_bot.MiniProp.Oms.{
  on_fill, position_quantities, submit, cancel_all, transition, seed_position, remaining_quantity,
  signed_fill, position_of,
}
use trading_bot.MiniProp.KillFile.{absent, halted_by, may_start}
use trading_bot.MiniProp.App.{
  App, Bar, Settings, Connection, process_bar, on_bar_update, on_connected, shutdown,
}
use trading_bot.MiniProp.App.Steps.{still, then_step, heard, processed, connected, filled, stopped}
use trading_bot.MiniProp.App.Silence.{IsPlain, Quiet, Run-Halted}

abbrev buy_ten : OrderIntent Milli
buy_ten = record {
  action = buy;
  symbol = 1;
  quantity = pos 10;
  order_type = market;
  limit_price = none;
  source = strategy;
  intent_id = 3;
}

abbrev settings : Settings Milli ℕ
settings = record {
  risk = record {
    max_position_shares = pos 100;
    max_position_notional = pos 5_000_000;
    max_order_quantity = pos 50;
    max_gross_notional = pos 9_000_000;
    max_daily_loss = pos 200_000;
    max_daily_loss_pct = pos 20;
    allow_short = true;
  };
  symbol = 1;
  multiplier = pos 1000;
  kill_switch_flattens = true;
  cancel_on_shutdown = true;
  flatten_on_shutdown = false;
  calendar = none;
  on_bar = λ b count. (if count == 0 then some (buy_ten ∷ []) else none, count + 1);
  venue = λ before i. some (pos (length before));
  disk_works = true;
}

abbrev fresh : App Milli ℕ
fresh = record {
  guard = record {
    kill_switch = false;
    kill_reason = none;
    start_of_day_equity = none;
    last_equity = none;
  };
  oms = record { orders = []; positions = []; seen_exec_ids = []; log = [] };
  memory = 0;
  trading_enabled = false;
  flattening = false;
  last_bar_time = none;
  last_price = none;
  marker = absent;
  placed = [];
  next_id = 7;
}

abbrev answers : Connection Milli
answers = record {
  qualified = true;
  equity = some (pos 10_000_000);
  position = some (pos 0, pos 0);
  subscribed = true;
}

abbrev first_bar : Bar Milli
first_bar = record { timestamp = 5; close = pos 100_000 }

abbrev second_bar : Bar Milli
second_bar = record { timestamp = 6; close = pos 101_000 }

abbrev traded : App Milli ℕ
traded =
    process_bar settings (pos 0) first_bar
      (on_bar_update settings first_bar (on_connected settings answers fresh))

abbrev fill : Fill Milli
fill = record {
  order_id = pos 0;
  symbol = 1;
  signed_quantity = pos 10;
  price = pos 100_000;
  exec_id = some 1;
}

-- The order is filled, and the second bar heard.
abbrev holding : App Milli ℕ
holding = record traded { oms = on_fill fill traded.oms; memory = 1 }

abbrev killed : App Milli ℕ
killed = process_bar settings (pos 0) second_bar (on_bar_update settings second_bar holding)

-- The exception of the strategy sells what is held, and leaves its marker.
killed_test :
    (killed.guard.kill_switch ≡ true)
    × (killed.marker ≡ halted_by (some (called 0)))
    × (may_start killed.marker ≡ false)
    × (killed.placed
        ≡ buy_ten
          ∷ record {
            action = sell;
            symbol = 1;
            quantity = pos 10;
            order_type = market;
            limit_price = none;
            source = risk_flatten;
            intent_id = 7;
          }
          ∷ [])
unfolding process_bar on_bar_update on_connected trip flatten_intents mark_start_of_day validate
    position_quantities submit cancel_all on_fill transition seed_position ◌+ℤ◌ ◌-ℤ◌ signed_quantity
    remaining_quantity apply_fill signed_fill position_of add_to reduce
killed_test = (refl, refl, refl, refl)

plain : IsPlain settings
plain b m is e = elim (Bool-cases (m == 0)) [
  | inl first ↦
      let same : (buy_ten ∷ []) ≡ is = let e' = rw first at e in cc in
      subst (All (λ i. is_flatten i.source ≡ false)) same (refl, tt)
  | inr later ↦ let e' = rw later at e in cc
]

-- A fill that was late, and a shutdown.
abbrev after : App Milli ℕ
after = shutdown settings true killed

Run-Halted_example : Quiet settings killed after × (true ≡ true → may_start after.marker ≡ false)
Run-Halted_example =
    Run-Halted settings plain refl refl
      (then_step
        (then_step
          (then_step
            (then_step (then_step (then_step still (connected answers)) (heard first_bar))
              (processed (pos 0) first_bar))
            (filled fill 1))
          (heard second_bar))
        (processed (pos 0) second_bar))
      killed_test.0 (then_step still (stopped true))

-- ===== src/Ftmo/Live/Runner/Tests.antt =====
-- A poll of the guard and a step of the runner, with one position of its own in profit and two bars to hear.
use trading_bot.Base.{Option, none, ℕ, suc, ◌≡◌, refl, true, some, [], ◌∷◌}
use trading_bot.Base.Checks.{◌==◌, if◌then◌else◌}
use trading_bot.Base.Int.{pos, negsuc, ◌+ℤ◌, ◌-ℤ◌}
use trading_bot.Base.Float.Milli.{Milli, milli_float}
use trading_bot.Base.Outcome.{returned, raised}
use trading_bot.Ftmo.Rules.{
  long, should_halt, resolve_baseline, can_open, past_friday_cutoff, members, group_from,
}
use trading_bot.Ftmo.Live.Store.{
  RunnerState, holds, refuse_to_start, read_halt, load_baseline, clear_daily_halt, heartbeat_fresh,
  key_used, add_key, load_runner,
}
use trading_bot.Ftmo.Live.Sizing.{projected_loss, size_for, risk_to_stop}
use trading_bot.Ftmo.Live.{Bar, Client, IsTraced, PositionInfo, World}
use trading_bot.Ftmo.Live.Guard.{tick}
use trading_bot.Ftmo.Live.Router.{place, inverse}
use trading_bot.Ftmo.Live.Manage.{Trading, settle, note_new, preflight, manage}
use trading_bot.Ftmo.Live.Manage.Book.{Book, settle-Book}
use trading_bot.Ftmo.Live.Runner.{Memory, step}
use trading_bot.Ftmo.Live.Runner.Runs.{step-Run}
use trading_bot.Ftmo.Live.Together.{Desk, Run, guard_of, router_of}
use trading_bot.Ftmo.Live.Sample.{
  Terminal, client, traced, contract, desk, noon, start, signal, first_key,
}

abbrev bar_at : ℕ → Bar Milli
bar_at opened = record {
  symbol = 101;
  opened = opened;
  open_price = pos 10_000;
  high = pos 10_000;
  low = pos 10_000;
  close = pos 10_000;
  minutes = 15;
}

-- Long from 20.00 with a stop one point away, now two points up.
abbrev winner : PositionInfo Milli
winner = record {
  ticket = 7;
  symbol = 102;
  side = long;
  volume = pos 10;
  price_open = pos 20_000;
  sl = pos 19_000;
  tp = pos 25_000;
  price_current = pos 22_000;
  magic = 77;
}

-- The profit of ticket 6 is not visible yet.
abbrev pnl_of : ℕ → Option Milli
pnl_of t = if t == 6 then none else some (negsuc 4)

abbrev busy_client : Client Milli Terminal
busy_client = record client {
  positions = λ s. (returned (winner ∷ record winner { ticket = 8; magic = 1 } ∷ []), s);
  closed_pnl = λ ticket s. (returned (pnl_of ticket), s);
  completed_bars =
      λ symbol minutes count s. (returned (bar_at 42_000_000_000 ∷ bar_at 42_300_000_000 ∷ []), s);
}

abbrev busy_traced : IsTraced busy_client
busy_traced = record {
  trail = λ s. s.sent;
  account_trail = λ s. refl;
  positions_trail = λ s. refl;
  pending_trail = λ s. refl;
  tick_trail = λ symbol s. refl;
  cancel_trail = λ ticket s. refl;
  close_trail = λ p s. refl;
  market_trail = λ o s. traced.market_trail o s;
  modify_trail = λ p sl s. refl;
  pnl_trail = λ ticket s. refl;
  tradeable_trail = λ symbol now s. refl;
  bars_trail = λ symbol minutes count s. refl;
}

abbrev busy_desk : Desk Milli Terminal
busy_desk = record desk {
  client = busy_client;
  mt5_symbols = (1, 101) ∷ (2, 102) ∷ [];
  contracts = (1, contract) ∷ (2, contract) ∷ [];
}

-- The strategy signals on every bar of instrument 1, and counts the bars.
abbrev trading : Trading Milli Terminal ℕ
trading = record {
  clock = λ s. noon;
  instruments = 1 ∷ [];
  flatten_time = λ name day. some 64_800_000_000;
  breakeven_r = pos 1000;
  bar_minutes = 15;
  trend_minutes = 240;
  h4_lookback = 60;
  signal_max_age = 240_000_000;
  require_demo = true;
  on_bar = λ bar h4 count. (if bar.symbol == 1 then some signal else none, suc count);
}

abbrev memory : Memory ℕ
memory = record { last_bar = []; strategy = 0 }

abbrev polled_world : World Milli Terminal
polled_world = (tick (guard_of busy_desk) noon start).1

preflight_test :
    ((preflight (router_of busy_desk) trading start).0 ≡ raised refuse_to_start)
    × ((preflight (router_of busy_desk) trading polled_world).0 ≡ returned tt)
unfolding preflight tick read_halt heartbeat_fresh load_baseline clear_daily_halt should_halt ◌-ℤ◌
    resolve_baseline past_friday_cutoff inverse
preflight_test = (refl, refl)

-- The position is noted with its stop, which is moved to the entry. The first bar closed too long ago;
-- the second is traded; both are heard.
step_test : step (router_of busy_desk) trading polled_world memory ≡ (
  returned tt,
  (
    record {
      files = record (polled_world.files) {
        idempotency = holds (first_key ∷ []);
        runner = holds (record {
          day = some 700;
          consecutive_losses = 0;
          breakeven_done = 7 ∷ [];
          original_stops = (7, pos 19_000) ∷ [];
          known_tickets = 7 ∷ [];
        });
      };
      terminal = record { equity = pos 1_000_000; sent = first_key ∷ [] };
    },
    record { last_bar = (1, 42_300_000_000) ∷ []; strategy = 2 },
  ),
)
unfolding step manage place tick read_halt load_baseline clear_daily_halt should_halt ◌-ℤ◌
    resolve_baseline past_friday_cutoff heartbeat_fresh key_used projected_loss can_open ◌+ℤ◌
    size_for add_key load_runner inverse members group_from risk_to_stop
step_test = refl

step-Run_example :
    Run busy_desk busy_traced polled_world
      (step (router_of busy_desk) trading polled_world memory).1.0
step-Run_example = step-Run busy_desk busy_traced trading polled_world memory

-- Ticket 5 closed with a loss, 6 closed, 7 is open, 4 closed with a loss.
abbrev stored : RunnerState Milli
stored = record {
  day = some 700;
  consecutive_losses = 0;
  breakeven_done = 5 ∷ [];
  original_stops = (5, pos 1) ∷ (7, pos 18_000) ∷ [];
  known_tickets = 5 ∷ 6 ∷ 7 ∷ 4 ∷ [];
}

settle_test :
    (settle (router_of busy_desk) trading (winner ∷ []) stored start).0
    ≡ returned (record {
      day = some 700;
      consecutive_losses = 2;
      breakeven_done = [];
      original_stops = (7, pos 18_000) ∷ [];
      known_tickets = 6 ∷ 7 ∷ [];
    })
unfolding settle
settle_test = refl

settle-Book_example :
    (st : RunnerState Milli) × ((settle (router_of busy_desk) trading (winner ∷ []) stored start).0
      ≡ returned st)
    × Book
        (router_of busy_desk)
        trading
        pnl_of
        (winner ∷ [])
        stored
        (note_new (router_of busy_desk) trading (winner ∷ []) st)
settle-Book_example =
    settle-Book (router_of busy_desk) trading pnl_of (λ t s. refl) (winner ∷ []) stored start

-- ===== src/Ftmo/Live/Sample.antt =====
-- A terminal that takes every order, and an account of 1,000.00 with one instrument.
use trading_bot.Base.{refl, inr, none, some, true, List, [], ◌∷◌, ◌++◌}
use trading_bot.Base.Int.{pos}
use trading_bot.Base.Float.Milli.{Milli, milli_float}
use trading_bot.Base.Outcome.{returned}
use trading_bot.Ftmo.Rules.{Moment, Limits, long}
use trading_bot.Ftmo.Live.Store.{Files, Key, missing}
use trading_bot.Ftmo.Live.Sizing.{ContractSpec}
use trading_bot.Ftmo.Live.{Client, IsTraced, World}
use trading_bot.Ftmo.Live.Router.{Signal}
use trading_bot.Ftmo.Live.Together.{Desk}

pub record Terminal : Type 0 where
  pub equity : Milli
  pub sent : List Key

abbrev pub client : Client Milli Terminal
client = record {
  account = λ s. (returned (record { equity = s.equity; is_demo = true }), s);
  positions = λ s. (returned [], s);
  pending_orders = λ s. (returned [], s);
  tick = λ symbol s. (returned (record { bid = pos 10_000; ask = pos 10_010 }), s);
  cancel_order = λ ticket s. (returned (record { accepted = true; ticket = ticket }), s);
  close_position = λ p s. (returned (record { accepted = true; ticket = p.ticket }), s);
  market_order = λ o s. (
    returned (record { accepted = true; ticket = 1 }),
    record s { sent = s.sent ++ (o.comment ∷ []) },
  );
  modify_sl = λ p sl s. (returned (record { accepted = true; ticket = p.ticket }), s);
  closed_pnl = λ ticket s. (returned none, s);
  symbol_tradeable = λ symbol now s. (returned true, s);
  completed_bars = λ symbol minutes count s. (returned [], s);
}

abbrev pub traced : IsTraced client
traced = record {
  trail = λ s. s.sent;
  account_trail = λ s. refl;
  positions_trail = λ s. refl;
  pending_trail = λ s. refl;
  tick_trail = λ symbol s. refl;
  cancel_trail = λ ticket s. refl;
  close_trail = λ p s. refl;
  market_trail = λ o s. inr refl;
  modify_trail = λ p sl s. refl;
  pnl_trail = λ ticket s. refl;
  tradeable_trail = λ symbol now s. refl;
  bars_trail = λ symbol minutes count s. refl;
}

abbrev pub limits : Limits Milli
limits = record {
  initial_balance = pos 1_000_000;
  daily_loss_pct = pos 25;
  overall_loss_pct = pos 60;
  max_open_slots = 2;
  correlated_groups = [];
  max_consecutive_losses = 2;
  friday_cutoff = 75_600;
}

abbrev pub contract : ContractSpec Milli
contract = record {
  contract_size = pos 1000;
  slippage = pos 0;
  commission_per_lot_side = pos 0;
  typical_spread = pos 10;
  min_lot = pos 10;
  lot_step = pos 10;
  max_lot = pos 50_000;
  quote_to_account = pos 1000;
}

-- Instrument 1 is symbol 101 of the terminal, with a session that lasts all day.
abbrev pub desk : Desk Milli Terminal
desk = record {
  client = client;
  limits = limits;
  mt5_symbols = (1, 101) ∷ [];
  session = λ name day. some (0, 86_400_000_000);
  contracts = (1, contract) ∷ [];
  heartbeat_stale = 10_000_000;
  risk_amount = pos 5000;
  magic = 77;
}

abbrev pub noon : Moment
noon = record {
  day = 700;
  weekday = 2;
  time_of_day = 43_200;
  since_reset = 43_200;
  instant = 43_200_000_000;
}

abbrev pub no_files : Files Milli
no_files = record {
  daily_baseline = missing;
  heartbeat = missing;
  halt = missing;
  idempotency = missing;
  runner = missing;
}

abbrev pub start : World Milli Terminal
start = record { files = no_files; terminal = record { equity = pos 1_000_000; sent = [] } }

-- A stop one point away.
abbrev pub signal : Signal Milli
signal = record {
  symbol = 1;
  side = long;
  entry = pos 10_000;
  stop = pos 9000;
  target = pos 12_000;
  session_date = 700;
}

abbrev pub first_key : Key
first_key = record { symbol = 1; session_date = 700; side = long }

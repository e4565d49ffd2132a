-- ===== src/Engine/Fixtures.antt =====
-- A configuration, a price list and a few orders, in thousandths.
use trading_bot.Base.{true, false, none, some, List, [], ◌∷◌}
use trading_bot.Base.Int.{pos}
use trading_bot.Base.Dict.{Dict}
use trading_bot.Base.Float.Milli.{Milli, milli_float}
use trading_bot.Engine.Config.{CostConfig, RiskConfig, EngineConfig, fixed_per_order}
use trading_bot.Engine.Orders.{Order, buy, sell}
use trading_bot.Engine.Broker.Paper.{PaperBroker, Knobs}
use trading_bot.Engine.Execution.{Setup}
use trading_bot.Engine.Execution.Monad.{World}
use trading_bot.Engine.Broker.Paper.{paper_broker}
use trading_bot.Engine.State.{EngineState, Date, fresh_state}

abbrev pub costs : CostConfig Milli
costs = record {
  fee_model = some fixed_per_order;
  fixed_min_fee = pos 1000;
  per_share_fee = pos 10;
  proportional_rate = pos 0;
  spread_bps = pos 10_000;
  slippage_bps = pos 5000;
}

abbrev pub limits : RiskConfig Milli
limits = record {
  max_drawdown_pct = pos 200;
  min_equity_floor = pos 50_000;
  max_daily_loss_pct = pos 50;
  max_position_weight = pos 600;
  max_gross_exposure = pos 1000;
  allow_short = false;
  allow_leverage = false;
  max_orders_per_day = 2;
  min_order_notional = pos 20_000;
  max_cost_fraction = pos 100;
  no_trade_band = pos 10;
  rebalance_tolerance = pos 50;
  max_rebalance_retries = 3;
}

abbrev pub config : EngineConfig Milli
config = record {
  universe = 1 ∷ 2 ∷ [];
  costs = costs;
  risk = limits;
  execution = record {
    live_min_equity = pos 0;
    escalation_max_hops = 1;
    order_wait_seconds = pos 60_000;
  };
  feed = record { max_staleness_days = 5 };
}

-- 10.00 and 25.00
abbrev pub prices : Dict Milli
prices = (1, pos 10_000) ∷ (2, pos 25_000) ∷ []

abbrev pub sell_1 : Order Milli
sell_1 = record {
  symbol = 1;
  side = sell;
  shares = pos 8000;
  is_full_exit = true;
  limit_price = none;
  id = 1;
}

abbrev pub buy_2 : Order Milli
buy_2 = record {
  symbol = 2;
  side = buy;
  shares = pos 4000;
  is_full_exit = false;
  limit_price = some (pos 25_000);
  id = 2;
}

abbrev pub small_buy : Order Milli
small_buy = record {
  symbol = 1;
  side = buy;
  shares = pos 1000;
  is_full_exit = false;
  limit_price = none;
  id = 3;
}

abbrev pub batch : List (Order Milli)
batch = buy_2 ∷ sell_1 ∷ small_buy ∷ []

abbrev pub plain_knobs : Knobs Milli
plain_knobs = record {
  fill_fraction = [];
  scripted_status = [];
  scripted_status_by_symbol = [];
  outage_after_n_orders = none;
  reject_all = false;
}

abbrev pub paper : PaperBroker Milli
paper = record {
  cash = pos 50_000;
  positions = (1, pos 8000) ∷ [];
  prices = prices;
  costs = costs;
  knobs = plain_knobs;
  orders_seen = 0;
  submissions = [];
}

abbrev pub setup : Setup Milli (PaperBroker Milli)
setup = record {
  broker = paper_broker;
  risk = limits;
  costs = costs;
  prices = prices;
  max_hops = 1;
}

abbrev pub world : World Milli (PaperBroker Milli)
world = record { venue = paper; next_id = 4; budget = none; journal = [] }

abbrev pub today : Date
today = record { ordinal = 739_000; period = 24_308 }

-- A peak of 200 and a last mark of 180 on the day before.
abbrev pub yesterday : EngineState Milli
yesterday = record fresh_state {
  peak_equity = pos 200_000;
  last_equity = pos 180_000;
  last_equity_date = some 738_999;
}

-- The month has converged.
abbrev pub finished : EngineState Milli
finished = record yesterday { last_completed_period = some 24_308 }

-- Two of the month's three retries are used.
abbrev pub retried : EngineState Milli
retried = record yesterday { retry_period = some 24_308; rebalance_retries = 2 }

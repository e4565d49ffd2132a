-- ===== src/Ftmo/Live/Mt5/Tests.antt =====
-- A server that keeps what it is sent, answers late at first, and loses the answers about symbol 9.
use trading_bot.Base.{
  ℕ, zero, suc, ◌≡◌, refl, inr, true, false, Option, none, some, List, [], ◌∷◌, ◌++◌,
}
use trading_bot.Base.Checks.{◌==◌, if◌then◌else◌}
use trading_bot.Base.Int.{pos, negsuc, ◌-ℤ◌, ◌+ℤ◌}
use trading_bot.Base.Float.Milli.{Milli, milli_float}
use trading_bot.Base.Outcome.{raised, returned}
use trading_bot.Ftmo.Rules.{Side, long, short}
use trading_bot.Ftmo.Live.Store.{mt5_error, Key}
use trading_bot.Ftmo.Live.{MarketOrder}
use trading_bot.Ftmo.Live.Package.{Request, enter, RawTick, RawResult, Package, Link, buy, fok}
use trading_bot.Ftmo.Live.Mt5.{
  call, tries, raw_tick, send, market_order, total, symbol_tradeable, closed_pnl,
}
use trading_bot.Ftmo.Live.Mt5.Log.{IsLogged}

record Server : Type 0 where
  failures : ℕ
  sent : List (Request Milli)

abbrev quote : ℕ → List (Request Milli) → Option (RawTick Milli) × Server
quote zero rs = (
  some (record { time = 100; bid = pos 10_000; ask = pos 10_010 }),
  record { failures = zero; sent = rs },
)
quote (suc n) rs = (none, record { failures = n; sent = rs })

abbrev answer : Request Milli → Option RawResult
answer (enter d sl tp text) =
    if d.symbol == 9 then none else some (record { retcode = 10_009; order = 5 })
answer r = none

abbrev sample_mt5 : Package Milli Server
sample_mt5 = record {
  account_info = λ s. (some (record { equity = pos 1000; trade_mode = 0 }), s);
  positions_get = λ s. (some [], s);
  orders_get = λ s. (none, s);
  symbol_info = λ symbol s. (some (record { trade_mode = 4; filling_mode = 1 }), s);
  symbol_info_tick = λ symbol s. quote s.failures s.sent;
  copy_rates_from_pos = λ symbol minutes from count s. (some [], s);
  history_deals_get = λ ticket s. (
    some (
        record { entry = 0; profit = pos 0; commission = negsuc 2; swap = pos 0 }
        ∷ record { entry = 1; profit = pos 50; commission = negsuc 2; swap = negsuc 0 }
        ∷ []),
    s,
  );
  order_send = λ r s. (answer r, record s { sent = s.sent ++ (r ∷ []) });
  trade_mode_demo = 0;
  position_type_buy = 0;
  trade_mode_full = 4;
  deal_entry_out = 1;
  retcode_done = 10_009;
}

abbrev link : Link Milli Server
link = record {
  mt5 = sample_mt5;
  server_to_utc = λ time. time;
  retries = 3;
  sleep = λ attempt s. s;
  deviation = 20;
  max_quote_age = 300;
}

quote-sent : (n : ℕ) (rs : List (Request Milli)) → (quote n rs).1.sent ≡ rs
quote-sent zero rs = refl
quote-sent (suc n) rs = refl

abbrev logged : IsLogged link (λ s. s.sent)
logged = record {
  account_log = λ s. refl;
  positions_log = λ s. refl;
  orders_log = λ s. refl;
  info_log = λ symbol s. refl;
  tick_log = λ symbol s. quote-sent s.failures s.sent;
  rates_log = λ symbol minutes from count s. refl;
  deals_log = λ ticket s. refl;
  sleep_log = λ attempt s. refl;
  send_log = λ r s. inr refl;
  answered_log = λ r s res e. refl;
}

abbrev number : Side → ℕ
number long = 0
number short = 1

abbrev written : Key → List ℕ
written k = k.symbol ∷ k.session_date ∷ number k.side ∷ []

abbrev side_of : ℕ → Side
side_of zero = long
side_of (suc n) = short

abbrev reads : List ℕ → Key
reads (symbol ∷ day ∷ side ∷ []) = record {
  symbol = symbol;
  session_date = day;
  side = side_of side;
}
reads _ = record { symbol = 0; session_date = 0; side = long }

abbrev fresh : Server
fresh = record { failures = 2; sent = [] }

abbrev order : MarketOrder Milli
order = record {
  symbol = 101;
  side = long;
  lots = pos 10;
  sl = pos 9000;
  tp = pos 12_000;
  magic = 77;
  comment = record { symbol = 1; session_date = 700; side = long };
}

-- After two failures the third attempt sends the order once, at the ask.
market_order_test : market_order link written order fresh ≡ (
  returned (record { accepted = true; ticket = 5 }),
  record {
    failures = 0;
    sent =
        enter
          (record {
            symbol = 101;
            volume = pos 10;
            kind = buy;
            price = pos 10_010;
            deviation = 20;
            magic = 77;
            filling = fok;
          })
          (pos 9000)
          (pos 12_000)
          (1 ∷ 700 ∷ 0 ∷ [])
        ∷ [];
  },
)
unfolding market_order raw_tick call tries send
market_order_test = refl

-- Four failures exhaust the attempts, and nothing is sent.
no_quote_test :
    market_order link written order (record { failures = 4; sent = [] })
    ≡ (raised mt5_error, record { failures = 0; sent = [] })
unfolding market_order raw_tick call tries send
no_quote_test = refl

stale_quote_test :
    ((symbol_tradeable link 101 400 fresh).0 ≡ returned false)
    × ((symbol_tradeable link 101 401 (record { failures = 0; sent = [] })).0 ≡ returned false)
    × ((symbol_tradeable link 101 400 (record { failures = 0; sent = [] })).0 ≡ returned true)
unfolding symbol_tradeable ◌-ℤ◌
stale_quote_test = (refl, refl, refl)

closed_pnl_test : (closed_pnl link 5 fresh).0 ≡ returned (some (pos 43))
unfolding closed_pnl total ◌+ℤ◌
closed_pnl_test = refl

-- ===== src/Ftmo/Live/Mt5.antt =====
-- ftmo-bot/src/ftmo_bot/execution/mt5_client.py on the package. What it logs is left out. `written` is the
-- text of a key.
pub mod Log
pub mod Refines
mod Tests
use trading_bot.Base.{
  ℕ, zero, suc, ◌+◌, ◌*◌, ◌/◌, ◌%◌, Bool, true, false, ◌&&◌, Option, none, some, List, [], ◌∷◌, map,
}
use trading_bot.Base.Checks.{leb, ◌==◌, if◌then◌else◌}
use trading_bot.Base.Lists.{take, any, select}
use trading_bot.Base.Float.{Float, nought}
use trading_bot.Base.Int.{ℤ, pos, ◌-ℤ◌, leb_ℤ}
use trading_bot.Base.Outcome.{Outcome, raised, returned}
use trading_bot.Ftmo.Rules.{Side, long, short}
use trading_bot.Ftmo.Live.Store.{LiveError, mt5_error, Key}
use trading_bot.Ftmo.Live.Package.{
  OrderKind, Filling, Deal, Request, RawAccount, RawPosition, RawTick, SymbolInfo, RawResult,
  RawDeal, Rate, Package, Link, buy, sell, ioc, fok, whatever_fills, enter, leave, move_stop,
  remove,
}
use trading_bot.Ftmo.Live.{Account, PositionInfo, Quote, OrderResult, MarketOrder, Bar, Client}

-- `x & 1` and `x & 2`
abbrev has_one : ℕ → Bool
has_one x = x % 2 == 1

abbrev has_two : ℕ → Bool
has_two x = (x / 2) % 2 == 1

abbrev filling_of : Option SymbolInfo → Filling
filling_of none = whatever_fills
filling_of (some info) =
    if has_two info.filling_mode
    then ioc
    else if has_one info.filling_mode
    then fok
    else whatever_fills

abbrev kind_to_open : Side → OrderKind
kind_to_open long = buy
kind_to_open short = sell

abbrev kind_to_close : Side → OrderKind
kind_to_close long = sell
kind_to_close short = buy

abbrev price_to_open : {F : Type 0} → Side → RawTick F → F
price_to_open long t = t.ask
price_to_open short t = t.bid

abbrev price_to_close : {F : Type 0} → Side → RawTick F → F
price_to_close long t = t.bid
price_to_close short t = t.ask

module _ {S : Type 0} where
  abbrev pub and_then :
      {A B : Type 0}
      → Outcome LiveError A × S
      → (A → S → Outcome LiveError B × S)
      → Outcome LiveError B × S
  and_then (returned a, s) next = next a s
  and_then (raised e, s) next = (raised e, s)

  abbrev pub then_map : {A B : Type 0} → (A → B) → Outcome LiveError A × S → Outcome LiveError B × S
  then_map g (returned a, s) = (returned (g a), s)
  then_map g (raised e, s) = (raised e, s)

module _ {F S : Type 0} (l : Link F S) where
  -- An answer after the tries that are left.
  abbrev again :
      {A : Type 0} → (S → Outcome LiveError A × S) → Option A × S → Outcome LiveError A × S
  again later (some a, s) = (returned a, s)
  again later (none, s) = later s

  -- Attempt `attempt`, with `left` more to follow.
  tries : {A : Type 0} → (S → Option A × S) → ℕ → ℕ → S → Outcome LiveError A × S
  tries fn attempt zero s = again (λ v. (raised mt5_error, v)) (fn s)
  tries fn attempt (suc left) s =
      again (λ v. tries fn (attempt + 1) left (l.sleep attempt v)) (fn s)

  pub call : {A : Type 0} → (S → Option A × S) → S → Outcome LiveError A × S
  unfolding tries
  call fn s = tries fn 0 l.retries s

  abbrev account_of : RawAccount F → Account F
  account_of a = record { equity = a.equity; is_demo = a.trade_mode == l.mt5.trade_mode_demo }

  pub account : S → Outcome LiveError (Account F) × S
  account s = then_map account_of (call l.mt5.account_info s)

  abbrev position_of : RawPosition F → PositionInfo F
  position_of p = record {
    ticket = p.ticket;
    symbol = p.symbol;
    side = if p.kind == l.mt5.position_type_buy then long else short;
    volume = p.volume;
    price_open = p.price_open;
    sl = p.sl;
    tp = p.tp;
    price_current = p.price_current;
    magic = p.magic;
  }

  pub positions : S → Outcome LiveError (List (PositionInfo F)) × S
  positions s = then_map (map position_of) (call l.mt5.positions_get s)

  pub pending_orders : S → Outcome LiveError (List ℕ) × S
  pending_orders s = call l.mt5.orders_get s

  pub raw_tick : ℕ → S → Outcome LiveError (RawTick F) × S
  raw_tick symbol s = call (l.mt5.symbol_info_tick symbol) s

  abbrev quote_of : RawTick F → Quote F
  quote_of t = record { bid = t.bid; ask = t.ask }

  pub tick : ℕ → S → Outcome LiveError (Quote F) × S
  tick symbol s = then_map quote_of (raw_tick symbol s)

  abbrev quote_fresh : ℕ → Option (RawTick F) × S → Outcome LiveError Bool × S
  quote_fresh now (none, s) = (returned false, s)
  quote_fresh now (some t, s) =
      (returned (leb_ℤ (pos now -ℤ pos (l.server_to_utc t.time)) (pos l.max_quote_age)), s)

  abbrev if_open : ℕ → ℕ → Option SymbolInfo × S → Outcome LiveError Bool × S
  if_open symbol now (none, s) = (returned false, s)
  if_open symbol now (some info, s) =
      if info.trade_mode == l.mt5.trade_mode_full
      then quote_fresh now (l.mt5.symbol_info_tick symbol s)
      else (returned false, s)

  -- Not retried.
  pub symbol_tradeable : ℕ → ℕ → S → Outcome LiveError Bool × S
  symbol_tradeable symbol now s = if_open symbol now (l.mt5.symbol_info symbol s)

  abbrev bar_of : ℕ → ℕ → Rate F → Bar F
  bar_of symbol minutes r = record {
    symbol = symbol;
    opened = l.server_to_utc r.time;
    open_price = r.open_price;
    high = r.high;
    low = r.low;
    close = r.close;
    minutes = minutes;
  }

  -- From position 1, so that the bar that is forming is skipped.
  pub completed_bars : ℕ → ℕ → ℕ → S → Outcome LiveError (List (Bar F)) × S
  completed_bars symbol minutes count s =
      then_map (map (bar_of symbol minutes))
        (call (l.mt5.copy_rates_from_pos symbol minutes 1 count) s)

  abbrev result_of : Option RawResult × S → Outcome LiveError OrderResult × S
  result_of (none, s) = (returned (record { accepted = false; ticket = 0 }), s)
  result_of (some res, s) =
      (returned (record { accepted = res.retcode == l.mt5.retcode_done; ticket = res.order }), s)

  -- Never retried: an order that was not answered may still have arrived.
  pub send : Request F → S → Outcome LiveError OrderResult × S
  send request s = result_of (l.mt5.order_send request s)

  abbrev deal : ℕ → F → OrderKind → F → ℕ → Option SymbolInfo → Deal F
  deal symbol volume kind price magic info = record {
    symbol = symbol;
    volume = volume;
    kind = kind;
    price = price;
    deviation = l.deviation;
    magic = magic;
    filling = filling_of info;
  }

  abbrev with_info :
      (Option SymbolInfo → Request F) → Option SymbolInfo × S → Outcome LiveError OrderResult × S
  with_info request (info, s) = send (request info) s

  -- At the price of the moment, with the filling that the symbol allows.
  pub market_order : (Key → List ℕ) → MarketOrder F → S → Outcome LiveError OrderResult × S
  market_order written o s = and_then (raw_tick o.symbol s) λ t v.
      with_info
        (λ info.
          enter (deal o.symbol o.lots (kind_to_open o.side) (price_to_open o.side t) o.magic info)
            o.sl o.tp (take 31 (written o.comment)))
        (l.mt5.symbol_info o.symbol v)

  pub modify_sl : PositionInfo F → F → S → Outcome LiveError OrderResult × S
  modify_sl p sl s = send (move_stop p.symbol p.ticket sl p.tp) s

  pub close_position : PositionInfo F → S → Outcome LiveError OrderResult × S
  close_position p s = and_then (raw_tick p.symbol s) λ t v.
      with_info
        (λ info.
          leave
            (deal p.symbol p.volume (kind_to_close p.side) (price_to_close p.side t) p.magic info)
            p.ticket)
        (l.mt5.symbol_info p.symbol v)

  pub cancel_order : ℕ → S → Outcome LiveError OrderResult × S
  cancel_order ticket s = send (remove ticket) s

module _ {F S : Type 0} ⦃f : Float F⦄ (l : Link F S) where
  total : List (RawDeal F) → F → F
  total [] sum = sum
  total (d ∷ ds) sum = total ds (f.add sum (f.add (f.add d.profit d.commission) d.swap))

  abbrev settled : Option (List (RawDeal F)) → Option F
  settled none = none
  settled (some ds) =
      if any (λ d. d.entry == l.mt5.deal_entry_out) ds then some (total ds nought) else none

  -- `none` while the position is open. Not retried.
  pub closed_pnl : ℕ → S → Outcome LiveError (Option F) × S
  unfolding total
  closed_pnl ticket s =
      let (deals, v) = l.mt5.history_deals_get ticket s in (returned (settled deals), v)

  abbrev pub client_of : (Key → List ℕ) → Client F S
  client_of written = record {
    account = account l;
    positions = positions l;
    pending_orders = pending_orders l;
    tick = tick l;
    cancel_order = cancel_order l;
    close_position = close_position l;
    market_order = market_order l written;
    modify_sl = modify_sl l;
    closed_pnl = closed_pnl;
    symbol_tradeable = symbol_tradeable l;
    completed_bars = completed_bars l;
  }

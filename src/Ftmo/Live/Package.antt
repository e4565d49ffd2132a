-- ===== src/Ftmo/Live/Package.antt =====
-- The package MetaTrader5, which is not in the repository, as mt5_client.py of ftmo-bot/src/ftmo_bot/execution/
-- calls it. A request has the entries of the source's dict, less the constants of its time; the comment
-- of a request that closes is left out.
use trading_bot.Base.{ℕ, Option, List}

pub data OrderKind : Type 0 where
  buy sell : OrderKind

pub data Filling : Type 0 where
  ioc fok whatever_fills : Filling

pub record Deal (F : Type 0) : Type 0 where
  pub symbol : ℕ
  pub volume : F
  pub kind : OrderKind
  pub price : F
  pub deviation : ℕ
  pub magic : ℕ
  pub filling : Filling

-- What `order_send` is given: a deal that opens a position with its stop, target and comment, one that
-- closes a position, a new stop, or the removal of an order.
pub data Request (F : Type 0) : Type 0 where
  enter : Deal F → F → F → List ℕ → Request F
  leave : Deal F → ℕ → Request F
  move_stop : ℕ → ℕ → F → F → Request F
  remove : ℕ → Request F

pub record RawAccount (F : Type 0) : Type 0 where
  pub equity : F
  pub trade_mode : ℕ

pub record RawPosition (F : Type 0) : Type 0 where
  pub ticket : ℕ
  pub symbol : ℕ
  pub kind : ℕ
  pub volume : F
  pub price_open : F
  pub sl : F
  pub tp : F
  pub price_current : F
  pub magic : ℕ

-- The time is the server's.
pub record RawTick (F : Type 0) : Type 0 where
  pub time : ℕ
  pub bid : F
  pub ask : F

pub record SymbolInfo : Type 0 where
  pub trade_mode : ℕ
  pub filling_mode : ℕ

pub record RawResult : Type 0 where
  pub retcode : ℕ
  pub order : ℕ

pub record RawDeal (F : Type 0) : Type 0 where
  pub entry : ℕ
  pub profit : F
  pub commission : F
  pub swap : F

pub record Rate (F : Type 0) : Type 0 where
  pub time : ℕ
  pub open_price : F
  pub high : F
  pub low : F
  pub close : F

-- The package, on a terminal's state. A call that fails answers `none`.
pub record Package (F S : Type 0) : Type 0 where
  pub account_info : S → Option (RawAccount F) × S
  pub positions_get : S → Option (List (RawPosition F)) × S
  pub orders_get : S → Option (List ℕ) × S
  pub symbol_info : ℕ → S → Option SymbolInfo × S
  pub symbol_info_tick : ℕ → S → Option (RawTick F) × S
  pub copy_rates_from_pos : ℕ → ℕ → ℕ → ℕ → S → Option (List (Rate F)) × S
  pub history_deals_get : ℕ → S → Option (List (RawDeal F)) × S
  pub order_send : Request F → S → Option RawResult × S
  pub trade_mode_demo : ℕ
  pub position_type_buy : ℕ
  pub trade_mode_full : ℕ
  pub deal_entry_out : ℕ
  pub retcode_done : ℕ

-- What the client is made with. `sleep` takes the attempt, for which it waits
-- `retry_delay_s * 2 ** attempt`; `server_to_utc` is the time zone's library.
pub record Link (F S : Type 0) : Type 0 where
  pub mt5 : Package F S
  pub server_to_utc : ℕ → ℕ
  pub retries : ℕ
  pub sleep : ℕ → S → S
  pub deviation : ℕ
  pub max_quote_age : ℕ

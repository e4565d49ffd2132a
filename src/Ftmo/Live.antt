-- ===== src/Ftmo/Live.antt =====
-- ftmo-bot/src/ftmo_bot/execution/ and risk/guard.py: the live bot, two processes that meet in the
-- files of one directory and in one terminal. A file is missing, holds what its writer wrote, or was
-- put there by someone else: text that does not parse, or that parses to another shape. Writes are
-- atomic. The terminal is the package MetaTrader5 behind mt5_client.py, as an interface. Messages to
-- the operator are left out.
pub mod Store
pub mod Package
pub mod Mt5
pub mod Sizing
pub mod Guard
pub mod Router
pub mod Manage
pub mod Runner
pub mod Together
pub mod Sample
use trading_bot.Base.{ℕ, Bool, true, false, Option, none, some, List, [], ◌∷◌, ◌++◌, ◌≡◌, ◌⊎◌}
use trading_bot.Base.Checks.{if◌then◌else◌}
use trading_bot.Base.Outcome.{Outcome, raised, returned}
use trading_bot.Ftmo.Rules.{Side}
use trading_bot.Ftmo.Live.Store.{LiveError, mt5_error, Files, Key}

pub record Account (F : Type 0) : Type 0 where
  pub equity : F
  pub is_demo : Bool

pub record PositionInfo (F : Type 0) : Type 0 where
  pub ticket : ℕ
  pub symbol : ℕ
  pub side : Side
  pub volume : F
  pub price_open : F
  pub sl : F
  pub tp : F
  pub price_current : F
  pub magic : ℕ

pub record Quote (F : Type 0) : Type 0 where
  pub bid : F
  pub ask : F

pub record OrderResult : Type 0 where
  pub accepted : Bool
  pub ticket : ℕ

-- What `market_order` is asked for. The comment is the key.
pub record MarketOrder (F : Type 0) : Type 0 where
  pub symbol : ℕ
  pub side : Side
  pub lots : F
  pub sl : F
  pub tp : F
  pub magic : ℕ
  pub comment : Key

-- A completed bar. Its times are in microseconds.
pub record Bar (F : Type 0) : Type 0 where
  pub symbol : ℕ
  pub opened : ℕ
  pub open_price : F
  pub high : F
  pub low : F
  pub close : F
  pub minutes : ℕ

-- mt5_client.py as its callers use it, on a terminal's state `S`. Every call may raise MT5Error, and
-- even a call that only reads may take time, in which the terminal moves on.
pub record Client (F S : Type 0) : Type 0 where
  pub account : S → Outcome LiveError (Account F) × S
  pub positions : S → Outcome LiveError (List (PositionInfo F)) × S
  pub pending_orders : S → Outcome LiveError (List ℕ) × S
  pub tick : ℕ → S → Outcome LiveError (Quote F) × S
  pub cancel_order : ℕ → S → Outcome LiveError OrderResult × S
  pub close_position : PositionInfo F → S → Outcome LiveError OrderResult × S
  pub market_order : MarketOrder F → S → Outcome LiveError OrderResult × S
  pub modify_sl : PositionInfo F → F → S → Outcome LiveError OrderResult × S
  pub closed_pnl : ℕ → S → Outcome LiveError (Option F) × S
  pub symbol_tradeable : ℕ → ℕ → S → Outcome LiveError Bool × S
  pub completed_bars : ℕ → ℕ → ℕ → S → Outcome LiveError (List (Bar F)) × S

-- A terminal that tells which market orders it was sent, by their comments, oldest first: only
-- `market_order` sends one, and one at most, also when it raises.
pub record IsTraced {F S : Type 0} (c : Client F S) : Type 0 where
  pub trail : S → List Key
  pub account_trail : (s : S) → trail (c.account s).1 ≡ trail s
  pub positions_trail : (s : S) → trail (c.positions s).1 ≡ trail s
  pub pending_trail : (s : S) → trail (c.pending_orders s).1 ≡ trail s
  pub tick_trail : (symbol : ℕ) (s : S) → trail (c.tick symbol s).1 ≡ trail s
  pub cancel_trail : (ticket : ℕ) (s : S) → trail (c.cancel_order ticket s).1 ≡ trail s
  pub close_trail : (p : PositionInfo F) (s : S) → trail (c.close_position p s).1 ≡ trail s
  pub market_trail :
      (o : MarketOrder F) (s : S)
      → (trail (c.market_order o s).1 ≡ trail s)
        ⊎ (trail (c.market_order o s).1 ≡ trail s ++ (o.comment ∷ []))
  pub modify_trail : (p : PositionInfo F) (sl : F) (s : S) → trail (c.modify_sl p sl s).1 ≡ trail s
  pub pnl_trail : (ticket : ℕ) (s : S) → trail (c.closed_pnl ticket s).1 ≡ trail s
  pub tradeable_trail :
      (symbol now : ℕ) (s : S) → trail (c.symbol_tradeable symbol now s).1 ≡ trail s
  pub bars_trail :
      (symbol minutes count : ℕ) (s : S)
      → trail (c.completed_bars symbol minutes count s).1 ≡ trail s

pub record World (F S : Type 0) : Type 0 where
  pub files : Files F
  pub terminal : S

-- A process's work on the files and the terminal. A raise keeps what was done.
abbrev pub Act : Type 0 → Type 0 → Type 0 → Type 0
Act F S A = World F S → Outcome LiveError A × World F S

abbrev pub is_mt5_error : LiveError → Bool
is_mt5_error mt5_error = true
is_mt5_error _ = false

module _ {F S : Type 0} where
  module _ {A : Type 0} where
    abbrev pub pure : A → Act F S A
    pure a w = (returned a, w)

    abbrev pub lift : Outcome LiveError A → Act F S A
    lift r w = (r, w)

    -- a read of the files
    abbrev pub read : (Files F → Outcome LiveError A) → Act F S A
    read look w = (look w.files, w)

    -- a call of the terminal
    abbrev pub ask : (S → Outcome LiveError A × S) → Act F S A
    ask call w = let (r, s) = call w.terminal in (r, record w { terminal = s })

    abbrev pub attempted :
        Outcome LiveError A × World F S → Outcome LiveError (Option A) × World F S
    attempted (returned a, w) = (returned (some a), w)
    attempted (raised e, w) = if is_mt5_error e then (returned none, w) else (raised e, w)

    -- `try: … except MT5Error`, with `none` for the exception
    abbrev pub attempt : Act F S A → Act F S (Option A)
    attempt m w = attempted (m w)

  abbrev pub write : (Files F → Files F) → Act F S (Unit {0})
  write change w = (returned tt, record w { files = change w.files })

  abbrev pub go_on :
      {A B : Type 0}
      → Outcome LiveError A × World F S
      → (A → Act F S B)
      → Outcome LiveError B × World F S
  go_on (returned a, w) f = f a w
  go_on (raised e, w) f = (raised e, w)

  infixl 5 ◌>>=◌ ◌>>◌
  abbrev pub ◌>>=◌ : {A B : Type 0} → Act F S A → (A → Act F S B) → Act F S B
  ◌>>=◌ m f w = go_on (m w) f

  abbrev pub ◌>>◌ : {B : Type 0} → Act F S (Unit {0}) → Act F S B → Act F S B
  m >> k = m >>= λ _. k

-- ===== src/Ftmo/Live/Router/Clearance.antt =====
-- What it is for `place` to leave everything as it was, and to send an order that passed every check.
use trading_bot.Base.{ℕ, ◌≡◌, ◌⊎◌, true, false, none, some, List, [], ◌∷◌, ◌++◌}
use trading_bot.Base.Checks.{◌==◌}
use trading_bot.Base.Float.{Float, nought}
use trading_bot.Base.Outcome.{returned}
use trading_bot.Ftmo.Rules.{Moment, Baseline, allowed, can_open}
use trading_bot.Ftmo.Live.Store.{read_halt, heartbeat_fresh, key_used, load_baseline, add_key}
use trading_bot.Ftmo.Live.Sizing.{ContractSpec, size_for, projected_loss}
use trading_bot.Ftmo.Live.{Account, Quote, PositionInfo, IsTraced, World}
use trading_bot.Ftmo.Live.Router.{Signal, Profile, key_of, state_of, item, order_for}

module _ {F S : Type 0} ⦃f : Float F⦄ (r : Profile F S) (t : IsTraced r.client) where
  -- The files and the orders sent are as they were.
  abbrev pub Quiet : World F S → World F S → Type 0
  Quiet w w' = (w'.files ≡ w.files) × (t.trail w'.terminal ≡ t.trail w.terminal)

  -- The terminal after the account, the quote and the positions were asked for.
  abbrev pub asked : ℕ → S → S
  asked mt5_symbol s = (r.client.positions (r.client.tick mt5_symbol (r.client.account s).1).1).1

  -- The checks that an order has passed, on the files that were there and on what the terminal answered
  -- when it was asked for the account, the quote and the open positions, in this order.
  pub record Cleared (sig : Signal F) (losses : ℕ) (now : Moment) (w : World F S) (lots : F)
      : Type 0 where
    pub running : read_halt w.files ≡ returned none
    pub alive : heartbeat_fresh now.instant r.heartbeat_stale w.files ≡ returned true
    pub new : key_used (key_of sig) w.files ≡ returned false
    pub baseline : Baseline F
    pub baseline_stored : load_baseline w.files ≡ returned (some baseline)
    pub baseline_today : (baseline.day == now.day) ≡ true
    pub spec : ContractSpec F
    pub spec_known : item sig.symbol r.contracts ≡ returned spec
    pub mt5_symbol : ℕ
    pub symbol_known : item sig.symbol r.mt5_symbols ≡ returned mt5_symbol
    pub account : Account F
    pub account_read : (r.client.account w.terminal).0 ≡ returned account
    pub quote : Quote F
    pub quote_read : (r.client.tick mt5_symbol (r.client.account w.terminal).1).0 ≡ returned quote
    pub positions : List (PositionInfo F)
    pub positions_read :
        (r.client.positions (r.client.tick mt5_symbol (r.client.account w.terminal).1).1).0
        ≡ returned positions
    pub risk : F
    pub projected :
        projected_loss sig.entry sig.stop spec r.risk_amount (f.sub quote.ask quote.bid)
        ≡ returned risk
    pub opens :
        can_open sig.symbol sig.side
          (state_of r now account.equity baseline.equity positions losses)
          r.limits
          risk
        ≡ allowed
    pub size : size_for sig.entry sig.stop spec r.risk_amount ≡ returned lots
    pub some_size : f.le lots nought ≡ false

  -- What an order leaves: its key in the file, and the terminal as the one request for this order, of
  -- the cleared size, leaves it. On the terminal is the order unless it was lost on the way.
  pub record Sent (sig : Signal F) (losses : ℕ) (now : Moment) (w w' : World F S) : Type 0 where
    pub lots : F
    pub cleared : Cleared sig losses now w lots
    pub kept : add_key (key_of sig) w.files ≡ returned w'.files
    pub requested :
        w'.terminal
        ≡ (r.client.market_order
            (order_for r sig cleared.mt5_symbol lots)
            (asked cleared.mt5_symbol w.terminal)).1
    pub trail :
        (t.trail w'.terminal ≡ t.trail w.terminal)
        ⊎ (t.trail w'.terminal ≡ t.trail w.terminal ++ (key_of sig ∷ []))

-- ===== src/Ftmo/Live/Router.antt =====
-- ftmo-bot/src/ftmo_bot/execution/order_router.py: from a signal to an order. The reset's time zone of
-- the profile and the strategy's are taken to be one.
pub mod Clearance
pub mod Sent
use trading_bot.Base.{ℕ, Bool, true, false, not, ◌&&◌, ◌||◌, Option, none, some, List, [], ◌∷◌, map}
use trading_bot.Base.Checks.{◌==◌, if◌then◌else◌}
use trading_bot.Base.Dict.{Dict, lookup, lookup_or, insert}
use trading_bot.Base.Float.{Float, nought}
use trading_bot.Base.Outcome.{Outcome, raised, returned}
use trading_bot.Ftmo.Rules.{
  Moment, Limits, AccountState, OpenPosition, Side, Baseline, NoOpen, Permission, allowed, denied,
  can_open,
}
use trading_bot.Ftmo.Live.Store.{
  LiveError, key_error, Files, HaltRecord, RecordKind, Key, read_halt, heartbeat_fresh, key_used,
  load_baseline, add_key,
}
use trading_bot.Ftmo.Live.Sizing.{ContractSpec, size_for, projected_loss, risk_to_stop}
use trading_bot.Ftmo.Live.{
  Account, PositionInfo, Quote, OrderResult, MarketOrder, Client, World, Act, pure, lift, read, ask,
  write, go_on, ◌>>=◌, ◌>>◌,
}

-- `session_date` is what follows the first colon of `session_id`.
pub record Signal (F : Type 0) : Type 0 where
  pub symbol : ℕ
  pub side : Side
  pub entry : F
  pub stop : F
  pub target : F
  pub session_date : ℕ

-- An entry of `mt5_symbols` maps an instrument to its name in the terminal.
pub record Profile (F S : Type 0) : Type 0 where
  pub client : Client F S
  pub limits : Limits F
  pub contracts : Dict (ContractSpec F)
  pub mt5_symbols : Dict ℕ
  pub heartbeat_stale : ℕ
  pub risk_amount : F
  pub magic : ℕ

-- Why no order was placed.
pub data Refusal : Type 0 where
  halted : RecordKind → Refusal
  stale duplicate no_baseline below_min_lot : Refusal
  forbidden : NoOpen → Refusal

pub data PlaceResult (F : Type 0) : Type 0 where
  rejected : Refusal → PlaceResult F
  failed : PlaceResult F
  placed : ℕ → F → PlaceResult F

abbrev pub key_of : {F : Type 0} → Signal F → Key
key_of sig = record { symbol = sig.symbol; session_date = sig.session_date; side = sig.side }

-- `{v: k for k, v in mt5_symbols.items()}`
unfoldable pub inverse : Dict ℕ → Dict ℕ → Dict ℕ
inverse [] seen = seen
inverse ((k, v) ∷ rest) seen = inverse rest (insert v k seen)

-- `d[k]`
abbrev pub item : {V : Type 0} → ℕ → Dict V → Outcome LiveError V
item k d = elim (lookup k d) [ none ↦ raised key_error | some v ↦ returned v ]

module _ {F S : Type 0} ⦃f : Float F⦄ (r : Profile F S) where
  open f use {sub, le, infinity}

  -- A position without a stop, or of an instrument that is not known, risks everything.
  abbrev risk_of : PositionInfo F → Option (ContractSpec F) → F
  risk_of p none = infinity
  risk_of p (some spec) =
      if le p.sl nought then infinity else risk_to_stop p.side p.volume p.price_current p.sl spec

  pub open_position : PositionInfo F → OpenPosition F
  unfolding inverse
  open_position p =
      let name = lookup_or p.symbol p.symbol (inverse r.mt5_symbols []) in
      record { symbol = name; side = p.side; risk_to_stop = risk_of p (lookup name r.contracts) }

  abbrev pub state_of : Moment → F → F → List (PositionInfo F) → ℕ → AccountState F
  state_of now equity baseline ps losses = record {
    now = now;
    equity = equity;
    day_baseline = baseline;
    overall_reference = r.limits.initial_balance;
    open_positions = map open_position ps;
    consecutive_losses_today = losses;
  }

  abbrev pub order_for : Signal F → ℕ → F → MarketOrder F
  order_for sig mt5_symbol lots = record {
    symbol = mt5_symbol;
    side = sig.side;
    lots = lots;
    sl = sig.stop;
    tp = sig.target;
    magic = r.magic;
    comment = key_of sig;
  }

  abbrev answered : F → OrderResult → PlaceResult F
  answered lots res = if res.accepted then placed res.ticket lots else failed

  -- The key is on disk before the order leaves.
  send : Signal F → ℕ → F → Act F S (PlaceResult F)
  send sig mt5_symbol lots = do
    with_key ← read (add_key (key_of sig))
    write (λ _. with_key)
    res ← ask (r.client.market_order (order_for sig mt5_symbol lots))
    pure (answered lots res)

  sized : Signal F → ContractSpec F → ℕ → Act F S (PlaceResult F)
  sized sig spec mt5_symbol = do
    lots ← lift (size_for sig.entry sig.stop spec r.risk_amount)
    if le lots nought then pure (rejected below_min_lot) else send sig mt5_symbol lots

  permitted : Permission → Signal F → ContractSpec F → ℕ → Act F S (PlaceResult F)
  permitted (denied why) sig spec mt5_symbol = pure (rejected (forbidden why))
  permitted allowed sig spec mt5_symbol = sized sig spec mt5_symbol

  judged : Signal F → ℕ → Moment → F → Act F S (PlaceResult F)
  judged sig losses now baseline = do
    spec ← lift (item sig.symbol r.contracts)
    mt5_symbol ← lift (item sig.symbol r.mt5_symbols)
    account ← ask r.client.account
    quote ← ask (r.client.tick mt5_symbol)
    ps ← ask r.client.positions
    projected ←
        lift (projected_loss sig.entry sig.stop spec r.risk_amount (sub quote.ask quote.bid))
    permitted
        (can_open sig.symbol sig.side (state_of now account.equity baseline ps losses) r.limits
          projected)
        sig spec mt5_symbol

  with_baseline : Option (Baseline F) → Signal F → ℕ → Moment → Act F S (PlaceResult F)
  with_baseline none sig losses now = pure (rejected no_baseline)
  with_baseline (some b) sig losses now =
      if b.day == now.day then judged sig losses now b.equity else pure (rejected no_baseline)

  unless_used : Bool → Signal F → ℕ → Moment → Act F S (PlaceResult F)
  unless_used true sig losses now = pure (rejected duplicate)
  unless_used false sig losses now = do
    stored ← read load_baseline
    with_baseline stored sig losses now

  if_fresh : Bool → Signal F → ℕ → Moment → Act F S (PlaceResult F)
  if_fresh false sig losses now = pure (rejected stale)
  if_fresh true sig losses now = do
    used ← read (key_used (key_of sig))
    unless_used used sig losses now

  unless_halted : Option HaltRecord → Signal F → ℕ → Moment → Act F S (PlaceResult F)
  unless_halted (some h) sig losses now = pure (rejected (halted h.kind))
  unless_halted none sig losses now = do
    fresh ← read (heartbeat_fresh now.instant r.heartbeat_stale)
    if_fresh fresh sig losses now

  unfoldable pub place : Signal F → ℕ → Moment → Act F S (PlaceResult F)
  unfolding unless_halted if_fresh unless_used with_baseline judged permitted sized send
      open_position inverse
  place sig losses now = do halt ← read read_halt; unless_halted halt sig losses now

-- ===== src/Ftmo/Live/Manage.antt =====
-- ftmo-bot/src/ftmo_bot/execution/runner.py: what the process that trades does before and beside its
-- bars: the checks at its start, the book of its positions and their exits. Its limits and its time zone
-- are the router's, and the text of a reason is left out. The clock is read off the terminal's state,
-- which moves on with every call. `flatten_time` is flatten_time_utc of an instrument on a day, `none`
-- for one that is not configured. A strategy is any function with a memory.
pub mod Runs
pub mod Removal
pub mod Book
use trading_bot.Base.{
  ℕ, suc, ◌+◌, ◌*◌, Bool, true, false, not, ◌&&◌, ◌||◌, Option, none, some, List, [], ◌∷◌, ◌++◌,
  map,
}
use trading_bot.Base.Checks.{leb, ◌==◌, if◌then◌else◌}
use trading_bot.Base.Lists.{contains, remove, select}
use trading_bot.Base.Dict.{Dict, lookup, lookup_or, insert, erase}
use trading_bot.Base.Int.{pos, ◌-ℤ◌, ltb_ℤ}
use trading_bot.Base.Float.{Float, nought, abs_of}
use trading_bot.Base.Outcome.{Outcome, raised, returned}
use trading_bot.Ftmo.Rules.{Moment, Side, long, short, past_friday_cutoff}
use trading_bot.Ftmo.Live.Store.{
  LiveError, refuse_to_start, HaltRecord, RunnerState, read_halt, heartbeat_fresh, load_runner,
  save_runner,
}
use trading_bot.Ftmo.Live.{
  Account, PositionInfo, OrderResult, Bar, World, Act, pure, lift, read, ask, write, go_on, ◌>>=◌,
  ◌>>◌,
}
use trading_bot.Ftmo.Live.Router.{Signal, Profile, PlaceResult, inverse, item, place}

pub record Trading (F S T : Type 0) : Type 0 where
  pub clock : S → Moment
  pub instruments : List ℕ
  pub flatten_time : ℕ → ℕ → Option ℕ
  pub breakeven_r : F
  pub bar_minutes : ℕ
  pub trend_minutes : ℕ
  pub h4_lookback : ℕ
  pub signal_max_age : ℕ
  pub require_demo : Bool
  pub on_bar : Bar F → List (Bar F) → T → Option (Signal F) × T

abbrev same_day : Option ℕ → ℕ → Bool
same_day none today = false
same_day (some day) today = day == today

abbrev pub tickets : {F : Type 0} → List (PositionInfo F) → List ℕ
tickets ps = map (λ p. p.ticket) ps

module _ {F S T : Type 0} ⦃f : Float F⦄ (r : Profile F S) (k : Trading F S T) where
  open f use {sub, mul, lt, le, eq}

  checked_account : Account F → Act F S (Unit {0})
  checked_account account =
      if k.require_demo && not account.is_demo then lift (raised refuse_to_start) else pure tt

  if_alive : Bool → Act F S (Unit {0})
  if_alive false = lift (raised refuse_to_start)
  if_alive true = ask r.client.account >>= checked_account

  if_running : Option HaltRecord → Moment → Act F S (Unit {0})
  if_running (some halt) now = lift (raised refuse_to_start)
  if_running none now = read (heartbeat_fresh now.instant r.heartbeat_stale) >>= if_alive

  unfoldable pub preflight : Act F S (Unit {0})
  unfolding if_running if_alive checked_account
  preflight w = (read read_halt >>= λ halt. if_running halt (k.clock w.terminal)) w

  -- A new day starts without losses.
  abbrev rolled : ℕ → RunnerState F → RunnerState F
  rolled today st =
      if same_day st.day today then st else record st { day = some today; consecutive_losses = 0 }

  -- A ticket that was closed is counted once and forgotten.
  abbrev pub settled : ℕ → F → RunnerState F → RunnerState F
  settled ticket pnl st = record st {
    consecutive_losses = if lt pnl nought then suc st.consecutive_losses else 0;
    known_tickets = remove ticket st.known_tickets;
    original_stops = erase ticket st.original_stops;
    breakeven_done = remove ticket st.breakeven_done;
  }

  -- A profit that is not visible yet is asked for again in the next step.
  abbrev pub with_pnl : ℕ → Option F → RunnerState F → RunnerState F
  with_pnl ticket none st = st
  with_pnl ticket (some pnl) st = settled ticket pnl st

  settle_each : List ℕ → List ℕ → RunnerState F → Act F S (RunnerState F)
  settle_each [] open_tickets st = pure st
  settle_each (t ∷ ts) open_tickets st =
      let rest = settle_each ts open_tickets in
      if contains t open_tickets
      then rest st
      else (ask (r.client.closed_pnl t) >>= λ pnl. rest (with_pnl t pnl st))

  abbrev pub with_new : PositionInfo F → RunnerState F → RunnerState F
  with_new p st = if contains p.ticket st.known_tickets then st else record st {
    known_tickets = st.known_tickets ++ (p.ticket ∷ []);
    original_stops = insert p.ticket p.sl st.original_stops;
  }

  abbrev pub note_new : List (PositionInfo F) → RunnerState F → RunnerState F
  note_new [] st = st
  note_new (p ∷ ps) st = note_new ps (with_new p st)

  abbrev past_end : Option ℕ → Moment → Bool
  past_end none now = true
  past_end (some end) now = leb end now.instant

  abbrev flatten_by_name : Option ℕ → Moment → Bool
  flatten_by_name none now = true
  flatten_by_name (some name) now = past_end (k.flatten_time name now.day) now

  flatten_due : PositionInfo F → Moment → Bool
  flatten_due p now =
      past_friday_cutoff now r.limits
      || flatten_by_name (lookup p.symbol (inverse r.mt5_symbols [])) now

  abbrev gain : PositionInfo F → F
  gain p = by_side p.side
    where
      by_side : Side → F
      by_side long = sub p.price_current p.price_open
      by_side short = sub p.price_open p.price_current

  abbrev marked : ℕ → List ℕ → OrderResult → List ℕ
  marked ticket done res = if res.accepted then done ++ (ticket ∷ []) else done

  -- The one move of a stop, to the entry, at `breakeven_r` times the first risk. Gives the tickets that
  -- have had it.
  maybe_breakeven : PositionInfo F → F → List ℕ → Act F S (List ℕ)
  maybe_breakeven p orig_sl done =
      let risk = abs_of (sub p.price_open orig_sl) in
      if contains p.ticket done
      then pure done
      else if eq p.sl p.price_open
      then pure (done ++ (p.ticket ∷ []))
      else if le risk nought
      then pure done
      else if le (mul k.breakeven_r risk) (gain p)
      then (ask (r.client.modify_sl p p.price_open) >>= λ res. pure (marked p.ticket done res))
      else pure done

  manage_one : PositionInfo F → Moment → RunnerState F → Act F S (RunnerState F)
  manage_one p now st =
      if flatten_due p now
      then (ask (r.client.close_position p) >>= λ res. pure st)
      else (maybe_breakeven p (lookup_or p.ticket p.sl st.original_stops) st.breakeven_done
          >>= λ done. pure (record st { breakeven_done = done }))

  manage_each : List (PositionInfo F) → Moment → RunnerState F → Act F S (RunnerState F)
  manage_each [] now st = pure st
  manage_each (p ∷ ps) now st = manage_one p now st >>= λ st'. manage_each ps now st'

  abbrev ours : List (PositionInfo F) → List (PositionInfo F)
  ours ps = select (λ p. p.magic == r.magic) ps

  -- The file is written before the positions are attended to and after. Gives the losses of the day.
  keep_book : List (PositionInfo F) → Moment → RunnerState F → Act F S ℕ
  keep_book ps now st = do
    write (save_runner st)
    managed ← manage_each ps now st
    write (save_runner managed)
    pure managed.consecutive_losses

  unfoldable pub settle : List (PositionInfo F) → RunnerState F → Act F S (RunnerState F)
  unfolding settle_each
  settle ps st = settle_each st.known_tickets (tickets ps) st

  -- Everything of a step but the bars.
  unfoldable pub manage : Moment → Act F S ℕ
  unfolding settle keep_book settle_each manage_each manage_one maybe_breakeven flatten_due
  manage now = do
    loaded ← read load_runner
    ps ← ask r.client.positions
    st ← settle (ours ps) (rolled now.day loaded)
    keep_book (ours ps) now (note_new (ours ps) st)

-- ===== src/MiniProp/App.antt =====
-- mini_prop_os/app.py: the application around the guardrails and the order manager. Its handlers do not
-- suspend between a decision and what follows from it, since the adapter's calls return at once: each is
-- one function on the state. The set-up after a connection, which waits for the venue, is taken as one
-- step on what the venue answered. A strategy is any function with a memory; `venue` is the answer of
-- the venue to an order, by the orders before it, `none` when it raises.
pub mod Steps
pub mod Halting
pub mod Silence
mod Tests
use trading_bot.Base.{
  ℕ, ◌+◌, Bool, true, false, not, ◌&&◌, ◌||◌, Option, none, some, List, [], ◌∷◌, ◌++◌,
}
use trading_bot.Base.Checks.{leb, ◌==◌, if◌then◌else◌}
use trading_bot.Base.Lists.{length}
use trading_bot.Base.Dict.{Dict, lookup_or}
use trading_bot.Base.Int.{ℤ, pos, ◌+ℤ◌, abs_ℤ, ltb_ℤ, eqb_ℤ}
use trading_bot.Base.Checks.{ltb}
use trading_bot.Base.Float.{Float, nought}
use trading_bot.MiniProp.Types.{IntentSource, strategy, OrderIntent, signed_quantity, Fill}
use trading_bot.MiniProp.Guardrails.{
  RiskLimits, RiskGuardrails, RiskDecision, approved, reject, KillReason, called, PortfolioSnapshot,
  is_flatten, trip, validate, flatten_intents, mark_start_of_day, update_equity,
}
use trading_bot.MiniProp.Oms.{
  Oms, OrderState, position_quantities, submit, cancel_all, seed_position, on_fill, on_order_status,
}
use trading_bot.MiniProp.EventCalendar.{EventCalendar, ScheduledEvent, active_at}
use trading_bot.MiniProp.KillFile.{MarkerFile, write_kill_marker}

pub record Bar (F : Type 0) : Type 0 where
  pub timestamp : ℕ
  pub close : F

-- The strategy's answer to a bar is `none` when it raises.
pub record Settings (F M : Type 0) : Type 0 where
  pub risk : RiskLimits F
  pub symbol : ℕ
  pub multiplier : F
  pub kill_switch_flattens : Bool
  pub cancel_on_shutdown : Bool
  pub flatten_on_shutdown : Bool
  pub calendar : Option EventCalendar
  pub on_bar : Bar F → M → Option (List (OrderIntent F)) × M
  pub venue : List (OrderIntent F) → OrderIntent F → Option ℤ
  pub disk_works : Bool

-- `placed` are the orders that were given to the venue, oldest first; `next_id` is the counter of
-- intents.
pub record App (F M : Type 0) : Type 0 where
  pub guard : RiskGuardrails F
  pub oms : Oms F
  pub memory : M
  pub trading_enabled : Bool
  pub flattening : Bool
  pub last_bar_time : Option ℕ
  pub last_price : Option F
  pub marker : MarkerFile
  pub placed : List (OrderIntent F)
  pub next_id : ℕ

-- What the venue says after a connection: whether the contract qualifies with the multiplier of the
-- configuration, the equity, the position with its average price, and whether the bars come. `none` is
-- a call that failed.
pub record Connection (F : Type 0) : Type 0 where
  pub qualified : Bool
  pub equity : Option F
  pub position : Option (ℤ × F)
  pub subscribed : Bool

abbrev is_strategy : IntentSource → Bool
is_strategy strategy = true
is_strategy _ = false

abbrev is_approved : RiskDecision → Bool
is_approved approved = true
is_approved (reject why) = false

abbrev is_some : {A : Type 0} → Option A → Bool
is_some none = false
is_some (some a) = true

abbrev no_orders : {A : Type 0} → List A → Bool
no_orders [] = true
no_orders (x ∷ xs) = false

abbrev price_or_nought : {F : Type 0} ⦃f : Float F⦄ → Option F → F
price_or_nought none = nought
price_or_nought (some p) = p

abbrev is_new : Option ℕ → ℕ → Bool
is_new none time = true
is_new (some last) time = ltb last time

abbrev in_blackout : Option EventCalendar → ℤ → Bool
in_blackout none now = false
in_blackout (some c) now = is_some (active_at now c)

module _ {F M : Type 0} ⦃f : Float F⦄ (cfg : Settings F M) where
  open f use {div}

  -- An intent that increases the exposure.
  abbrev is_entry : OrderIntent F → App F M → Bool
  is_entry i a =
      let current = lookup_or i.symbol (pos 0) (position_quantities a.oms) in
      ltb (abs_ℤ current) (abs_ℤ (current +ℤ signed_quantity i))

  abbrev blackout_block : ℤ → OrderIntent F → App F M → Bool
  blackout_block now i a = is_strategy i.source && is_entry i a && in_blackout cfg.calendar now

  abbrev snapshot : App F M → PortfolioSnapshot F
  snapshot a = record {
    positions = position_quantities a.oms;
    last_prices = (cfg.symbol, price_or_nought a.last_price) ∷ [];
    multipliers = (cfg.symbol, cfg.multiplier) ∷ [];
  }

  -- The adapter refuses a symbol that is not the contract's.
  abbrev place : OrderIntent F → App F M → App F M
  place i a =
      if i.symbol == cfg.symbol
      then record a { oms = submit i (cfg.venue a.placed i) a.oms; placed = a.placed ++ (i ∷ []) }
      else record a { oms = submit i none a.oms }

  abbrev if_approved : OrderIntent F → App F M → App F M
  if_approved i a = if is_approved (validate cfg.risk i (snapshot a) a.guard) then place i a else a

  route_intent : ℤ → OrderIntent F → App F M → App F M
  route_intent now i a = if blackout_block now i a then a else if_approved i a

  pub route_each : ℤ → List (OrderIntent F) → App F M → App F M
  route_each now [] a = a
  route_each now (i ∷ is) a = route_each now is (route_intent now i a)

  submit_each : List (OrderIntent F) → App F M → App F M
  submit_each [] a = a
  submit_each (i ∷ is) a = submit_each is (if_approved i a)

  pub flatten_all : App F M → App F M
  flatten_all a =
      let intents = flatten_intents a.next_id (position_quantities a.oms) in
      submit_each intents (record a { next_id = a.next_id + length intents })

  abbrev cancel_working : App F M → App F M
  cancel_working a = record a { oms = (cancel_all a.oms).0 }

  abbrev persisted : App F M → App F M
  persisted a = record a {
    flattening = true;
    marker = write_kill_marker cfg.disk_works a.guard.kill_reason a.marker;
  }

  -- Once in the life of the process, and the marker first.
  kill_switch_fired : App F M → App F M
  kill_switch_fired a =
      let a' = cancel_working (persisted a) in
      if a.flattening then a else if cfg.kill_switch_flattens then flatten_all a' else a'

  halt : KillReason → App F M → App F M
  halt reason a = kill_switch_fired (record a { guard = trip reason a.guard })

  -- The callback of the feed, for a bar that was completed.
  pub on_bar_update : Bar F → App F M → App F M
  on_bar_update b a =
      if is_new a.last_bar_time b.timestamp
      then record a { last_bar_time = some b.timestamp; last_price = some b.close }
      else a

  after_strategy : ℤ → Option (List (OrderIntent F)) → App F M → App F M
  after_strategy now none a = halt (called 0) a
  after_strategy now (some is) a = route_each now is a

  -- An exception of the strategy halts.
  pub process_bar : ℤ → Bar F → App F M → App F M
  unfolding after_strategy route_each route_intent halt kill_switch_fired flatten_all submit_each
  process_bar now b a =
      let (intents, memory) = cfg.on_bar b a.memory in
      if a.trading_enabled then after_strategy now intents (record a { memory = memory }) else a

  marked : App F M → RiskGuardrails F × Bool → App F M
  marked a (g, tripped) =
      let a' = record a { guard = g } in if tripped then kill_switch_fired a' else a'

  -- `none` is an equity that could not be read.
  pub mark_equity : Option F → App F M → App F M
  unfolding marked kill_switch_fired flatten_all submit_each
  mark_equity none a = a
  mark_equity (some equity) a = marked a (update_equity cfg.risk equity a.guard)

  abbrev imported : App F M → Option (Oms F) → App F M × Bool
  imported a none = (a, false)
  imported a (some oms) = (record a { oms = oms }, true)

  -- An account's position is imported into an empty ledger; any other difference halts. The flag tells
  -- whether the set-up goes on.
  reconcile : Option (ℤ × F) → App F M → App F M × Bool
  reconcile none a = (a, false)
  reconcile (some (quantity, avg_cost)) a =
      let held = lookup_or cfg.symbol (pos 0) (position_quantities a.oms) in
      let seeded = seed_position cfg.symbol quantity avg_cost a.oms in
      if eqb_ℤ quantity held
      then (a, true)
      else if eqb_ℤ held (pos 0) && no_orders a.oms.orders
      then imported a seeded
      else (halt (called 1) a, false)

  abbrev enabled : Bool → App F M × Bool → App F M
  enabled subscribed (a, goes_on) =
      if goes_on && subscribed then record a { trading_enabled = true } else a

  abbrev with_baseline : Connection F → Option (RiskGuardrails F) → App F M → App F M
  with_baseline c none a = a
  with_baseline c (some g) a = enabled c.subscribed (reconcile c.position (record a { guard = g }))

  -- The first mark of the day is the breaker's baseline.
  abbrev first_mark : Option F → Option F → RiskGuardrails F → Option (RiskGuardrails F)
  first_mark (some start) equity g = some g
  first_mark none none g = none
  first_mark none (some equity) g = mark_start_of_day equity g

  abbrev baseline : Connection F → RiskGuardrails F → Option (RiskGuardrails F)
  baseline c g = first_mark g.start_of_day_equity c.equity g

  pub on_connected : Connection F → App F M → App F M
  unfolding reconcile halt kill_switch_fired flatten_all submit_each
  on_connected c a =
      if a.trading_enabled || a.guard.kill_switch
      then a
      else if c.qualified
      then with_baseline c (baseline c a.guard) a
      else a

  pub on_disconnected : App F M → App F M
  on_disconnected a = record a { trading_enabled = false }

  abbrev cancel_first : App F M → App F M
  cancel_first a = if cfg.cancel_on_shutdown then cancel_working a else a

  abbrev flatten_last : App F M → App F M
  flatten_last a = if cfg.flatten_on_shutdown then flatten_all a else a

  -- The two waits for the venue are left out.
  pub shutdown : Bool → App F M → App F M
  unfolding on_disconnected flatten_all submit_each
  shutdown is_connected a =
      let halted = on_disconnected a in
      if is_connected then flatten_last (cancel_first halted) else halted

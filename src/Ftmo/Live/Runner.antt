-- ===== src/Ftmo/Live/Runner.antt =====
-- ftmo-bot/src/ftmo_bot/execution/runner.py: a step of the process that trades.
pub mod Runs
mod Tests
use trading_bot.Base.{
  ℕ, suc, ◌+◌, ◌*◌, Bool, true, false, not, ◌&&◌, ◌||◌, Option, none, some, List, [], ◌∷◌, ◌++◌,
  map,
}
use trading_bot.Base.Checks.{leb, ◌==◌, if◌then◌else◌}
use trading_bot.Base.Lists.{contains, remove, select}
use trading_bot.Base.Dict.{Dict, lookup, lookup_or, insert, erase}
use trading_bot.Base.Int.{pos, ◌-ℤ◌, ltb_ℤ}
use trading_bot.Base.Float.{Float, nought, abs_of}
use trading_bot.Base.Outcome.{Outcome, raised, returned}
use trading_bot.Ftmo.Rules.{Moment, Side, long, short, past_friday_cutoff}
use trading_bot.Ftmo.Live.Store.{
  LiveError, refuse_to_start, HaltRecord, RunnerState, read_halt, heartbeat_fresh, load_runner,
  save_runner,
}
use trading_bot.Ftmo.Live.{
  Account, PositionInfo, OrderResult, Bar, World, Act, pure, lift, read, ask, write, go_on, ◌>>=◌,
  ◌>>◌,
}
use trading_bot.Ftmo.Live.Router.{Signal, Profile, PlaceResult, inverse, item, place}
use trading_bot.Ftmo.Live.Manage.{Trading, manage}

-- What the process remembers: the last bar that it has seen of each instrument.
pub record Memory (T : Type 0) : Type 0 where
  pub last_bar : Dict ℕ
  pub strategy : T

-- Work that changes the memory too. A raise keeps what was done.
abbrev pub Work : Type 0 → Type 0 → Type 0 → Type 0
Work F S T = World F S → Memory T → Outcome LiveError (Unit {0}) × (World F S × Memory T)

-- `bar.close_ts`, with 60,000,000 microseconds in a minute
abbrev closed_at : {F : Type 0} → Bar F → ℕ
closed_at b = b.opened + b.minutes * 60_000_000

-- `bars[-1]`, of a list that starts with `b`
abbrev last_of : {F : Type 0} → Bar F → List (Bar F) → Bar F
last_of b [] = b
last_of b (c ∷ cs) = last_of c cs

abbrev is_old : {F : Type 0} → Option ℕ → Bar F → Bool
is_old none b = false
is_old (some last) b = leb b.opened last

module _ {F S T : Type 0} ⦃f : Float F⦄ (r : Profile F S) (k : Trading F S T) where
  abbrev done_work : Work F S T
  done_work w m = (returned tt, (w, m))

  abbrev resume :
      {A : Type 0}
      → Outcome LiveError A × World F S
      → (A → Work F S T)
      → Memory T
      → Outcome LiveError (Unit {0}) × (World F S × Memory T)
  resume (returned a, v) next m = next a v m
  resume (raised e, v) next m = (raised e, (v, m))

  abbrev after_act : {A : Type 0} → Act F S A → (A → Work F S T) → Work F S T
  after_act act next w m = resume (act w) next m

  abbrev resume_work :
      Outcome LiveError (Unit {0}) × (World F S × Memory T)
      → Work F S T
      → Outcome LiveError (Unit {0}) × (World F S × Memory T)
  resume_work (returned a, (v, m)) next = next v m
  resume_work (raised e, (v, m)) next = (raised e, (v, m))

  abbrev ◌then_work◌ : Work F S T → Work F S T → Work F S T
  ◌then_work◌ work next w m = resume_work (work w m) next

  -- At the clock of that moment.
  abbrev place_now : Signal F → ℕ → Act F S (PlaceResult F)
  place_now sig losses w = place r sig losses (k.clock w.terminal) w

  act_on : Option (Signal F) → Bar F → ℕ → Moment → ℕ → Work F S T
  act_on none bar symbol now losses = done_work
  act_on (some sig) bar symbol now losses =
      if ltb_ℤ (pos k.signal_max_age) (pos now.instant -ℤ pos (closed_at bar))
      then done_work
      else after_act (ask (r.client.symbol_tradeable symbol now.instant)) λ tradeable.
        if tradeable then after_act (place_now sig losses) (λ res. done_work) else done_work

  hear : List (Bar F) → Bar F → ℕ → Moment → ℕ → Work F S T
  hear h4 bar symbol now losses w m =
      let (sig, strategy) = k.on_bar bar h4 m.strategy in
      act_on sig bar symbol now losses w (record m { strategy = strategy })

  abbrev renamed : ℕ → Bar F → Bar F
  renamed name b = record b { symbol = name }

  each_bar : List (Bar F) → ℕ → ℕ → Moment → ℕ → Option ℕ → List (Bar F) → Work F S T
  each_bar h4 name symbol now losses last [] = done_work
  each_bar h4 name symbol now losses last (b ∷ bs) =
      let rest = each_bar h4 name symbol now losses last bs in
      if is_old last b then rest else ◌then_work◌ (hear h4 (renamed name b) symbol now losses) rest

  abbrev remember : ℕ → ℕ → Work F S T
  remember name opened w m =
      (returned tt, (w, record m { last_bar = insert name opened m.last_bar }))

  -- The bars since the last step, each heard once, unless a raise comes before the end.
  process_new : ℕ → ℕ → Moment → ℕ → List (Bar F) → Work F S T
  process_new name symbol now losses [] = done_work
  process_new name symbol now losses (b ∷ bs) =
      after_act (ask (r.client.completed_bars symbol k.trend_minutes k.h4_lookback)) λ h4 w m.
        ◌then_work◌
          (each_bar (map (renamed name) h4) name symbol now losses (lookup name m.last_bar)
            (b ∷ bs))
          (remember name ((last_of b bs).opened)) w m

  process_bars : ℕ → Moment → ℕ → Work F S T
  process_bars name now losses = after_act (lift (item name r.mt5_symbols)) λ symbol.
      after_act (ask (r.client.completed_bars symbol k.bar_minutes 120))
        λ bars. process_new name symbol now losses bars

  process_each : List ℕ → Moment → ℕ → Work F S T
  process_each [] now losses = done_work
  process_each (name ∷ names) now losses =
      ◌then_work◌ (process_bars name now losses) (process_each names now losses)

  pub step : Work F S T
  unfolding process_each process_bars process_new each_bar hear act_on
  step w m =
      let now = k.clock w.terminal in
      after_act (manage r k now) (λ losses. process_each k.instruments now losses) w m

-- ===== src/Ftmo/Live/Together.antt =====
-- The guard and the router side by side: any order of their steps, with a market that moves between
-- them and inside them.
pub mod Keys
mod Tests
use trading_bot.Base.{
  ℕ, ◌≡◌, refl, ◌∙◌, sym, subst, ap, inl, inr, ◌≢◌, true, false, Option, none, some, List, [], ◌≤◌,
  ◌<◌, arith,
}
use trading_bot.Base.Lists.{length}
use trading_bot.Base.Float.{Float}
use trading_bot.Base.Outcome.{returned, raised}
use trading_bot.Ftmo.Rules.{Moment, Limits, overall, Baseline, resolve_baseline, should_halt}
use trading_bot.Ftmo.Live.Store.{
  File, missing, garbled, misshapen, holds, Files, RunnerState, HaltRecord, Key, kept_keys,
  load_baseline, read_halt,
}
use trading_bot.Ftmo.Live.{Account, Client, IsTraced, World}
use trading_bot.Ftmo.Live.Sizing.{ContractSpec}
use trading_bot.Base.Dict.{Dict}
use trading_bot.Ftmo.Live.Guard.{Watch, tick, state_of}
use trading_bot.Ftmo.Live.Guard.Quiet.{IsFinal, tick-Mild}
use trading_bot.Ftmo.Live.Guard.Breach.{Halts, tick-Halts}
use trading_bot.Ftmo.Live.Router.{Signal, Profile, place, key_of, inverse}
use trading_bot.Ftmo.Live.Router.Sent.{place-Sent}
use trading_bot.Ftmo.Live.Router.Clearance.{Quiet, Sent, Cleared}

-- The two processes on one terminal, from one configuration.
pub record Desk (F S : Type 0) : Type 0 where
  pub client : Client F S
  pub limits : Limits F
  pub mt5_symbols : Dict ℕ
  pub session : ℕ → ℕ → Option (ℕ × ℕ)
  pub contracts : Dict (ContractSpec F)
  pub heartbeat_stale : ℕ
  pub risk_amount : F
  pub magic : ℕ

module _ {F S : Type 0} where
  abbrev pub guard_of : Desk F S → Watch F S
  guard_of d = record {
    client = d.client;
    limits = d.limits;
    instrument_of = inverse d.mt5_symbols [];
    session = d.session;
  }

  abbrev pub router_of : Desk F S → Profile F S
  router_of d = record {
    client = d.client;
    limits = d.limits;
    contracts = d.contracts;
    mt5_symbols = d.mt5_symbols;
    heartbeat_stale = d.heartbeat_stale;
    risk_amount = d.risk_amount;
    magic = d.magic;
  }

module _ {F S : Type 0} ⦃f : Float F⦄ (d : Desk F S) (t : IsTraced d.client) where
  -- One step: a poll of the guard, a signal for the router, the runner's file, or the market's own.
  pub data Step (w : World F S) : World F S → Type 0 where
    polled : (now : Moment) → Step w (tick (guard_of d) now w).1
    signalled :
        (sig : Signal F) (losses : ℕ) (now : Moment)
        → Step w (place (router_of d) sig losses now w).1
    booked :
        (file : File (RunnerState F))
        → Step w (record w { files = record (w.files) { runner = file } })
    drifted : (s : S) → t.trail s ≡ t.trail w.terminal → Step w (record w { terminal = s })

  pub data Run (w : World F S) : World F S → Type 0 where
    still : Run w w
    then_step : {u v : World F S} → Run w u → Step u v → Run w v

  final-not-running : (fs : Files F) → IsFinal fs.halt → read_halt fs ≢ returned none
  unfolding read_halt
  final-not-running fs h e = ground (arith, h, e)

  -- A final halt, and no order from it on.
  abbrev pub Silent : World F S → World F S → Type 0
  Silent w v = (v.files.halt ≡ w.files.halt) × (t.trail v.terminal ≡ t.trail w.terminal)

  Step-Silent : {w v : World F S} → Step w v → IsFinal w.files.halt → Silent w v
  Step-Silent {w} (polled now) h =
      let (sent, keys, halt) = tick-Mild (guard_of d) t now w in (halt h, sent)
  Step-Silent {w} (signalled sig losses now) h =
      elim (place-Sent (router_of d) t sig losses now w) [
        | inl (files, sent) ↦ (ap (λ fs. fs.halt) files, sent)
        | inr sent ↦ absurd (final-not-running w.files h sent.cleared.running)
      ]
  Step-Silent (booked file) h = (refl, refl)
  Step-Silent (drifted s same) h = (refl, same)

  pub Run-Silent : {w v : World F S} → Run w v → IsFinal w.files.halt → Silent w v
  Run-Silent still h = (refl, refl)
  Run-Silent (then_step {u} {v} run step) h =
      let (halt, sent) = Run-Silent run h in
      let (halt', sent') = Step-Silent step (subst IsFinal (sym halt) h) in
      (halt' ∙ halt, sent' ∙ sent)

  Halts-IsFinal : (file : File HaltRecord) → Halts overall file → IsFinal file
  Halts-IsFinal missing h = absurd h
  Halts-IsFinal garbled h = tt
  Halts-IsFinal misshapen h = absurd h
  Halts-IsFinal (holds r) h = h refl

  -- A breach of the overall limit ends trading. Once the guard has read an equity that breaches it, no
  -- sequence of polls, signals and market moves sends an order or removes the halt, whatever the terminal
  -- answered or raised; only a human can. The files must be readable at that poll.
  pub breach-Silent :
      (now : Moment) (w v : World F S) (account : Account F) (s : S) (stored : Option (Baseline F))
      → d.client.account w.terminal ≡ (returned account, s)
      → load_baseline w.files ≡ returned stored
      → w.files.halt ≢ misshapen
      → should_halt
          (state_of (guard_of d) now account.equity (resolve_baseline stored now account.equity))
          d.limits
        ≡ some overall
      → Run (tick (guard_of d) now w).1 v
      → Silent (tick (guard_of d) now w).1 v
  breach-Silent now w v account s stored seen loaded ok_file breach run = Run-Silent run (
      Halts-IsFinal _
        (tick-Halts (guard_of d) t overall now w account s stored seen loaded ok_file breach))

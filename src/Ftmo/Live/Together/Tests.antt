-- ===== src/Ftmo/Live/Together/Tests.antt =====
-- A poll and a signal that is traded; and a breach of the overall limit, then a signal.
use trading_bot.Base.{◌≡◌, ◌⊎◌, refl, true, some, none, [], ◌∷◌, arith}
use trading_bot.Base.Int.{pos, ◌+ℤ◌, ◌-ℤ◌}
use trading_bot.Base.Float.Milli.{Milli, milli_float}
use trading_bot.Base.Outcome.{returned}
use trading_bot.Ftmo.Rules.{overall, should_halt, resolve_baseline, can_open, past_friday_cutoff}
use trading_bot.Ftmo.Live.Store.{
  holds, read_halt, load_baseline, clear_daily_halt, heartbeat_fresh, key_used, add_key,
}
use trading_bot.Ftmo.Live.Sizing.{projected_loss, size_for}
use trading_bot.Ftmo.Live.{World}
use trading_bot.Ftmo.Live.Guard.{tick, state_of}
use trading_bot.Ftmo.Live.Router.{place}
use trading_bot.Ftmo.Live.Router.Sent.{place-Sent}
use trading_bot.Ftmo.Live.Router.Clearance.{Quiet, Sent}
use trading_bot.Ftmo.Live.Together.{
  guard_of, router_of, polled, signalled, still, then_step, Silent, breach-Silent,
}
use trading_bot.Ftmo.Live.Together.Keys.{Distinct, fresh, later, by_program, History-Distinct}
use trading_bot.Ftmo.Live.Sample.{Terminal, desk, traced, limits, start, noon, signal, first_key}

abbrev polled_world : World Milli Terminal
polled_world = (tick (guard_of desk) noon start).1

abbrev placed_world : World Milli Terminal
placed_world = (place (router_of desk) signal 0 noon polled_world).1

placed_once :
    (placed_world.files.idempotency ≡ holds (first_key ∷ []))
    × (placed_world.terminal.sent ≡ first_key ∷ [])
unfolding place tick read_halt load_baseline clear_daily_halt should_halt ◌-ℤ◌ resolve_baseline
    past_friday_cutoff heartbeat_fresh key_used projected_loss can_open ◌+ℤ◌ size_for add_key
placed_once = (refl, refl)

place-Sent_example :
    Quiet (router_of desk) traced polled_world placed_world
    ⊎ Sent (router_of desk) traced signal 0 noon polled_world placed_world
place-Sent_example = place-Sent (router_of desk) traced signal 0 noon polled_world

History-Distinct_example : Distinct placed_world.terminal.sent
History-Distinct_example =
    History-Distinct desk traced (first_key ∷ [])
      (later (later fresh (by_program (polled noon))) (by_program (signalled signal 0 noon))) refl
      refl placed_once.0 (omega arith)

-- 930.00 of 1,000.00
abbrev broke : World Milli Terminal
broke = record start { terminal = record (start.terminal) { equity = pos 930_000 } }

abbrev halted_world : World Milli Terminal
halted_world = (tick (guard_of desk) noon broke).1

breached :
    should_halt
      (state_of (guard_of desk) noon (pos 930_000) (resolve_baseline none noon (pos 930_000)))
      limits
    ≡ some overall
unfolding should_halt resolve_baseline ◌-ℤ◌
breached = refl

nothing_stored : load_baseline broke.files ≡ returned none
unfolding load_baseline
nothing_stored = refl

breach-Silent_example :
    Silent desk traced halted_world (place (router_of desk) signal 0 noon halted_world).1
breach-Silent_example =
    breach-Silent desk traced noon broke (place (router_of desk) signal 0 noon halted_world).1
      (record { equity = pos 930_000; is_demo = true }) (record { equity = pos 930_000; sent = [] })
      none refl nothing_stored (λ e. cc) breached (then_step still (signalled signal 0 noon))

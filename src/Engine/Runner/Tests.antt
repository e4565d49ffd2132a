-- ===== src/Engine/Runner/Tests.antt =====
-- A day on which the drawdown limit fires, and the day after; a month that has
-- converged, and one that is not done.
use trading_bot.Base.{◌≡◌, refl, inl, true, none, [], ◌∷◌, arith}
use trading_bot.Base.Int.{pos, ◌+ℤ◌}
use trading_bot.Base.Float.Milli.{Milli, milli_float}
use trading_bot.Engine.Errors.{ok, err, halt_error}
use trading_bot.Engine.State.Store.{save}
use trading_bot.Engine.State.Store.Recovery.{load-save}
use trading_bot.Engine.State.Store.Documents.{codec, codec-IsFaithful}
use trading_bot.Engine.Risk.{check_not_halted}
use trading_bot.Engine.Risk.Sample.{kill_day, kill_verdict, quiet_day, quiet_verdict}
use trading_bot.Engine.Broker.Paper.{PaperBroker, paper_broker, get_account, equity_from}
use trading_bot.Engine.Runner.Steps.{Job, Brief, brief_on, flows_of}
use trading_bot.Engine.Runner.{Desk, run_cycle, brief}
use trading_bot.Engine.Runner.Kill.{run_cycle-run_cycle}
use trading_bot.Engine.Runner.Once.{run_cycle_once}
use trading_bot.Engine.Runner.Retries.{LoadsWithin, saved-LoadsWithin, run_cycle-LoadsWithin}
use trading_bot.Engine.Fixtures.{config, prices, world, paper, today, yesterday, finished, retried}

abbrev job : Job Milli (PaperBroker Milli)
job = record {
  today = today;
  cfg = config;
  broker = paper_broker;
  market = λ symbols. ok prices;
  strategy = ok ((1, pos 500) ∷ []);
  decision_day = true;
  net_flows = pos 0;
}

-- 50 in cash and 8 shares at 10.00
abbrev desk : Desk Milli (PaperBroker Milli) codec
desk = record {
  world = world;
  files = save codec yesterday (record { main = none; bak = none; tmp = none });
}

abbrev kill_brief : Brief Milli
kill_brief = record {
  prior = yesterday;
  account = paper_broker.get_account paper;
  px = prices;
  net_flows = pos 0;
  pre = kill_verdict;
}

kill_briefed : brief job desk ≡ ok kill_brief
unfolding brief brief_on flows_of check_not_halted get_account equity_from ◌+ℤ◌
kill_briefed = rw (load-save codec codec-IsFaithful yesterday _ _ refl, kill_day) refl

run_cycle-run_cycle_example :
    run_cycle job (run_cycle job desk).1 ≡ (err halt_error, (run_cycle job desk).1)
run_cycle-run_cycle_example =
    run_cycle-run_cycle codec-IsFaithful job job desk kill_brief kill_briefed refl

-- 100 in cash, and a month that is done
abbrev still : Desk Milli (PaperBroker Milli) codec
still = record {
  world = record world { venue = record paper { cash = pos 100_000 } };
  files = save codec finished (record { main = none; bak = none; tmp = none });
}

abbrev quiet_brief : Brief Milli
quiet_brief = record kill_brief {
  prior = finished;
  account = paper_broker.get_account (record paper { cash = pos 100_000 });
  pre = quiet_verdict;
}

quiet_briefed : brief job still ≡ ok quiet_brief
unfolding brief brief_on flows_of check_not_halted get_account equity_from ◌+ℤ◌
quiet_briefed = rw (load-save codec codec-IsFaithful finished _ _ refl, quiet_day) refl

run_cycle_once_example : (run_cycle job still).1.world.venue ≡ record paper { cash = pos 100_000 }
run_cycle_once_example = run_cycle_once job still quiet_brief quiet_briefed (inl refl) (λ h. cc)

-- 100 in cash, and two retries in a month that is not done
abbrev tired : Desk Milli (PaperBroker Milli) codec
tired = record still { files = save codec retried (record { main = none; bak = none; tmp = none }) }

run_cycle-LoadsWithin_example : LoadsWithin 3 (run_cycle job tired).1.files
run_cycle-LoadsWithin_example =
    run_cycle-LoadsWithin codec-IsFaithful job tired
      (saved-LoadsWithin codec-IsFaithful 3 retried _ (refl, omega arith))

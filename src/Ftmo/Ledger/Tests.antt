-- ===== src/Ftmo/Ledger/Tests.antt =====
-- An in-sample run, its out-of-sample run and the hold-out; a second hold-out is refused.
use trading_bot.Base.{◌≡◌, refl, List, []}
use trading_bot.Ftmo.Ledger.{
  Run, insample, oos, holdout, check, record_run, refused, holdout_touched,
}
use trading_bot.Ftmo.Ledger.Once.{Kept, fresh, ran, Kept-IsClean, IsClean}

abbrev runs : List Run
runs = record_run holdout 5 (record_run oos 5 (record_run insample 5 []))

again : check holdout 6 runs ≡ refused holdout_touched
unfolding check record_run
again = refl

runs-Kept : Kept runs
unfolding check record_run
runs-Kept = ran holdout 5 (ran oos 5 (ran insample 5 fresh refl) refl) refl

Kept-IsClean_example : IsClean runs
Kept-IsClean_example = Kept-IsClean runs-Kept

-- ===== src/Ftmo/Ledger.antt =====
-- ftmo-bot/src/ftmo_bot/backtest/ledger.py: which backtests may still be run. The file's lines are the
-- runs, oldest first; a hash of the parameters is a number that is only compared, and the fields that
-- no check reads are left out.
pub mod Once
mod Tests
use trading_bot.Base.{ℕ, Bool, true, false, not, ◌&&◌, ◌||◌, List, [], ◌∷◌, ◌++◌}
use trading_bot.Base.Checks.{◌==◌, if◌then◌else◌}
use trading_bot.Base.Lists.{any}

-- An unknown split is refused before it gets here.
pub data Split : Type 0 where
  insample oos holdout : Split

pub record Run : Type 0 where
  pub split : Split
  pub params_hash : ℕ

-- Why a run is refused.
pub data Refusal : Type 0 where
  no_insample oos_already_run holdout_touched no_oos : Refusal

pub data Verdict : Type 0 where
  may_run : Verdict
  refused : Refusal → Verdict

abbrev pub same_split : Split → Split → Bool
same_split insample insample = true
same_split oos oos = true
same_split holdout holdout = true
same_split _ _ = false

abbrev pub is_run : Split → ℕ → Run → Bool
is_run split hash r = same_split r.split split && r.params_hash == hash

abbrev pub is_holdout : Run → Bool
is_holdout r = same_split r.split holdout

-- `(split, hash) in done`
abbrev pub done : Split → ℕ → List Run → Bool
done split hash runs = any (is_run split hash) runs

pub check : Split → ℕ → List Run → Verdict
check insample hash runs = may_run
check oos hash runs =
    if not (done insample hash runs)
    then refused no_insample
    else if done oos hash runs
    then refused oos_already_run
    else may_run
check holdout hash runs =
    if any is_holdout runs
    then refused holdout_touched
    else if not (done oos hash runs)
    then refused no_oos
    else may_run

pub record_run : Split → ℕ → List Run → List Run
record_run split hash runs = runs ++ (record { split = split; params_hash = hash } ∷ [])

-- ===== src/Engine/Risk/Sample.antt =====
-- A batch that engine/risk.py stamps, two verdicts of its gate, and one list of weights that it clamps.
use trading_bot.Base.Int.{pos, negsuc, ◌+ℤ◌, ◌-ℤ◌, neg_ℤ}
use trading_bot.Base.{some, none, ◌≡◌, refl, Bool, true, false, [], ◌∷◌}
use trading_bot.Base.Float.Milli.{Milli, milli_float}
use trading_bot.Engine.Errors.{Result, ok, err}
use trading_bot.Engine.Risk.{
  ApprovedOrders, filter_orders, sift, judge, judge_at, judge_cost, put_by, cap_kept,
  PreTradeResult, hard_kill, proceed, pre_trade, decide, drawdown_of, daily_return_of,
  check_not_halted, clamp_weights, clamp_each, clamp_one, scale_to_cap, scale_each, gross_from,
}
use trading_bot.Engine.Costs.{all_in_fraction}
use trading_bot.Engine.State.{drawdown_exceeded}
use trading_bot.Engine.Fixtures.{limits, costs, batch, prices, yesterday, finished, today}

is_ok : {A : Type 0} → Result A → Bool
is_ok (ok a) = true
is_ok (err e) = false

value_of : {A : Type 0} (r : Result A) → is_ok r ≡ true → A
unfolding is_ok
value_of (ok a) h = a
value_of (err e) h = cc

pub sample : ApprovedOrders Milli
unfolding filter_orders sift judge judge_at judge_cost put_by cap_kept is_ok all_in_fraction
sample = (value_of (filter_orders limits costs batch prices) refl).0

-- An equity of 130 against a peak of 200 and one of 180 against 200.
abbrev pub kill_verdict : PreTradeResult Milli
kill_verdict = record {
  decision = hard_kill;
  reason = some drawdown_exceeded;
  daily_return = negsuc 277;
  drawdown_from_peak = pos 350;
}

pub kill_day : pre_trade limits yesterday (pos 130_000) today (pos 0) ≡ ok kill_verdict
unfolding pre_trade decide drawdown_of daily_return_of check_not_halted ◌+ℤ◌ ◌-ℤ◌ neg_ℤ
kill_day = refl

abbrev pub quiet_verdict : PreTradeResult Milli
quiet_verdict = record {
  decision = proceed;
  reason = none;
  daily_return = pos 0;
  drawdown_from_peak = pos 100;
}

pub quiet_day : pre_trade limits finished (pos 180_000) today (pos 0) ≡ ok quiet_verdict
unfolding pre_trade decide drawdown_of daily_return_of check_not_halted ◌+ℤ◌ ◌-ℤ◌ neg_ℤ
quiet_day = refl

pub clamped :
    clamp_weights limits ((1, pos 900) ∷ (2, pos 700) ∷ (3, negsuc 99) ∷ [])
    ≡ ok ((1, pos 499) ∷ (2, pos 499) ∷ (3, pos 0) ∷ [])
unfolding clamp_weights clamp_each clamp_one scale_to_cap scale_each gross_from ◌+ℤ◌
clamped = refl

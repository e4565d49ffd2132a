-- ===== src/Engine/Risk/Tests.antt =====
-- The gate, the clamps and the filter of engine/risk.py on one small book.
use trading_bot.Base.{◌≡◌, ◌≢◌, refl, some, [], ◌∷◌}
use trading_bot.Base.Int.{pos, negsuc, ◌+ℤ◌, ◌-ℤ◌, neg_ℤ}
use trading_bot.Base.Float.Milli.{Milli, milli_float, Milli-IsMonotone, Milli-IsExact}
use trading_bot.Engine.Errors.{ok}
use trading_bot.Engine.Costs.{all_in_fraction}
use trading_bot.Engine.Orders.{truncate_to_cap, sort_for_submission, drop_for, below_min_notional}
use trading_bot.Engine.State.{daily_loss_exceeded, drawdown_exceeded}
use trading_bot.Engine.Risk.{
  PreTradeResult, ApprovedOrders, hard_kill, stand_down, proceed, pre_trade, check_not_halted,
  decide, drawdown_of, daily_return_of, filter_orders, sift, judge, judge_at, judge_cost, put_by,
  cap_kept, orders_in,
}
use trading_bot.Engine.Risk.Gate.{pre_trade_mono, deposit_hides_no_loss, Kills}
use trading_bot.Engine.Risk.Clamp.{clamp_weights-Follows, HasLimits, Follows}
use trading_bot.Engine.Risk.Filter.{filter_orders_lem, IsGated}
use trading_bot.Engine.Risk.Sample.{clamped}
use trading_bot.Engine.Fixtures.{
  limits, costs, prices, batch, sell_1, small_buy, buy_2, yesterday, today,
}

-- 30% below the peak
killed_at_140 : Kills (pre_trade limits yesterday (pos 140_000) today (pos 0))
unfolding pre_trade check_not_halted decide drawdown_of daily_return_of ◌+ℤ◌ ◌-ℤ◌ neg_ℤ
killed_at_140 = (
  record {
    decision = hard_kill;
    reason = some drawdown_exceeded;
    daily_return = negsuc 222;
    drawdown_from_peak = pos 300;
  },
  refl,
  refl,
)

pre_trade_mono_example : Kills (pre_trade limits yesterday (pos 90_000) today (pos 0))
unfolding ◌+ℤ◌
pre_trade_mono_example =
    pre_trade_mono Milli-IsMonotone limits yesterday (pos 140_000) (pos 90_000) today (pos 0) refl
      refl refl refl killed_at_140

abbrev loss_day : PreTradeResult Milli
loss_day = record {
  decision = stand_down;
  reason = some daily_loss_exceeded;
  daily_return = negsuc 55;
  drawdown_from_peak = pos 150;
}

-- A loss of 10% since yesterday, with nothing deposited.
lost_ten : pre_trade limits yesterday (pos 170_000) today (pos 0) ≡ ok loss_day
unfolding pre_trade check_not_halted decide drawdown_of daily_return_of ◌+ℤ◌ ◌-ℤ◌ neg_ℤ
lost_ten = refl

abbrev topped_up : PreTradeResult Milli
topped_up = record loss_day { drawdown_from_peak = pos 136 }

deposited : pre_trade limits yesterday (pos 170_000 +ℤ pos 20_000) today (pos 20_000) ≡ ok topped_up
unfolding pre_trade check_not_halted decide drawdown_of daily_return_of ◌+ℤ◌ ◌-ℤ◌ neg_ℤ
deposited = refl

deposit_hides_no_loss_example : topped_up.decision ≢ proceed
deposit_hides_no_loss_example =
    deposit_hides_no_loss Milli-IsExact limits yesterday (pos 170_000) (pos 20_000) today loss_day
      topped_up lost_ten refl deposited

limits-HasLimits : HasLimits Milli-IsMonotone limits
limits-HasLimits = record {
  weight_finite = refl;
  weight_nonneg = refl;
  gross_finite = refl;
  gross_nonneg = refl;
}

clamp_weights-Follows_example :
    Follows limits
      ((1, pos 900) ∷ (2, pos 700) ∷ (3, negsuc 99) ∷ [])
      ((1, pos 499) ∷ (2, pos 499) ∷ (3, pos 0) ∷ [])
clamp_weights-Follows_example =
    clamp_weights-Follows Milli-IsMonotone limits limits-HasLimits refl
      ((1, pos 900) ∷ (2, pos 700) ∷ (3, negsuc 99) ∷ [])
      ((1, pos 499) ∷ (2, pos 499) ∷ (3, pos 0) ∷ []) clamped

abbrev gated : ApprovedOrders Milli
gated = record { approved = sell_1 ∷ buy_2 ∷ [] }

filtered :
    filter_orders limits costs batch prices ≡ ok (gated, drop_for below_min_notional small_buy ∷ [])
unfolding filter_orders sift judge judge_at judge_cost put_by cap_kept orders_in truncate_to_cap
    sort_for_submission all_in_fraction ◌+ℤ◌
filtered = refl

filter_orders_lem_example :
    IsGated limits costs prices batch (gated, drop_for below_min_notional small_buy ∷ [])
filter_orders_lem_example = filter_orders_lem limits costs batch prices filtered

-- ===== src/MiniProp/Guardrails/Tests.antt =====
-- The guardrails on a book of two positions, in thousandths.
use mathlib.Core.List.{Perm}
use mathlib.Core.List.Memᴰ
use trading_bot.Base.{◌≡◌, refl, true, false, none, some, [], ◌∷◌, map, arith}
use trading_bot.Base.Lists.{All}
use trading_bot.Base.Int.{ℤ, pos, negsuc, ◌+ℤ◌, ◌-ℤ◌}
use trading_bot.Base.Dict.{Dict}
use trading_bot.Base.Float.Milli.{Milli, milli_float}
use trading_bot.MiniProp.Types.{
  OrderIntent, buy, market, limit, strategy, risk_flatten, signed_quantity,
}
use trading_bot.MiniProp.Guardrails.{
  RiskLimits, PortfolioSnapshot, RiskGuardrails, validate, approved, reject, kill_switch_active,
  flatten_intents, update_equity, trip, daily_loss, close_each, sorted, insert_sorted, check_price,
  check_caps, check_gross, gross_notional, gross_from, leg_of, called,
}
use trading_bot.MiniProp.Guardrails.Gate.{validate-IsAllowed, IsAllowed}
use trading_bot.MiniProp.Guardrails.Flatten.{
  flatten_intents-approved, flatten_intents_lem, IsClosing, undone,
}
use trading_bot.MiniProp.Guardrails.Breaker.{
  Session-Killed, Killed, opened, moves, tripped, updated,
}

abbrev limits : RiskLimits Milli
limits = record {
  max_position_shares = pos 100;
  max_position_notional = pos 5_000_000;
  max_order_quantity = pos 50;
  max_gross_notional = pos 9_000_000;
  max_daily_loss = pos 500_000;
  max_daily_loss_pct = pos 20;
  allow_short = false;
}

abbrev book : Dict ℤ
book = (2, pos 30) ∷ (5, pos 0) ∷ (1, negsuc 9) ∷ []

abbrev snapshot : PortfolioSnapshot Milli
snapshot = record {
  positions = book;
  last_prices = (1, pos 20_000) ∷ (2, pos 50_000) ∷ [];
  multipliers = (2, pos 2000) ∷ [];
}

abbrev calm : RiskGuardrails Milli
calm = record {
  kill_switch = false;
  kill_reason = none;
  start_of_day_equity = some (pos 10_000_000);
  last_equity = some (pos 10_000_000);
}

abbrev buy_ten : OrderIntent Milli
buy_ten = record {
  action = buy;
  symbol = 2;
  quantity = pos 10;
  order_type = limit;
  limit_price = some (pos 51_000);
  source = strategy;
  intent_id = 7;
}

allowed_buy : validate limits buy_ten snapshot calm ≡ approved
unfolding validate check_price check_caps check_gross gross_notional gross_from leg_of
    signed_quantity ◌+ℤ◌ ◌-ℤ◌
allowed_buy = refl

validate-IsAllowed_example : IsAllowed limits buy_ten snapshot calm
validate-IsAllowed_example = validate-IsAllowed limits buy_ten snapshot calm allowed_buy

flatten_intents_lem_example :
    All IsClosing (flatten_intents {F = Milli} 8 book)
    × Perm (map undone (flatten_intents {F = Milli} 8 book)) ((2, pos 30) ∷ (1, negsuc 9) ∷ [])
flatten_intents_lem_example = flatten_intents_lem Milli 8 book

abbrev halted : RiskGuardrails Milli
halted = record calm { kill_switch = true; kill_reason = some (called 3) }

-- The flattening buys back symbol 1 first.
abbrev cover : OrderIntent Milli
cover = record {
  action = buy;
  symbol = 1;
  quantity = pos 10;
  order_type = market;
  limit_price = none;
  source = risk_flatten;
  intent_id = 8;
}

flatten_intents-approved_example : validate limits cover snapshot halted ≡ approved
unfolding flatten_intents close_each sorted insert_sorted
flatten_intents-approved_example =
    flatten_intents-approved limits snapshot halted 8 book cover (Memᴰ.head refl) (ground arith)
      refl refl

abbrev later : RiskGuardrails Milli
later = (update_equity limits (pos 1_000_000) (trip daily_loss halted)).0

Session-Killed_example :
    Killed limits (some (called 3)) later
    × (validate limits buy_ten snapshot later ≡ reject kill_switch_active)
Session-Killed_example =
    Session-Killed limits (some (called 3)) buy_ten snapshot
      (moves (moves opened (tripped daily_loss)) (updated (pos 1_000_000))) (refl, refl) refl

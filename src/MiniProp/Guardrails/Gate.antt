-- ===== src/MiniProp/Guardrails/Gate.antt =====
-- What the gate lets through.
use trading_bot.Base.{◌≡◌, refl, ◌≢◌, true, false, Option, none, some, arith}
use trading_bot.Base.Dict.{lookup}
use trading_bot.Base.Int.{pos, ◌≤ℤ◌, ◌<ℤ◌, abs_ℤ}
use trading_bot.Base.Float.{Float}
use trading_bot.MiniProp.Types.{OrderIntent}
use trading_bot.MiniProp.Guardrails.{
  approved, RiskLimits, PortfolioSnapshot, RiskGuardrails, is_flatten, is_limit, validate,
  check_price, check_caps, check_gross, valid_price, reference_price, resulting, notional_of,
  gross_after, gross_notional,
}

module _ {F : Type 0} ⦃f : Float F⦄ where
  open f use {lt}

  -- The caps on what a strategy's or an operator's order may do.
  pub record WithinCaps (cfg : RiskLimits F) (i : OrderIntent F) (s : PortfolioSnapshot F)
      (price : F) : Type 0 where
    pub order_size : i.quantity ≤ℤ cfg.max_order_quantity
    pub no_short : (resulting i s <ℤ pos 0) → cfg.allow_short ≡ true
    pub position_size : pos (abs_ℤ (resulting i s)) ≤ℤ cfg.max_position_shares
    pub position_notional :
        lt cfg.max_position_notional (notional_of i s (resulting i s) price) ≡ false
    pub gross :
        (total : F) × (gross_notional s ≡ some total)
        × (lt cfg.max_gross_notional (gross_after i s price total) ≡ false)

  pub record IsAllowed (cfg : RiskLimits F) (i : OrderIntent F) (s : PortfolioSnapshot F)
      (g : RiskGuardrails F) : Type 0 where
    pub switch : g.kill_switch ≡ true → is_flatten i.source ≡ true
    pub named : i.symbol ≢ 0
    pub size : pos 0 <ℤ i.quantity
    pub price :
        (p : F) × (reference_price i s ≡ some p)
        × (valid_price (some p) ≡ true)
        × (is_flatten i.source ≡ false → WithinCaps cfg i s p)

  check_gross-approved :
      (cfg : RiskLimits F) (i : OrderIntent F) (s : PortfolioSnapshot F) (price : F) (g : Option F)
      → check_gross cfg i s price g ≡ approved
      → (total : F) × (g ≡ some total)
        × (lt cfg.max_gross_notional (gross_after i s price total) ≡ false)
  unfolding check_gross
  check_gross-approved cfg i s price none h = cc
  check_gross-approved cfg i s price (some total) h = (total, refl, ground arith)

  check_caps-approved :
      (cfg : RiskLimits F) (i : OrderIntent F) (s : PortfolioSnapshot F) (price : F)
      → check_caps cfg i s price ≡ approved
      → WithinCaps cfg i s price
  unfolding check_caps
  check_caps-approved cfg i s price h = record {
    order_size = ground arith;
    no_short = λ k. ground arith;
    position_size = ground arith;
    position_notional = ground arith;
    gross = check_gross-approved cfg i s price (gross_notional s) (ground arith);
  }

  check_price-approved :
      (cfg : RiskLimits F) (i : OrderIntent F) (s : PortfolioSnapshot F) (price : Option F)
      → check_price cfg i s price ≡ approved
      → (p : F) × (price ≡ some p)
        × (valid_price (some p) ≡ true)
        × (is_flatten i.source ≡ false → WithinCaps cfg i s p)
  unfolding check_price
  check_price-approved cfg i s none h = cc
  check_price-approved cfg i s (some p) h =
      (p, refl, ground arith, λ k. check_caps-approved cfg i s p (ground arith))

  -- An approved intent names a symbol, asks for a positive quantity at a valid price, comes from the
  -- risk layer if the kill switch is active, and, unless it comes from there, respects every cap: on the
  -- order, on shorting, on the position's size and notional, and on the gross notional.
  pub validate-IsAllowed :
      (cfg : RiskLimits F) (i : OrderIntent F) (s : PortfolioSnapshot F) (g : RiskGuardrails F)
      → validate cfg i s g ≡ approved
      → IsAllowed cfg i s g
  unfolding validate
  validate-IsAllowed cfg i s g h = record {
    switch = λ k. ground arith;
    named = λ k. ground arith;
    size = ground arith;
    price = check_price-approved cfg i s (reference_price i s) (ground arith);
  }

  -- Flattening gets through whatever the switch and the caps.
  pub flatten-approved :
      (cfg : RiskLimits F) (i : OrderIntent F) (s : PortfolioSnapshot F) (g : RiskGuardrails F)
      {p : F}
      → is_flatten i.source ≡ true
      → is_limit i.order_type ≡ false
      → i.symbol ≢ 0
      → pos 0 <ℤ i.quantity
      → lookup i.symbol s.last_prices ≡ some p
      → valid_price (some p) ≡ true
      → validate cfg i s g ≡ approved
  unfolding validate check_price
  flatten-approved cfg i s g k m n q e v = rw (m, e) (ground arith)

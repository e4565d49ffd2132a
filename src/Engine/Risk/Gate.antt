-- ===== src/Engine/Risk/Gate.antt =====
-- The kill switches of `pre_trade` in engine/risk.py.
use trading_bot.Base.{true, false, ◌≡◌, ◌≢◌, arith, inl, inr}
use trading_bot.Base.Checks.{Bool-cases}
use trading_bot.Base.Float.{Float, nought, max_of, IsMonotone, IsExact}
use trading_bot.Engine.Errors.{Result, ok}
use trading_bot.Engine.Config.{RiskConfig}
use trading_bot.Engine.State.{EngineState, Date}
use trading_bot.Engine.Risk.{
  PreTradeResult, hard_kill, stand_down, proceed, pre_trade, decide, drawdown_of, daily_return_of,
}

module _ {F : Type 0} ⦃f : Float F⦄ where
  open f use {lit, add, sub, mul, div, neg, lt, le}

  abbrev pub Kills : Result (PreTradeResult F) → Type 0
  Kills r = (p : PreTradeResult F) × (r ≡ ok p) × (p.decision ≡ hard_kill)

  module _ (laws : IsMonotone F) where
    open laws use {
      ordered, finite_refl, nought_finite, sub_antitone, sub_nonpos, div_mono, div_nonpos,
    }
    open ordered use {lt_of_lt_of_le, lt_of_le_of_lt, lt_irrefl, lt_or_le}

    not_lt_of_le : (x y : F) → le y x ≡ true → lt x y ≡ false
    not_lt_of_le x y h = elim (Bool-cases (lt x y)) [
      | inl less ↦ cc (lt_of_le_of_lt y x y h less, lt_irrefl y)
      | inr no_less ↦ no_less
    ]

    pos_of_not_nonpos : (p : F) → f.is_finite p ≡ true → le p nought ≡ false → lt nought p ≡ true
    pos_of_not_nonpos p fin h =
        elim (lt_or_le nought p (finite_refl nought nought_finite) (finite_refl p fin)) [
          | inl less ↦ less
          | inr nonpos ↦ cc
        ]

    -- At a new peak there is no drawdown.
    le-drawdown_self : (e : F) → f.is_finite e ≡ true → le (drawdown_of e e) nought ≡ true
    unfolding drawdown_of
    le-drawdown_self e fin = elim (Bool-cases (le e nought)) [
      | inl low ↦ rw low (finite_refl nought nought_finite)
      | inr high ↦ rw high (
          div_nonpos (sub e e) e fin (pos_of_not_nonpos e fin high)
            (sub_nonpos e e fin (finite_refl e fin)))
    ]

    drawdown_antitone :
        (m peak high low : F)
        → f.is_finite peak ≡ true
        → le low high ≡ true
        → lt m (drawdown_of peak high) ≡ true
        → lt m (drawdown_of peak low) ≡ true
    unfolding drawdown_of
    drawdown_antitone m peak high low fin l h = elim (Bool-cases (le peak nought)) [
      | inl flat ↦ rw flat (rw flat at h)
      | inr above ↦ rw above (
          lt_of_lt_of_le m _ _ (rw above at h) (
            div_mono _ _ peak fin (pos_of_not_nonpos peak fin above)
              (sub_antitone low high peak fin l)))
    ]

    drawdown_mono :
        (m base high low : F)
        → f.is_finite base ≡ true
        → f.is_finite high ≡ true
        → lt nought m ≡ true
        → le low high ≡ true
        → lt m (drawdown_of (max_of base high) high) ≡ true
        → lt m (drawdown_of (max_of base low) low) ≡ true
    drawdown_mono m base high low fb fh pm l h =
        elim (lt_or_le base high (finite_refl base fb) (finite_refl high fh)) [
          | inl rising ↦
              let none_yet = lt_of_lt_of_le m _ _ (rw rising at h) (le-drawdown_self high fh) in
              cc (
                lt_of_le_of_lt nought m nought (ordered.le_of_lt nought m pm) none_yet,
                lt_irrefl nought,
              )
          | inr below ↦
              rw (not_lt_of_le base low (ordered.le_trans low high base l below))
                (drawdown_antitone m base high low fb l (rw (not_lt_of_le base high below) at h))
        ]

    decide_mono :
        (cfg : RiskConfig F) (peak high low d d' dd dd' : F)
        → le low high ≡ true
        → (lt cfg.max_drawdown_pct dd ≡ true → lt cfg.max_drawdown_pct dd' ≡ true)
        → (decide cfg peak high d dd).decision ≡ hard_kill
        → (decide cfg peak low d' dd').decision ≡ hard_kill
    unfolding decide
    decide_mono cfg peak high low d d' dd dd' l deeper k =
        ground (arith, deeper, lt_of_le_of_lt low high cfg.min_equity_floor l)

    -- The kill switch is monotone: where some equity fires it, so does every lower one, whatever the
    -- deposits, for a positive drawdown limit and finite figures.
    pub pre_trade_mono :
        (cfg : RiskConfig F) (prior : EngineState F) (high low : F) (today : Date) (flows : F)
        → f.is_finite (add prior.peak_equity flows) ≡ true
        → f.is_finite high ≡ true
        → lt nought cfg.max_drawdown_pct ≡ true
        → le low high ≡ true
        → Kills (pre_trade cfg prior high today flows)
        → Kills (pre_trade cfg prior low today flows)
    unfolding pre_trade
    pre_trade_mono cfg prior high low today flows fb fh pm l (p, gone, kill) =
        let base = add prior.peak_equity flows in
        let daily = λ (e : F). daily_return_of prior e today.ordinal flows in
        let drop = λ (e : F). drawdown_of (max_of base e) e in
        let lower =
          decide_mono cfg prior.peak_equity high low (daily high) (daily low) (drop high) (drop low)
            l (drawdown_mono cfg.max_drawdown_pct base high low fb fh pm l) in
        (
          decide cfg prior.peak_equity low (daily low) (drop low),
          ground arith,
          ground (arith, lower),
        )

  -- A deposit hides no loss: if trading stops for the day's loss without the deposit, it also stops
  -- with the deposit in both the equity and the flows. This is in exact arithmetic.
  pub deposit_hides_no_loss :
      IsExact F
      → (cfg : RiskConfig F) (prior : EngineState F) (equity deposit : F) (today : Date)
      → (q p : PreTradeResult F) → pre_trade cfg prior equity today nought ≡ ok q
      → q.decision ≡ stand_down
      → pre_trade cfg prior (add equity deposit) today deposit ≡ ok p
      → p.decision ≢ proceed
  unfolding pre_trade decide daily_return_of
  deposit_hides_no_loss exact cfg prior equity deposit today q p before stops after =
      ground (arith, exact.sub-add equity deposit, exact.sub-nought equity)

-- ===== src/Ftmo/Rules/Loss.antt =====
-- Breaches are measured on equity.
use trading_bot.Base.{◌≡◌, ◌≢◌, true, some, none, arith}
use trading_bot.Base.Float.{Float, IsMonotone}
use trading_bot.Ftmo.Rules.{
  AccountState, Limits, overall, should_halt, daily_loss, overall_loss, daily_loss_limit,
  overall_loss_limit,
}

module _ {F : Type 0} ⦃f : Float F⦄ where
  open f use {le, sub, is_finite}

  -- Where an equity halts trading, every lower one does, and an overall breach stays one, for a finite
  -- baseline and reference.
  pub should_halt_mono :
      (laws : IsMonotone F) (s : AccountState F) (l : Limits F) (low : F)
      → is_finite s.day_baseline ≡ true
      → is_finite s.overall_reference ≡ true
      → le low s.equity ≡ true
      → should_halt s l ≢ none
      → (should_halt (record s { equity = low }) l ≢ none)
        × (should_halt s l ≡ some overall
            → should_halt (record s { equity = low }) l ≡ some overall)
  unfolding should_halt
  should_halt_mono laws s l low fin_day fin_all below halts =
      let more_today = laws.sub_antitone low s.equity s.day_baseline fin_day below in
      let more = laws.sub_antitone low s.equity s.overall_reference fin_all below in
      let today =
        laws.ordered.le_trans (daily_loss_limit l) (daily_loss s) (sub s.day_baseline low) in
      let ever =
        laws.ordered.le_trans (overall_loss_limit l) (overall_loss s)
          (sub s.overall_reference low) in
      (
        λ none_now. ground (arith, more_today, more, today, ever, halts, none_now),
        λ was. ground (arith, more, ever, was),
      )

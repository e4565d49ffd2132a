-- ===== src/Ftmo/Rules/Baselines.antt =====
-- A restart in the middle of a day keeps the day's baseline.
use trading_bot.Base.{◌≡◌, Option, some, none, arith}
use trading_bot.Base.Float.{Float}
use trading_bot.Ftmo.Rules.{Moment, Baseline, resolve_baseline, new_baseline}

module _ {F : Type 0} ⦃f : Float F⦄ where
  -- The baseline that was resolved once is resolved again all day, whatever the equity and the time of
  -- each restart.
  pub resolve_baseline-resolve_baseline :
      (stored : Option (Baseline F)) (now later : Moment) (equity drifted : F)
      → later.day ≡ now.day
      → resolve_baseline (some (resolve_baseline stored now equity)) later drifted
        ≡ resolve_baseline stored now equity
  unfolding resolve_baseline new_baseline
  resolve_baseline-resolve_baseline none now later equity drifted h = ground (arith, h)
  resolve_baseline-resolve_baseline (some b) now later equity drifted h = ground (arith, h)

-- ===== src/Ftmo/Simulation/Counts.antt =====
-- What a summary counts.
use trading_bot.Base.{ℕ, zero, suc, ◌+◌, ◌≤◌, ◌<◌, ◌≡◌, refl, ap, ◌∙◌, List, [], ◌∷◌, arith}
use trading_bot.Base.Lists.{length-drop, length, drop}
use trading_bot.Base.Float.{Float}
use trading_bot.Ftmo.Simulation.{
  Day, Outcome, passed, ftmo_failed, engine_halted, unresolved, WindowResult, Challenge, count,
  window_from, simulate_window, windows_from, kept, rolling, summarize,
}

count-cons :
    {F : Type 0} (w : WindowResult F) (ws : List (WindowResult F)) (o : Outcome)
    → w.outcome ≡ o
    → (count passed (w ∷ ws) + count ftmo_failed (w ∷ ws))
        + (count engine_halted (w ∷ ws) + count unresolved (w ∷ ws))
      ≡ suc (
          (count passed ws + count ftmo_failed ws) + (count engine_halted ws + count unresolved ws))
count-cons w ws passed e = simp e (omega arith)
count-cons w ws ftmo_failed e = simp e (omega arith)
count-cons w ws engine_halted e = simp e (omega arith)
count-cons w ws unresolved e = simp e (omega arith)

counts_sum :
    {F : Type 0} (ws : List (WindowResult F))
    → (count passed ws + count ftmo_failed ws) + (count engine_halted ws + count unresolved ws)
      ≡ length ws
counts_sum [] = omega arith
counts_sum (w ∷ ws) = count-cons w ws w.outcome refl ∙ ap suc (counts_sum ws)

module _ {F : Type 0} ⦃f : Float F⦄ (c : Challenge F) where
  window_from-kept :
      (ds : List (Day F)) (rest : List (WindowResult F))
      → 0 < length ds
      → length (kept c (window_from c ds) rest) ≡ suc (length rest)
  window_from-kept [] rest h = absurd (omega arith)
  window_from-kept (d ∷ ds) rest h = refl

  length-windows_from :
      (days : List (Day F)) (i n : ℕ) → i + n ≤ length days → length (windows_from c days i n) ≡ n
  unfolding windows_from simulate_window
  length-windows_from days i zero h = refl
  length-windows_from days i (suc n) h =
      window_from-kept (drop i days) (windows_from c days (suc i) n)
        (omega (arith, h, length-drop i days))
      ∙ ap suc (length-windows_from days (suc i) n (omega (arith, h)))

  -- The summary of a rolling replay has one window for each day of the backtest, and each of its
  -- windows is counted under exactly one of the four outcomes.
  pub summarize-rolling :
      (days : List (Day F))
      → let s = summarize (rolling c days) in
        (s.windows ≡ length days)
        × ((s.passed_windows + s.failed_windows) + (s.halted_windows + s.unresolved_windows)
            ≡ length days)
  unfolding summarize rolling
  summarize-rolling days =
      let one_each = length-windows_from days 0 (length days) (omega arith) in
      (one_each, counts_sum (rolling c days) ∙ one_each)

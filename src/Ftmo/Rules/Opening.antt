-- ===== src/Ftmo/Rules/Opening.antt =====
-- What a permission to open promises.
use trading_bot.Base.{ℕ, ◌≡◌, ◌≤◌, ◌<◌, false, none, [], ◌∷◌, ◌++◌, arith}
use trading_bot.Base.Lists.{contains, any}
use trading_bot.Base.Float.{Float, nought, IsExact}
use trading_bot.Ftmo.Rules.{
  Side, AccountState, Limits, allowed, should_halt, can_open, check_open, check_projected,
  unless_halted, worst_case, past_friday_cutoff, open_symbols, opposes, slots_used,
}

module _ {F : Type 0} ⦃f : Float F⦄ where
  open f use {le, lt, add, sub}

  -- The rules that a permitted trade keeps.
  pub record Permits (symbol : ℕ) (side : Side) (s : AccountState F) (l : Limits F) (risk : F)
      : Type 0 where
    pub real_risk : lt risk nought ≡ false
    pub not_halted : should_halt s l ≡ none
    pub on_time : past_friday_cutoff s.now l ≡ false
    pub few_losses : s.consecutive_losses_today < l.max_consecutive_losses
    pub one_position : contains symbol (open_symbols s.open_positions) ≡ false
    pub same_way : any (opposes l symbol side) s.open_positions ≡ false
    pub slots : slots_used (open_symbols s.open_positions ++ (symbol ∷ [])) l ≤ l.max_open_slots
    -- Even with every stop hit at once no limit is reached.
    pub survives : should_halt (record s { equity = sub s.equity (worst_case s risk) }) l ≡ none

  check_projected-halt :
      (laws : IsExact F) (s : AccountState F) (l : Limits F) (worst : F)
      → check_projected s l worst ≡ allowed
      → should_halt (record s { equity = sub s.equity worst }) l ≡ none
  unfolding check_projected should_halt
  check_projected-halt laws s l worst h =
      rw
        (
          laws.sub-sub s.day_baseline s.equity worst,
          laws.sub-sub s.overall_reference s.equity worst,
        )
        (ground (arith, h))

  check_open-projected :
      (symbol : ℕ) (side : Side) (s : AccountState F) (l : Limits F) (risk : F)
      → check_open symbol side s l risk ≡ allowed
      → (past_friday_cutoff s.now l ≡ false)
        × (s.consecutive_losses_today < l.max_consecutive_losses)
        × (contains symbol (open_symbols s.open_positions) ≡ false)
        × (any (opposes l symbol side) s.open_positions ≡ false)
        × (slots_used (open_symbols s.open_positions ++ (symbol ∷ [])) l ≤ l.max_open_slots)
        × (check_projected s l (worst_case s risk) ≡ allowed)
  unfolding check_open
  check_open-projected symbol side s l risk h = ground (arith, h)

  can_open-checked :
      (symbol : ℕ) (side : Side) (s : AccountState F) (l : Limits F) (risk : F)
      → can_open symbol side s l risk ≡ allowed
      → (lt risk nought ≡ false)
        × (should_halt s l ≡ none)
        × (check_open symbol side s l risk ≡ allowed)
  unfolding can_open unless_halted
  can_open-checked symbol side s l risk h = ground (arith, h)

  -- A trade that may be opened comes before the Friday cutoff, within the day's losses, on a symbol that
  -- is not open, against no position of its group and within the slots; and in exact arithmetic, if it and
  -- every open position stop out together, neither the daily nor the overall limit is reached.
  pub can_open-Permits :
      (laws : IsExact F) (symbol : ℕ) (side : Side) (s : AccountState F) (l : Limits F) (risk : F)
      → can_open symbol side s l risk ≡ allowed
      → Permits symbol side s l risk
  can_open-Permits laws symbol side s l risk h =
      let (real, running, checked) = can_open-checked symbol side s l risk h in
      let (time, losses, once, way, slots, projected) =
        check_open-projected symbol side s l risk checked in
      record {
        real_risk = real;
        not_halted = running;
        on_time = time;
        few_losses = losses;
        one_position = once;
        same_way = way;
        slots = slots;
        survives = check_projected-halt laws s l (worst_case s risk) projected;
      }

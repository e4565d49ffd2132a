-- ===== src/Ftmo/Rules.antt =====
-- ftmo-bot/src/ftmo_bot/risk/ftmo_rules.py: the rules of the challenge, without a clock of their own.
-- A moment is what the time zone's library gives for it: the local date, the day of the week (0 is
-- Monday), the time of day and the seconds since the last local midnight, with the instant itself in
-- microseconds. Symbols are numbers.
pub mod Loss
pub mod Baselines
pub mod Opening
mod Tests
use trading_bot.Base.{
  ℕ, zero, suc, ◌+◌, Bool, true, false, not, ◌&&◌, ◌||◌, Option, none, some, List, [], ◌∷◌, ◌++◌,
  map,
}
use trading_bot.Base.Checks.{ltb, leb, ◌==◌, if◌then◌else◌}
use trading_bot.Base.Lists.{contains, any, length}
use trading_bot.Base.Float.{Float, nought, max_of}

pub data Side : Type 0 where
  long short : Side

pub record Moment : Type 0 where
  pub day : ℕ
  pub weekday : ℕ
  pub time_of_day : ℕ
  pub since_reset : ℕ
  pub instant : ℕ

pub record Limits (F : Type 0) : Type 0 where
  pub initial_balance : F
  pub daily_loss_pct : F
  pub overall_loss_pct : F
  pub max_open_slots : ℕ
  pub correlated_groups : List (List ℕ)
  pub max_consecutive_losses : ℕ
  pub friday_cutoff : ℕ

pub record OpenPosition (F : Type 0) : Type 0 where
  pub symbol : ℕ
  pub side : Side
  pub risk_to_stop : F

pub record AccountState (F : Type 0) : Type 0 where
  pub now : Moment
  pub equity : F
  pub day_baseline : F
  pub overall_reference : F
  pub open_positions : List (OpenPosition F)
  pub consecutive_losses_today : ℕ

pub data HaltKind : Type 0 where
  daily overall : HaltKind

pub record Baseline (F : Type 0) : Type 0 where
  pub day : ℕ
  pub equity : F
  pub taken_at : Moment
  pub late : Bool

-- Why a trade may not be opened.
pub data NoOpen : Type 0 where
  invalid_risk : NoOpen
  halted : HaltKind → NoOpen
  weekend soft_stop already_open correlation no_slot projected_daily projected_overall : NoOpen

pub data Permission : Type 0 where
  allowed : Permission
  denied : NoOpen → Permission

-- What a set of slots holds: a symbol, or the group that it is in.
pub data Slot : Type 0 where
  alone grouped : ℕ → Slot

abbrev pub same_side : Side → Side → Bool
same_side long long = true
same_side short short = true
same_side _ _ = false

abbrev same_slot : Slot → Slot → Bool
same_slot (alone a) (alone b) = a == b
same_slot (grouped a) (grouped b) = a == b
same_slot _ _ = false

-- The first group that holds the symbol, by its place from `from`.
unfoldable pub group_from : ℕ → ℕ → List (List ℕ) → Option ℕ
group_from symbol from [] = none
group_from symbol from (g ∷ gs) =
    let later = group_from symbol (suc from) gs in if contains symbol g then some from else later

-- The members of that group, none when there is no such group.
unfoldable pub members : ℕ → List (List ℕ) → List ℕ
members symbol [] = []
members symbol (g ∷ gs) = let later = members symbol gs in if contains symbol g then g else later

unless_halted : Option HaltKind → Permission → Permission
unless_halted (some kind) rest = denied (halted kind)
unless_halted none rest = rest

-- `slots.add`
abbrev add_slot : Slot → List Slot → List Slot
add_slot s slots = if any (same_slot s) slots then slots else s ∷ slots

module _ {F : Type 0} where
  unfoldable pub past_friday_cutoff : Moment → Limits F → Bool
  past_friday_cutoff now limits =
      if ltb 4 now.weekday
      then true
      else now.weekday == 4 && leb limits.friday_cutoff now.time_of_day

  abbrev pub group_of : ℕ → Limits F → Option ℕ
  group_of symbol limits = group_from symbol 0 limits.correlated_groups

  abbrev slot_of : Limits F → ℕ → Slot
  slot_of limits symbol = elim (group_of symbol limits) [ none ↦ alone symbol | some g ↦ grouped g ]

  slots_from : Limits F → List ℕ → List Slot → List Slot
  slots_from limits [] slots = slots
  slots_from limits (s ∷ ss) slots = slots_from limits ss (add_slot (slot_of limits s) slots)

  pub slots_used : List ℕ → Limits F → ℕ
  slots_used symbols limits = length (slots_from limits symbols [])

  abbrev pub open_symbols : List (OpenPosition F) → List ℕ
  open_symbols ps = map (λ p. p.symbol) ps

  -- A position of the same group on the other side.
  abbrev pub opposes : Limits F → ℕ → Side → OpenPosition F → Bool
  opposes limits symbol side p =
      contains p.symbol (members symbol limits.correlated_groups) && not (same_side p.side side)

module _ {F : Type 0} ⦃f : Float F⦄ where
  open f use {lit, add, sub, mul, neg, lt, le}

  abbrev pub daily_loss_limit : Limits F → F
  daily_loss_limit l = mul l.initial_balance l.daily_loss_pct

  abbrev pub overall_loss_limit : Limits F → F
  overall_loss_limit l = mul l.initial_balance l.overall_loss_pct

  -- A new baseline is late when it is taken more than a minute after midnight.
  new_baseline : Moment → F → Baseline F
  new_baseline now equity = record {
    day = now.day;
    equity = equity;
    taken_at = now;
    late = ltb 60 now.since_reset;
  }

  unfoldable pub resolve_baseline : Option (Baseline F) → Moment → F → Baseline F
  unfolding new_baseline
  resolve_baseline none now equity = new_baseline now equity
  resolve_baseline (some stored) now equity =
      if stored.day == now.day then stored else new_baseline now equity

  abbrev pub daily_loss : AccountState F → F
  daily_loss s = sub s.day_baseline s.equity

  abbrev pub overall_loss : AccountState F → F
  overall_loss s = sub s.overall_reference s.equity

  unfoldable pub should_halt : AccountState F → Limits F → Option HaltKind
  should_halt s l =
      if le (overall_loss_limit l) (overall_loss s)
      then some overall
      else if le (daily_loss_limit l) (daily_loss s)
      then some daily
      else none

  unfoldable pub target_reached : F → F → F → Bool
  target_reached equity initial pct =
      le (neg (lit 1 6)) (sub equity (mul initial (add (lit 1 0) pct)))

  stop_losses : F → List (OpenPosition F) → F
  stop_losses total [] = total
  stop_losses total (p ∷ ps) = stop_losses (add total (max_of p.risk_to_stop nought)) ps

  -- Every open position and the new one stopped out.
  pub worst_case : AccountState F → F → F
  worst_case s risk = add risk (stop_losses nought s.open_positions)

  check_projected : AccountState F → Limits F → F → Permission
  check_projected s l worst =
      if le (daily_loss_limit l) (add (daily_loss s) worst)
      then denied projected_daily
      else if le (overall_loss_limit l) (add (overall_loss s) worst)
      then denied projected_overall
      else allowed

  check_open : ℕ → Side → AccountState F → Limits F → F → Permission
  check_open symbol side s l risk =
      if past_friday_cutoff s.now l
      then denied weekend
      else if leb l.max_consecutive_losses s.consecutive_losses_today
      then denied soft_stop
      else if contains symbol (open_symbols s.open_positions)
      then denied already_open
      else if any (opposes l symbol side) s.open_positions
      then denied correlation
      else if ltb l.max_open_slots (slots_used (open_symbols s.open_positions ++ (symbol ∷ [])) l)
      then denied no_slot
      else check_projected s l (worst_case s risk)

  unfoldable pub can_open : ℕ → Side → AccountState F → Limits F → F → Permission
  unfolding unless_halted check_open check_projected worst_case stop_losses slots_used slots_from
  can_open symbol side s l risk =
      if lt risk nought
      then denied invalid_risk
      else unless_halted (should_halt s l) (check_open symbol side s l risk)

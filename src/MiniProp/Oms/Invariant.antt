-- ===== src/MiniProp/Oms/Invariant.antt =====
-- Every order's count, state and history agree, whatever the broker reports and in whatever order.
use trading_bot.Base.{ℕ, ◌+◌, ◌≤◌, ◌≡◌, true, false, List, [], ◌∷◌, ◌++◌, arith}
use trading_bot.Base.Checks.{if◌then◌else◌}
use trading_bot.Base.Lists.{All}
use trading_bot.Base.Int.{ℤ, pos, ◌<ℤ◌, eqb_ℤ, ltb_ℤ, ◌-ℤ◌, eq_of_parts, -ℤ_parts}
use trading_bot.MiniProp.Oms.{
  OrderState, created, submitted, partially_filled, filled, pending_cancel, cancelled, rejected,
  ManagedOrder, Oms, allowed, is_fill_state, is_terminal_state,
}

-- A history: from CREATED, through the table, to the present state.
pub data IsHistory : List OrderState → OrderState → Type 0 where
  begin : IsHistory [] created
  step :
      {states : List OrderState} {s t : OrderState}
      → IsHistory states s
      → allowed s t ≡ true
      → IsHistory (states ++ (t ∷ [])) t

-- How many of `q` shares an order in this state has.
abbrev pub CountsMatch : OrderState → ℕ → ℤ → Type 0
CountsMatch created n q = ⊥
CountsMatch submitted n q = n ≡ 0
CountsMatch partially_filled n q = (1 ≤ n) × (pos n <ℤ q)
CountsMatch filled n q = pos n ≡ q
CountsMatch pending_cancel n q = pos n <ℤ q
CountsMatch cancelled n q = pos n <ℤ q
CountsMatch rejected n q = n ≡ 0

pub record IsSound {F : Type 0} (mo : ManagedOrder F) : Type 0 where
  pub asked : pos 0 <ℤ mo.intent.quantity
  pub counts : CountsMatch mo.state mo.filled_quantity mo.intent.quantity
  pub path : IsHistory mo.history mo.state

abbrev pub IsConsistent : {F : Type 0} → Oms F → Type 0
IsConsistent s = All IsSound s.orders

-- A move that no fill causes keeps the count right.
pub CountsMatch-move :
    (s t : OrderState) (n : ℕ) (q : ℤ)
    → allowed s t ≡ true
    → is_fill_state t ≡ false
    → pos 0 <ℤ q
    → CountsMatch s n q
    → CountsMatch t n q
CountsMatch-move s t n q h k a c = ground arith

-- An order in a state that is not terminal may take a fill of what remains, or less.
pub CountsMatch-fill :
    (s : OrderState) (n qty : ℕ) (q : ℤ)
    → is_terminal_state s ≡ false
    → CountsMatch s n q
    → 1 ≤ qty
    → ltb_ℤ (q -ℤ pos n) (pos qty) ≡ false
    → let t = if eqb_ℤ (q -ℤ pos (n + qty)) (pos 0) then filled else partially_filled in
      CountsMatch t (n + qty) q × (allowed s t ≡ true)
CountsMatch-fill s n qty q h c some_shares enough =
    ground (arith, -ℤ_parts q (pos n), -ℤ_parts q (pos (n + qty)), eq_of_parts (pos (n + qty)) q)

-- ===== src/MiniProp/Oms.antt =====
-- mini_prop_os/execution/oms.py: the order state machine and the ledger of fills. An order is stored
-- under its id, which never changes, so the dict of orders is the list of its values. Times are left
-- out: the history of an order is the list of its states.
pub mod Lookup
pub mod Invariant
pub mod Operations
pub mod Reachable
pub mod Terminal
pub mod Booking
pub mod Ledger
mod Tests
use trading_bot.Base.{
  ℕ, zero, suc, ◌+◌, Bool, true, false, not, ◌&&◌, ◌||◌, Option, none, some, List, [], ◌∷◌, ◌++◌,
  map,
}
use trading_bot.Base.Checks.{◌==◌, if◌then◌else◌}
use trading_bot.Base.Lists.{contains, select, length}
use trading_bot.Base.Dict.{Dict, lookup, insert}
use trading_bot.Base.Int.{ℤ, pos, negsuc, ◌-ℤ◌, neg_ℤ, abs_ℤ, ltb_ℤ, eqb_ℤ}
use trading_bot.Base.Float.{Float, nought}
use trading_bot.MiniProp.Types.{OrderIntent, Position, Fill, flat, apply_fill, signed_quantity}

pub data OrderState : Type 0 where
  created submitted partially_filled filled pending_cancel cancelled rejected : OrderState

abbrev pub same_state : OrderState → OrderState → Bool
same_state created created = true
same_state submitted submitted = true
same_state partially_filled partially_filled = true
same_state filled filled = true
same_state pending_cancel pending_cancel = true
same_state cancelled cancelled = true
same_state rejected rejected = true
same_state _ _ = false

-- The table of transitions.
abbrev pub allowed : OrderState → OrderState → Bool
allowed created submitted = true
allowed created rejected = true
allowed submitted partially_filled = true
allowed submitted filled = true
allowed submitted pending_cancel = true
allowed submitted cancelled = true
allowed submitted rejected = true
allowed partially_filled partially_filled = true
allowed partially_filled filled = true
allowed partially_filled pending_cancel = true
allowed partially_filled cancelled = true
allowed pending_cancel partially_filled = true
allowed pending_cancel filled = true
allowed pending_cancel cancelled = true
allowed _ _ = false

abbrev pub is_terminal_state : OrderState → Bool
is_terminal_state filled = true
is_terminal_state cancelled = true
is_terminal_state rejected = true
is_terminal_state _ = false

abbrev is_fill_state : OrderState → Bool
is_fill_state partially_filled = true
is_fill_state filled = true
is_fill_state _ = false

pub record ManagedOrder (F : Type 0) : Type 0 where
  pub order_id : ℤ
  pub intent : OrderIntent F
  pub state : OrderState
  pub filled_quantity : ℕ
  pub avg_fill_price : F
  pub history : List OrderState

-- The lines of the audit log.
pub data LogEvent (F : Type 0) : Type 0 where
  seed : ℕ → ℤ → F → LogEvent F
  state_change : ℤ → OrderState → OrderState → LogEvent F
  fill_applied : ℤ → ℕ → ℤ → F → LogEvent F

pub record Oms (F : Type 0) : Type 0 where
  pub orders : List (ManagedOrder F)
  pub positions : Dict (Position F)
  pub seen_exec_ids : List ℕ
  pub log : List (LogEvent F)

abbrev seen : Option ℕ → List ℕ → Bool
seen none ids = false
seen (some id) ids = contains id ids

abbrev note_seen : Option ℕ → List ℕ → List ℕ
note_seen none ids = ids
note_seen (some id) ids = id ∷ ids

module _ {F : Type 0} where
  -- `self._orders.get(order_id)`
  abbrev pub find_order : ℤ → List (ManagedOrder F) → Option (ManagedOrder F)
  find_order id [] = none
  find_order id (mo ∷ mos) = if eqb_ℤ id mo.order_id then some mo else find_order id mos

  -- `self._orders[mo.order_id] = mo`
  abbrev pub put_order : ManagedOrder F → List (ManagedOrder F) → List (ManagedOrder F)
  put_order mo [] = mo ∷ []
  put_order mo (other ∷ mos) =
      if eqb_ℤ mo.order_id other.order_id then mo ∷ mos else other ∷ put_order mo mos

  unfoldable pub remaining_quantity : ManagedOrder F → ℤ
  remaining_quantity mo = mo.intent.quantity -ℤ pos mo.filled_quantity

  abbrev pub is_terminal : ManagedOrder F → Bool
  is_terminal mo = is_terminal_state mo.state

  abbrev moved : OrderState → ManagedOrder F → ManagedOrder F
  moved new mo = record mo { state = new; history = mo.history ++ (new ∷ []) }

  -- `_transition`: outside the table nothing happens.
  unfoldable pub transition : OrderState → ManagedOrder F → Oms F → Oms F
  transition new mo s =
      if allowed mo.state new
      then record s {
        orders = put_order (moved new mo) s.orders;
        log = s.log ++ (state_change mo.order_id mo.state new ∷ []);
      }
      else record s { orders = put_order mo s.orders }

  open_orders : Oms F → List (ManagedOrder F)
  open_orders s = select (λ mo. not (is_terminal mo)) s.orders

  holdings : Dict (Position F) → Dict ℤ
  holdings [] = []
  holdings ((sym, p) ∷ ps) =
      if eqb_ℤ p.quantity (pos 0) then holdings ps else (sym, p.quantity) ∷ holdings ps

  unfoldable pub position_quantities : Oms F → Dict ℤ
  unfolding holdings
  position_quantities s = holdings s.positions

module _ {F : Type 0} ⦃f : Float F⦄ where
  open f use {add, mul, div, of_int}

  abbrev pub fresh_order : ℤ → OrderIntent F → ManagedOrder F
  fresh_order id i = record {
    order_id = id;
    intent = i;
    state = created;
    filled_quantity = 0;
    avg_fill_price = nought;
    history = [];
  }

  abbrev is_live : Option (Position F) → Bool
  is_live none = false
  is_live (some p) = not (eqb_ℤ p.quantity (pos 0))

  -- `none` is the refusal to seed over a live position.
  unfoldable pub seed_position : ℕ → ℤ → F → Oms F → Option (Oms F)
  seed_position symbol quantity price s =
      if is_live (lookup symbol s.positions)
      then none
      else if eqb_ℤ quantity (pos 0)
      then some s
      else some (record s {
        positions =
            insert symbol (record (flat symbol) { quantity = quantity; avg_price = price })
              s.positions;
        log = s.log ++ (seed symbol quantity price ∷ []);
      })

  -- `submit`, by the broker's answer: its order id, or `none` when it raised. The failed order is kept
  -- under the negated id of its intent.
  unfoldable pub submit : OrderIntent F → Option ℤ → Oms F → Oms F
  submit i none s = transition rejected (fresh_order (neg_ℤ (pos i.intent_id)) i) s
  submit i (some id) s = transition submitted (fresh_order id i) s

  cancel_found : Option (ManagedOrder F) → Oms F → Oms F
  cancel_found none s = s
  cancel_found (some mo) s = if is_terminal mo then s else transition pending_cancel mo s

  -- The request to the broker changes nothing here, even when it raises.
  pub cancel : ℤ → Oms F → Oms F
  unfolding cancel_found
  cancel id s = cancel_found (find_order id s.orders) s

  cancel_each : List ℤ → Oms F → Oms F
  cancel_each [] s = s
  cancel_each (id ∷ ids) s = cancel_each ids (cancel id s)

  -- The state, and how many cancels were requested.
  unfoldable pub cancel_all : Oms F → Oms F × ℕ
  unfolding open_orders cancel_each
  cancel_all s =
      let ids = map (λ mo. mo.order_id) (open_orders s) in (cancel_each ids s, length ids)

  status_found : OrderState → Option (ManagedOrder F) → Oms F → Oms F
  status_found new none s = s
  status_found new (some mo) s =
      if same_state new mo.state then s else if is_fill_state new then s else transition new mo s

  pub on_order_status : ℤ → OrderState → Oms F → Oms F
  unfolding status_found
  on_order_status id new s = status_found new (find_order id s.orders) s

  -- The order after `qty` more shares.
  abbrev pub with_fill : Fill F → ℕ → ManagedOrder F → ManagedOrder F
  with_fill x qty mo =
      let prev = mo.filled_quantity in
      record mo {
        filled_quantity = prev + qty;
        avg_fill_price =
            div (add (mul mo.avg_fill_price (of_int (pos prev))) (mul x.price (of_int (pos qty))))
              (of_int (pos (prev + qty)));
      }

  -- The sign of a fill is the intent's.
  unfoldable pub signed_fill : ManagedOrder F → ℕ → ℤ
  signed_fill mo qty =
      if ltb_ℤ (pos 0) (signed_quantity mo.intent) then pos qty else neg_ℤ (pos qty)

  unfoldable pub position_of : ℕ → Dict (Position F) → Position F
  position_of symbol ps = elim (lookup symbol ps) [ none ↦ flat symbol | some p ↦ p ]

  abbrev state_after : ManagedOrder F → OrderState
  state_after mo = if eqb_ℤ (remaining_quantity mo) (pos 0) then filled else partially_filled

  -- What `on_fill` does once the fill is accepted.
  pub accept : Fill F → ℕ → ManagedOrder F → Oms F → Oms F
  accept x qty mo s =
      let after = with_fill x qty mo in
      let signed = signed_fill mo qty in
      let position = apply_fill signed x.price (position_of x.symbol s.positions) in
      let booked = record s {
        seen_exec_ids = note_seen x.exec_id s.seen_exec_ids;
        positions = insert x.symbol position s.positions;
      } in
      let done = transition (state_after after) after booked in
      record done { log = done.log ++ (fill_applied mo.order_id x.symbol signed x.price ∷ []) }

  fill_found : Fill F → Option (ManagedOrder F) → Oms F → Oms F
  fill_found x none s = s
  fill_found x (some mo) s =
      let qty = abs_ℤ x.signed_quantity in
      if is_terminal mo
      then s
      else if qty == 0 || ltb_ℤ (remaining_quantity mo) (pos qty)
      then s
      else accept x qty mo s

  unfoldable pub on_fill : Fill F → Oms F → Oms F
  unfolding fill_found accept
  on_fill x s =
      if seen x.exec_id s.seen_exec_ids then s else fill_found x (find_order x.order_id s.orders) s

-- ===== src/MiniProp/Oms/Reachable.antt =====
-- Any interleaving of commands and broker callbacks.
use trading_bot.Base.{ℕ, ◌≡◌, Option, some, [], arith}
use trading_bot.Base.Int.{ℤ, pos, ◌<ℤ◌}
use trading_bot.Base.Float.{Float}
use trading_bot.MiniProp.Types.{OrderIntent, Fill}
use trading_bot.MiniProp.Oms.Invariant.{IsConsistent}
use trading_bot.MiniProp.Oms.Operations.{
  submit-IsConsistent, cancel-IsConsistent, cancel_all-IsConsistent, on_order_status-IsConsistent,
  on_fill-IsConsistent,
}
use trading_bot.MiniProp.Oms.{
  OrderState, Oms, seed_position, submit, cancel, cancel_all, on_order_status, on_fill,
}

module _ {F : Type 0} ⦃f : Float F⦄ where
  -- What happens to orders that are there: cancels, reports of the broker, fills, seeds.
  pub data Report (s : Oms F) : Oms F → Type 0 where
    cancelled_one : (id : ℤ) → Report s (cancel id s)
    cancelled_all : Report s (cancel_all s).0
    reported : (id : ℤ) (new : OrderState) → Report s (on_order_status id new s)
    filled_by : (x : Fill F) → Report s (on_fill x s)
    seeded :
        (symbol : ℕ) (quantity : ℤ) (price : F) {t : Oms F}
        → seed_position symbol quantity price s ≡ some t
        → Report s t

  -- The intents that are submitted ask for something: the risk layer refuses the others.
  pub data Reachable : Oms F → Type 0 where
    started : Reachable (record { orders = []; positions = []; seen_exec_ids = []; log = [] })
    placed :
        {s : Oms F} (i : OrderIntent F) (answer : Option ℤ)
        → Reachable s
        → pos 0 <ℤ i.quantity
        → Reachable (submit i answer s)
    and_then : {s t : Oms F} → Reachable s → Report s t → Reachable t

  pub seeded-orders :
      (symbol : ℕ) (quantity : ℤ) (price : F) (s : Oms F) {t : Oms F}
      → seed_position symbol quantity price s ≡ some t
      → t.orders ≡ s.orders
  unfolding seed_position
  seeded-orders symbol quantity price s h = ground arith

  Report-IsConsistent : {s t : Oms F} → Report s t → IsConsistent s → IsConsistent t
  Report-IsConsistent (cancelled_one id) k = cancel-IsConsistent id _ k
  Report-IsConsistent cancelled_all k = cancel_all-IsConsistent _ k
  Report-IsConsistent (reported id new) k = on_order_status-IsConsistent id new _ k
  Report-IsConsistent (filled_by x) k = on_fill-IsConsistent x _ k
  Report-IsConsistent (seeded symbol quantity price h) k =
      rw (seeded-orders symbol quantity price _ h) k

  -- In every state that commands and callbacks can reach, in any order, each order has filled no more
  -- than it asked for, is FILLED exactly with all of it, and has come to its state from CREATED by
  -- moves of the table only.
  pub Reachable-IsConsistent : {s : Oms F} → Reachable s → IsConsistent s
  Reachable-IsConsistent started = tt
  Reachable-IsConsistent (placed i answer r h) =
      submit-IsConsistent i answer _ h (Reachable-IsConsistent r)
  Reachable-IsConsistent (and_then r step) = Report-IsConsistent step (Reachable-IsConsistent r)

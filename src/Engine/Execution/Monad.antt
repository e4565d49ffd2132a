-- ===== src/Engine/Execution/Monad.antt =====
-- The state that a rebalance works on: the venue, the counter of order ids, the journal and the
-- budget of submissions (`none` is the infinite budget of a liquidation). A raise keeps what was done.
use trading_bot.Base.{ℕ, Bool, zero, suc, Option, none, some, List, [], ◌∷◌, ◌++◌}
use trading_bot.Engine.Errors.{Error, Result, ok, err}
use trading_bot.Engine.Orders.{DroppedOrder}
use trading_bot.Engine.Risk.{PreTradeResult}
use trading_bot.Engine.Broker.{OrderResult}

-- The journal's lines, by what they carry.
pub data Event (F : Type 0) : Type 0 where
  order_dropped : DroppedOrder F → Event F
  order_result : OrderResult F → Event F
  escalation : ℕ → ℕ → Event F
  escalation_failed : ℕ → Event F
  buy_resized : ℕ → F → F → Event F
  -- of the daily cycle
  pre_traded : PreTradeResult F → Event F
  liquidation_aborted rebalance_aborted : Event F
  cycle_done : Bool → F → Bool → Event F

pub record World (F : Type 0) (S : Type 0) : Type 0 where
  pub venue : S
  pub next_id : ℕ
  pub budget : Option ℕ
  pub journal : List (Event F)

abbrev pub Action : Type 0 → Type 0 → Type 0 → Type 0
Action F S A = World F S → Result A × World F S

module _ {F S : Type 0} where
  module _ {A : Type 0} where
    abbrev pub pure : A → Action F S A
    pure a w = (ok a, w)

    abbrev pub raise : Error → Action F S A
    raise e w = (err e, w)

    -- a computation that touches no state and may raise
    abbrev pub lift : Result A → Action F S A
    lift r w = (r, w)

  -- The rest of a method after a call, unless the call raised.
  abbrev pub go_on :
      {A B : Type 0} → Result A × World F S → (A → Action F S B) → Result B × World F S
  go_on (ok a, w) f = f a w
  go_on (err e, w) f = (err e, w)

  infixl 5 ◌>>=◌ ◌>>◌
  abbrev pub ◌>>=◌ : {A B : Type 0} → Action F S A → (A → Action F S B) → Action F S B
  ◌>>=◌ m f w = go_on (m w) f

  abbrev pub ◌>>◌ : {B : Type 0} → Action F S (Unit {0}) → Action F S B → Action F S B
  m >> k = m >>= λ _. k

  abbrev pub record_event : Event F → Action F S (Unit {0})
  record_event e w = (ok tt, record w { journal = w.journal ++ (e ∷ []) })

-- What is left of the budget after one submission.
abbrev pub spend : Option ℕ → Option ℕ
spend none = none
spend (some zero) = some zero
spend (some (suc n)) = some n

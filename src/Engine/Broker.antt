-- ===== src/Engine/Broker.antt =====
-- engine/broker.py: what the engine needs of a venue. A call that raises keeps the state that it
-- reached. `Paper` is the venue that the repository implements.
pub mod Paper
use trading_bot.Base.{ℕ, Option, some, none, List, ◌++◌, ◌≡◌}
use trading_bot.Base.Lists.{take}
use trading_bot.Base.Dict.{Dict}
use trading_bot.Engine.Errors.{Result}
use trading_bot.Engine.Orders.{Order, OrderStatus}
use trading_bot.Engine.Risk.{ApprovedOrders, orders_in}

-- A snapshot is a value: no caller holds a reference into the venue.
pub record AccountSnapshot (F : Type 0) : Type 0 where
  pub cash : F
  pub positions : Dict F
  pub equity : F

pub record OrderResult (F : Type 0) : Type 0 where
  pub order : Order F
  pub status : OrderStatus
  pub filled_shares : F
  pub fill_price : F
  pub commission : F

-- The abstract class, over the venue's state.
pub record Broker (F : Type 0) (S : Type 0) : Type 0 where
  pub get_account : S → AccountSnapshot F
  pub submit : ApprovedOrders F → S → Result (List (OrderResult F)) × S

-- A venue that keeps a trail of what reached it: of a batch, the first orders up to a failure.
pub record IsTraced {F S : Type 0} (b : Broker F S) : Type 0 where
  pub trail : S → List (Order F)
  pub trail-submit :
      (a : ApprovedOrders F) (s : S)
      → (n : ℕ) × (trail (b.submit a s).1 ≡ trail s ++ take n (orders_in a))

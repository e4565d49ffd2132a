-- ===== src/Engine/Orders.antt =====
-- engine/orders.py: orders, the whitelist of statuses, the order in which they are submitted, and
-- the cap on their number.
pub mod Laws
mod Tests
use trading_bot.Base.{ℕ, Bool, true, false, Option, none, some, List, ◌++◌, map}
use trading_bot.Base.Checks.{if◌then◌else◌}
use trading_bot.Base.Lists.{take, drop, select}
use trading_bot.Base.Float.{Float, nought}
use trading_bot.Engine.Errors.{Result, ok, err, value_error}

pub data Side : Type 0 where
  buy sell : Side

pub data OrderStatus : Type 0 where
  new submitted partially_filled filled cancelled rejected expired error unknown : OrderStatus

-- A status outside the whitelist is no success.
pub is_success : OrderStatus → Bool
is_success filled = true
is_success _ = false

pub is_terminal : OrderStatus → Bool
is_terminal filled = true
is_terminal partially_filled = true
is_terminal cancelled = true
is_terminal rejected = true
is_terminal expired = true
is_terminal error = true
is_terminal _ = false

pub record Order (F : Type 0) : Type 0 where
  pub symbol : ℕ
  pub side : Side
  pub shares : F
  pub is_full_exit : Bool
  pub limit_price : Option F
  pub id : ℕ

-- Why an order did not reach the venue.
pub data Reason : Type 0 where
  order_cap budget_exhausted no_valid_price below_min_notional cost_too_high dust_position : Reason
  no_price_at_buy insufficient_cash : Reason

pub record DroppedOrder (F : Type 0) : Type 0 where
  pub order : Order F
  pub reason : Reason

abbrev pub side_is_sell : Side → Bool
side_is_sell sell = true
side_is_sell buy = false

abbrev pub side_is_buy : Side → Bool
side_is_buy buy = true
side_is_buy sell = false

module _ {F : Type 0} where
  abbrev pub is_sell : Order F → Bool
  is_sell o = side_is_sell o.side

  abbrev pub is_buy : Order F → Bool
  is_buy o = side_is_buy o.side

  abbrev pub drop_for : Reason → Order F → DroppedOrder F
  drop_for r o = record { order = o; reason = r }

  unfoldable pub sort_for_submission : List (Order F) → List (Order F)
  sort_for_submission orders = select is_sell orders ++ select is_buy orders

  unfoldable pub truncate_to_cap : List (Order F) → ℕ → List (Order F) × List (DroppedOrder F)
  truncate_to_cap orders cap =
      let ordered = sort_for_submission orders in
      (take cap ordered, map (drop_for order_cap) (drop cap ordered))

-- `Order.__post_init__` raises unless the size is positive.
unfoldable pub check_order : {F : Type 0} ⦃f : Float F⦄ → Order F → Result (Order F)
check_order ⦃f⦄ o = if f.le o.shares nought then err value_error else ok o

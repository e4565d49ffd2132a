-- ===== src/MiniProp/Types.antt =====
-- mini_prop_os/core/types.py: intents, positions and fills. Times are left out, as nothing here reads
-- them; a symbol is a number that is only compared.
pub mod Accounting
mod Tests
use trading_bot.Base.{
  ℕ, zero, suc, ◌+◌, ◌-◌, Bool, true, false, not, ◌&&◌, ◌||◌, Option, none, some, min,
}
use trading_bot.Base.Checks.{ltb, if◌then◌else◌}
use trading_bot.Base.Int.{ℤ, pos, negsuc, ◌+ℤ◌, neg_ℤ, abs_ℤ, ltb_ℤ, eqb_ℤ}
use trading_bot.Base.Float.{Float, nought}

pub data Action : Type 0 where
  buy sell : Action

pub data OrderType : Type 0 where
  market limit : OrderType

-- Who asks: flattening by the risk layer passes the kill switch.
pub data IntentSource : Type 0 where
  strategy risk_flatten operator : IntentSource

pub record OrderIntent (F : Type 0) : Type 0 where
  pub action : Action
  pub symbol : ℕ
  pub quantity : ℤ
  pub order_type : OrderType
  pub limit_price : Option F
  pub source : IntentSource
  pub intent_id : ℕ

abbrev pub signed_by : Action → ℤ → ℤ
signed_by buy n = n
signed_by sell n = neg_ℤ n

unfoldable pub signed_quantity : {F : Type 0} → OrderIntent F → ℤ
signed_quantity i = signed_by i.action i.quantity

pub record Position (F : Type 0) : Type 0 where
  pub symbol : ℕ
  pub quantity : ℤ
  pub avg_price : F
  pub realized_pnl : F

-- `none` is the empty execution id.
pub record Fill (F : Type 0) : Type 0 where
  pub order_id : ℤ
  pub symbol : ℕ
  pub signed_quantity : ℤ
  pub price : F
  pub exec_id : Option ℕ

abbrev same : Bool → Bool → Bool
same true b = b
same false b = not b

abbrev direction : ℤ → ℕ → ℤ
direction held n = if ltb_ℤ (pos 0) held then pos n else neg_ℤ (pos n)

module _ {F : Type 0} ⦃f : Float F⦄ where
  open f use {add, sub, mul, div, of_int}

  -- `Position(symbol)`
  abbrev pub flat : ℕ → Position F
  flat symbol = record {
    symbol = symbol;
    quantity = pos 0;
    avg_price = nought;
    realized_pnl = nought;
  }

  -- Opening or adding.
  unfoldable pub add_to : ℤ → F → Position F → Position F
  add_to qty price p =
      let total = p.quantity +ℤ qty in
      record p {
        quantity = total;
        avg_price =
            div
              (add (mul p.avg_price (of_int (pos (abs_ℤ p.quantity))))
                (mul price (of_int (pos (abs_ℤ qty)))))
              (of_int (pos (abs_ℤ total)));
      }

  -- Reducing, closing or reversing.
  unfoldable pub reduce : ℤ → F → Position F → Position F
  reduce qty price p =
      let closing = min (abs_ℤ qty) (abs_ℤ p.quantity) in
      let gain = mul (of_int (direction p.quantity closing)) (sub price p.avg_price) in
      let left = p.quantity +ℤ qty in
      record p {
        quantity = left;
        realized_pnl = add p.realized_pnl gain;
        avg_price =
            if ltb 0 (abs_ℤ qty - closing)
            then price
            else if eqb_ℤ left (pos 0)
            then nought
            else p.avg_price;
      }

  unfoldable pub apply_fill : ℤ → F → Position F → Position F
  unfolding add_to reduce
  apply_fill qty price p =
      if eqb_ℤ qty (pos 0)
      then p
      else if eqb_ℤ p.quantity (pos 0) || same (ltb_ℤ (pos 0) p.quantity) (ltb_ℤ (pos 0) qty)
      then add_to qty price p
      else reduce qty price p

  pub unrealized_pnl : F → Position F → F
  unrealized_pnl last p = mul (of_int p.quantity) (sub last p.avg_price)

-- ===== src/Engine/Broker/Paper.antt =====
-- The paper broker of engine/broker.py, with its knobs for injected failures.
pub mod Laws
pub mod Money
mod Tests
use trading_bot.Base.{ℕ, suc, ◌+◌, Bool, true, false, Option, none, some, List, [], ◌∷◌, ◌++◌}
use trading_bot.Base.Checks.{ltb, if◌then◌else◌}
use trading_bot.Base.Dict.{Dict, lookup, lookup_or, insert, erase}
use trading_bot.Base.Float.{Float, nought}
use trading_bot.Engine.Errors.{Result, ok, err, execution_error}
use trading_bot.Engine.Config.{CostConfig}
use trading_bot.Engine.Costs.{OrderCost, order_cost, total}
use trading_bot.Engine.Orders.{
  Order, OrderStatus, Side, buy, sell, filled, partially_filled, rejected, cancelled,
}
use trading_bot.Engine.Risk.{ApprovedOrders, orders_in}
use trading_bot.Engine.Broker.{AccountSnapshot, OrderResult, Broker}

pub record Knobs (F : Type 0) : Type 0 where
  pub fill_fraction : Dict F
  -- by order id, and by symbol
  pub scripted_status : Dict OrderStatus
  pub scripted_status_by_symbol : Dict OrderStatus
  pub outage_after_n_orders : Option ℕ
  pub reject_all : Bool

pub record PaperBroker (F : Type 0) : Type 0 where
  pub cash : F
  pub positions : Dict F
  pub prices : Dict F
  pub costs : CostConfig F
  pub knobs : Knobs F
  pub orders_seen : ℕ
  pub submissions : List (Order F)

-- The status that the knobs dictate, `none` for an ordinary execution.
abbrev or_else : Option OrderStatus → Option OrderStatus → Option OrderStatus
or_else (some s) _ = some s
or_else none s = s

abbrev unless_filled : Option OrderStatus → Option OrderStatus
unless_filled (some filled) = none
unless_filled s = s

abbrev pub Outcome : Type 0 → Type 0
Outcome F = Result (OrderResult F) × PaperBroker F

abbrev is_out : Option ℕ → ℕ → Bool
is_out none seen = false
is_out (some n) seen = ltb n seen

module _ {F : Type 0} ⦃f : Float F⦄ where
  open f use {lit, add, sub, mul, lt, le}

  scripted : Knobs F → Order F → Option OrderStatus
  scripted k o = unless_filled (
      or_else (lookup o.id k.scripted_status) (
        or_else (lookup o.symbol k.scripted_status_by_symbol)
          (if k.reject_all then some rejected else none)))

  unfoldable pub equity_from : F → Dict F → Dict F → F
  equity_from acc prices [] = acc
  equity_from acc prices ((sym, sh) ∷ ps) =
      equity_from (add acc (mul sh (lookup_or sym nought prices))) prices ps

  unfoldable pub get_account : PaperBroker F → AccountSnapshot F
  get_account b = record {
    cash = b.cash;
    positions = b.positions;
    equity = add b.cash (equity_from nought b.prices b.positions);
  }

  abbrev pub unfilled : Order F → OrderStatus → OrderResult F
  unfilled o s = record {
    order = o;
    status = s;
    filled_shares = nought;
    fill_price = nought;
    commission = nought;
  }

  abbrev pub done : Order F → F → F → F → F → OrderResult F
  done o fraction amount px commission = record {
    order = o;
    status = if le (lit 1 0) fraction then filled else partially_filled;
    filled_shares = amount;
    fill_price = px;
    commission = commission;
  }

  -- `del` of a position that is only float dust
  set_position : ℕ → F → Dict F → Dict F
  set_position sym left ps =
      if le left (lit 1 9) then erase sym (insert sym left ps) else insert sym left ps

  buy_at : PaperBroker F → Order F → F → F → F → OrderCost F → Outcome F
  buy_at b o px fraction amount cost =
      let needed = add (mul amount px) (total cost) in
      if lt (add b.cash (lit 1 9)) needed then (ok (unfilled o rejected), b) else (
        ok (done o fraction amount px cost.commission),
        record b {
          cash = sub b.cash needed;
          positions =
              insert o.symbol (add (lookup_or o.symbol nought b.positions) amount) b.positions;
        },
      )

  sell_at : PaperBroker F → Order F → F → F → F → OrderCost F → Outcome F
  sell_at b o px fraction amount cost =
      let held = lookup_or o.symbol nought b.positions in
      if lt (add held (lit 1 9)) amount
      then (ok (unfilled o rejected), b)
      else if lt (mul amount px) (total cost)
      then (ok (unfilled o rejected), b)
      else (
        ok (done o fraction amount px cost.commission),
        record b {
          cash = add b.cash (sub (mul amount px) (total cost));
          positions = set_position o.symbol (sub held amount) b.positions;
        },
      )

  pub by_side : Side → PaperBroker F → Order F → F → F → F → OrderCost F → Outcome F
  by_side buy = buy_at
  by_side sell = sell_at

  fill_with : PaperBroker F → Order F → F → F → F → Result (OrderCost F) → Outcome F
  fill_with b o px fraction amount (err e) = (err e, b)
  fill_with b o px fraction amount (ok cost) = by_side o.side b o px fraction amount cost

  execute_at : PaperBroker F → Order F → Option F → Outcome F
  execute_at b o none = (ok (unfilled o rejected), b)
  execute_at b o (some px) =
      let fraction = lookup_or o.symbol (lit 1 0) b.knobs.fill_fraction in
      let amount = mul o.shares fraction in
      if le px nought
      then (ok (unfilled o rejected), b)
      else if le amount nought
      then (ok (unfilled o cancelled), b)
      else fill_with b o px fraction amount (order_cost b.costs amount px)

  execute_scripted : PaperBroker F → Order F → Option OrderStatus → Outcome F
  execute_scripted b o (some s) = (ok (unfilled o s), b)
  execute_scripted b o none = execute_at b o (lookup o.symbol b.prices)

  pub execute_one : PaperBroker F → Order F → Outcome F
  execute_one b o = execute_scripted b o (scripted b.knobs o)

  abbrev then_append :
      Outcome F
      → (PaperBroker F → Result (List (OrderResult F)) × PaperBroker F)
      → Result (List (OrderResult F)) × PaperBroker F
  then_append (err e, b) rest = (err e, b)
  then_append (ok r, b) rest =
      let (rs, b') = rest b in (elim rs [ ok rs ↦ ok (r ∷ rs) | err e ↦ err e ], b')

  submit_each : List (Order F) → PaperBroker F → Result (List (OrderResult F)) × PaperBroker F
  submit_each [] b = (ok [], b)
  submit_each (o ∷ os) b =
      let seen = b.orders_seen + 1 in
      let noted = record b { orders_seen = seen; submissions = b.submissions ++ (o ∷ []) } in
      let rest = submit_each os in
      if is_out b.knobs.outage_after_n_orders seen
      then (err execution_error, record b { orders_seen = seen })
      else then_append (execute_one noted o) rest

  pub submit : ApprovedOrders F → PaperBroker F → Result (List (OrderResult F)) × PaperBroker F
  submit a = submit_each (orders_in a)

  abbrev pub paper_broker : Broker F (PaperBroker F)
  paper_broker = record { get_account = get_account; submit = submit }

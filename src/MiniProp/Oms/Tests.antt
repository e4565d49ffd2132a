-- ===== src/MiniProp/Oms/Tests.antt =====
-- An order that is filled in two parts while a cancel is on its way.
use trading_bot.Base.{ℕ, ◌≡◌, refl, ◌⊎◌, false, none, some, [], ◌∷◌, arith}
use trading_bot.Base.Int.{pos, negsuc, ◌+ℤ◌, ◌-ℤ◌, neg_ℤ}
use trading_bot.Base.Float.Milli.{Milli, milli_float}
use trading_bot.MiniProp.Types.{
  OrderIntent, Fill, sell, market, strategy, signed_quantity, apply_fill, add_to, reduce,
}
use trading_bot.MiniProp.Oms.Invariant.{IsConsistent}
use trading_bot.MiniProp.Oms.Reachable.{
  Reachable, Reachable-IsConsistent, started, placed, and_then, cancelled_one, filled_by, reported,
}
use trading_bot.MiniProp.Oms.Terminal.{Report-terminal}
use trading_bot.MiniProp.Oms.Ledger.{on_fill_lem, on_fill-on_fill}
use trading_bot.MiniProp.Oms.Booking.{Books, Ignorable}
use trading_bot.MiniProp.Oms.{
  seen, ManagedOrder, Oms, submit, cancel, on_fill, on_order_status, find_order, is_terminal,
  rejected, filled, fresh_order, transition, cancel_found, fill_found, accept, remaining_quantity,
  signed_fill, position_of, submitted, pending_cancel, partially_filled,
}

abbrev empty : Oms Milli
empty = record { orders = []; positions = []; seen_exec_ids = []; log = [] }

abbrev sell_ten : OrderIntent Milli
sell_ten = record {
  action = sell;
  symbol = 2;
  quantity = pos 10;
  order_type = market;
  limit_price = none;
  source = strategy;
  intent_id = 7;
}

abbrev part : ℕ → ℕ → Fill Milli
part n exec = record {
  order_id = pos 41;
  symbol = 2;
  signed_quantity = pos n;
  price = pos 20_000;
  exec_id = some exec;
}

abbrev working : Oms Milli
working = submit sell_ten (some (pos 41)) empty

abbrev half : Oms Milli
half = on_fill (part 4 100) (cancel (pos 41) working)

abbrev whole : Oms Milli
whole = on_fill (part 6 101) half

working-Reachable : Reachable working
working-Reachable = placed sell_ten (some (pos 41)) started (ground arith)

whole-Reachable : Reachable whole
whole-Reachable =
    and_then
      (and_then (and_then working-Reachable (cancelled_one (pos 41))) (filled_by (part 4 100)))
      (filled_by (part 6 101))

Reachable-IsConsistent_example : IsConsistent whole
Reachable-IsConsistent_example = Reachable-IsConsistent whole-Reachable

-- The broker reports the sign of a purchase; the book follows the intent.
abbrev sold : ManagedOrder Milli
sold = record (fresh_order (pos 41) sell_ten) {
  state = filled;
  filled_quantity = 10;
  avg_fill_price = pos 20_000;
  history = submitted ∷ pending_cancel ∷ partially_filled ∷ filled ∷ [];
}

whole_order : find_order (pos 41) whole.orders ≡ some sold
unfolding submit cancel on_fill transition cancel_found fill_found accept remaining_quantity
    signed_fill position_of signed_quantity apply_fill add_to reduce ◌+ℤ◌ ◌-ℤ◌ neg_ℤ
whole_order = refl

Report-terminal_example :
    find_order (pos 41) (on_order_status (pos 41) rejected whole).orders ≡ some sold
Report-terminal_example =
    Report-terminal (pos 41) sold (reported (pos 41) rejected) whole_order refl

-- Four shares of a sale that is being cancelled: the report's sign is a purchase's.
half_position : (position_of 2 half.positions).quantity ≡ negsuc 3
unfolding submit cancel on_fill transition cancel_found fill_found accept remaining_quantity
    signed_fill position_of signed_quantity apply_fill add_to reduce ◌+ℤ◌ ◌-ℤ◌ neg_ℤ
half_position = refl

cancelling-Reachable : Reachable (cancel (pos 41) working)
cancelling-Reachable = and_then working-Reachable (cancelled_one (pos 41))

on_fill_lem_example :
    (Ignorable (part 4 100) (cancel (pos 41) working) × (half ≡ cancel (pos 41) working))
    ⊎ ((mo : ManagedOrder Milli) × (find_order (pos 41) (cancel (pos 41) working).orders ≡ some mo)
        × (is_terminal mo ≡ false)
        × (seen (some 100) (cancel (pos 41) working).seen_exec_ids ≡ false)
        × Books (part 4 100) mo (cancel (pos 41) working) half)
on_fill_lem_example =
    on_fill_lem (part 4 100) (cancel (pos 41) working) (Reachable-IsConsistent cancelling-Reachable)

on_fill-on_fill_example : on_fill (part 4 100) half ≡ half
on_fill-on_fill_example = on_fill-on_fill (part 4 100) 100 (cancel (pos 41) working) refl

-- ===== src/Engine/Portfolio.antt =====
-- engine/portfolio.py: from target weights to orders, and whether the book has come to its target.
-- A set of symbols is a sorted list without repeats, the order in which `sorted` visits it.
pub mod Exits
mod Tests
use trading_bot.Base.{
  ℕ, zero, suc, Bool, true, false, not, ◌&&◌, ◌||◌, Option, none, some, List, [], ◌∷◌, map,
}
use trading_bot.Base.Checks.{ltb, ◌==◌, if◌then◌else◌}
use trading_bot.Base.Lists.{any, contains}
use trading_bot.Base.Dict.{Dict, lookup, lookup_or, keys}
use trading_bot.Base.Int.{ℤ, pos, eqb_ℤ}
use trading_bot.Base.Float.{Float, nought, max_of, abs_of, is_nan}
use trading_bot.Engine.Errors.{Result, ok, err, data_error, value_error, ◌>>=◌, ◌>>◌, raise_if}
use trading_bot.Engine.Orders.{Order, Side, buy, sell, check_order, sort_for_submission}

-- A symbol put in its place in a sorted set.
unfoldable pub add_symbol : ℕ → List ℕ → List ℕ
add_symbol s [] = s ∷ []
add_symbol s (t ∷ ts) =
    let later = add_symbol s ts in
    if s == t then t ∷ ts else if ltb s t then s ∷ t ∷ ts else t ∷ later

-- What `compute_orders` is called with.
pub record Plan (F : Type 0) : Type 0 where
  pub positions : Dict F
  pub target_weights : Dict F
  pub prices : Dict F
  pub equity : F
  pub no_trade_band : F

module _ {F : Type 0} ⦃f : Float F⦄ where
  open f use {add, sub, mul, div, neg, lt, le, eq, floor, of_int}

  -- The symbols of a dict whose figure passes a test, added to a set.
  unfoldable pub symbols_where : (F → Bool) → Dict F → List ℕ → List ℕ
  symbols_where keep [] set = set
  symbols_where keep ((s, v) ∷ rest) set =
      let others = symbols_where keep rest set in if keep v then add_symbol s others else others

  unfoldable pub held_symbols : Dict F → List ℕ
  held_symbols positions = symbols_where (λ sh. lt nought sh) positions []

  pub traded_symbols : Plan F → List ℕ
  traded_symbols p =
      symbols_where (λ w. not (eq w nought)) p.target_weights (held_symbols p.positions)

  pub is_unpriced : Dict F → ℕ → Bool
  is_unpriced prices s = elim (lookup s prices) [ none ↦ true | some px ↦ false ]

  pub target_shares : Plan F → ℕ → F → ℤ
  target_shares p s px = floor (div (mul (lookup_or s nought p.target_weights) p.equity) px)

  pub current_shares : Plan F → ℕ → F
  current_shares p s = lookup_or s nought p.positions

  delta : Plan F → ℕ → F → F
  delta p s px = sub (of_int (target_shares p s px)) (current_shares p s)

  pub is_full_exit_of : Plan F → ℕ → F → Bool
  is_full_exit_of p s px = eqb_ℤ (target_shares p s px) (pos 0) && lt nought (current_shares p s)

  abbrev order_of : ℕ → ℕ → Side → F → Bool → Order F
  order_of id s side shares exits = record {
    symbol = s;
    side = side;
    shares = shares;
    is_full_exit = exits;
    limit_price = none;
    id = id;
  }

  is_below_band : Plan F → ℕ → F → Bool
  is_below_band p s px = lt (div (mul (abs_of (delta p s px)) px) p.equity) p.no_trade_band

  -- The order for one symbol, `none` when there is nothing to do.
  order_at : Plan F → ℕ → ℕ → F → Option (Order F)
  order_at p id s px =
      let d = delta p s px in
      if is_full_exit_of p s px
      then some (order_of id s sell (current_shares p s) true)
      else if eq d nought
      then none
      else if is_below_band p s px
      then none
      else if lt nought d
      then some (order_of id s buy d false)
      else some (order_of id s sell (neg d) false)

  -- `orders.append(Order(…))`, before what the later symbols give.
  append_checked : Option (Order F) → Result (List (Order F)) → Result (List (Order F))
  append_checked none rest = rest
  append_checked (some o) rest = check_order o >>= λ o. rest >>= λ os. ok (o ∷ os)

  abbrev id_after : ℕ → Option (Order F) → ℕ
  id_after id none = id
  id_after id (some o) = suc id

  orders_at : Plan F → ℕ → ℕ → Option F → (ℕ → Result (List (Order F))) → Result (List (Order F))
  orders_at p id s none rest = err data_error
  orders_at p id s (some px) rest =
      if le px nought
      then err data_error
      else append_checked (order_at p id s px) (rest (id_after id (order_at p id s px)))

  -- The loop over the symbols; `id` is the next order id.
  orders_for : Plan F → ℕ → List ℕ → Result (List (Order F))
  orders_for p id [] = ok []
  orders_for p id (s ∷ ss) = orders_at p id s (lookup s p.prices) (λ next. orders_for p next ss)

  pub compute_orders : Plan F → ℕ → Result (List (Order F))
  compute_orders p id = do
    raise_if (any (is_unpriced p.prices) (held_symbols p.positions)) data_error
    raise_if (le p.equity nought) value_error
    orders ← orders_for p id (traded_symbols p)
    ok (sort_for_submission orders)

  abbrev is_bad_price : Option F → Bool
  is_bad_price none = true
  is_bad_price (some px) = is_nan px || le px nought

  abbrev price_or_nought : Option F → F
  price_or_nought none = nought
  price_or_nought (some px) = px

  -- The deviation of one symbol.
  deviation : Plan F → ℕ → Result F
  deviation p s =
      let price = lookup s p.prices in
      let actual =
        if is_bad_price price
        then nought
        else div (mul (current_shares p s) (price_or_nought price)) p.equity in
      if is_bad_price price && lt nought (current_shares p s)
      then err data_error
      else ok (abs_of (sub actual (lookup_or s nought p.target_weights)))

  deviations_for : Plan F → List ℕ → Result (Dict F)
  deviations_for p [] = ok []
  deviations_for p (s ∷ ss) = do
    dev ← deviation p s
    rest ← deviations_for p ss
    ok ((s, dev) ∷ rest)

  pub deviations : Plan F → Result (Dict F)
  deviations p =
      raise_if (le p.equity nought) value_error
      >> deviations_for p
          (symbols_where (λ v. true) p.positions (symbols_where (λ v. true) p.target_weights []))

  granularity : Plan F → Option F → F
  granularity p price = if is_bad_price price then nought else div (price_or_nought price) p.equity

  all_near : Plan F → F → Dict F → Bool
  all_near p tolerance [] = true
  all_near p tolerance ((s, dev) ∷ rest) =
      not (lt (max_of tolerance (granularity p (lookup s p.prices))) dev)
      && all_near p tolerance rest

  pub converged : Plan F → F → Result Bool
  converged p tolerance = do devs ← deviations p; ok (all_near p tolerance devs)

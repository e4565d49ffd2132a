-- ===== src/Engine/Portfolio/Exits.antt =====
-- A position whose target is no share is sold whole.
use mathlib.Core.List.{Memᴰ}
use mathlib.Core.List.Memᴰ as Memᴰ
use trading_bot.Base.{
  ℕ, ◌≡◌, refl, sym, subst, inl, inr, Bool, true, false, Option, none, some, List, [], ◌∷◌, arith,
}
use trading_bot.Base.Checks.{ltb, ◌==◌, Bool-cases}
use trading_bot.Base.Lists.{select, any}
use trading_bot.Base.Dict.{Dict, lookup, lookup_or}
use trading_bot.Base.Int.{pos}
use trading_bot.Base.Float.{Float, nought}
use trading_bot.Engine.Errors.{
  Result, ok, bind-returns, ok-injective, data_error, value_error, raise_if,
}
use trading_bot.Engine.Orders.{Order, sell, is_sell, is_buy, check_order, sort_for_submission}
use trading_bot.Engine.Portfolio.{
  Plan, add_symbol, symbols_where, held_symbols, traded_symbols, order_at, append_checked, id_after,
  orders_at, orders_for, compute_orders, is_full_exit_of, current_shares, order_of, is_unpriced,
  target_shares,
}

add_symbol-self : (s : ℕ) (ts : List ℕ) → Memᴰ s (add_symbol s ts)
unfolding add_symbol
add_symbol-self s [] = Memᴰ.head refl
add_symbol-self s (t ∷ ts) = elim (Bool-cases (s == t)) [
  | inl e ↦ rw e (Memᴰ.head (ground (arith, e)))
  | inr e ↦ elim (Bool-cases (ltb s t)) [
    | inl l ↦ rw (e, l) (Memᴰ.head refl)
    | inr l ↦ rw (e, l) (Memᴰ.tail (add_symbol-self s ts))
  ]
]

add_symbol-keep : (s t : ℕ) (ts : List ℕ) → Memᴰ s ts → Memᴰ s (add_symbol t ts)
unfolding add_symbol
add_symbol-keep s t [] m = elim m [ ]
add_symbol-keep s t (u ∷ us) m = elim (Bool-cases (t == u)) [
  | inl e ↦ rw e m
  | inr e ↦ elim (Bool-cases (ltb t u)) [
    | inl l ↦ rw (e, l) (Memᴰ.tail m)
    | inr l ↦
        rw (e, l)
          (elim m [
            | Memᴰ.head h ↦ Memᴰ.head h
            | Memᴰ.tail k ↦ Memᴰ.tail (add_symbol-keep s t us k)
          ])
  ]
]

module _ {F : Type 0} ⦃f : Float F⦄ where
  open f use {lt, le}

  symbols_where-set :
      (keep : F → Bool) (d : Dict F) (set : List ℕ) (s : ℕ)
      → Memᴰ s set
      → Memᴰ s (symbols_where keep d set)
  unfolding symbols_where
  symbols_where-set keep [] set s m = m
  symbols_where-set keep ((t, v) ∷ d) set s m =
      let rest = symbols_where-set keep d set s m in
      elim (Bool-cases (keep v)) [ inl k ↦ rw k (add_symbol-keep s t _ rest) | inr k ↦ rw k rest ]

  symbols_where-lookup :
      (keep : F → Bool) (d : Dict F) (set : List ℕ) (s : ℕ) (v : F)
      → lookup s d ≡ some v
      → keep v ≡ true
      → Memᴰ s (symbols_where keep d set)
  unfolding symbols_where
  symbols_where-lookup keep [] set s v h k = cc
  symbols_where-lookup keep ((t, w) ∷ d) set s v h k = elim (Bool-cases (s == t)) [
    | inl e ↦
        let same : w ≡ v = ground (arith, h, e) in
        rw (same, k)
          (subst (λ u. Memᴰ s (add_symbol u (symbols_where keep d set))) (ground (arith, e))
            (add_symbol-self s (symbols_where keep d set)))
    | inr e ↦
        let rest = symbols_where-lookup keep d set s v (rw e at h) k in
        elim (Bool-cases (keep w)) [ inl x ↦ rw x (add_symbol-keep s t _ rest) | inr x ↦ rw x rest ]
  ]

  -- The order that closes a position.
  pub record Closes (p : Plan F) (s : ℕ) (o : Order F) : Type 0 where
    pub of_symbol : o.symbol ≡ s
    pub is_sale : o.side ≡ sell
    pub whole : o.shares ≡ current_shares p s
    pub flagged : o.is_full_exit ≡ true

  abbrev pub HasExit : Plan F → ℕ → List (Order F) → Type 0
  HasExit p s orders = (o : Order F) × Memᴰ o orders × Closes p s o

  check_order-same : (o checked : Order F) → check_order o ≡ ok checked → checked ≡ o
  unfolding check_order
  check_order-same o checked h = ground (arith, h)

  append_checked-exit :
      (p : Plan F) (s id : ℕ) (px : F) (rest : Result (List (Order F))) (orders : List (Order F))
      → is_full_exit_of p s px ≡ true
      → append_checked (order_at p id s px) rest ≡ ok orders
      → HasExit p s orders
  unfolding append_checked order_at
  append_checked-exit p s id px rest orders e h =
      let (o, made, h1) =
        bind-returns (check_order (order_of id s sell (current_shares p s) true)) _ (rw e at h) in
      let (os, _, h2) = bind-returns rest _ h1 in
      let same = check_order-same (order_of id s sell (current_shares p s) true) o made in
      (
        o,
        subst (Memᴰ o) (ok-injective h2) (Memᴰ.head refl),
        subst (Closes p s) (sym same)
            (record { of_symbol = refl; is_sale = refl; whole = refl; flagged = refl }),
      )

  append_checked-tail :
      (o : Option (Order F)) (rest : Result (List (Order F))) (orders : List (Order F))
      → append_checked o rest ≡ ok orders
      → (os : List (Order F)) × (rest ≡ ok os) × ((x : Order F) → Memᴰ x os → Memᴰ x orders)
  unfolding append_checked
  append_checked-tail none rest orders h = (orders, h, λ x m. m)
  append_checked-tail (some o) rest orders h =
      let (o', _, h1) = bind-returns (check_order o) _ h in
      let (os, e, h2) = bind-returns rest _ h1 in
      (os, e, λ x m. subst (Memᴰ x) (ok-injective h2) (Memᴰ.tail m))

  orders_at-ok :
      (p : Plan F) (id s : ℕ) (price : Option F) (rest : ℕ → Result (List (Order F)))
      (orders : List (Order F))
      → orders_at p id s price rest ≡ ok orders
      → (px : F) × (price ≡ some px)
        × (append_checked (order_at p id s px) (rest (id_after id (order_at p id s px)))
            ≡ ok orders)
  unfolding orders_at
  orders_at-ok p id s none rest orders h = cc
  orders_at-ok p id s (some px) rest orders h = (px, refl, ground (arith, h))

  orders_for-exit :
      (p : Plan F) (ss : List ℕ) (id : ℕ) (s : ℕ) (px : F) (orders : List (Order F))
      → lookup s p.prices ≡ some px
      → is_full_exit_of p s px ≡ true
      → Memᴰ s ss
      → orders_for p id ss ≡ ok orders
      → HasExit p s orders
  unfolding orders_for
  orders_for-exit p [] id s px orders e x m h = elim m [ ]
  orders_for-exit p (t ∷ ts) id s px orders e x (Memᴰ.head same) h =
      let (q, there, h1) = orders_at-ok p id t (lookup t p.prices) _ orders h in
      let exits : is_full_exit_of p t q ≡ true = cc in
      subst (λ u. HasExit p u orders) (sym same) (append_checked-exit p t id q _ orders exits h1)
  orders_for-exit p (t ∷ ts) id s px orders e x (Memᴰ.tail m) h =
      let (q, _, h1) = orders_at-ok p id t (lookup t p.prices) _ orders h in
      let (os, rest, keep) = append_checked-tail (order_at p id t q) _ orders h1 in
      let (o, here, closes) = orders_for-exit p ts _ s px os e x m rest in (o, keep o here, closes)

  sort_for_submission-Mem :
      (o : Order F) (os : List (Order F))
      → Memᴰ o (select is_sell os)
      → Memᴰ o (sort_for_submission os)
  unfolding sort_for_submission
  sort_for_submission-Mem o os m = Memᴰ.append_left (select is_buy os) m

  traded-held :
      (p : Plan F) (s : ℕ) (held : F)
      → lookup s p.positions ≡ some held
      → lt nought held ≡ true
      → Memᴰ s (traded_symbols p)
  unfolding traded_symbols held_symbols
  traded-held p s held e h =
      symbols_where-set _ p.target_weights _ s
        (symbols_where-lookup (λ sh. lt nought sh) p.positions [] s held e h)

  lookup-or : (s : ℕ) (d : Dict F) (v default : F) → lookup s d ≡ some v → lookup_or s default d ≡ v
  lookup-or s [] v default h = cc
  lookup-or s ((t, w) ∷ d) v default h = ground (arith, h, lookup-or s d v default)

  exit_of :
      (p : Plan F) (s : ℕ) (px held : F)
      → lookup s p.positions ≡ some held
      → lt nought held ≡ true
      → target_shares p s px ≡ pos 0
      → is_full_exit_of p s px ≡ true
  unfolding is_full_exit_of current_shares
  exit_of p s px held e h t = rw (t, lookup-or s p.positions held nought e, h) refl

  select-sell :
      (o : Order F) (os : List (Order F)) → o.side ≡ sell → Memᴰ o os → Memᴰ o (select is_sell os)
  select-sell o [] h m = elim m [ ]
  select-sell o (x ∷ os) h (Memᴰ.head e) =
      let sells : is_sell x ≡ true = ground (arith, h, e) in rw sells (Memᴰ.head e)
  select-sell o (x ∷ os) h (Memᴰ.tail m) = elim (Bool-cases (is_sell x)) [
    | inl k ↦ rw k (Memᴰ.tail (select-sell o os h m))
    | inr k ↦ rw k (select-sell o os h m)
  ]

  -- When orders are computed, no held symbol lacks a price, and every holding whose target floors to no
  -- share is sold whole by an order that is flagged as a full exit.
  pub compute_orders_lem :
      (p : Plan F) (id : ℕ) (orders : List (Order F))
      → compute_orders p id ≡ ok orders
      → (any (is_unpriced p.prices) (held_symbols p.positions) ≡ false)
        × ((s : ℕ) (held px : F)
            → lookup s p.positions ≡ some held
            → lt nought held ≡ true
            → lookup s p.prices ≡ some px
            → target_shares p s px ≡ pos 0
            → HasExit p s orders)
  unfolding compute_orders
  compute_orders_lem p id orders h =
      let (_, priced, h1) =
        bind-returns (raise_if (any (is_unpriced p.prices) (held_symbols p.positions)) data_error) _
          h in
      let (_, _, h2) = bind-returns (raise_if (le p.equity nought) value_error) _ h1 in
      let (found, made, h3) = bind-returns (orders_for p id (traded_symbols p)) _ h2 in
      (
        ground (arith, priced),
        λ s held px have some_held quote to_nothing.
            let (o, here, closes) =
              orders_for-exit p (traded_symbols p) id s px found quote
                (exit_of p s px held have some_held to_nothing)
                (traded-held p s held have some_held) made in
            (
              o,
              subst (Memᴰ o) (ok-injective h3)
                  (sort_for_submission-Mem o found (select-sell o found closes.is_sale here)),
              closes,
            ),
      )

-- ===== src/Engine/Risk/Filter.antt =====
-- What `filter_orders` of engine/risk.py lets through and what it drops.
use mathlib.Core.List.{Perm, perm_middle, map-append, append_assoc, append-nil}
use mathlib.Core.List.Perm
use trading_bot.Base.{
  ℕ, true, false, ◌≤◌, Option, none, some, List, [], ◌∷◌, ◌++◌, map, ◌≡◌, refl, sym, subst, ◌⊎◌,
  inl, inr, arith,
}
use trading_bot.Base.Checks.{Option-cases}
use trading_bot.Base.Lists.{length, All, All-append, All-imp}
use trading_bot.Base.Dict.{Dict, lookup}
use trading_bot.Base.Float.{Float, nought}
use trading_bot.Engine.Errors.{ok, bind-returns, ok-injective}
use trading_bot.Engine.Config.{RiskConfig, CostConfig}
use trading_bot.Engine.Costs.{all_in_fraction}
use trading_bot.Engine.Orders.{
  Order, DroppedOrder, Reason, no_valid_price, below_min_notional, cost_too_high, dust_position,
  order_cap, truncate_to_cap,
}
use trading_bot.Engine.Orders.Laws.{truncate_to_cap_lem, truncate_to_cap-All, truncate_to_cap-over}
use trading_bot.Engine.Risk.{
  ApprovedOrders, orders_in, filter_orders, sift, cap_kept, put_by, judge, judge_at, judge_cost,
  Sorted,
}

module _ {F : Type 0} ⦃f : Float F⦄ (cfg : RiskConfig F) (costs : CostConfig F) where
  open f use {lit, mul, lt, le}

  -- The order has a positive price and a known cost there. A full exit costs less than it frees; any
  -- other order reaches the least notional and stays within the cost limit.
  abbrev pub IsClear : Dict F → Order F → Type 0
  IsClear prices o =
      (px : F) × (frac : F) × (lookup o.symbol prices ≡ some px)
      × (le px nought ≡ false)
      × (all_in_fraction costs o.shares px ≡ ok frac)
      × (((o.is_full_exit ≡ true) × (le (lit 1 0) frac ≡ false))
          ⊎ ((o.is_full_exit ≡ false)
              × (lt (mul o.shares px) cfg.min_order_notional ≡ false)
              × (lt cfg.max_cost_fraction frac ≡ false)))

  -- Why an order does not go through, by the reason given, when `n` orders do: its price is unknown or
  -- not positive; it is below the least notional or above the cost limit, and no full exit; it is a full
  -- exit that costs no less than it frees; or it is clear, and as many orders go through as may.
  abbrev pub IsDue : ℕ → Dict F → Order F → Reason → Type 0
  IsDue n prices o no_valid_price =
      (lookup o.symbol prices ≡ none)
      ⊎ ((px : F) × (lookup o.symbol prices ≡ some px) × (le px nought ≡ true))
  IsDue n prices o below_min_notional =
      (o.is_full_exit ≡ false)
      × (px : F) × (lookup o.symbol prices ≡ some px)
      × (lt (mul o.shares px) cfg.min_order_notional ≡ true)
  IsDue n prices o cost_too_high =
      (o.is_full_exit ≡ false)
      × (px : F) × (frac : F) × (lookup o.symbol prices ≡ some px)
      × (all_in_fraction costs o.shares px ≡ ok frac)
      × (lt cfg.max_cost_fraction frac ≡ true)
  IsDue n prices o dust_position =
      (o.is_full_exit ≡ true)
      × (px : F) × (frac : F) × (lookup o.symbol prices ≡ some px)
      × (all_in_fraction costs o.shares px ≡ ok frac)
      × (le (lit 1 0) frac ≡ true)
  IsDue n prices o order_cap = IsClear prices o × (n ≡ cfg.max_orders_per_day)
  IsDue n prices o _ = ⊥

  -- Every order dropped has the reason that it is due.
  abbrev pub AllDue : ℕ → Dict F → List (DroppedOrder F) → Type 0
  AllDue n prices = All λ d. IsDue n prices d.order d.reason

  judge_at-IsClear :
      (prices : Dict F) (o : Order F) (px : F)
      → lookup o.symbol prices ≡ some px
      → judge_at cfg costs o px ≡ ok none
      → IsClear prices o
  unfolding judge_at judge_cost
  judge_at-IsClear prices o px e h = ground arith

  judge_at-IsDue :
      (n : ℕ) (prices : Dict F) (o : Order F) (px : F) (r : Reason)
      → lookup o.symbol prices ≡ some px
      → judge_at cfg costs o px ≡ ok (some r)
      → IsDue n prices o r
  unfolding judge_at judge_cost
  judge_at-IsDue n prices o px r e h = ground arith

  judge-IsClear :
      (prices : Dict F) (o : Order F)
      → judge cfg costs o (lookup o.symbol prices) ≡ ok none
      → IsClear prices o
  unfolding judge
  judge-IsClear prices o h = elim (Option-cases (lookup o.symbol prices)) [
    | inl e ↦ ground arith
    | inr (px, e) ↦ judge_at-IsClear prices o px e (rw (e, judge) at h)
  ]

  judge-IsDue :
      (n : ℕ) (prices : Dict F) (o : Order F) (r : Reason)
      → judge cfg costs o (lookup o.symbol prices) ≡ ok (some r)
      → IsDue n prices o r
  unfolding judge
  judge-IsDue n prices o r h = elim (Option-cases (lookup o.symbol prices)) [
    | inl e ↦ ground arith
    | inr (px, e) ↦ judge_at-IsDue n prices o px r e (rw (e, judge) at h)
  ]

  -- What the loop has established about the orders that it has seen.
  abbrev IsSifted : Dict F → List (Order F) → Sorted F → Type 0
  IsSifted prices os (kept, dropped) =
      All (IsClear prices) kept
      × ((n : ℕ) → AllDue n prices dropped)
      × Perm (kept ++ map (λ d. d.order) dropped) os

  put_by-IsSifted :
      (prices : Dict F) (o : Order F) (os : List (Order F)) (v : Option Reason) (r : Sorted F)
      → (v ≡ none → IsClear prices o)
      → ((why : Reason) → v ≡ some why → (n : ℕ) → IsDue n prices o why)
      → IsSifted prices os r
      → IsSifted prices (o ∷ os) (put_by o v r)
  unfolding put_by
  put_by-IsSifted prices o os none (kept, dropped) clear due (k, d, p) =
      ((clear refl, k), d, Perm.cons o p)
  put_by-IsSifted prices o os (some why) (kept, dropped) clear due (k, d, p) = (
    k,
    λ n. (due why refl n, d n),
    Perm.trans (perm_middle kept (map (λ e. e.order) dropped)) (Perm.cons o p),
  )

  sift-IsSifted :
      (prices : Dict F) (os : List (Order F)) (r : Sorted F)
      → sift cfg costs prices os ≡ ok r
      → IsSifted prices os r
  unfolding sift
  sift-IsSifted prices [] r h = subst (IsSifted prices []) (ok-injective h) (tt, λ n. tt, Perm.rfl)
  sift-IsSifted prices (o ∷ os) r h =
      let quote = lookup o.symbol prices in
      let (v, e, h') = bind-returns (judge cfg costs o quote) _ h in
      let (rest, e', h'') = bind-returns (sift cfg costs prices os) _ h' in
      subst (IsSifted prices (o ∷ os)) (ok-injective h'') (
        put_by-IsSifted prices o os v rest (λ keep. judge-IsClear prices o (rw keep at e))
          (λ why drop n. judge-IsDue n prices o why (rw drop at e))
          (sift-IsSifted prices os rest e'))

  append_comm : (xs ys : List (Order F)) → Perm (xs ++ ys) (ys ++ xs)
  append_comm [] ys = rw (append-nil ys) Perm.rfl
  append_comm (x ∷ xs) ys =
      Perm.trans (Perm.cons x (append_comm xs ys)) (Perm.symm (perm_middle ys xs))

  regroup : (xs ys zs : List (Order F)) → Perm (xs ++ (ys ++ zs)) ((xs ++ zs) ++ ys)
  regroup xs ys zs = rw (append_assoc xs zs ys) (Perm.append_left xs (append_comm ys zs))

  -- What the gate has done to a batch, by what it let through.
  abbrev pub IsGated : Dict F → List (Order F) → ApprovedOrders F × List (DroppedOrder F) → Type 0
  IsGated prices os (a, dropped) =
      (length (orders_in a) ≤ cfg.max_orders_per_day)
      × All (IsClear prices) (orders_in a)
      × AllDue (length (orders_in a)) prices dropped
      × Perm (orders_in a ++ map (λ d. d.order) dropped) os

  capped :
      (prices : Dict F) (n : ℕ) (d : DroppedOrder F)
      → IsClear prices d.order × (d.reason ≡ order_cap) × (n ≡ cfg.max_orders_per_day)
      → IsDue n prices d.order d.reason
  capped prices n d (clear, why, full) = subst (IsDue n prices d.order) (sym why) (clear, full)

  cap_kept-IsGated :
      (prices : Dict F) (os : List (Order F)) (r : Sorted F)
      → IsSifted prices os r
      → IsGated prices os (cap_kept cfg r)
  unfolding cap_kept orders_in truncate_to_cap
  cap_kept-IsGated prices os (kept, dropped) (k, d, p) =
      let cap = cfg.max_orders_per_day in
      let (size, same, _) = truncate_to_cap_lem kept cap in
      let within = (truncate_to_cap kept cap).0 in
      let over = map (λ e. e.order) (truncate_to_cap kept cap).1 in
      let gone = map (λ e. e.order) dropped in
      (
        omega arith,
        truncate_to_cap-All (IsClear prices) kept cap k,
        All-append (λ e. IsDue (length within) prices e.order e.reason) dropped
            (truncate_to_cap kept cap).1 (d (length within))
            (All-imp _ _ (capped prices (length within)) (truncate_to_cap kept cap).1
              (truncate_to_cap-over (IsClear prices) kept cap k)),
        rw (map-append (λ e. e.order) dropped (truncate_to_cap kept cap).1)
            (Perm.trans (regroup within gone over) (Perm.trans (Perm.append_right gone same) p)),
      )

  -- A batch that passes the gate: at most `max_orders_per_day` orders go through, each with a price
  -- and within the size and cost limits; every other order is reported as dropped, with a reason that
  -- holds of it. A full exit is dropped only if its price is unknown or not positive, if its cost is no
  -- less than what it frees, or if it is clear and as many orders go through as may: no minimum size and
  -- no cost limit eats it.
  pub filter_orders_lem :
      (os : List (Order F)) (prices : Dict F) {r : ApprovedOrders F × List (DroppedOrder F)}
      → filter_orders cfg costs os prices ≡ ok r
      → IsGated prices os r
  unfolding filter_orders
  filter_orders_lem os prices h =
      let (sorted, e, h') = bind-returns (sift cfg costs prices os) _ h in
      subst (IsGated prices os) (ok-injective h')
        (cap_kept-IsGated prices os sorted (sift-IsSifted prices os sorted e))

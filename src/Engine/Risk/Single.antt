-- ===== src/Engine/Risk/Single.antt =====
-- `filter_orders` of engine/risk.py on one order alone.
use trading_bot.Base.{
  ℕ, zero, suc, Option, none, some, List, [], ◌∷◌, ◌≡◌, refl, subst, ◌⊎◌, inl, arith,
}
use trading_bot.Base.Lists.{take}
use trading_bot.Base.Dict.{Dict, lookup}
use trading_bot.Base.Float.{Float}
use trading_bot.Engine.Errors.{ok, bind-returns, ok-injective}
use trading_bot.Engine.Config.{RiskConfig, CostConfig}
use trading_bot.Engine.Orders.{Order, DroppedOrder, Reason, truncate_to_cap, sort_for_submission}
use trading_bot.Engine.Risk.{
  ApprovedOrders, orders_in, filter_orders, sift, cap_kept, put_by, judge,
}

module _ {F : Type 0} ⦃f : Float F⦄ (cfg : RiskConfig F) (costs : CostConfig F) where
  take-nil : (n : ℕ) → take {A = Order F} n [] ≡ []
  take-nil zero = refl
  take-nil (suc n) = refl

  -- One order alone passes or does not.
  truncate_single :
      (o : Order F) (cap : ℕ)
      → ((truncate_to_cap (o ∷ []) cap).0 ≡ []) ⊎ ((truncate_to_cap (o ∷ []) cap).0 ≡ o ∷ [])
  unfolding truncate_to_cap sort_for_submission
  truncate_single o zero = inl refl
  truncate_single o (suc n) = ground (arith, take-nil n)

  truncate_nil : (cap : ℕ) → (truncate_to_cap {F = F} [] cap).0 ≡ []
  unfolding truncate_to_cap sort_for_submission
  truncate_nil zero = refl
  truncate_nil (suc cap) = refl

  cap_kept_single :
      (o : Order F) (v : Option Reason)
      → let a = (cap_kept cfg (put_by o v ([], []))).0 in
        (orders_in a ≡ []) ⊎ (orders_in a ≡ o ∷ [])
  unfolding cap_kept put_by orders_in
  cap_kept_single o none = truncate_single o cfg.max_orders_per_day
  cap_kept_single o (some why) = inl (truncate_nil cfg.max_orders_per_day)

  pub filter_single :
      (o : Order F) (prices : Dict F) {r : ApprovedOrders F × List (DroppedOrder F)}
      → filter_orders cfg costs (o ∷ []) prices ≡ ok r
      → (orders_in r.0 ≡ []) ⊎ (orders_in r.0 ≡ o ∷ [])
  unfolding filter_orders sift
  filter_single o prices h =
      let (sorted, e, h') = bind-returns (sift cfg costs prices (o ∷ [])) _ h in
      let (v, e', h'') = bind-returns (judge cfg costs o (lookup o.symbol prices)) _ e in
      subst (λ r. (orders_in r.0 ≡ []) ⊎ (orders_in r.0 ≡ o ∷ [])) (ok-injective h')
        (subst (λ s. (orders_in (cap_kept cfg s).0 ≡ []) ⊎ (orders_in (cap_kept cfg s).0 ≡ o ∷ []))
          (ok-injective h'') (cap_kept_single o v))

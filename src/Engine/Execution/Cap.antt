-- ===== src/Engine/Execution/Cap.antt =====
-- How many orders reach the venue, and in what order.
use mathlib.Core.List.{append-nil, append_assoc}
use trading_bot.Base.{
  ℕ, zero, suc, ◌+◌, ◌≤◌, Bool, false, Option, none, some, List, [], ◌∷◌, ◌++◌, ◌≡◌, sym, ap, ◌∙◌,
  arith,
}
use trading_bot.Base.Lists.{length, length-append, All, All-append}
use trading_bot.Base.Float.{Float}
use trading_bot.Engine.Orders.{Order, Side, buy, sell}
use trading_bot.Engine.Orders.Laws.{IsSell, IsBuy}
use trading_bot.Engine.Broker.{IsTraced}
use trading_bot.Engine.Execution.Monad.{World, spend}
use trading_bot.Engine.Execution.Keeps.{AllowsSide}
use trading_bot.Engine.Execution.Batch.{execute_rebalance-Holds}
use trading_bot.Engine.Execution.{Setup, execute_rebalance, is_spent}

module _ {F S : Type 0} ⦃f : Float F⦄ (c : Setup F S) (t : IsTraced c.broker) where
  -- A finite budget and the trail together stay within `most`.
  abbrev WithinCap : ℕ → Option ℕ → List (Order F) → Type 0
  WithinCap most none os = ⊥
  WithinCap most (some n) os = length os + n ≤ most

  WithinCap-AllowsSide : (most : ℕ) (d : Side) → AllowsSide c t (WithinCap most) d
  WithinCap-AllowsSide most d = record { grow = grow; idle = idle }
    where
      grow :
          (b : Option ℕ) (os : List (Order F)) (o : Order F)
          → o.side ≡ d
          → is_spent b ≡ false
          → WithinCap most b os
          → WithinCap most (spend b) (os ++ (o ∷ []))
      grow none os o side ready h = h
      grow (some zero) os o side ready h = cc
      grow (some (suc n)) os o side ready h = omega (arith, length-append os (o ∷ []))

      idle :
          (b : Option ℕ) (os : List (Order F))
          → is_spent b ≡ false
          → WithinCap most b os
          → WithinCap most (spend b) os
      idle none os ready h = h
      idle (some zero) os ready h = h
      idle (some (suc n)) os ready h = omega arith

  WithinCap-length :
      (most : ℕ) (b : Option ℕ) (os : List (Order F)) → WithinCap most b os → length os ≤ most
  WithinCap-length most none os h = absurd h
  WithinCap-length most (some n) os h = omega arith

  -- A rebalance puts at most `max_orders_per_day` more orders on the venue, escalations included,
  -- also when it ends in an exception.
  pub execute_rebalance-cap :
      (orders : List (Order F)) (w : World F S)
      → length (t.trail (execute_rebalance c false orders w).1.venue)
        ≤ length (t.trail w.venue) + c.risk.max_orders_per_day
  execute_rebalance-cap orders w =
      let most = length (t.trail w.venue) + c.risk.max_orders_per_day in
      let after = (execute_rebalance c false orders w).1 in
      WithinCap-length most after.budget (t.trail after.venue) (
        execute_rebalance-Holds c t (WithinCap most) (WithinCap most) false orders
          (WithinCap-AllowsSide most sell) (WithinCap-AllowsSide most buy) (λ b os h. h) w
          (omega arith))

  -- What was on the trail before, then sells.
  abbrev SellsAfter : List (Order F) → Option ℕ → List (Order F) → Type 0
  SellsAfter before b os = (sells : List (Order F)) × (os ≡ before ++ sells) × All IsSell sells

  -- What was on the trail before, then sells, then buys.
  abbrev pub SellsThenBuys : List (Order F) → List (Order F) → Type 0
  SellsThenBuys before os =
      (sells : List (Order F)) × (buys : List (Order F)) × (os ≡ before ++ (sells ++ buys))
      × All IsSell sells
      × All IsBuy buys

  SellsAfter-AllowsSide : (before : List (Order F)) → AllowsSide c t (SellsAfter before) sell
  SellsAfter-AllowsSide before = record {
    grow = λ b os o side ready (sells, e, h). (
      sells ++ (o ∷ []),
      ap (λ t. t ++ (o ∷ [])) e ∙ append_assoc before sells (o ∷ []),
      All-append IsSell sells (o ∷ []) h (side, tt),
    );
    idle = λ b os ready h. h;
  }

  SellsThenBuys-AllowsSide :
      (before : List (Order F)) → AllowsSide c t (λ b. SellsThenBuys before) buy
  SellsThenBuys-AllowsSide before = record {
    grow = λ b os o side ready (sells, buys, e, h, k). (
      sells,
      buys ++ (o ∷ []),
      ap (λ t. t ++ (o ∷ [])) e
          ∙ (append_assoc before (sells ++ buys) (o ∷ [])
              ∙ ap (λ t. before ++ t) (append_assoc sells buys (o ∷ []))),
      h,
      All-append IsBuy buys (o ∷ []) k (side, tt),
    );
    idle = λ b os ready h. h;
  }

  -- Every sell reaches the venue before any buy, in a rebalance and in a liquidation, escalations and
  -- exceptions included.
  pub execute_rebalance_order :
      (liquidation : Bool) (orders : List (Order F)) (w : World F S)
      → SellsThenBuys (t.trail w.venue) (t.trail (execute_rebalance c liquidation orders w).1.venue)
  execute_rebalance_order liquidation orders w =
      let before = t.trail w.venue in
      execute_rebalance-Holds c t (SellsAfter before) (λ b. SellsThenBuys before) liquidation orders
        (SellsAfter-AllowsSide before) (SellsThenBuys-AllowsSide before)
        (λ b os (sells, e, h).
          (sells, [], e ∙ ap (λ t. before ++ t) (sym (append-nil sells)), h, tt))
        w ([], sym (append-nil before), tt)

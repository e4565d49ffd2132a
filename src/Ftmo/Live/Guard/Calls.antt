-- ===== src/Ftmo/Live/Guard/Calls.antt =====
-- What the guard's calls of the terminal keep: any relation of worlds that holds across a call which
-- sends no order.
use trading_bot.Base.{ℕ, ◌≡◌, inl, inr, Option, none, some, List, [], ◌∷◌}
use trading_bot.Base.Checks.{Bool-cases}
use trading_bot.Base.Float.{Float}
use trading_bot.Base.Outcome.{Outcome, raised, returned}
use trading_bot.Ftmo.Rules.{Moment, past_friday_cutoff}
use trading_bot.Ftmo.Live.Store.{LiveError, Files, HaltRecord}
use trading_bot.Ftmo.Live.{
  PositionInfo, IsTraced, World, Act, pure, read, ask, attempt, attempted, go_on, ◌>>=◌,
  is_mt5_error,
}
use trading_bot.Ftmo.Live.Guard.{
  Watch, flatten, targets_for, close_outside, close_each, cancel_each,
}

module _ {F S : Type 0} ⦃f : Float F⦄ (g : Watch F S) (t : IsTraced g.client) where
  pub record IsClosed (R : World F S → World F S → Type 0) : Type 0 where
    pub refl : (w : World F S) → R w w
    pub trans : (u v w : World F S) → R u v → R v w → R u w
    pub asks :
        (w : World F S) (s : S) → t.trail s ≡ t.trail w.terminal → R w (record w { terminal = s })

module _ {F S : Type 0} ⦃f : Float F⦄ (g : Watch F S) (t : IsTraced g.client)
    (R : World F S → World F S → Type 0) (law : IsClosed g t R) where
  pub record Keeps {A : Type 0} (m : Act F S A) : Type 0 where
    pub by : (w : World F S) → R w (m w).1

  pub Keeps-pure : {A : Type 0} (a : A) → Keeps (pure a)
  Keeps-pure a = record { by = λ w. law.refl w }

  pub Keeps-read : {A : Type 0} (look : Files F → Outcome LiveError A) → Keeps (read look)
  Keeps-read look = record { by = λ w. law.refl w }

  pub Keeps-ask :
      {A : Type 0} (call : S → Outcome LiveError A × S)
      → ((s : S) → t.trail (call s).1 ≡ t.trail s)
      → Keeps (ask call)
  Keeps-ask call quiet = record { by = λ w. law.asks w (call w.terminal).1 (quiet w.terminal) }

  go_on-by :
      {A B : Type 0} (w : World F S) (o : Outcome LiveError A × World F S) (next : A → Act F S B)
      → R w o.1
      → ((a : A) → Keeps (next a))
      → R w (go_on o next).1
  go_on-by w (raised e, v) next h k = h
  go_on-by w (returned a, v) next h k = law.trans w v (next a v).1 h ((k a).by v)

  pub Keeps-bind :
      {A B : Type 0} (m : Act F S A) (next : A → Act F S B)
      → Keeps m
      → ((a : A) → Keeps (next a))
      → Keeps (m >>= next)
  Keeps-bind m next h k = record { by = λ w. go_on-by w (m w) next (h.by w) k }

  attempted-by :
      {A : Type 0} (w : World F S) (o : Outcome LiveError A × World F S)
      → R w o.1
      → R w (attempted o).1
  attempted-by w (returned a, v) h = h
  attempted-by w (raised e, v) h = elim (Bool-cases (is_mt5_error e)) [
    | inl caught ↦ rw caught h
    | inr passed ↦ rw passed h
  ]

  pub Keeps-attempt : {A : Type 0} (m : Act F S A) → Keeps m → Keeps (attempt m)
  Keeps-attempt m h = record { by = λ w. attempted-by w (m w) (h.by w) }

  cancel_each-Keeps : (ts : List ℕ) → Keeps (cancel_each g ts)
  unfolding cancel_each
  cancel_each-Keeps [] = Keeps-pure tt
  cancel_each-Keeps (k ∷ ks) =
      Keeps-bind (ask (g.client.cancel_order k)) _
        (Keeps-ask (g.client.cancel_order k) (t.cancel_trail k)) λ _. cancel_each-Keeps ks

  close_each-Keeps : (ps : List (PositionInfo F)) → Keeps (close_each g ps)
  unfolding close_each
  close_each-Keeps [] = Keeps-pure tt
  close_each-Keeps (p ∷ ps) =
      Keeps-bind (ask (g.client.close_position p)) _
        (Keeps-ask (g.client.close_position p) (t.close_trail p)) λ _. close_each-Keeps ps

  targets_for-Keeps :
      (now : Moment) (halt : Option HaltRecord) (ps : List (PositionInfo F))
      → Keeps (targets_for g now halt ps)
  unfolding targets_for close_outside
  targets_for-Keeps now (some r) ps =
      Keeps-bind (ask g.client.pending_orders) _ (Keeps-ask g.client.pending_orders t.pending_trail)
        λ pending.
          Keeps-bind (cancel_each g pending) _ (cancel_each-Keeps pending)
            λ _. Keeps-bind (close_each g ps) _ (close_each-Keeps ps) λ _. Keeps-pure _
  targets_for-Keeps now none ps = elim (Bool-cases (past_friday_cutoff now g.limits)) [
    | inl late ↦ rw late (Keeps-bind (close_each g ps) _ (close_each-Keeps ps) λ _. Keeps-pure _)
    | inr early ↦ rw early (Keeps-bind (close_each g _) _ (close_each-Keeps _) λ _. Keeps-pure _)
  ]

  pub flatten-Keeps : (now : Moment) (halt : Option HaltRecord) → Keeps (flatten g now halt)
  unfolding flatten
  flatten-Keeps now halt =
      Keeps-bind (attempt (ask g.client.positions >>= targets_for g now halt)) _
        (Keeps-attempt _ (
          Keeps-bind (ask g.client.positions) _ (Keeps-ask g.client.positions t.positions_trail)
            (targets_for-Keeps now halt)))
        λ _. Keeps-pure _

-- ===== src/MiniProp/App/Steps.antt =====
-- The interleavings of the application's handlers, and what most of them leave alone.
use trading_bot.Base.{◌≡◌, refl, sym, ap, ◌∙◌, Bool, true, false, Option, List, [], ◌∷◌}
use trading_bot.Base.Checks.{◌==◌, if◌then◌else◌}
use trading_bot.Base.Int.{ℤ}
use trading_bot.Base.Float.{Float}
use trading_bot.MiniProp.Types.{OrderIntent, Fill}
use trading_bot.MiniProp.Guardrails.{flatten_intents}
use trading_bot.MiniProp.Oms.{OrderState, on_fill, on_order_status, position_quantities}
use trading_bot.MiniProp.KillFile.{halted_by}
use trading_bot.MiniProp.App.{
  Bar, Settings, App, Connection, place, if_approved, blackout_block, route_intent, route_each,
  submit_each, flatten_all, on_bar_update, process_bar, mark_equity, on_connected, on_disconnected,
  shutdown,
}

module _ {F M : Type 0} ⦃f : Float F⦄ (cfg : Settings F M) where
  -- One handler. A bar is processed some time after it was heard. A fill or a status is the venue's, and
  -- the strategy may hear of it.
  pub data Step (a : App F M) : App F M → Type 0 where
    heard : (b : Bar F) → Step a (on_bar_update cfg b a)
    processed : (now : ℤ) (b : Bar F) → Step a (process_bar cfg now b a)
    read_equity : (equity : Option F) → Step a (mark_equity cfg equity a)
    connected : (c : Connection F) → Step a (on_connected cfg c a)
    disconnected : Step a (on_disconnected cfg a)
    stopped : (is_connected : Bool) → Step a (shutdown cfg is_connected a)
    filled : (x : Fill F) (m : M) → Step a (record a { oms = on_fill x a.oms; memory = m })
    reported : (id : ℤ) (st : OrderState) → Step a (record a { oms = on_order_status id st a.oms })

  pub data Run (a : App F M) : App F M → Type 0 where
    still : Run a a
    then_step : {b c : App F M} → Run a b → Step b c → Run a c

  -- The switch is on exactly when the halt was carried out, and then its marker is on disk.
  pub record Sound (a : App F M) : Type 0 where
    pub carried_out : a.guard.kill_switch ≡ a.flattening
    pub on_disk :
        cfg.disk_works ≡ true → a.flattening ≡ true → a.marker ≡ halted_by a.guard.kill_reason

  -- Nothing that the switch is about has changed.
  pub record Aside (a b : App F M) : Type 0 where
    pub guard : b.guard ≡ a.guard
    pub flattening : b.flattening ≡ a.flattening
    pub marker : b.marker ≡ a.marker

  pub Aside-refl : (a : App F M) → Aside a a
  Aside-refl a = record { guard = refl; flattening = refl; marker = refl }

  Aside-trans : (a b c : App F M) → Aside a b → Aside b c → Aside a c
  Aside-trans a b c h k = record {
    guard = k.guard ∙ h.guard;
    flattening = k.flattening ∙ h.flattening;
    marker = k.marker ∙ h.marker;
  }

  Aside-if :
      (a b c : App F M) (test : Bool) → Aside a b → Aside a c → Aside a (if test then b else c)
  Aside-if a b c true h k = h
  Aside-if a b c false h k = k

  place-Aside : (i : OrderIntent F) (a : App F M) → Aside a (place cfg i a)
  place-Aside i a =
      Aside-if a _ _ (i.symbol == cfg.symbol)
        (record { guard = refl; flattening = refl; marker = refl })
        (record { guard = refl; flattening = refl; marker = refl })

  if_approved-Aside : (i : OrderIntent F) (a : App F M) → Aside a (if_approved cfg i a)
  if_approved-Aside i a = Aside-if a _ _ _ (place-Aside i a) (Aside-refl a)

  pub route_each-Aside :
      (now : ℤ) (is : List (OrderIntent F)) (a : App F M) → Aside a (route_each cfg now is a)
  unfolding route_each route_intent
  route_each-Aside now [] a = Aside-refl a
  route_each-Aside now (i ∷ is) a =
      Aside-trans a (route_intent cfg now i a) _
        (Aside-if a _ _ (blackout_block cfg now i a) (Aside-refl a) (if_approved-Aside i a))
        (route_each-Aside now is (route_intent cfg now i a))

  submit_each-Aside : (is : List (OrderIntent F)) (a : App F M) → Aside a (submit_each cfg is a)
  unfolding submit_each
  submit_each-Aside [] a = Aside-refl a
  submit_each-Aside (i ∷ is) a =
      Aside-trans a (if_approved cfg i a) _ (if_approved-Aside i a)
        (submit_each-Aside is (if_approved cfg i a))

  pub flatten_all-Aside : (a : App F M) → Aside a (flatten_all cfg a)
  unfolding flatten_all
  flatten_all-Aside a =
      let h = submit_each-Aside (flatten_intents a.next_id (position_quantities a.oms)) _ in
      record { guard = h.guard; flattening = h.flattening; marker = h.marker }

  pub Sound-Aside : (a b : App F M) → Aside a b → Sound a → Sound b
  Sound-Aside a b h s = record {
    carried_out = ap (λ g. g.kill_switch) h.guard ∙ s.carried_out ∙ sym h.flattening;
    on_disk = λ works on.
        h.marker
        ∙ s.on_disk works (sym h.flattening ∙ on)
        ∙ ap (λ g. halted_by g.kill_reason) (sym h.guard);
  }

  pub Sound-if :
      (test : Bool) (b c : App F M)
      → (test ≡ true → Sound b)
      → (test ≡ false → Sound c)
      → Sound (if test then b else c)
  Sound-if true b c h k = h refl
  Sound-if false b c h k = k refl

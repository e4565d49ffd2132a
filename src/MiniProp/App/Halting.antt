-- ===== src/MiniProp/App/Halting.antt =====
-- The kill switch of the running application, over every interleaving of its handlers.
use trading_bot.Base.{
  ◌≡◌, refl, sym, ap, ◌∙◌, Bool, true, false, ◌&&◌, ◌||◌, Option, none, some, List,
}
use trading_bot.Base.Checks.{if◌then◌else◌}
use trading_bot.Base.Int.{ℤ}
use trading_bot.Base.Float.{Float}
use trading_bot.MiniProp.Types.{OrderIntent}
use trading_bot.MiniProp.Guardrails.{RiskGuardrails, KillReason, called, trip, update_equity}
use trading_bot.MiniProp.Guardrails.Breaker.{
  trip-kill_switch, update_equity-kept, update_equity-tripped, mark_start_of_day-kept,
}
use trading_bot.MiniProp.Oms.{Oms, seed_position, on_fill, on_order_status}
use trading_bot.MiniProp.KillFile.{halted_by}
use trading_bot.MiniProp.App.{
  is_new, Bar, Settings, App, Connection, route_each, flatten_all, cancel_working, persisted,
  kill_switch_fired, halt, on_bar_update, after_strategy, process_bar, marked, mark_equity,
  reconcile, imported, enabled, with_baseline, first_mark, baseline, cancel_first, flatten_last,
  on_connected, on_disconnected, shutdown,
}
use trading_bot.MiniProp.App.Steps.{
  Step, Sound, route_each-Aside, flatten_all-Aside, Sound-Aside, Sound-if, heard, processed,
  read_equity, connected, disconnected, stopped, filled, reported,
}

module _ {F M : Type 0} ⦃f : Float F⦄ (cfg : Settings F M) where
  -- The switch is on; if it was carried out before, all is as it was.
  kill_switch_fired-Sound :
      (a : App F M)
      → a.guard.kill_switch ≡ true
      → (a.flattening ≡ true → Sound cfg a)
      → Sound cfg (kill_switch_fired cfg a)
  unfolding kill_switch_fired
  kill_switch_fired-Sound a on before =
      let a' = cancel_working cfg (persisted cfg a) in
      let s : Sound cfg a' = record { carried_out = on; on_disk = λ works flat. rw works refl } in
      Sound-if cfg a.flattening a _ before λ first.
        Sound-if cfg cfg.kill_switch_flattens _ a'
          (λ flattens. Sound-Aside cfg a' (flatten_all cfg a') (flatten_all-Aside cfg a') s)
          (λ leaves. s)

  -- A second halt keeps the first reason.
  trip-again :
      (reason : KillReason) (g : RiskGuardrails F)
      → g.kill_switch ≡ true
      → (trip reason g).kill_reason ≡ g.kill_reason
  unfolding trip
  trip-again reason g on = rw on refl

  halt-Sound : (reason : KillReason) (a : App F M) → Sound cfg a → Sound cfg (halt cfg reason a)
  unfolding halt
  halt-Sound reason a s =
      let on = trip-kill_switch cfg.risk reason a.guard in
      kill_switch_fired-Sound (record a { guard = trip reason a.guard }) on
        λ flat. record {
          carried_out = on ∙ sym flat;
          on_disk = λ works h.
              s.on_disk works flat
              ∙ ap halted_by (sym (trip-again reason a.guard (s.carried_out ∙ flat)));
        }

  after_strategy-Sound :
      (now : ℤ) (intents : Option (List (OrderIntent F))) (a : App F M)
      → Sound cfg a
      → Sound cfg (after_strategy cfg now intents a)
  unfolding after_strategy
  after_strategy-Sound now none a s = halt-Sound (called 0) a s
  after_strategy-Sound now (some is) a s =
      Sound-Aside cfg a (route_each cfg now is a) (route_each-Aside cfg now is a) s

  -- The guardrails after a mark that leaves the switch alone.
  Sound-guard :
      (a : App F M) (g : RiskGuardrails F)
      → (g.kill_switch ≡ a.guard.kill_switch) × (g.kill_reason ≡ a.guard.kill_reason)
      → Sound cfg a
      → Sound cfg (record a { guard = g })
  Sound-guard a g (switch, reason) s = record {
    carried_out = switch ∙ s.carried_out;
    on_disk = λ works on. s.on_disk works on ∙ ap halted_by (sym reason);
  }

  marked-Sound :
      (a : App F M) (equity : F)
      → Sound cfg a
      → Sound cfg (marked cfg a (update_equity cfg.risk equity a.guard))
  unfolding marked
  marked-Sound a equity s =
      Sound-if cfg (update_equity cfg.risk equity a.guard).1 _ _
        (λ tripped.
          let (on, was_off) = update_equity-tripped cfg.risk a.guard equity tripped in
          kill_switch_fired-Sound _ on
            (λ flat. absurd (both a.flattening flat (sym s.carried_out ∙ was_off))))
        (λ quiet. Sound-guard a _ (update_equity-kept cfg.risk a.guard equity quiet) s)
    where
      both : (b : Bool) → b ≡ true → b ≡ false → ⊥
      both b h k = cc

  Sound-either :
      (test : Bool) (x y : App F M × Bool)
      → Sound cfg x.0
      → Sound cfg y.0
      → Sound cfg (if test then x else y).0
  Sound-either true x y h k = h
  Sound-either false x y h k = k

  imported-Sound : (a : App F M) (o : Option (Oms F)) → Sound cfg a → Sound cfg (imported cfg a o).0
  imported-Sound a none s = s
  imported-Sound a (some oms) s =
      Sound-Aside cfg a _ (record { guard = refl; flattening = refl; marker = refl }) s

  enabled-Sound :
      (subscribed : Bool) (x : App F M × Bool)
      → Sound cfg x.0
      → Sound cfg (enabled cfg subscribed x)
  enabled-Sound subscribed (a, goes_on) s =
      Sound-if cfg (goes_on && subscribed) _ a
        (λ e. Sound-Aside cfg a _ (record { guard = refl; flattening = refl; marker = refl }) s)
        (λ e. s)

  first_mark-kept :
      (start equity : Option F) (g h : RiskGuardrails F)
      → first_mark cfg start equity g ≡ some h
      → (h.kill_switch ≡ g.kill_switch) × (h.kill_reason ≡ g.kill_reason)
  first_mark-kept (some start) equity g h e =
      let same : g ≡ h = cc in
      (ap (λ x. x.kill_switch) (sym same), ap (λ x. x.kill_reason) (sym same))
  first_mark-kept none none g h e = cc
  first_mark-kept none (some equity) g h e = mark_start_of_day-kept cfg.risk g h equity e

  reconcile-Sound :
      (position : Option (ℤ × F)) (a : App F M)
      → Sound cfg a
      → Sound cfg (reconcile cfg position a).0
  unfolding reconcile
  reconcile-Sound none a s = s
  reconcile-Sound (some (quantity, avg)) a s = Sound-either _ _ _ s (
      Sound-either _ _ _ (imported-Sound a (seed_position cfg.symbol quantity avg a.oms) s)
        (halt-Sound (called 1) a s))

  with_baseline-Sound :
      (c : Connection F) (a : App F M) (g : Option (RiskGuardrails F))
      → baseline cfg c a.guard ≡ g
      → Sound cfg a
      → Sound cfg (with_baseline cfg c g a)
  with_baseline-Sound c a none e s = s
  with_baseline-Sound c a (some g) e s =
      let a' = record a { guard = g } in
      enabled-Sound c.subscribed (reconcile cfg c.position a') (
        reconcile-Sound c.position a'
          (Sound-guard a g (first_mark-kept a.guard.start_of_day_equity c.equity a.guard g e) s))

  on_connected-Sound :
      (c : Connection F) (a : App F M) → Sound cfg a → Sound cfg (on_connected cfg c a)
  unfolding on_connected
  on_connected-Sound c a s =
      Sound-if cfg (a.trading_enabled || a.guard.kill_switch) a _ (λ e. s)
        λ e.
          Sound-if cfg c.qualified _ a
            (λ q. with_baseline-Sound c a (baseline cfg c a.guard) refl s) (λ q. s)

  -- The parts of the state that the switch is not about.
  abbrev Untouched : (a : App F M) (oms : Oms F) (m : M) (enabled : Bool) → App F M
  Untouched a oms m enabled = record a { oms = oms; memory = m; trading_enabled = enabled }

  Sound-Untouched :
      (a : App F M) (oms : Oms F) (m : M) (enabled : Bool)
      → Sound cfg a
      → Sound cfg (Untouched a oms m enabled)
  Sound-Untouched a oms m enabled s =
      Sound-Aside cfg a _ (record { guard = refl; flattening = refl; marker = refl }) s

  cancel_first-Sound : (a : App F M) → Sound cfg a → Sound cfg (cancel_first cfg a)
  cancel_first-Sound a s =
      Sound-if cfg cfg.cancel_on_shutdown _ a
        (λ e. Sound-Untouched a _ a.memory a.trading_enabled s) (λ e. s)

  flatten_last-Sound : (a : App F M) → Sound cfg a → Sound cfg (flatten_last cfg a)
  flatten_last-Sound a s =
      Sound-if cfg cfg.flatten_on_shutdown _ a
        (λ e. Sound-Aside cfg a (flatten_all cfg a) (flatten_all-Aside cfg a) s) (λ e. s)

  on_disconnected-Sound : (a : App F M) → Sound cfg a → Sound cfg (on_disconnected cfg a)
  unfolding on_disconnected
  on_disconnected-Sound a s = Sound-Untouched a a.oms a.memory false s

  shutdown-Sound :
      (is_connected : Bool) (a : App F M) → Sound cfg a → Sound cfg (shutdown cfg is_connected a)
  unfolding shutdown
  shutdown-Sound is_connected a s =
      let h = on_disconnected-Sound a s in
      Sound-if cfg is_connected _ _
        (λ e.
          flatten_last-Sound (cancel_first cfg (on_disconnected cfg a))
            (cancel_first-Sound (on_disconnected cfg a) h))
        (λ e. h)

  on_bar_update-Sound : (b : Bar F) (a : App F M) → Sound cfg a → Sound cfg (on_bar_update cfg b a)
  unfolding on_bar_update
  on_bar_update-Sound b a s =
      Sound-if cfg (is_new a.last_bar_time b.timestamp) _ a
        (λ e. Sound-Aside cfg a _ (record { guard = refl; flattening = refl; marker = refl }) s)
        (λ e. s)

  process_bar-Sound :
      (now : ℤ) (b : Bar F) (a : App F M) → Sound cfg a → Sound cfg (process_bar cfg now b a)
  unfolding process_bar
  process_bar-Sound now b a s =
      let (intents, m) = cfg.on_bar b a.memory in
      Sound-if cfg a.trading_enabled _ a
        (λ e.
          after_strategy-Sound now intents (record a { memory = m })
            (Sound-Untouched a a.oms m a.trading_enabled s))
        (λ e. s)

  pub Step-Sound : {a b : App F M} → Step cfg a b → Sound cfg a → Sound cfg b
  unfolding mark_equity
  Step-Sound {a} (heard b) s = on_bar_update-Sound b a s
  Step-Sound {a} (processed now b) s = process_bar-Sound now b a s
  Step-Sound {a} (read_equity none) s = s
  Step-Sound {a} (read_equity (some equity)) s = marked-Sound a equity s
  Step-Sound {a} (connected c) s = on_connected-Sound c a s
  Step-Sound {a} disconnected s = on_disconnected-Sound a s
  Step-Sound {a} (stopped is_connected) s = shutdown-Sound is_connected a s
  Step-Sound {a} (filled x m) s = Sound-Untouched a (on_fill x a.oms) m a.trading_enabled s
  Step-Sound {a} (reported id st) s =
      Sound-Untouched a (on_order_status id st a.oms) a.memory a.trading_enabled s

-- ===== src/MiniProp/App/Silence.antt =====
-- What the application sends once its kill switch is on.
use trading_bot.Base.{
  ◌≡◌, refl, sym, ap, subst, ◌∙◌, inl, inr, Bool, true, false, ◌||◌, Option, none, some, List, [],
  ◌∷◌, ◌++◌, arith,
}
use trading_bot.Base.Checks.{◌==◌, if◌then◌else◌, Bool-cases}
use trading_bot.Base.Lists.{append-[], append_assoc, All, All-append, All-imp}
use trading_bot.Base.Int.{ℤ}
use trading_bot.Base.Float.{Float}
use trading_bot.MiniProp.Types.{OrderIntent}
use trading_bot.MiniProp.Guardrails.{
  KillReason, called, is_flatten, trip, flatten_intents, update_equity,
}
use trading_bot.MiniProp.Guardrails.Breaker.{
  trip-kill_switch, update_equity-kept, update_equity-tripped, validate-killed,
}
use trading_bot.MiniProp.Guardrails.Flatten.{flatten_intents_lem, IsClosing}
use trading_bot.MiniProp.Oms.{position_quantities}
use trading_bot.MiniProp.KillFile.{may_start}
use trading_bot.MiniProp.App.{
  Bar, Settings, App, is_new, snapshot, if_approved, blackout_block, route_intent, route_each,
  submit_each, flatten_all, cancel_first, flatten_last, kill_switch_fired, halt, on_bar_update,
  after_strategy, process_bar, marked, mark_equity, on_connected, on_disconnected, shutdown,
}
use trading_bot.MiniProp.App.Steps.{
  Step, heard, processed, read_equity, connected, disconnected, stopped, filled, reported, Run,
  still, then_step, Sound,
}
use trading_bot.MiniProp.App.Halting.{Step-Sound}

module _ {F M : Type 0} ⦃f : Float F⦄ (cfg : Settings F M) where
  abbrev AllFlatten : List (OrderIntent F) → Type 0
  AllFlatten is = All (λ i. is_flatten i.source ≡ true) is

  -- A strategy does not pretend to be the risk layer.
  abbrev pub IsPlain : Type 0
  IsPlain =
      (b : Bar F) (m : M) (is : List (OrderIntent F))
      → (cfg.on_bar b m).0 ≡ some is
      → All (λ i. is_flatten i.source ≡ false) is

  -- The switch stays on, and only flattening orders were placed.
  pub record Quiet (a b : App F M) : Type 0 where
    pub on : b.guard.kill_switch ≡ true
    pub more : List (OrderIntent F)
    pub placed : b.placed ≡ a.placed ++ more
    pub flattening : AllFlatten more

  both : (b : Bool) → b ≡ true → b ≡ false → ⊥
  both b h k = cc

  Quiet-same : (a b : App F M) → b.guard.kill_switch ≡ true → b.placed ≡ a.placed → Quiet a b
  Quiet-same a b on same = record {
    on = on;
    more = [];
    placed = same ∙ sym (append-[] a.placed);
    flattening = tt;
  }

  Quiet-trans : (a b c : App F M) → Quiet a b → Quiet b c → Quiet a c
  Quiet-trans a b c h k = record {
    on = k.on;
    more = h.more ++ k.more;
    placed = k.placed ∙ ap (λ xs. xs ++ k.more) h.placed ∙ append_assoc a.placed h.more k.more;
    flattening =
        All-append (λ i. is_flatten i.source ≡ true) h.more k.more h.flattening k.flattening;
  }

  Quiet-if :
      (a b c : App F M) (test : Bool) → Quiet a b → Quiet a c → Quiet a (if test then b else c)
  Quiet-if a b c true h k = h
  Quiet-if a b c false h k = k

  if_true : (test : Bool) (b c : App F M) → test ≡ true → (if test then b else c) ≡ b
  if_true true b c h = refl
  if_true false b c h = cc

  if_approved-Quiet :
      (i : OrderIntent F) (a : App F M)
      → a.guard.kill_switch ≡ true
      → is_flatten i.source ≡ true
      → Quiet a (if_approved cfg i a)
  if_approved-Quiet i a on flat =
      Quiet-if a _ a _
        (Quiet-if a _ _ (i.symbol == cfg.symbol)
          (record { on = on; more = i ∷ []; placed = refl; flattening = (flat, tt) })
          (Quiet-same a _ on refl))
        (Quiet-same a a on refl)

  submit_each-Quiet :
      (is : List (OrderIntent F)) (a : App F M)
      → a.guard.kill_switch ≡ true
      → AllFlatten is
      → Quiet a (submit_each cfg is a)
  unfolding submit_each
  submit_each-Quiet [] a on flat = Quiet-same a a on refl
  submit_each-Quiet (i ∷ is) a on (flat, flats) =
      let h = if_approved-Quiet i a on flat in
      Quiet-trans a (if_approved cfg i a) _ h
        (submit_each-Quiet is (if_approved cfg i a) h.on flats)

  flatten_all-Quiet : (a : App F M) → a.guard.kill_switch ≡ true → Quiet a (flatten_all cfg a)
  unfolding flatten_all
  flatten_all-Quiet a on =
      let held = position_quantities a.oms in
      let h = submit_each-Quiet (flatten_intents a.next_id held) _ on (
        All-imp IsClosing (λ i. is_flatten i.source ≡ true) (λ i c. c.from_risk)
          (flatten_intents a.next_id held) (flatten_intents_lem F a.next_id held).0) in
      record { on = h.on; more = h.more; placed = h.placed; flattening = h.flattening }

  route_intent-killed :
      (now : ℤ) (i : OrderIntent F) (a : App F M)
      → a.guard.kill_switch ≡ true
      → is_flatten i.source ≡ false
      → route_intent cfg now i a ≡ a
  unfolding route_intent
  route_intent-killed now i a on plain =
      rw (validate-killed cfg.risk i (snapshot cfg a) a.guard on plain)
        (same_either (blackout_block cfg now i a) a)
    where
      same_either : (test : Bool) (b : App F M) → (if test then b else b) ≡ b
      same_either true b = refl
      same_either false b = refl

  route_each-killed :
      (now : ℤ) (is : List (OrderIntent F)) (a : App F M)
      → a.guard.kill_switch ≡ true
      → All (λ i. is_flatten i.source ≡ false) is
      → route_each cfg now is a ≡ a
  unfolding route_each
  route_each-killed now [] a on plain = refl
  route_each-killed now (i ∷ is) a on (plain, plains) =
      ap (route_each cfg now is) (route_intent-killed now i a on plain)
      ∙ route_each-killed now is a on plains

  fired-again : (a : App F M) → a.flattening ≡ true → kill_switch_fired cfg a ≡ a
  unfolding kill_switch_fired
  fired-again a flat = if_true a.flattening a _ flat

  halt-Quiet :
      (reason : KillReason) (a : App F M) → a.flattening ≡ true → Quiet a (halt cfg reason a)
  unfolding halt
  halt-Quiet reason a flat =
      let a' = record a { guard = trip reason a.guard } in
      subst (Quiet a) (sym (fired-again a' flat))
        (Quiet-same a a' (trip-kill_switch cfg.risk reason a.guard) refl)

  after_strategy-Quiet :
      (now : ℤ) (intents : Option (List (OrderIntent F))) (a : App F M)
      → a.guard.kill_switch ≡ true
      → a.flattening ≡ true
      → ((is : List (OrderIntent F))
          → intents ≡ some is
          → All (λ i. is_flatten i.source ≡ false) is)
      → Quiet a (after_strategy cfg now intents a)
  unfolding after_strategy
  after_strategy-Quiet now none a on flat plain = halt-Quiet (called 0) a flat
  after_strategy-Quiet now (some is) a on flat plain =
      subst (Quiet a) (sym (route_each-killed now is a on (plain is refl))) (Quiet-same a a on refl)

  marked-Quiet :
      (a : App F M) (equity : F)
      → a.guard.kill_switch ≡ true
      → Quiet a (marked cfg a (update_equity cfg.risk equity a.guard))
  unfolding marked
  marked-Quiet a equity on = elim (Bool-cases (update_equity cfg.risk equity a.guard).1) [
    | inl tripped ↦
        let off = (update_equity-tripped cfg.risk a.guard equity tripped).1 in
        absurd (both _ on off)
    | inr quiet ↦
        rw quiet (Quiet-same a _ ((update_equity-kept cfg.risk a.guard equity quiet).0 ∙ on) refl)
  ]

  cancel_first-Quiet : (a : App F M) → a.guard.kill_switch ≡ true → Quiet a (cancel_first cfg a)
  cancel_first-Quiet a on =
      Quiet-if a _ a cfg.cancel_on_shutdown (Quiet-same a _ on refl) (Quiet-same a a on refl)

  flatten_last-Quiet : (a : App F M) → a.guard.kill_switch ≡ true → Quiet a (flatten_last cfg a)
  flatten_last-Quiet a on =
      Quiet-if a _ a cfg.flatten_on_shutdown (flatten_all-Quiet a on) (Quiet-same a a on refl)

  on_disconnected-Quiet :
      (a : App F M) → a.guard.kill_switch ≡ true → Quiet a (on_disconnected cfg a)
  unfolding on_disconnected
  on_disconnected-Quiet a on = Quiet-same a _ on refl

  shutdown-Quiet :
      (is_connected : Bool) (a : App F M)
      → a.guard.kill_switch ≡ true
      → Quiet a (shutdown cfg is_connected a)
  unfolding shutdown
  shutdown-Quiet is_connected a on =
      let halted = on_disconnected cfg a in
      let h = on_disconnected-Quiet a on in
      let k = cancel_first-Quiet halted h.on in
      Quiet-if a _ halted is_connected
        (Quiet-trans a halted _ h (
          Quiet-trans halted (cancel_first cfg halted) _ k
            (flatten_last-Quiet (cancel_first cfg halted) k.on)))
        h

  Step-Quiet :
      {a b : App F M}
      → IsPlain
      → Step cfg a b
      → Sound cfg a
      → a.guard.kill_switch ≡ true
      → Quiet a b
  unfolding mark_equity on_bar_update process_bar on_connected on_disconnected
  Step-Quiet {a} plain (heard b) s on =
      Quiet-if a _ a (is_new a.last_bar_time b.timestamp) (Quiet-same a _ on refl)
        (Quiet-same a a on refl)
  Step-Quiet {a} plain (processed now b) s on =
      let heard_it = record a { memory = (cfg.on_bar b a.memory).1 } in
      Quiet-if a _ a a.trading_enabled
        (Quiet-trans a heard_it _ (Quiet-same a heard_it on refl) (
          after_strategy-Quiet now (cfg.on_bar b a.memory).0 heard_it on (sym s.carried_out ∙ on)
            (plain b a.memory)))
        (Quiet-same a a on refl)
  Step-Quiet {a} plain (read_equity none) s on = Quiet-same a a on refl
  Step-Quiet {a} plain (read_equity (some equity)) s on = marked-Quiet a equity on
  Step-Quiet {a} plain (connected c) s on =
      subst (Quiet a)
        (sym (if_true (a.trading_enabled || a.guard.kill_switch) a _ (ground (arith, on))))
        (Quiet-same a a on refl)
  Step-Quiet {a} plain disconnected s on = Quiet-same a _ on refl
  Step-Quiet {a} plain (stopped is_connected) s on = shutdown-Quiet is_connected a on
  Step-Quiet {a} plain (filled x m) s on = Quiet-same a _ on refl
  Step-Quiet {a} plain (reported id st) s on = Quiet-same a _ on refl

  Run-Sound : {a b : App F M} → Run cfg a b → Sound cfg a → Sound cfg b
  Run-Sound still s = s
  Run-Sound (then_step run step) s = Step-Sound cfg step (Run-Sound run s)

  Run-Quiet :
      {a b : App F M} → IsPlain → Run cfg a b → Sound cfg a → a.guard.kill_switch ≡ true → Quiet a b
  Run-Quiet {a} plain still s on = Quiet-same a a on refl
  Run-Quiet {a} {b} plain (then_step {b = u} run step) s on =
      let h = Run-Quiet plain run s on in
      Quiet-trans a u b h (Step-Quiet plain step (Run-Sound run s) h.on)

  refused :
      (b : App F M)
      → cfg.disk_works ≡ true
      → Sound cfg b
      → b.guard.kill_switch ≡ true
      → may_start b.marker ≡ false
  refused b works s on = rw (s.on_disk works (sym s.carried_out ∙ on)) refl

  -- From a fresh start, whatever bars, fills, statuses, equity marks, connections and shutdowns come in
  -- any order: once the kill switch is on, it stays on, the application places nothing but flattening
  -- orders of the risk layer, and the next start is refused, if the disk takes the marker. The strategy may
  -- do anything but sign its intents as the risk layer.
  pub Run-Halted :
      {start a b : App F M}
      → IsPlain
      → start.guard.kill_switch ≡ false
      → start.flattening ≡ false
      → Run cfg start a
      → a.guard.kill_switch ≡ true
      → Run cfg a b
      → Quiet a b × (cfg.disk_works ≡ true → may_start b.marker ≡ false)
  Run-Halted {start} {a} {b} plain off unflattened before on after =
      let s : Sound cfg start = record {
        carried_out = off ∙ sym unflattened;
        on_disk = λ works flat. absurd (both start.flattening flat unflattened);
      } in
      let h = Run-Quiet plain after (Run-Sound before s) on in
      (h, λ works. refused b works (Run-Sound after (Run-Sound before s)) h.on)

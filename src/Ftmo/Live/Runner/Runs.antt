-- ===== src/Ftmo/Live/Runner/Runs.antt =====
-- The runner beside the guard: what its steps are made of.
use trading_bot.Base.{ℕ, Bool, true, false, Option, none, some, List, [], ◌∷◌}
use trading_bot.Base.Checks.{if◌then◌else◌}
use trading_bot.Base.Dict.{lookup}
use trading_bot.Base.Float.{Float}
use trading_bot.Base.Outcome.{Outcome, raised, returned}
use trading_bot.Ftmo.Rules.{Moment}
use trading_bot.Ftmo.Live.Store.{LiveError}
use trading_bot.Ftmo.Live.{Bar, IsTraced, World, Act}
use trading_bot.Ftmo.Live.Router.{Signal, item}
use trading_bot.Ftmo.Live.Manage.{Trading}
use trading_bot.Ftmo.Live.Manage.Runs.{Run-trans, Runs, Runs-ask, Runs-lift, manage-Runs}
use trading_bot.Ftmo.Live.Runner.{
  Memory, Work, resume, after_act, resume_work, ◌then_work◌, done_work, act_on, hear, each_bar,
  remember, process_new, process_bars, process_each, place_now, step,
}
use trading_bot.Ftmo.Live.Together.{Desk, router_of, Run, still, then_step, signalled}

module _ {F S T : Type 0} ⦃f : Float F⦄ (d : Desk F S) (t : IsTraced d.client)
    (k : Trading F S T) where
  -- The same of work that changes the memory.
  record WorkRuns (x : Work F S T) : Type 0 where
    by : (w : World F S) (m : Memory T) → Run d t w (x w m).1.0

  WorkRuns-done : WorkRuns (done_work (router_of d) k)
  WorkRuns-done = record { by = λ w m. still }

  WorkRuns-if :
      (test : Bool) (x y : Work F S T) → WorkRuns x → WorkRuns y → WorkRuns (if test then x else y)
  WorkRuns-if true x y p q = p
  WorkRuns-if false x y p q = q

  resume-Run :
      {A : Type 0} (w : World F S) (m : Memory T) (o : Outcome LiveError A × World F S)
      (next : A → Work F S T)
      → Run d t w o.1
      → ((a : A) → WorkRuns (next a))
      → Run d t w (resume (router_of d) k o next m).1.0
  resume-Run w m (returned a, v) next first p = Run-trans d t first ((p a).by v m)
  resume-Run w m (raised e, v) next first p = first

  WorkRuns-act :
      {A : Type 0} (act : Act F S A) (next : A → Work F S T)
      → Runs d t act
      → ((a : A) → WorkRuns (next a))
      → WorkRuns (after_act (router_of d) k act next)
  WorkRuns-act act next p q = record { by = λ w m. resume-Run w m (act w) next (p.by w) q }

  resume_work-Run :
      (w : World F S) (o : Outcome LiveError (Unit {0}) × (World F S × Memory T))
      (next : Work F S T)
      → Run d t w o.1.0
      → WorkRuns next
      → Run d t w (resume_work (router_of d) k o next).1.0
  resume_work-Run w (returned a, (v, m)) next first q = Run-trans d t first (q.by v m)
  resume_work-Run w (raised e, (v, m)) next first q = first

  WorkRuns-then :
      (x y : Work F S T) → WorkRuns x → WorkRuns y → WorkRuns (◌then_work◌ (router_of d) k x y)
  WorkRuns-then x y p q = record { by = λ w m. resume_work-Run w (x w m) y (p.by w m) q }

  place_now-Runs : (sig : Signal F) (losses : ℕ) → Runs d t (place_now (router_of d) k sig losses)
  place_now-Runs sig losses = record {
    by = λ w. then_step still (signalled sig losses (k.clock w.terminal));
  }

  act_on-WorkRuns :
      (heard : Option (Signal F)) (bar : Bar F) (symbol : ℕ) (now : Moment) (losses : ℕ)
      → WorkRuns (act_on (router_of d) k heard bar symbol now losses)
  unfolding act_on
  act_on-WorkRuns none bar symbol now losses = WorkRuns-done
  act_on-WorkRuns (some sig) bar symbol now losses = WorkRuns-if _ _ _ WorkRuns-done (
      WorkRuns-act _ _
        (Runs-ask d t (d.client.symbol_tradeable symbol now.instant)
          (t.tradeable_trail symbol now.instant))
        (λ tradeable.
          WorkRuns-if tradeable _ _
            (WorkRuns-act _ _ (place_now-Runs sig losses) (λ res. WorkRuns-done)) WorkRuns-done))

  hear-WorkRuns :
      (h4 : List (Bar F)) (bar : Bar F) (symbol : ℕ) (now : Moment) (losses : ℕ)
      → WorkRuns (hear (router_of d) k h4 bar symbol now losses)
  unfolding hear
  hear-WorkRuns h4 bar symbol now losses = record {
    by = λ w m. (act_on-WorkRuns (k.on_bar bar h4 m.strategy).0 bar symbol now losses).by w _;
  }

  each_bar-WorkRuns :
      (h4 : List (Bar F)) (name symbol : ℕ) (now : Moment) (losses : ℕ) (last : Option ℕ)
      (bs : List (Bar F))
      → WorkRuns (each_bar (router_of d) k h4 name symbol now losses last bs)
  unfolding each_bar
  each_bar-WorkRuns h4 name symbol now losses last [] = WorkRuns-done
  each_bar-WorkRuns h4 name symbol now losses last (b ∷ bs) =
      let rest = each_bar-WorkRuns h4 name symbol now losses last bs in
      WorkRuns-if _ _ _ rest (WorkRuns-then _ _ (hear-WorkRuns h4 _ symbol now losses) rest)

  remember-WorkRuns : (name opened : ℕ) → WorkRuns (remember (router_of d) k name opened)
  remember-WorkRuns name opened = record { by = λ w m. still }

  process_new-WorkRuns :
      (name symbol : ℕ) (now : Moment) (losses : ℕ) (bs : List (Bar F))
      → WorkRuns (process_new (router_of d) k name symbol now losses bs)
  unfolding process_new
  process_new-WorkRuns name symbol now losses [] = WorkRuns-done
  process_new-WorkRuns name symbol now losses (b ∷ bs) =
      WorkRuns-act _ _
        (Runs-ask d t (d.client.completed_bars symbol k.trend_minutes k.h4_lookback)
          (t.bars_trail symbol k.trend_minutes k.h4_lookback))
        (λ h4. record {
          by = λ w m.
              (WorkRuns-then _ _
                  (each_bar-WorkRuns _ name symbol now losses (lookup name m.last_bar) (b ∷ bs))
                  (remember-WorkRuns name _)).by
                w m;
        })

  process_bars-WorkRuns :
      (name : ℕ) (now : Moment) (losses : ℕ)
      → WorkRuns (process_bars (router_of d) k name now losses)
  unfolding process_bars
  process_bars-WorkRuns name now losses =
      WorkRuns-act _ _ (Runs-lift d t (item name d.mt5_symbols)) λ symbol.
        WorkRuns-act _ _
          (Runs-ask d t (d.client.completed_bars symbol k.bar_minutes 120)
            (t.bars_trail symbol k.bar_minutes 120))
          (λ bs. process_new-WorkRuns name symbol now losses bs)

  process_each-WorkRuns :
      (names : List ℕ) (now : Moment) (losses : ℕ)
      → WorkRuns (process_each (router_of d) k names now losses)
  unfolding process_each
  process_each-WorkRuns [] now losses = WorkRuns-done
  process_each-WorkRuns (name ∷ names) now losses =
      WorkRuns-then _ _ (process_bars-WorkRuns name now losses)
        (process_each-WorkRuns names now losses)

  -- A step of the runner, with any strategy and whatever the terminal answers or raises, is a run of the
  -- steps that the theorems on both processes are about: all its orders are sent by the router for one
  -- signal at a time, of the files it writes only its own beside what the router writes, and all else that
  -- it does on the terminal sends no order.
  pub step-Run : (w : World F S) (m : Memory T) → Run d t w (step (router_of d) k w m).1.0
  unfolding step
  step-Run w m =
      (WorkRuns-act _ _ (manage-Runs d t k (k.clock w.terminal))
          (λ losses. process_each-WorkRuns k.instruments (k.clock w.terminal) losses)).by
        w m

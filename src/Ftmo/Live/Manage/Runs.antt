-- ===== src/Ftmo/Live/Manage/Runs.antt =====
-- What the runner's work beside its bars is made of, in the steps of Ftmo/Live/Together.
use trading_bot.Base.{ℕ, ◌≡◌, Bool, true, false, List, [], ◌∷◌}
use trading_bot.Base.Checks.{if◌then◌else◌}
use trading_bot.Base.Lists.{contains}
use trading_bot.Base.Float.{Float}
use trading_bot.Base.Outcome.{Outcome, raised, returned}
use trading_bot.Ftmo.Rules.{Moment}
use trading_bot.Ftmo.Live.Store.{LiveError, RunnerState, holds, load_runner, save_runner, Files}
use trading_bot.Ftmo.Live.{
  PositionInfo, IsTraced, World, Act, pure, lift, read, ask, write, go_on, ◌>>=◌,
}
use trading_bot.Ftmo.Live.Manage.{
  Trading, settle_each, manage_each, manage_one, maybe_breakeven, flatten_due, keep_book, settle,
  tickets, rolled, manage, with_pnl, ours,
}
use trading_bot.Ftmo.Live.Together.{Desk, router_of, Run, still, then_step, booked, drifted}

module _ {F S : Type 0} ⦃f : Float F⦄ (d : Desk F S) (t : IsTraced d.client) where
  pub Run-trans : {u v w : World F S} → Run d t u v → Run d t v w → Run d t u w
  Run-trans first still = first
  Run-trans first (then_step rest step) = then_step (Run-trans first rest) step

  -- Work that is a run, whether it returns or raises.
  pub record Runs {A : Type 0} (m : Act F S A) : Type 0 where
    pub by : (w : World F S) → Run d t w (m w).1

  pub Runs-pure : {A : Type 0} (a : A) → Runs (pure a)
  Runs-pure a = record { by = λ w. still }

  pub Runs-lift : {A : Type 0} (o : Outcome LiveError A) → Runs (lift o)
  Runs-lift o = record { by = λ w. still }

  pub Runs-read : {A : Type 0} (look : Files F → Outcome LiveError A) → Runs (read look)
  Runs-read look = record { by = λ w. still }

  pub Runs-ask :
      {A : Type 0} (call : S → Outcome LiveError A × S)
      → ((s : S) → t.trail (call s).1 ≡ t.trail s)
      → Runs (ask call)
  Runs-ask call quiet = record {
    by = λ w. then_step still (drifted (call w.terminal).1 (quiet w.terminal));
  }

  pub Runs-save : (st : RunnerState F) → Runs (write (save_runner st))
  Runs-save st = record { by = λ w. then_step still (booked (holds st)) }

  pub Runs-if :
      {A : Type 0} (test : Bool) (m n : Act F S A) → Runs m → Runs n → Runs (if test then m else n)
  Runs-if true m n p q = p
  Runs-if false m n p q = q

  go_on-Run :
      {A B : Type 0} (w : World F S) (o : Outcome LiveError A × World F S) (next : A → Act F S B)
      → Run d t w o.1
      → ((a : A) → Runs (next a))
      → Run d t w (go_on o next).1
  go_on-Run w (returned a, v) next first p = Run-trans first ((p a).by v)
  go_on-Run w (raised e, v) next first p = first

  pub Runs-bind :
      {A B : Type 0} (m : Act F S A) (next : A → Act F S B)
      → Runs m
      → ((a : A) → Runs (next a))
      → Runs (m >>= next)
  Runs-bind m next p q = record { by = λ w. go_on-Run w (m w) next (p.by w) q }

  pub Runs-call :
      {A B : Type 0} (call : S → Outcome LiveError A × S) (next : A → Act F S B)
      → ((s : S) → t.trail (call s).1 ≡ t.trail s)
      → ((a : A) → Runs (next a))
      → Runs (ask call >>= next)
  Runs-call call next quiet q = Runs-bind (ask call) next (Runs-ask call quiet) q

  module _ {T : Type 0} (k : Trading F S T) where
    settle_each-Runs :
        (ts open_tickets : List ℕ) (st : RunnerState F)
        → Runs (settle_each (router_of d) k ts open_tickets st)
    unfolding settle_each
    settle_each-Runs [] open_tickets st = Runs-pure st
    settle_each-Runs (ticket ∷ ts) open_tickets st =
        Runs-if (contains ticket open_tickets) _ _ (settle_each-Runs ts open_tickets st) (
          Runs-call (d.client.closed_pnl ticket) _ (t.pnl_trail ticket)
            (λ pnl. settle_each-Runs ts open_tickets (with_pnl (router_of d) k ticket pnl st)))

    maybe_breakeven-Runs :
        (p : PositionInfo F) (orig_sl : F) (done : List ℕ)
        → Runs (maybe_breakeven (router_of d) k p orig_sl done)
    unfolding maybe_breakeven
    maybe_breakeven-Runs p orig_sl done = Runs-if (contains p.ticket done) _ _ (Runs-pure done) (
        Runs-if (f.eq p.sl p.price_open) _ _ (Runs-pure _) (
          Runs-if _ _ _ (Runs-pure done) (
            Runs-if _ _ _
              (Runs-call (d.client.modify_sl p p.price_open) _ (t.modify_trail p p.price_open)
                (λ res. Runs-pure _))
              (Runs-pure done))))

    manage_one-Runs :
        (p : PositionInfo F) (now : Moment) (st : RunnerState F)
        → Runs (manage_one (router_of d) k p now st)
    unfolding manage_one
    manage_one-Runs p now st =
        Runs-if (flatten_due (router_of d) k p now) _ _
          (Runs-call (d.client.close_position p) _ (t.close_trail p) (λ res. Runs-pure st))
          (Runs-bind _ _ (maybe_breakeven-Runs p _ st.breakeven_done) (λ done. Runs-pure _))

    manage_each-Runs :
        (ps : List (PositionInfo F)) (now : Moment) (st : RunnerState F)
        → Runs (manage_each (router_of d) k ps now st)
    unfolding manage_each
    manage_each-Runs [] now st = Runs-pure st
    manage_each-Runs (p ∷ ps) now st =
        Runs-bind _ _ (manage_one-Runs p now st) (λ st'. manage_each-Runs ps now st')

    keep_book-Runs :
        (ps : List (PositionInfo F)) (now : Moment) (st : RunnerState F)
        → Runs (keep_book (router_of d) k ps now st)
    unfolding keep_book
    keep_book-Runs ps now st = Runs-bind _ _ (Runs-save st) λ u.
        Runs-bind _ _ (manage_each-Runs ps now st)
          λ managed. Runs-bind _ _ (Runs-save managed) λ v. Runs-pure managed.consecutive_losses

    settle-Runs :
        (ps : List (PositionInfo F)) (st : RunnerState F) → Runs (settle (router_of d) k ps st)
    unfolding settle
    settle-Runs ps st = settle_each-Runs st.known_tickets (tickets ps) st

    pub manage-Runs : (now : Moment) → Runs (manage (router_of d) k now)
    unfolding manage
    manage-Runs now = Runs-bind _ _ (Runs-read load_runner) λ loaded.
        Runs-call d.client.positions _ t.positions_trail λ ps.
          Runs-bind _ _
            (settle-Runs (ours (router_of d) k ps) (rolled (router_of d) k now.day loaded))
            λ st. keep_book-Runs (ours (router_of d) k ps) now _

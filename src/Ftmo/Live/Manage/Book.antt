-- ===== src/Ftmo/Live/Manage/Book.antt =====
-- What a step makes of the book of positions.
use trading_bot.Base.{
  ℕ, suc, ◌≡◌, refl, ap, ◌∙◌, inl, inr, ◌≢◌, Bool, true, false, not, ◌&&◌, ◌||◌, Option, none, some,
  List, [], ◌∷◌, arith,
}
use trading_bot.Base.Checks.{Option-cases, ◌==◌, if◌then◌else◌, Bool-cases}
use trading_bot.Base.Lists.{All, contains, remove, select}
use trading_bot.Base.Dict.{lookup, lookup-insert_ne, lookup-erase_ne}
use trading_bot.Base.Float.{Float, nought}
use trading_bot.Base.Outcome.{Outcome, returned}
use trading_bot.Ftmo.Live.Store.{LiveError, RunnerState}
use trading_bot.Ftmo.Live.{PositionInfo, World, Act, go_on}
use trading_bot.Ftmo.Live.Router.{Profile}
use trading_bot.Ftmo.Live.Manage.{
  Trading, tickets, settle, settle_each, with_pnl, with_new, note_new,
}
use trading_bot.Ftmo.Live.Manage.Removal.{
  remove_each, remove_each-select, apart, contains-select, contains-snoc, contains-again,
}

abbrev pub is_none : {A : Type 0} → Option A → Bool
is_none none = true
is_none (some a) = false

book_known : (o k n : Bool) → (o || (k && not (not o && not n))) ≡ (o || (k && n))
book_known true k n = refl
book_known false true true = refl
book_known false true false = refl
book_known false false n = refl

module _ {F S T : Type 0} ⦃f : Float F⦄ (r : Profile F S) (k : Trading F S T)
    (pnl : ℕ → Option F) where
  -- A known ticket that is no longer open, and whose profit is visible.
  abbrev pub gone : List ℕ → ℕ → Bool
  gone open_tickets t = not (contains t open_tickets) && not (is_none (pnl t))

  -- A profit ends a row of losses.
  abbrev pub counted : Option F → ℕ → ℕ
  counted none n = n
  counted (some x) n = if f.lt x nought then suc n else 0

  -- The losses in a row, oldest first, after those of the positions that are gone.
  abbrev pub streak : ℕ → List ℕ → ℕ
  streak n [] = n
  streak n (t ∷ ts) = streak (counted (pnl t) n) ts

  close_all : List ℕ → RunnerState F → RunnerState F
  close_all [] st = st
  close_all (t ∷ ts) st = close_all ts (with_pnl r k t (pnl t) st)

  -- The terminal gives the same profits whenever it is asked in this step.
  abbrev pub Settled : Type 0
  Settled = (ticket : ℕ) (s : S) → (r.client.closed_pnl ticket s).0 ≡ returned (pnl ticket)

  asked :
      {B : Type 0} (o : Outcome LiveError (Option F)) (s : S) (w : World F S) (x : Option F)
      (next : Option F → Act F S B) (b : Outcome LiveError B)
      → o ≡ returned x
      → ((v : World F S) → (next x v).0 ≡ b)
      → (go_on (o, record w { terminal = s }) next).0 ≡ b
  asked o s w x next b h rest = rw h (rest _)

  if_closed :
      {A : Type 0} (test : Bool) (a b : Act F S A) (w : World F S) (o : Outcome LiveError A)
      → test ≡ false
      → (b w).0 ≡ o
      → ((if test then a else b) w).0 ≡ o
  if_closed true a b w o e h = cc
  if_closed false a b w o e h = h

  close_all-gone :
      (t : ℕ) (ts open_tickets : List ℕ) (st : RunnerState F)
      → contains t open_tickets ≡ false
      → close_all (select (gone open_tickets) ts) (with_pnl r k t (pnl t) st)
        ≡ close_all (select (gone open_tickets) (t ∷ ts)) st
  unfolding close_all
  close_all-gone t ts open_tickets st closed = elim (Option-cases (pnl t)) [
    | inl e ↦ rw (closed, e) refl
    | inr (x, e) ↦ rw (closed, e) (rw e refl)
  ]

  settle_each-close_all :
      Settled
      → (ts open_tickets : List ℕ) (st : RunnerState F) (w : World F S)
      → (settle_each r k ts open_tickets st w).0
        ≡ returned (close_all (select (gone open_tickets) ts) st)
  unfolding settle_each close_all
  settle_each-close_all h [] open_tickets st w = refl
  settle_each-close_all h (t ∷ ts) open_tickets st w = elim (Bool-cases (contains t open_tickets)) [
    | inl e ↦ rw e (settle_each-close_all h ts open_tickets st w)
    | inr e ↦ if_closed (contains t open_tickets) _ _ w _ e (
        asked (r.client.closed_pnl t w.terminal).0 (r.client.closed_pnl t w.terminal).1 w (pnl t)
          (λ x. settle_each r k ts open_tickets (with_pnl r k t x st)) _ (h t w.terminal)
          (λ v.
            settle_each-close_all h ts open_tickets (with_pnl r k t (pnl t) st) v
            ∙ ap returned (close_all-gone t ts open_tickets st e)))
  ]

  with_pnl-known :
      (t : ℕ) (x : Option F) (st : RunnerState F)
      → is_none x ≡ false
      → (with_pnl r k t x st).known_tickets ≡ remove t st.known_tickets
  with_pnl-known t none st h = cc
  with_pnl-known t (some x) st h = refl

  with_pnl-losses :
      (t : ℕ) (x : Option F) (st : RunnerState F)
      → (with_pnl r k t x st).consecutive_losses ≡ counted x st.consecutive_losses
  with_pnl-losses t none st = refl
  with_pnl-losses t (some x) st = refl

  with_pnl-stops :
      (t u : ℕ) (x : Option F) (st : RunnerState F)
      → u ≢ t
      → lookup u (with_pnl r k t x st).original_stops ≡ lookup u st.original_stops
  with_pnl-stops t u none st h = refl
  with_pnl-stops t u (some x) st h = lookup-erase_ne u t st.original_stops h

  close_all-known :
      (gs : List ℕ) (st : RunnerState F)
      → All (λ g. is_none (pnl g) ≡ false) gs
      → (close_all gs st).known_tickets ≡ remove_each gs st.known_tickets
  unfolding close_all remove_each
  close_all-known [] st h = refl
  close_all-known (g ∷ gs) st (seen, h) =
      close_all-known gs (with_pnl r k g (pnl g) st) h
      ∙ ap (remove_each gs) (with_pnl-known g (pnl g) st seen)

  close_all-losses :
      (gs : List ℕ) (st : RunnerState F)
      → (close_all gs st).consecutive_losses ≡ streak st.consecutive_losses gs
  unfolding close_all
  close_all-losses [] st = refl
  close_all-losses (g ∷ gs) st =
      close_all-losses gs (with_pnl r k g (pnl g) st)
      ∙ ap (λ n. streak n gs) (with_pnl-losses g (pnl g) st)

  close_all-stops :
      (gs : List ℕ) (st : RunnerState F) (t : ℕ)
      → contains t gs ≡ false
      → lookup t (close_all gs st).original_stops ≡ lookup t st.original_stops
  unfolding close_all
  close_all-stops [] st t h = refl
  close_all-stops (g ∷ gs) st t h =
      close_all-stops gs (with_pnl r k g (pnl g) st) t (ground (arith, h))
      ∙ with_pnl-stops g t (pnl g) st (λ e. ground (arith, h, e))

  gone-All :
      (open_tickets ts : List ℕ)
      → All (λ g. is_none (pnl g) ≡ false) (select (gone open_tickets) ts)
  gone-All open_tickets [] = tt
  gone-All open_tickets (t ∷ ts) = elim (Bool-cases (gone open_tickets t)) [
    | inl e ↦ rw e (ground (arith, e), gone-All open_tickets ts)
    | inr e ↦ rw e (gone-All open_tickets ts)
  ]

  -- The state that a step writes first, on the state `st` that it read, when `ps` are the positions.
  pub record Book (ps : List (PositionInfo F)) (st st' : RunnerState F) : Type 0 where
    -- the open positions, and those that closed with no profit visible yet
    pub known :
        (t : ℕ)
        → contains t st'.known_tickets
          ≡ (contains t (tickets ps) || (contains t st.known_tickets && is_none (pnl t)))
    pub losses :
        st'.consecutive_losses
        ≡ streak st.consecutive_losses (select (gone (tickets ps)) st.known_tickets)
    -- the first stop of a position stays
    pub stops :
        (t : ℕ)
        → contains t (tickets ps) ≡ true
        → contains t st.known_tickets ≡ true
        → lookup t st'.original_stops ≡ lookup t st.original_stops

  with_new-known :
      (p : PositionInfo F) (st : RunnerState F) (t : ℕ)
      → contains t (with_new r k p st).known_tickets
        ≡ (contains t st.known_tickets || t == p.ticket)
  with_new-known p st t = elim (Bool-cases (contains p.ticket st.known_tickets)) [
    | inl e ↦ rw e (contains-again t p.ticket st.known_tickets e)
    | inr e ↦ rw e (contains-snoc t p.ticket st.known_tickets)
  ]

  with_new-losses :
      (p : PositionInfo F) (st : RunnerState F)
      → (with_new r k p st).consecutive_losses ≡ st.consecutive_losses
  with_new-losses p st = elim (Bool-cases (contains p.ticket st.known_tickets)) [
    | inl e ↦ rw e refl
    | inr e ↦ rw e refl
  ]

  with_new-stops :
      (p : PositionInfo F) (st : RunnerState F) (t : ℕ)
      → contains t st.known_tickets ≡ true
      → lookup t (with_new r k p st).original_stops ≡ lookup t st.original_stops
  with_new-stops p st t h = elim (Bool-cases (contains p.ticket st.known_tickets)) [
    | inl e ↦ rw e refl
    | inr e ↦ rw e (
        lookup-insert_ne t p.ticket p.sl st.original_stops
          (apart (λ x. contains x st.known_tickets) t p.ticket h e))
  ]

  note_new-known :
      (ps : List (PositionInfo F)) (st : RunnerState F) (t : ℕ)
      → contains t (note_new r k ps st).known_tickets
        ≡ (contains t (tickets ps) || contains t st.known_tickets)
  note_new-known [] st t = refl
  note_new-known (p ∷ ps) st t =
      note_new-known ps (with_new r k p st) t ∙ ground (arith, with_new-known p st t)

  note_new-losses :
      (ps : List (PositionInfo F)) (st : RunnerState F)
      → (note_new r k ps st).consecutive_losses ≡ st.consecutive_losses
  note_new-losses [] st = refl
  note_new-losses (p ∷ ps) st = note_new-losses ps (with_new r k p st) ∙ with_new-losses p st

  note_new-stops :
      (ps : List (PositionInfo F)) (st : RunnerState F) (t : ℕ)
      → contains t st.known_tickets ≡ true
      → lookup t (note_new r k ps st).original_stops ≡ lookup t st.original_stops
  note_new-stops [] st t h = refl
  note_new-stops (p ∷ ps) st t h =
      note_new-stops ps (with_new r k p st) t (with_new-known p st t ∙ ground (arith, h))
      ∙ with_new-stops p st t h

  -- The book of a step, when the terminal gives the same profits throughout: the known tickets are
  -- exactly the open positions and those that closed without a profit that is visible yet, so none is
  -- forgotten before it was counted; the losses in a row go on over the positions that are gone, each
  -- counted once and oldest first; and the first stop of an open position, from which its risk is
  -- measured, is never replaced.
  pub settle-Book :
      Settled
      → (ps : List (PositionInfo F)) (st : RunnerState F) (w : World F S)
      → (st' : RunnerState F) × ((settle r k ps st w).0 ≡ returned st')
        × Book ps st (note_new r k ps st')
  unfolding settle
  settle-Book h ps st w =
      let gs = select (gone (tickets ps)) st.known_tickets in
      let st' = close_all gs st in
      let kept : st'.known_tickets ≡ select (λ t. not (gone (tickets ps) t)) st.known_tickets =
        close_all-known gs st (gone-All (tickets ps) st.known_tickets)
        ∙ remove_each-select (gone (tickets ps)) st.known_tickets in
      (
        st',
        settle_each-close_all h st.known_tickets (tickets ps) st w,
        record {
          known = λ t.
              note_new-known ps st' t
              ∙ ap (λ b. contains t (tickets ps) || b)
                  (ap (contains t) kept
                    ∙ contains-select (λ x. not (gone (tickets ps) x)) t st.known_tickets)
              ∙ book_known (contains t (tickets ps)) (contains t st.known_tickets)
                  (is_none (pnl t));
          losses = note_new-losses ps st' ∙ close_all-losses gs st;
          stops = λ t is_open is_known.
              note_new-stops ps st' t (
                ap (contains t) kept
                ∙ contains-select (λ x. not (gone (tickets ps) x)) t st.known_tickets
                ∙ rw (is_known, is_open) refl)
              ∙ close_all-stops gs st t (
                  contains-select (gone (tickets ps)) t st.known_tickets
                  ∙ rw (is_known, is_open) refl);
        },
      )

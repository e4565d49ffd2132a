-- ===== src/Ftmo/Live/Router/Sent.antt =====
-- What `place` does to the files and the terminal, on each of its paths.
use trading_bot.Base.{
  ℕ, ◌≡◌, refl, sym, subst, ◌∙◌, ◌⊎◌, inl, inr, Bool, true, false, Option, none, some,
}
use trading_bot.Base.Checks.{◌==◌, if◌then◌else◌}
use trading_bot.Base.Float.{Float, nought}
use trading_bot.Base.Outcome.{Outcome, raised, returned}
use trading_bot.Ftmo.Rules.{Moment, Baseline, Permission, allowed, denied}
use trading_bot.Ftmo.Live.Store.{
  LiveError, Files, HaltRecord, read_halt, heartbeat_fresh, key_used, load_baseline, add_key,
}
use trading_bot.Ftmo.Live.Sizing.{ContractSpec, size_for, projected_loss}
use trading_bot.Ftmo.Live.{
  OrderResult, IsTraced, World, Act, pure, lift, read, ask, write, ◌>>=◌, ◌>>◌,
}
use trading_bot.Ftmo.Live.Router.Clearance.{Quiet, Cleared, Sent, asked}
use trading_bot.Ftmo.Live.Router.{
  Signal, Profile, key_of, item, place, unless_halted, if_fresh, unless_used, with_baseline, judged,
  permitted, sized, send, order_for, answered,
}

module _ {F S : Type 0} ⦃f : Float F⦄ (r : Profile F S) (t : IsTraced r.client) where
  module _ (sig : Signal F) (losses : ℕ) (now : Moment) (w : World F S) where
    abbrev Good : World F S → Type 0
    Good w' = Quiet r t w w' ⊎ Sent r t sig losses now w w'

    abbrev at : S → World F S
    at s = record w { terminal = s }

    -- From where only the terminal was asked.
    record Leads {A : Type 0} (s : S) (m : Act F S A) : Type 0 where
      by : t.trail s ≡ t.trail w.terminal → Good (m (at s)).1

    Leads-pure : {A : Type 0} (s : S) (a : A) → Leads s (pure a)
    Leads-pure s a = record { by = λ q. inl (refl, q) }

    Leads-if :
        {A : Type 0} (s : S) (test : Bool) (m n : Act F S A)
        → (test ≡ true → Leads s m)
        → (test ≡ false → Leads s n)
        → Leads s (if test then m else n)
    Leads-if s true m n h k = h refl
    Leads-if s false m n h k = k refl

    Leads-lift :
        {A B : Type 0} (s : S) (o : Outcome LiveError A) (next : A → Act F S B)
        → ((a : A) → o ≡ returned a → Leads s (next a))
        → Leads s (lift o >>= next)
    Leads-lift s (raised e) next k = record { by = λ q. inl (refl, q) }
    Leads-lift s (returned a) next k = record { by = λ q. (k a refl).by q }

    Leads-read :
        {A B : Type 0} (s : S) (look : Files F → Outcome LiveError A) (next : A → Act F S B)
        → ((a : A) → look w.files ≡ returned a → Leads s (next a))
        → Leads s (read look >>= next)
    Leads-read s look next k = record { by = (Leads-lift s (look w.files) next k).by }

    ask_from :
        {A B : Type 0} (s : S) (o : Outcome LiveError A × S) (next : A → Act F S B)
        → ((a : A) → o.0 ≡ returned a → Leads o.1 (next a))
        → t.trail o.1 ≡ t.trail s
        → t.trail s ≡ t.trail w.terminal
        → Good ((ask (λ _. o) >>= next) (at s)).1
    ask_from s (raised e, s') next k kept q = inl (refl, kept ∙ q)
    ask_from s (returned a, s') next k kept q = (k a refl).by (kept ∙ q)

    Leads-ask :
        {A B : Type 0} (s : S) (call : S → Outcome LiveError A × S) (next : A → Act F S B)
        → ((s : S) → t.trail (call s).1 ≡ t.trail s)
        → ((a : A) → (call s).0 ≡ returned a → Leads (call s).1 (next a))
        → Leads s (ask call >>= next)
    Leads-ask s call next quiet k = record { by = ask_from s (call s) next k (quiet s) }

    market_from :
        (lots : F) (fs : Files F) (s : S) (o : Outcome LiveError OrderResult × S)
        → ((w' : World F S) → w'.files ≡ fs → w'.terminal ≡ o.1 → Sent r t sig losses now w w')
        → Good ((write (λ _. fs) >> (ask (λ _. o) >>= λ res. pure (answered r lots res))) (at s)).1
    market_from lots fs s (raised e, s') sent = inr (sent _ refl refl)
    market_from lots fs s (returned res, s') sent = inr (sent _ refl refl)

    send-Leads :
        (lots : F) (ready : Cleared r t sig losses now w lots)
        → Leads (asked r t ready.mt5_symbol w.terminal) (send r sig ready.mt5_symbol lots)
    unfolding send
    send-Leads lots ready =
        let s = asked r t ready.mt5_symbol w.terminal in
        let o = order_for r sig ready.mt5_symbol lots in
        Leads-read s (add_key (key_of sig)) _ λ fs kept. record {
          by = λ q. market_from lots fs s (r.client.market_order o s) λ w' files terminal. record {
            lots = lots;
            cleared = ready;
            kept = rw files kept;
            requested = terminal;
            trail = rw (terminal, sym q) (t.market_trail o s);
          };
        }

    abbrev Clears : ContractSpec F → ℕ → Type 0
    Clears spec mt5_symbol =
        (lots : F)
        → size_for sig.entry sig.stop spec r.risk_amount ≡ returned lots
        → f.le lots nought ≡ false
        → (ready : Cleared r t sig losses now w lots) × (ready.mt5_symbol ≡ mt5_symbol)

    sized-Leads :
        (spec : ContractSpec F) (mt5_symbol : ℕ)
        → Clears spec mt5_symbol
        → Leads (asked r t mt5_symbol w.terminal) (sized r sig spec mt5_symbol)
    unfolding sized
    sized-Leads spec mt5_symbol clear =
        let s = asked r t mt5_symbol w.terminal in
        Leads-lift s (size_for sig.entry sig.stop spec r.risk_amount) _ λ lots size.
          Leads-if s (f.le lots nought) _ _ (λ small. Leads-pure s _)
            λ large.
              let (ready, same) = clear lots size large in
              subst (λ n. Leads (asked r t n w.terminal) (send r sig n lots)) same
                (send-Leads lots ready)

    permitted-Leads :
        (p : Permission) (spec : ContractSpec F) (mt5_symbol : ℕ)
        → (p ≡ allowed → Clears spec mt5_symbol)
        → Leads (asked r t mt5_symbol w.terminal) (permitted r p sig spec mt5_symbol)
    unfolding permitted
    permitted-Leads (denied why) spec mt5_symbol clear = Leads-pure _ _
    permitted-Leads allowed spec mt5_symbol clear = sized-Leads spec mt5_symbol (clear refl)

    -- What is known once the key was looked up.
    abbrev Ready : Type 0
    Ready =
        (read_halt w.files ≡ returned none)
        × (heartbeat_fresh now.instant r.heartbeat_stale w.files ≡ returned true)
        × (key_used (key_of sig) w.files ≡ returned false)

    judged-Leads :
        (b : Baseline F)
        → Ready
        → load_baseline w.files ≡ returned (some b)
        → (b.day == now.day) ≡ true
        → Leads w.terminal (judged r sig losses now b.equity)
    unfolding judged
    judged-Leads b (running, alive, new) stored today =
        let s0 = w.terminal in
        Leads-lift s0 (item sig.symbol r.contracts) _ λ spec spec_known.
          Leads-lift s0 (item sig.symbol r.mt5_symbols) _ λ name symbol_known.
            let s1 = (r.client.account s0).1 in
            let s2 = (r.client.tick name s1).1 in
            let s3 = (r.client.positions s2).1 in
            Leads-ask s0 r.client.account _ t.account_trail λ account account_read.
              Leads-ask s1 (r.client.tick name) _ (t.tick_trail name) λ quote quote_read.
                Leads-ask s2 r.client.positions _ t.positions_trail λ ps positions_read.
                  let spread = f.sub quote.ask quote.bid in
                  Leads-lift s3 (projected_loss sig.entry sig.stop spec r.risk_amount spread) _
                    λ risk projected. permitted-Leads _ spec name λ opens lots size some_size. (
                      record {
                        running = running;
                        alive = alive;
                        new = new;
                        baseline = b;
                        baseline_stored = stored;
                        baseline_today = today;
                        spec = spec;
                        spec_known = spec_known;
                        mt5_symbol = name;
                        symbol_known = symbol_known;
                        account = account;
                        account_read = account_read;
                        quote = quote;
                        quote_read = quote_read;
                        positions = ps;
                        positions_read = positions_read;
                        risk = risk;
                        projected = projected;
                        opens = opens;
                        size = size;
                        some_size = some_size;
                      },
                      refl,
                    )

    with_baseline-Leads :
        (stored : Option (Baseline F))
        → Ready
        → load_baseline w.files ≡ returned stored
        → Leads w.terminal (with_baseline r stored sig losses now)
    unfolding with_baseline
    with_baseline-Leads none ready stored = Leads-pure w.terminal _
    with_baseline-Leads (some b) ready stored =
        Leads-if w.terminal (b.day == now.day) _ _ (judged-Leads b ready stored)
          (λ other. Leads-pure w.terminal _)

    unless_used-Leads :
        (used : Bool)
        → read_halt w.files ≡ returned none
        → heartbeat_fresh now.instant r.heartbeat_stale w.files ≡ returned true
        → key_used (key_of sig) w.files ≡ returned used
        → Leads w.terminal (unless_used r used sig losses now)
    unfolding unless_used
    unless_used-Leads true running alive used = Leads-pure w.terminal _
    unless_used-Leads false running alive new =
        Leads-read w.terminal load_baseline _
          λ stored loaded. with_baseline-Leads stored (running, alive, new) loaded

    if_fresh-Leads :
        (fresh : Bool)
        → read_halt w.files ≡ returned none
        → heartbeat_fresh now.instant r.heartbeat_stale w.files ≡ returned fresh
        → Leads w.terminal (if_fresh r fresh sig losses now)
    unfolding if_fresh
    if_fresh-Leads false running stale = Leads-pure w.terminal _
    if_fresh-Leads true running alive =
        Leads-read w.terminal (key_used (key_of sig)) _
          λ used known. unless_used-Leads used running alive known

    unless_halted-Leads :
        (halt : Option HaltRecord)
        → read_halt w.files ≡ returned halt
        → Leads w.terminal (unless_halted r halt sig losses now)
    unfolding unless_halted
    unless_halted-Leads (some h) halted = Leads-pure w.terminal _
    unless_halted-Leads none running =
        Leads-read w.terminal (heartbeat_fresh now.instant r.heartbeat_stale) _
          λ fresh seen. if_fresh-Leads fresh running seen

    -- A signal leaves the files and the orders on the terminal as they were, unless it passed every
    -- check: no halt, a fresh heartbeat, a key that was not used, today's baseline, the permission of the
    -- rules for its projected loss, and a size. The rules judge the equity and the open positions that
    -- the terminal answered after the signal came, the loss is projected at the spread of its quote for
    -- the symbol, and the contract is the profile's. Then its key is in the file, also when the order
    -- failed or the call raised, the terminal was last requested this one order, of that size, and at
    -- most one order was sent, the one with this key.
    pub place-Sent :
        Quiet r t w (place r sig losses now w).1
        ⊎ Sent r t sig losses now w (place r sig losses now w).1
    unfolding place
    place-Sent =
        (Leads-read w.terminal read_halt _ λ halt found. unless_halted-Leads halt found).by refl

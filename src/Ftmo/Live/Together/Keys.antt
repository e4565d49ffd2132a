-- ===== src/Ftmo/Live/Together/Keys.antt =====
-- No two orders carry the same key.
use trading_bot.Base.{
  ℕ, ◌-◌, ◌≤◌, ◌<◌, ◌≡◌, refl, sym, subst, ◌⊎◌, inl, inr, true, false, List, [], ◌∷◌, ◌++◌, ◌||◌,
  arith,
}
use native.Mathlib.Decide.{dec_lt}
use trading_bot.Base.Lists.{length-drop, length, length-append, All, All-imp, All-append}
use trading_bot.Base.Float.{Float}
use trading_bot.Base.Outcome.{returned}
use trading_bot.Ftmo.Live.Store.{
  File, missing, garbled, misshapen, holds, Files, Key, same_key, has_key, last, kept_keys,
  stored_keys, key_used, add_key,
}
use trading_bot.Ftmo.Live.{IsTraced, World}
use trading_bot.Ftmo.Live.Guard.Quiet.{tick-Mild}
use trading_bot.Ftmo.Live.Router.{key_of}
use trading_bot.Ftmo.Live.Router.Sent.{place-Sent}
use trading_bot.Ftmo.Live.Together.{
  Desk, guard_of, router_of, Step, polled, signalled, booked, drifted,
}

abbrev pub Distinct : List Key → Type 0
Distinct [] = Unit
Distinct (k ∷ ks) = (has_key k ks ≡ false) × Distinct ks

-- Every order's key is in the file.
abbrev Covered : List Key → List Key → Type 0
Covered stored sent = All (λ k. has_key k stored ≡ true) sent

same_key_comm : (a b : Key) → same_key a b ≡ same_key b a
same_key_comm a b = ground arith

eq_of_same : (a b : Key) → same_key a b ≡ true → a ≡ b
eq_of_same a b h = ground (arith, h)

has_key-snoc :
    (k j : Key) (ks : List Key) → has_key k (ks ++ (j ∷ [])) ≡ (has_key k ks || same_key k j)
has_key-snoc k j [] = ground arith
has_key-snoc k j (i ∷ ks) = ground (arith, has_key-snoc k j ks)

Distinct-snoc :
    (k : Key) (ks : List Key) → Distinct ks → has_key k ks ≡ false → Distinct (ks ++ (k ∷ []))
Distinct-snoc k [] d h = (refl, tt)
Distinct-snoc k (j ∷ ks) (new, d) h = (
  ground (arith, has_key-snoc j k ks, same_key_comm j k, h, new),
  Distinct-snoc k ks d (ground (arith, h)),
)

-- A key that is not in the file was not sent.
unsent :
    (k : Key) (stored sent : List Key)
    → Covered stored sent
    → has_key k stored ≡ false
    → has_key k sent ≡ false
unsent k stored [] c h = refl
unsent k stored (j ∷ sent) (known, c) h =
    ground (arith, known, h, unsent k stored sent c h, eq_of_same k j)

Covered-snoc :
    (k : Key) (stored sent : List Key) → Covered stored sent → Covered (stored ++ (k ∷ [])) sent
Covered-snoc k stored sent =
    All-imp (λ j. has_key j stored ≡ true) (λ j. has_key j (stored ++ (k ∷ [])) ≡ true)
      (λ j h. ground (arith, has_key-snoc j k stored, h)) sent

same_key_refl : (k : Key) → same_key k k ≡ true
same_key_refl k = ground arith

-- Either the file is full, so that it may have lost keys, or it has the key of every order.
abbrev Tracks : File (List Key) → List Key → Type 0
Tracks missing sent = sent ≡ []
Tracks garbled sent = ⊥
Tracks misshapen sent = ⊥
Tracks (holds ks) sent = (kept_keys ≤ length ks) ⊎ (Covered ks sent × Distinct sent)

-- The orders after an attempt to send one.
abbrev Extends : Key → List Key → List Key → Type 0
Extends k sent sent' = (sent' ≡ sent) ⊎ (sent' ≡ sent ++ (k ∷ []))

length-last_snoc :
    (n : ℕ) (k : Key) (ks : List Key) → n ≤ length ks → n ≤ length (last n (ks ++ (k ∷ [])))
unfolding last
length-last_snoc n k ks h =
    omega
      (arith, length-append ks (k ∷ []), length-drop (length (ks ++ (k ∷ [])) - n) (ks ++ (k ∷ [])))

last_snoc_short :
    (n : ℕ) (k : Key) (ks : List Key) → length ks < n → last n (ks ++ (k ∷ [])) ≡ ks ++ (k ∷ [])
unfolding last
last_snoc_short n k ks h =
    let none_over : length (ks ++ (k ∷ [])) - n ≡ 0 = omega (arith, length-append ks (k ∷ [])) in
    rw none_over

Covered-extended :
    (k : Key) (ks sent sent' : List Key)
    → Covered ks sent
    → Distinct sent
    → has_key k ks ≡ false
    → Extends k sent sent'
    → Covered (ks ++ (k ∷ [])) sent' × Distinct sent'
Covered-extended k ks sent sent' c dist new (inl same) = rw same (Covered-snoc k ks sent c, dist)
Covered-extended k ks sent sent' c dist new (inr more) = rw more (
  All-append (λ j. has_key j (ks ++ (k ∷ [])) ≡ true) sent (k ∷ []) (Covered-snoc k ks sent c)
      (ground (arith, has_key-snoc k k ks, same_key_refl k), tt),
  Distinct-snoc k sent dist (unsent k ks sent c new),
)

holds-Tracks :
    (n : ℕ) (k : Key) (ks sent sent' : List Key)
    → (n ≤ length ks) ⊎ (Covered ks sent × Distinct sent)
    → has_key k ks ≡ false
    → Extends k sent sent'
    → (n ≤ length (last n (ks ++ (k ∷ []))))
      ⊎ (Covered (last n (ks ++ (k ∷ []))) sent' × Distinct sent')
holds-Tracks n k ks sent sent' (inl full) new e = inl (length-last_snoc n k ks full)
holds-Tracks n k ks sent sent' (inr (c, dist)) new e = elim (dec_lt (length ks) n) [
  | no full ↦ inl (length-last_snoc n k ks (omega arith))
  | yes room ↦
      inr (rw (last_snoc_short n k ks room) (Covered-extended k ks sent sent' c dist new e))
]

-- The keys that a file stands for.
abbrev keys_in : File (List Key) → List Key
keys_in (holds ks) = ks
keys_in _ = []

added :
    {F : Type 0} (k : Key) (fs gs : Files F)
    → key_used k fs ≡ returned false
    → add_key k fs ≡ returned gs
    → (has_key k (keys_in fs.idempotency) ≡ false)
      × (gs.idempotency ≡ holds (last kept_keys (keys_in fs.idempotency ++ (k ∷ []))))
unfolding key_used add_key stored_keys
added k fs gs new kept = (ground (arith, new), ground (arith, new, kept))

Tracks-keys :
    (file : File (List Key)) (sent : List Key)
    → Tracks file sent
    → (kept_keys ≤ length (keys_in file)) ⊎ (Covered (keys_in file) sent × Distinct sent)
Tracks-keys missing sent h = inr (rw h (tt, tt))
Tracks-keys garbled sent h = absurd h
Tracks-keys misshapen sent h = absurd h
Tracks-keys (holds ks) sent h = h

add_key-Tracks :
    {F : Type 0} (k : Key) (fs gs : Files F) (sent sent' : List Key)
    → key_used k fs ≡ returned false
    → add_key k fs ≡ returned gs
    → Tracks fs.idempotency sent
    → Extends k sent sent'
    → Tracks gs.idempotency sent'
add_key-Tracks k fs gs sent sent' new kept h x =
    let (unknown, file) = added k fs gs new kept in
    subst (λ file. Tracks file sent') (sym file)
      (holds-Tracks kept_keys k (keys_in fs.idempotency) sent sent'
        (Tracks-keys fs.idempotency sent h) unknown x)

module _ {F S : Type 0} ⦃f : Float F⦄ (d : Desk F S) (t : IsTraced d.client) where
  -- A human may do what they like to the other files, but not to the file of the keys.
  pub data Tampered (w : World F S) : World F S → Type 0 where
    by_program : {v : World F S} → Step d t w v → Tampered w v
    by_human :
        (fs : Files F) → fs.idempotency ≡ w.files.idempotency → Tampered w (record w { files = fs })

  pub data History (w : World F S) : World F S → Type 0 where
    fresh : History w w
    later : {u v : World F S} → History w u → Tampered u v → History w v

  Step-Tracks :
      {w v : World F S}
      → Step d t w v
      → Tracks w.files.idempotency (t.trail w.terminal)
      → Tracks v.files.idempotency (t.trail v.terminal)
  Step-Tracks {w} (polled now) h =
      let (sent, keys, halt) = tick-Mild (guard_of d) t now w in rw (sent, keys) h
  Step-Tracks {w} (signalled sig losses now) h =
      elim (place-Sent (router_of d) t sig losses now w) [
        | inl (files, sent) ↦ rw (files, sent) h
        | inr sent ↦
            add_key-Tracks (key_of sig) w.files _ (t.trail w.terminal) _ sent.cleared.new sent.kept
              h sent.trail
      ]
  Step-Tracks (booked file) h = h
  Step-Tracks (drifted s same) h = rw same h

  Tampered-Tracks :
      {w v : World F S}
      → Tampered w v
      → Tracks w.files.idempotency (t.trail w.terminal)
      → Tracks v.files.idempotency (t.trail v.terminal)
  Tampered-Tracks (by_program step) h = Step-Tracks step h
  Tampered-Tracks (by_human fs same) h = rw same h

  History-Tracks :
      {w v : World F S}
      → History w v
      → Tracks w.files.idempotency (t.trail w.terminal)
      → Tracks v.files.idempotency (t.trail v.terminal)
  History-Tracks fresh h = h
  History-Tracks (later past change) h = Tampered-Tracks change (History-Tracks past h)

  -- No session of a symbol is entered twice on one side: from a start without orders and keys, and
  -- whatever polls, signals, market moves and edits of the other files follow, in any order, all orders
  -- on the terminal have different keys, as long as the file holds fewer keys than are kept.
  pub History-Distinct :
      {w v : World F S} (ks : List Key)
      → History w v
      → w.files.idempotency ≡ missing
      → t.trail w.terminal ≡ []
      → v.files.idempotency ≡ holds ks
      → length ks < kept_keys
      → Distinct (t.trail v.terminal)
  History-Distinct {w} {v} ks past no_file no_orders file room =
      elim (subst (λ file. Tracks file (t.trail v.terminal)) file
        (History-Tracks past (rw (no_file, no_orders) refl))) [
          | inl full ↦ absurd (omega arith)
          | inr (covered, distinct) ↦ distinct
        ]

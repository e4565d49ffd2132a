-- ===== src/Ftmo/Live/Mt5/Log.antt =====
-- What each call of the client sends, by the requests that reached the server.
use trading_bot.Base.{
  ℕ, zero, suc, ◌+◌, ◌≡◌, refl, ap, ◌∙◌, ◌⊎◌, inl, inr, Bool, false, Option, none, some, List, [],
  ◌∷◌, ◌++◌,
}
use trading_bot.Base.Checks.{◌==◌, Bool-cases}
use trading_bot.Base.Lists.{take}
use trading_bot.Base.Outcome.{Outcome, raised, returned}
use trading_bot.Ftmo.Live.Store.{LiveError, Key}
use trading_bot.Ftmo.Live.{PositionInfo, OrderResult, MarketOrder}
use trading_bot.Ftmo.Live.Package.{
  Deal, Request, enter, leave, move_stop, remove, RawResult, RawTick, SymbolInfo, Link,
}
use trading_bot.Ftmo.Live.Mt5.{
  again, quote_fresh, if_open, kind_to_open, price_to_open, kind_to_close, price_to_close, deal,
  and_then, then_map, tries, call, raw_tick, symbol_tradeable, with_info, result_of, send,
  market_order, close_position,
}

-- A package with the requests that reached the server, oldest first: only `order_send` adds one. A
-- request that was answered has arrived; one that was not may have.
pub record IsLogged {F S : Type 0} (l : Link F S) (log : S → List (Request F)) : Type 0 where
  pub account_log : (s : S) → log (l.mt5.account_info s).1 ≡ log s
  pub positions_log : (s : S) → log (l.mt5.positions_get s).1 ≡ log s
  pub orders_log : (s : S) → log (l.mt5.orders_get s).1 ≡ log s
  pub info_log : (symbol : ℕ) (s : S) → log (l.mt5.symbol_info symbol s).1 ≡ log s
  pub tick_log : (symbol : ℕ) (s : S) → log (l.mt5.symbol_info_tick symbol s).1 ≡ log s
  pub rates_log :
      (symbol minutes from count : ℕ) (s : S)
      → log (l.mt5.copy_rates_from_pos symbol minutes from count s).1 ≡ log s
  pub deals_log : (ticket : ℕ) (s : S) → log (l.mt5.history_deals_get ticket s).1 ≡ log s
  pub sleep_log : (attempt : ℕ) (s : S) → log (l.sleep attempt s) ≡ log s
  pub send_log :
      (r : Request F) (s : S)
      → (log (l.mt5.order_send r s).1 ≡ log s) ⊎ (log (l.mt5.order_send r s).1 ≡ log s ++ (r ∷ []))
  pub answered_log :
      (r : Request F) (s : S) (res : RawResult)
      → (l.mt5.order_send r s).0 ≡ some res
      → log (l.mt5.order_send r s).1 ≡ log s ++ (r ∷ [])

-- The comments of the requests that open a position.
abbrev pub entered : {F : Type 0} → List (Request F) → List (List ℕ)
entered [] = []
entered (enter d sl tp text ∷ rs) = text ∷ entered rs
entered (_ ∷ rs) = entered rs

pub entered-append :
    {F : Type 0} (xs ys : List (Request F)) → entered (xs ++ ys) ≡ entered xs ++ entered ys
entered-append [] ys = refl
entered-append (enter d sl tp text ∷ xs) ys = ap (◌∷◌ text) (entered-append xs ys)
entered-append (leave d p ∷ xs) ys = entered-append xs ys
entered-append (move_stop symbol p sl tp ∷ xs) ys = entered-append xs ys
entered-append (remove t ∷ xs) ys = entered-append xs ys

-- A request for this order: its symbol, size, side and magic number, its stop, target and key.
abbrev pub Opens : {F : Type 0} → (Key → List ℕ) → MarketOrder F → Request F → Type 0
Opens {F} written o r =
    (d : Deal F) × (r ≡ enter d o.sl o.tp (take 31 (written o.comment)))
    × (d.symbol ≡ o.symbol)
    × (d.volume ≡ o.lots)
    × (d.kind ≡ kind_to_open o.side)
    × (d.magic ≡ o.magic)

abbrev pub OpensNothing : {F : Type 0} → Request F → Type 0
OpensNothing r = entered (r ∷ []) ≡ []

abbrev pub is_accepted : Outcome LiveError OrderResult → Bool
is_accepted (raised e) = false
is_accepted (returned res) = res.accepted

module _ {F S : Type 0} (l : Link F S) (log : S → List (Request F)) (h : IsLogged l log) where
  again-log :
      {A : Type 0} (later : S → Outcome LiveError A × S) (o : Option A × S)
      → ((v : S) → log (later v).1 ≡ log v)
      → log (again l later o).1 ≡ log o.1
  again-log later (some a, v) k = refl
  again-log later (none, v) k = k v

  -- Of the tries of a read, none sends.
  tries-log :
      {A : Type 0} (fn : S → Option A × S)
      → ((s : S) → log (fn s).1 ≡ log s)
      → (attempt left : ℕ) (s : S) → log (tries l fn attempt left s).1 ≡ log s
  unfolding tries
  tries-log fn quiet attempt zero s = again-log _ (fn s) (λ v. refl) ∙ quiet s
  tries-log fn quiet attempt (suc left) s =
      again-log _ (fn s)
        (λ v. tries-log fn quiet (attempt + 1) left (l.sleep attempt v) ∙ h.sleep_log attempt v)
      ∙ quiet s

  pub call-log :
      {A : Type 0} (fn : S → Option A × S)
      → ((s : S) → log (fn s).1 ≡ log s)
      → (s : S) → log (call l fn s).1 ≡ log s
  unfolding call
  call-log fn quiet s = tries-log fn quiet 0 l.retries s

  pub then_map-log :
      {A B : Type 0} (g : A → B) (o : Outcome LiveError A × S) → log (then_map g o).1 ≡ log o.1
  then_map-log g (returned a, v) = refl
  then_map-log g (raised e, v) = refl

  pub read-log :
      {A B : Type 0} (g : A → B) (fn : S → Option A × S)
      → ((s : S) → log (fn s).1 ≡ log s)
      → (s : S) → log (then_map g (call l fn s)).1 ≡ log s
  read-log g fn quiet s = then_map-log g (call l fn s) ∙ call-log fn quiet s

  pub raw_tick-log : (symbol : ℕ) (s : S) → log (raw_tick l symbol s).1 ≡ log s
  unfolding raw_tick
  raw_tick-log symbol s = call-log (l.mt5.symbol_info_tick symbol) (h.tick_log symbol) s

  fresh-log : (now : ℕ) (o : Option (RawTick F) × S) → log (quote_fresh l now o).1 ≡ log o.1
  fresh-log now (none, v) = refl
  fresh-log now (some t, v) = refl

  if_open-log :
      (symbol now : ℕ) (o : Option SymbolInfo × S) → log (if_open l symbol now o).1 ≡ log o.1
  if_open-log symbol now (none, v) = refl
  if_open-log symbol now (some info, v) =
      elim (Bool-cases (info.trade_mode == l.mt5.trade_mode_full)) [
        | inl e ↦ rw e (fresh-log now (l.mt5.symbol_info_tick symbol v) ∙ h.tick_log symbol v)
        | inr e ↦ rw e refl
      ]

  pub symbol_tradeable-log :
      (symbol now : ℕ) (s : S) → log (symbol_tradeable l symbol now s).1 ≡ log s
  unfolding symbol_tradeable
  symbol_tradeable-log symbol now s =
      if_open-log symbol now (l.mt5.symbol_info symbol s) ∙ h.info_log symbol s

  -- Nothing was sent and nothing accepted, or one request was sent, and it has the property.
  abbrev pub Adds : (Request F → Type 0) → S → Outcome LiveError OrderResult × S → Type 0
  Adds P s out =
      ((log out.1 ≡ log s) × (is_accepted out.0 ≡ false))
      ⊎ ((r : Request F) × P r × (log out.1 ≡ log s ++ (r ∷ [])))

  Adds-from :
      (P : Request F → Type 0) (s u : S) (out : Outcome LiveError OrderResult × S)
      → log u ≡ log s
      → Adds P u out
      → Adds P s out
  Adds-from P s u out same (inl (kept, off)) = inl (kept ∙ same, off)
  Adds-from P s u out same (inr (r, p, more)) = inr (r, p, more ∙ ap (λ rs. rs ++ (r ∷ [])) same)

  result_of-Adds :
      (P : Request F → Type 0) (r : Request F)
      → P r
      → (s : S) (o : Option RawResult × S) → (log o.1 ≡ log s) ⊎ (log o.1 ≡ log s ++ (r ∷ []))
      → ((res : RawResult) → o.0 ≡ some res → log o.1 ≡ log s ++ (r ∷ []))
      → Adds P s (result_of l o)
  result_of-Adds P r p s (none, v) (inl kept) answered = inl (kept, refl)
  result_of-Adds P r p s (none, v) (inr more) answered = inr (r, p, more)
  result_of-Adds P r p s (some res, v) either answered = inr (r, p, answered res refl)

  pub send-Adds : (P : Request F → Type 0) (r : Request F) → P r → (s : S) → Adds P s (send l r s)
  unfolding send
  send-Adds P r p s =
      result_of-Adds P r p s (l.mt5.order_send r s) (h.send_log r s) (h.answered_log r s)

  with_info-Adds :
      (P : Request F → Type 0) (request : Option SymbolInfo → Request F)
      → ((i : Option SymbolInfo) → P (request i))
      → (o : Option SymbolInfo × S) → Adds P o.1 (with_info l request o)
  with_info-Adds P request p (i, v) = send-Adds P (request i) (p i) v

  priced-Adds :
      (P : Request F → Type 0) (symbol : ℕ) (request : RawTick F → Option SymbolInfo → Request F)
      → ((t : RawTick F) (i : Option SymbolInfo) → P (request t i))
      → (s : S) (o : Outcome LiveError (RawTick F) × S) → log o.1 ≡ log s
      → Adds P s (and_then o (λ t v. with_info l (request t) (l.mt5.symbol_info symbol v)))
  priced-Adds P symbol request p s (raised e, v) same = inl (same, refl)
  priced-Adds P symbol request p s (returned t, v) same =
      Adds-from P s (l.mt5.symbol_info symbol v).1
        (with_info l (request t) (l.mt5.symbol_info symbol v)) (h.info_log symbol v ∙ same)
        (with_info-Adds P (request t) (p t) (l.mt5.symbol_info symbol v))

  pub market_order-Adds :
      (written : Key → List ℕ) (o : MarketOrder F) (s : S)
      → Adds (Opens written o) s (market_order l written o s)
  unfolding market_order
  market_order-Adds written o s =
      priced-Adds (Opens written o) o.symbol _
        (λ t i. (
          deal l o.symbol o.lots (kind_to_open o.side) (price_to_open o.side t) o.magic i,
          refl,
          refl,
          refl,
          refl,
          refl,
        ))
        s (raw_tick l o.symbol s) (raw_tick-log o.symbol s)

  pub close_position-Adds :
      (p : PositionInfo F) (s : S) → Adds OpensNothing s (close_position l p s)
  unfolding close_position
  close_position-Adds p s =
      priced-Adds OpensNothing p.symbol
        (λ t i.
          leave
            (deal l p.symbol p.volume (kind_to_close p.side) (price_to_close p.side t) p.magic i)
            p.ticket)
        (λ t i. refl) s (raw_tick l p.symbol s) (raw_tick-log p.symbol s)

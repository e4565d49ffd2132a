-- ===== src/Ftmo/Live/Mt5/Refines.antt =====
-- The client as its callers take it.
use trading_bot.Base.{ℕ, ◌≡◌, refl, ap, ◌∙◌, ◌⊎◌, inl, inr, List, [], ◌∷◌, ◌++◌, map}
use trading_bot.Base.Lists.{map-append, append-[], take}
use trading_bot.Base.Float.{Float}
use trading_bot.Base.Outcome.{Outcome}
use trading_bot.Ftmo.Live.Store.{LiveError, Key}
use trading_bot.Ftmo.Live.{OrderResult, MarketOrder, IsTraced}
use trading_bot.Ftmo.Live.Package.{Request, move_stop, remove, Link}
use trading_bot.Ftmo.Live.Mt5.{
  account_of, position_of, quote_of, bar_of, account, positions, pending_orders, raw_tick, tick,
  symbol_tradeable, completed_bars, market_order, modify_sl, close_position, cancel_order,
  closed_pnl, client_of,
}
use trading_bot.Ftmo.Live.Mt5.Log.{
  IsLogged, entered, entered-append, Opens, OpensNothing, Adds, read-log, call-log, then_map-log,
  raw_tick-log, send-Adds, close_position-Adds, market_order-Adds, symbol_tradeable-log,
}

module _ {F S : Type 0} (l : Link F S) (log : S → List (Request F)) (h : IsLogged l log) where
  module _ (written : Key → List ℕ) (reads : List ℕ → Key) where
    -- The keys of the orders that reached the server.
    abbrev pub keys_sent : S → List Key
    keys_sent s = map reads (entered (log s))

    keys-append :
        (s v : S) (r : Request F)
        → log v ≡ log s ++ (r ∷ [])
        → keys_sent v ≡ keys_sent s ++ map reads (entered (r ∷ []))
    keys-append s v r more =
        ap (λ rs. map reads (entered rs)) more
        ∙ ap (map reads) (entered-append (log s) (r ∷ []))
        ∙ map-append reads (entered (log s)) (entered (r ∷ []))

    keys-same : (s v : S) → log v ≡ log s → keys_sent v ≡ keys_sent s
    keys-same s v same = ap (λ rs. map reads (entered rs)) same

    keys-none :
        (s : S) (out : Outcome LiveError OrderResult × S)
        → Adds l log h OpensNothing s out
        → keys_sent out.1 ≡ keys_sent s
    keys-none s out (inl (kept, off)) = keys-same s out.1 kept
    keys-none s out (inr (r, no_entry, more)) =
        keys-append s out.1 r more
        ∙ ap (λ cs. keys_sent s ++ map reads cs) no_entry
        ∙ append-[] (keys_sent s)

    keys-one :
        (lossless : (k : Key) → reads (take 31 (written k)) ≡ k)
        → (o : MarketOrder F) (s : S) (out : Outcome LiveError OrderResult × S)
        → Adds l log h (Opens written o) s out
        → (keys_sent out.1 ≡ keys_sent s) ⊎ (keys_sent out.1 ≡ keys_sent s ++ (o.comment ∷ []))
    keys-one lossless o s out (inl (kept, off)) = inl (keys-same s out.1 kept)
    keys-one lossless o s out (inr (r, (d, is_r, symbol, volume, kind, magic), more)) = inr (
        keys-append s out.1 r more
        ∙ ap (λ q. keys_sent s ++ map reads (entered (q ∷ []))) is_r
        ∙ ap (λ k. keys_sent s ++ (k ∷ [])) (lossless o.comment))

    client-IsTraced :
        ⦃fl : Float F⦄
        → ((k : Key) → reads (take 31 (written k)) ≡ k)
        → IsTraced (client_of l written)
    unfolding account positions pending_orders tick completed_bars closed_pnl cancel_order modify_sl
    client-IsTraced lossless = record {
      trail = keys_sent;
      account_trail = λ s.
          keys-same s (account l s).1
            (read-log l log h (account_of l) l.mt5.account_info h.account_log s);
      positions_trail = λ s.
          keys-same s (positions l s).1
            (read-log l log h (map (position_of l)) l.mt5.positions_get h.positions_log s);
      pending_trail = λ s.
          keys-same s (pending_orders l s).1 (call-log l log h l.mt5.orders_get h.orders_log s);
      tick_trail = λ symbol s.
          keys-same s (tick l symbol s).1 (
            then_map-log l log h (quote_of l) (raw_tick l symbol s)
            ∙ raw_tick-log l log h symbol s);
      cancel_trail = λ ticket s.
          keys-none s (cancel_order l ticket s)
            (send-Adds l log h OpensNothing (remove ticket) refl s);
      close_trail = λ p s. keys-none s (close_position l p s) (close_position-Adds l log h p s);
      market_trail = λ o s.
          keys-one lossless o s (market_order l written o s)
            (market_order-Adds l log h written o s);
      modify_trail = λ p sl s.
          keys-none s (modify_sl l p sl s)
            (send-Adds l log h OpensNothing (move_stop p.symbol p.ticket sl p.tp) refl s);
      pnl_trail = λ ticket s. keys-same s (closed_pnl l ticket s).1 (h.deals_log ticket s);
      tradeable_trail = λ symbol now s.
          keys-same s (symbol_tradeable l symbol now s).1
            (symbol_tradeable-log l log h symbol now s);
      bars_trail = λ symbol minutes count s.
          keys-same s (completed_bars l symbol minutes count s).1 (
            read-log l log h (map (bar_of l symbol minutes))
              (l.mt5.copy_rates_from_pos symbol minutes 1 count)
              (h.rates_log symbol minutes 1 count) s);
    }

-- ===== src/Ftmo/Live/Store.antt =====
-- ftmo-bot/src/ftmo_bot/execution/state.py: the files that the guard and the runner share. What the
-- json library makes of a file is its constructor; the free text of a halt is left out.
use trading_bot.Base.{
  ℕ, ◌+◌, ◌-◌, Bool, true, false, ◌&&◌, ◌||◌, Option, none, some, List, [], ◌∷◌, ◌++◌,
}
use trading_bot.Base.Checks.{ltb, leb, ◌==◌, if◌then◌else◌}
use trading_bot.Base.Lists.{length, drop}
use trading_bot.Base.Dict.{Dict}
use trading_bot.Base.Outcome.{Outcome, raised, returned, ◌>>=◌}
use trading_bot.Ftmo.Rules.{HaltKind, daily, Baseline, Side, same_side}

-- MT5Error and RefuseToStart, and the built-in exceptions that the live bot can meet.
pub data LiveError : Type 0 where
  mt5_error refuse_to_start value_error key_error type_error zero_division_error : LiveError

-- `garbled` raises ValueError or KeyError when it is read, `misshapen` TypeError (JSON of another
-- type, or a time without a zone).
pub data File (A : Type 0) : Type 0 where
  missing garbled misshapen : File A
  holds : A → File A

-- The kinds of the rules, or any other text, as a human may write.
pub data RecordKind : Type 0 where
  rules : HaltKind → RecordKind
  manual : RecordKind

pub record HaltRecord : Type 0 where
  pub kind : RecordKind
  pub day : ℕ
  pub at_utc : ℕ

-- `symbol|session_date|side`; no symbol or date has a bar in it.
pub record Key : Type 0 where
  pub symbol : ℕ
  pub session_date : ℕ
  pub side : Side

abbrev pub same_key : Key → Key → Bool
same_key a b = a.symbol == b.symbol && (a.session_date == b.session_date && same_side a.side b.side)

abbrev pub has_key : Key → List Key → Bool
has_key k [] = false
has_key k (j ∷ js) = same_key k j || has_key k js

-- What the runner keeps between its steps. The source's last two fields are never used.
pub record RunnerState (F : Type 0) : Type 0 where
  pub day : Option ℕ
  pub consecutive_losses : ℕ
  pub breakeven_done : List ℕ
  pub original_stops : Dict F
  pub known_tickets : List ℕ

pub record Files (F : Type 0) : Type 0 where
  pub daily_baseline : File (Baseline F)
  pub heartbeat : File ℕ
  pub halt : File HaltRecord
  pub idempotency : File (List Key)
  pub runner : File (RunnerState F)

-- How many keys are kept.
abbrev pub kept_keys : ℕ
kept_keys = 5000

-- `keys[-n:]`
unfoldable pub last : {A : Type 0} → ℕ → List A → List A
last n xs = drop (length xs - n) xs

-- `json.loads` of a file that is there
abbrev parsed : {A : Type 0} → File A → Outcome LiveError (Option A)
parsed missing = returned none
parsed (holds a) = returned (some a)
parsed garbled = raised value_error
parsed misshapen = raised type_error

-- A file that cannot be read is a halt too.
abbrev pub halt_in : File HaltRecord → Outcome LiveError (Option HaltRecord)
halt_in missing = returned none
halt_in (holds r) = returned (some r)
halt_in garbled = returned (some (record { kind = manual; day = 0; at_utc = 0 }))
halt_in misshapen = raised type_error

abbrev pub is_daily : RecordKind → Bool
is_daily (rules daily) = true
is_daily _ = false

abbrev ended : ℕ → Option HaltRecord → Bool
ended today none = false
ended today (some r) = is_daily r.kind && ltb r.day today

-- `-max_age <= now - ts <= max_age`, and false where there is no time to read
abbrev pub fresh_at : ℕ → ℕ → File ℕ → Outcome LiveError Bool
fresh_at now max_age missing = returned false
fresh_at now max_age garbled = returned false
fresh_at now max_age misshapen = raised type_error
fresh_at now max_age (holds ts) = returned (leb now (ts + max_age) && leb ts (now + max_age))

-- No file is an empty list.
abbrev or_empty : Option (List Key) → List Key
or_empty none = []
or_empty (some ks) = ks

module _ {F : Type 0} where
  unfoldable pub load_baseline : Files F → Outcome LiveError (Option (Baseline F))
  load_baseline fs = parsed fs.daily_baseline

  abbrev pub save_baseline : Baseline F → Files F → Files F
  save_baseline b fs = record fs { daily_baseline = holds b }

  abbrev pub write_heartbeat : ℕ → Files F → Files F
  write_heartbeat now fs = record fs { heartbeat = holds now }

  unfoldable pub heartbeat_fresh : ℕ → ℕ → Files F → Outcome LiveError Bool
  heartbeat_fresh now max_age fs = fresh_at now max_age fs.heartbeat

  unfoldable pub read_halt : Files F → Outcome LiveError (Option HaltRecord)
  read_halt fs = halt_in fs.halt

  abbrev pub write_halt : HaltRecord → Files F → Files F
  write_halt r fs = record fs { halt = holds r }

  -- Only a daily halt of an earlier day is removed.
  unfoldable pub clear_daily_halt : ℕ → Files F → Outcome LiveError (Files F)
  unfolding read_halt
  clear_daily_halt today fs =
      read_halt fs >>= λ r. returned (if ended today r then record fs { halt = missing } else fs)

  unfoldable pub stored_keys : Files F → Outcome LiveError (List Key)
  stored_keys fs = parsed fs.idempotency >>= λ ks. returned (or_empty ks)

  unfoldable pub key_used : Key → Files F → Outcome LiveError Bool
  unfolding stored_keys
  key_used k fs = stored_keys fs >>= λ ks. returned (has_key k ks)

  unfoldable pub add_key : Key → Files F → Outcome LiveError (Files F)
  unfolding stored_keys last
  add_key k fs = stored_keys fs >>= λ ks. returned (
      if has_key k ks
      then fs
      else record fs { idempotency = holds (last kept_keys (ks ++ (k ∷ []))) })

  abbrev or_new : Option (RunnerState F) → RunnerState F
  or_new (some st) = st
  or_new none = record {
    day = none;
    consecutive_losses = 0;
    breakeven_done = [];
    original_stops = [];
    known_tickets = [];
  }

  unfoldable pub load_runner : Files F → Outcome LiveError (RunnerState F)
  load_runner fs = parsed fs.runner >>= λ st. returned (or_new st)

  abbrev pub save_runner : RunnerState F → Files F → Files F
  save_runner st fs = record fs { runner = holds st }

-- ===== src/Engine/State/Store.antt =====
-- The state file of engine/state.py, its backup, and what a crash inside `save` leaves.
-- `Codec` is the standard library's json and hashlib on whole files: the text of a body, the outer
-- object that holds a body beside its digest, and SHA-256.
pub mod Recovery
pub mod Documents
mod Tests
use trading_bot.Base.{
  ℕ, zero, suc, ◌≡◌, refl, ◌⊎◌, inl, inr, Bool, true, false, not, ◌&&◌, Option, none, some, List,
  [], ◌∷◌, arith,
}
use trading_bot.Base.Checks.{◌==◌, ==_refl, if◌then◌else◌}
use trading_bot.Base.Float.{Float}
use trading_bot.Engine.Errors.{Result, ok, err, state_error}
use trading_bot.Engine.State.{EngineState, schema, fresh_state}

-- `encode` is `json.dumps(asdict(state), sort_keys=True)`. `decode` is `json.loads` of a body: the
-- dict that it gives is a state if its keys are the schema's, `none` otherwise. Digests are compared
-- by `==`.
pub record Codec (F : Type 0) : Type 1 where
  pub Text : Type 0
  pub Digest : Type 0
  pub same : Digest → Digest → Bool
  pub encode : EngineState F → Text
  pub decode : Text → Option (EngineState F)
  pub sha256 : Text → Digest
  pub outer_dumps : Text → Digest → Text
  pub outer_loads : Text → Option (Text × Digest)

-- What json documents: loads inverts dumps.
pub record IsFaithful {F : Type 0} (c : Codec F) : Type 0 where
  pub same_refl : (d : c.Digest) → c.same d d ≡ true
  pub decode-encode : (s : EngineState F) → c.decode (c.encode s) ≡ some s
  pub outer_loads-dumps :
      (b : c.Text) (d : c.Digest) → c.outer_loads (c.outer_dumps b d) ≡ some (b, d)

module _ {F : Type 0} (c : Codec F) where
  open c use {Text, Digest, same, encode, decode, sha256, outer_dumps, outer_loads}

  pub serialize : EngineState F → Text
  serialize s = let body = encode s in outer_dumps body (sha256 body)

  check_schema : Option (EngineState F) → Option (EngineState F)
  check_schema none = none
  check_schema (some s) = if s.schema_version == schema then some s else none

  check_digest : Option (Text × Digest) → Option (EngineState F)
  check_digest none = none
  check_digest (some (body, digest)) =
      if same (sha256 body) digest then check_schema (decode body) else none

  -- `none` is any exception.
  pub deserialize : Text → Option (EngineState F)
  deserialize text = check_digest (outer_loads text)

  -- The files of the store; `none` is a file that does not exist.
  pub record Files : Type 0 where
    pub main : Option Text
    pub bak : Option Text
    pub tmp : Option Text

  abbrev or_refuse : Option (EngineState F) → Result (EngineState F)
  or_refuse none = err state_error
  or_refuse (some s) = ok s

  load_backup : ⦃f : Float F⦄ → Bool → Option Text → Result (EngineState F)
  load_backup allow_fresh none = if allow_fresh then ok fresh_state else err state_error
  load_backup allow_fresh (some text) = err state_error

  load_main : ⦃f : Float F⦄ → Bool → Option Text → Option Text → Result (EngineState F)
  load_main allow_fresh (some text) bak = or_refuse (deserialize text)
  load_main allow_fresh none bak = load_backup allow_fresh bak

  -- A file that is there and cannot be read is a refusal; so is a backup without a main file.
  pub load : ⦃f : Float F⦄ → Bool → Files → Result (EngineState F)
  unfolding load_main load_backup
  load allow_fresh fs = load_main allow_fresh fs.main fs.bak

  pub write_tmp : Text → Files → Files
  write_tmp text fs = record fs { tmp = some text }

  abbrev is_valid_text : Option (EngineState F) → Bool
  is_valid_text none = false
  is_valid_text (some s) = true

  backup_of : Option Text → Files → Files
  backup_of none fs = fs
  backup_of (some text) fs =
      if is_valid_text (deserialize text) then record fs { main = none; bak = some text } else fs

  -- Only a main file that can be read becomes the backup.
  pub back_up : Files → Files
  unfolding backup_of
  back_up fs = backup_of fs.main fs

  promote_of : Option Text → Files → Files
  promote_of none fs = fs
  promote_of (some text) fs = record fs { main = some text; tmp = none }

  promote : Files → Files
  unfolding promote_of
  promote fs = promote_of fs.tmp fs

  pub save : EngineState F → Files → Files
  unfolding write_tmp back_up promote
  save s fs = promote (back_up (write_tmp (serialize s) fs))

  -- What a crash inside `save s` may leave: nothing done, a temporary file cut short or not yet
  -- synced (any text), the new text beside the old file, no main file, or all of it.
  pub data Interrupted (s : EngineState F) (fs : Files) : Files → Type 0 where
    untouched : Interrupted s fs fs
    torn : (text : Text) → Interrupted s fs (write_tmp text fs)
    backed_up : Interrupted s fs (back_up (write_tmp (serialize s) fs))
    finished : Interrupted s fs (save s fs)

  -- A state that a crash of `save s` leaves loadable is the one that loaded before, or `s`.
  abbrev pub Survives : ⦃f : Float F⦄ → Bool → EngineState F → Files → Files → Type 0
  Survives b s fs gs =
      (load b gs ≡ load b fs) ⊎ ((load b gs ≡ ok s) ⊎ (load b gs ≡ err state_error))

-- ===== src/Engine/State/Store/Recovery.antt =====
-- Loading after a save, and after a save that a crash interrupted.
use trading_bot.Base.{◌≡◌, refl, ◌∙◌, ◌⊎◌, inl, inr, Bool, false, none, some, arith}
use trading_bot.Base.Float.{Float}
use trading_bot.Engine.Errors.{ok, err, state_error}
use trading_bot.Engine.State.{EngineState, schema}
use trading_bot.Engine.State.Store.{
  Codec, IsFaithful, serialize, check_schema, check_digest, deserialize, Files, load, load_main,
  load_backup, write_tmp, back_up, backup_of, promote, promote_of, save, Interrupted, untouched,
  torn, backed_up, finished, Survives,
}

module _ {F : Type 0} ⦃f : Float F⦄ (c : Codec F) (laws : IsFaithful c) where
  -- A state of the current schema comes back from its text.
  pub deserialize-serialize :
      (s : EngineState F) → s.schema_version ≡ schema → deserialize c (serialize c s) ≡ some s
  unfolding deserialize serialize check_digest check_schema
  deserialize-serialize s h =
      rw (laws.outer_loads-dumps (c.encode s) (c.sha256 (c.encode s)))
        (rw (laws.same_refl (c.sha256 (c.encode s)), laws.decode-encode s) (ground arith))

  -- What was saved is what loads, whatever files were there before.
  pub load-save :
      (s : EngineState F) (fs : Files c) (allow_fresh : Bool)
      → s.schema_version ≡ schema
      → load c allow_fresh (save c s fs) ≡ ok s
  unfolding save load write_tmp back_up promote backup_of promote_of
  load-save s fs b h = ground (arith, deserialize-serialize s h)

  -- The backup after a save is the file that was replaced, if that could be read. A corrupt file
  -- never takes the place of the backup.
  pub bak-save :
      (s : EngineState F) (fs : Files c)
      → ((t : EngineState F) (text : c.Text)
          → fs.main ≡ some text
          → deserialize c text ≡ some t
          → (save c s fs).bak ≡ some text)
        × ((text : c.Text)
            → fs.main ≡ some text
            → deserialize c text ≡ none
            → (save c s fs).bak ≡ fs.bak)
  unfolding save write_tmp back_up promote backup_of promote_of
  bak-save s fs = (λ t text e h. ground arith, λ text e h. ground arith)

  load-torn :
      (fs : Files c) (text : c.Text) (b : Bool) → load c b (write_tmp c text fs) ≡ load c b fs
  unfolding load write_tmp
  load-torn fs text b = refl

  -- Once the main file is moved away there is a backup, and that is a refusal.
  load-back_up :
      (fs : Files c) (b : Bool)
      → (load c b (back_up c fs) ≡ load c b fs) ⊎ (load c b (back_up c fs) ≡ err state_error)
  unfolding load back_up backup_of load_main load_backup
  load-back_up fs b = ground arith

  load-back_up_torn :
      (s : EngineState F) (fs : Files c) (text : c.Text) (b : Bool)
      → Survives c b s fs (back_up c (write_tmp c text fs))
  load-back_up_torn s fs text b = elim (load-back_up (write_tmp c text fs) b) [
    | inl same ↦ inl (same ∙ load-torn fs text b)
    | inr refused ↦ inr (inr refused)
  ]

  -- A crash of `save` never brings back an older state: each file set that it may leave loads what
  -- it loaded before, or the new state, or is refused.
  pub Interrupted-Survives :
      (s : EngineState F) (fs gs : Files c) (allow_fresh : Bool)
      → s.schema_version ≡ schema
      → Interrupted c s fs gs
      → Survives c allow_fresh s fs gs
  Interrupted-Survives s fs gs b h untouched = inl refl
  Interrupted-Survives s fs gs b h (torn text) = inl (load-torn fs text b)
  Interrupted-Survives s fs gs b h backed_up = load-back_up_torn s fs (serialize c s) b
  Interrupted-Survives s fs gs b h finished = inr (inl (load-save s fs b h))

module _ {F : Type 0} ⦃f : Float F⦄ (c : Codec F) where
  -- What loads is of the current schema.
  pub load-schema :
      (fs : Files c) (s : EngineState F) → load c false fs ≡ ok s → s.schema_version ≡ schema
  unfolding load load_main load_backup deserialize check_digest check_schema
  load-schema fs s h = ground (arith, h)

-- ===== src/Engine/State/Store/Documents.antt =====
-- Texts that are the states themselves, with a digest of one field.
use trading_bot.Base.{ℕ, ◌+◌, refl, Option, some, none}
use trading_bot.Base.Checks.{◌==◌, ==_refl}
use trading_bot.Base.Float.Milli.{Milli}
use trading_bot.Engine.State.{EngineState}
use trading_bot.Engine.State.Store.{Codec, IsFaithful}

pub data Document : Type 0 where
  garbage : Document
  body : EngineState Milli → Document
  outer : Document → ℕ → Document

abbrev pub as_body : Document → Option (EngineState Milli)
as_body (body s) = some s
as_body _ = none

abbrev pub digest_of : Document → ℕ
digest_of (body s) = s.rebalance_retries + 7
digest_of _ = 0

abbrev pub unwrap : Document → Option (Document × ℕ)
unwrap (outer b d) = some (b, d)
unwrap _ = none

abbrev pub codec : Codec Milli
codec = record {
  Text = Document;
  Digest = ℕ;
  same = ◌==◌;
  encode = body;
  decode = as_body;
  sha256 = digest_of;
  outer_dumps = outer;
  outer_loads = unwrap;
}

pub codec-IsFaithful : IsFaithful codec
codec-IsFaithful = record {
  same_refl = ==_refl;
  decode-encode = λ s. refl;
  outer_loads-dumps = λ b d. refl;
}

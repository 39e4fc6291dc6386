-- ===== src/World.antt =====
-- What the daemon calls and does not implement: the hash, the clock's format, the JSON serialiser,
-- the URL parser, case folding and the database engine. Every module takes one value of `World`.
use nikki.Prelude.{ℕ, Bool, Option, List, Text, ℤ}
use nikki.Record.{Envelope}

-- What the source reads off a parsed `url::Url`.
pub record Url : Type 0 where
  pub scheme : Text
  pub host : Option Text
  pub port : Option ℕ
  pub cannot_be_a_base : Bool

pub record World : Type 0 where
  -- `Sha256::digest`
  pub sha256 : Text → List ℕ
  -- `Timestamp::to_rfc3339` over `chrono`
  pub to_rfc3339 : ℤ → Text
  -- `serde_json::to_string` on an envelope; `none` is its error
  pub to_json : Envelope → Option Text
  -- `Url::parse`; `none` is its error
  pub parse_url : Text → Option Url
  -- `str::to_lowercase`
  pub to_lowercase : Text → Text
  -- what the engine answers to its n-th statement; `none` is success
  pub fault : ℕ → Option Text

-- ===== src/Record.antt =====
-- src/runtime/mod.rs: the records that providers draft and the envelopes that the buffer seals.
-- `Record/Dedup.antt` has the deduplication keys of src/runtime/dedup.rs and the sealing.
pub mod Dedup
pub mod Keys
pub mod Tests
use nikki.Prelude.{ℕ, Bool, Option, Text, codes, ℤ}
use nikki.Json.{Value}

pub data Provider : Type 0 where
  windows browser_history claude_code : Provider

pub data Kind : Type 0 where
  tick focus state_change lock unlock sleep wake buffer_overflow visit message session touch : Kind

unfoldable pub provider_name : Provider → Text
provider_name windows = codes "windows"
provider_name browser_history = codes "browser_history"
provider_name claude_code = codes "claude_code"

unfoldable pub kind_name : Kind → Text
kind_name tick = codes "tick"
kind_name focus = codes "focus"
kind_name state_change = codes "state_change"
kind_name lock = codes "lock"
kind_name unlock = codes "unlock"
kind_name sleep = codes "sleep"
kind_name wake = codes "wake"
kind_name buffer_overflow = codes "buffer_overflow"
kind_name visit = codes "visit"
kind_name message = codes "message"
kind_name session = codes "session"
kind_name touch = codes "touch"

-- Milliseconds since the epoch, an `i64`.
abbrev pub Timestamp : Type 0
Timestamp = ℤ

pub record Cursor : Type 0 where
  pub provider : Provider
  pub key : Text
  pub value : Text

-- `profile`, `generation`, `visit_id`; `session_id`, `uuid`, `block`; `session_id`, `field`,
-- `value`; `session_id`, `uuid`, `repo`, `action`.
pub data KeySource : Type 0 where
  windows_key : KeySource
  browser_visit : Text → ℕ → ℤ → KeySource
  claude_message : Text → Text → ℕ → KeySource
  claude_session : Text → Text → Text → KeySource
  claude_touch : Text → Text → Text → Text → KeySource

pub record RecordDraft : Type 0 where
  pub provider : Provider
  pub kind : Kind
  pub ts : Timestamp
  pub degraded : Bool
  pub payload : Value
  pub key : KeySource

pub record Envelope : Type 0 where
  pub provider : Provider
  pub device : Text
  pub ts : Timestamp
  pub seq : ℕ
  pub kind : Kind
  pub dedup_key : Text
  pub degraded : Bool
  pub payload : Value

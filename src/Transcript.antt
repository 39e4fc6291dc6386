-- ===== src/Transcript.antt =====
-- src/providers/claude_code.rs: what a transcript is and what reading it takes. `Transcript/Drafts` has
-- the records of a line, `Transcript/Reading` the reading of a file from its cursor, and
-- `Transcript/Shipping` the provider that ships the files.
pub mod Values
pub mod Keys
pub mod Messages
pub mod Touching
pub mod Drafts
pub mod Reading
pub mod Shipping
pub mod Tests
use nikki.Prelude.{ℕ, ◌*◌, Bool, true, false, Option, none, some, List, Text, ℤ}
use nikki.Json.{Value, Items, Fields, object, string, array, bool, get}
use nikki.Record.{RecordDraft}

-- What the provider calls and does not implement.
pub record Externals : Type 0 where
  -- `serde_json::from_slice` on a line; `none` is its error
  pub parse_json : Text → Option Value
  -- `DateTime::parse_from_rfc3339`, in milliseconds
  pub parse_rfc3339 : Text → Option ℤ
  -- `str::trim_start`
  pub trim_start : Text → Text
  -- `str::split` at white space
  pub split_whitespace : Text → List Text
  -- `RepoLookup::repo_of`
  pub repo_of : Text → Option Text
  -- `Sha256::digest`
  pub sha256 : Text → List ℕ
  -- how `BufReader` cuts what is left of a file into the chunks of its buffer
  pub chunks : Text → List Text

pub data Identity : Type 0 where
  by_inode by_head : Identity

pub data Touches : Type 0 where
  collected skipped : Touches

pub record FileCursor : Type 0 where
  pub inode : ℕ
  pub offset : ℕ
  pub last_message_ts : Option ℤ
  pub version : ℕ
  pub head : Option Text
  pub skipping : Bool

pub record ReadBudget : Type 0 where
  pub max_records : ℕ
  pub max_bytes : ℕ
  pub max_scan_bytes : ℕ

pub record Source : Type 0 where
  pub profile : Text
  pub identity : Identity
  pub touches : Touches
  pub since : Option ℤ

pub record LineContext : Type 0 where
  pub profile : Text
  pub touches : Touches
  pub fallback_session_id : Text
  pub last_message_ts : Option ℤ
  pub file_modified : ℤ

pub record LineOutcome : Type 0 where
  pub drafts : List RecordDraft
  pub message_ts : Option ℤ

pub record Increment : Type 0 where
  pub drafts : List RecordDraft
  pub cursor : FileCursor

abbrev pub read_budget : ReadBudget
read_budget = record {
  max_records = 500;
  max_bytes = 4 * 1024 * 1024;
  max_scan_bytes = 32 * 1024 * 1024;
}

abbrev pub cursor_version : ℕ
cursor_version = 1

abbrev pub head_hex_chars : ℕ
head_hex_chars = 16

abbrev pub max_line_bytes : ℕ
max_line_bytes = 32 * 1024 * 1024

abbrev pub head_hash_bytes : ℕ
head_hash_bytes = 64 * 1024

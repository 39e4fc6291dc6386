-- ===== src/Transcript/Shipping.antt =====
-- src/providers/claude_code.rs: `ClaudeCodeProvider`, which ships the transcripts below its roots and
-- imports, and runs the commands that pull the imports. Paths are texts.
pub mod Ticks
pub mod Cursors
pub mod Known
pub mod Whole
use nikki.Prelude.{
  ℕ, zero, suc, ◌+◌, ◌-◌, ◌*◌, ◌^◌, Bool, true, false, not, Option, none, some, List, [], ◌∷◌, ◌++◌,
  Text, codes, text_eq, ℤ, pos, ◌-ℤ◌, sub_ℕ, pos_part, neg_part, ltb_ℤ, ltb, leb, ◌==◌, length,
  drop, decimal, min, and_then, if◌then◌else◌,
}
use nikki.Record.{RecordDraft, Cursor, claude_code}
use nikki.Providers.{Emission, awaiting_buffer, for_device}
use nikki.Config.{Pull, ClaudeRoot, ClaudeImport}
use nikki.Transcript.{
  Externals, Identity, by_inode, by_head, Touches, collected, skipped, FileCursor, ReadBudget,
  Source, Increment, cursor_version, read_budget,
}
use nikki.Transcript.Reading.{File, Reading, failed, unfinished, nothing_new, read, read_increment}

abbrev pub stderr_tail_bytes : ℕ
stderr_tail_bytes = 512

-- What becomes of an emission: the runtime's end of the channel is gone, the acknowledgement is dropped,
-- or it comes.
pub data Delivery : Type 0 where
  gone lost buffered : Delivery

-- What the buffer answers to a request for a cursor.
pub data Lookup : Type 0 where
  refused : Text → Lookup
  found : Option Text → Lookup

-- What is met in a directory. `none` in a listing is an entry that cannot be read, `none` for a listing a
-- directory that cannot.
pub record Entry : Type 0 where
  pub path : Text
  pub extension : Option Text
  pub is_file : Bool

pub record Project : Type 0 where
  pub path : Text
  pub is_dir : Bool
  pub entries : Option (List (Option Entry))

-- What the provider finds around it. Every call of it has a number, and its answer depends on that.
pub record Outside : Type 0 where
  pub now : ℕ → ℤ
  pub disk : ℕ → Text → Option File
  pub projects : ℕ → Text → Option (List (Option Project))
  pub stored : ℕ → Text → Lookup
  pub delivery : ℕ → Delivery
  -- `FileCursor` and `PullSchedule`, by `serde_json`
  pub encode_cursor : FileCursor → Text
  pub parse_cursor : Text → Option FileCursor
  pub encode_schedule : ℤ → Text
  pub parse_schedule : Text → Option ℤ
  -- `to_string_lossy`, and the order that `sort` puts paths in
  pub to_string_lossy : Text → Text
  pub sort : List Text → List Text

-- `known` is the map, its last entry first, and `unreadable` the set of paths. `sent` has the emissions
-- in their order, and `asked` counts the calls of what is outside.
pub record ClaudeCodeProvider : Type 0 where
  pub known : List (Text × Option FileCursor)
  pub unreadable : List Text
  pub sent : List Emission
  pub asked : ℕ

-- The flow or the error; `unended` is a loop without fuel.
pub data Flow : Type 0 where
  go_on runtime_gone : Flow
  provider_error : Text → Flow
  unended : Flow

pub record Shipped : Type 0 where
  pub profile : Text
  pub identity : Identity
  pub touches : Touches
  pub since : Option ℤ
  pub device : Option Text

abbrev pub asked_once : ClaudeCodeProvider → ClaudeCodeProvider
asked_once s = record s { asked = suc s.asked }

unfoldable pub remove : Text → List Text → List Text
remove p [] = []
remove p (q ∷ qs) = if text_eq p q then remove p qs else q ∷ remove p qs

unfoldable pub contains : Text → List Text → Bool
contains p [] = false
contains p (q ∷ qs) = if text_eq p q then true else contains p qs

-- `HashSet::insert`
unfoldable pub insert : Text → List Text → List Text
insert p qs = if contains p qs then qs else p ∷ qs

-- `HashMap::get`
unfoldable pub lookup : Text → List (Text × Option FileCursor) → Option (Option FileCursor)
lookup k [] = none
lookup k ((l, v) ∷ known) = if text_eq k l then some v else lookup k known

unfoldable pub source_of : Shipped → Source
source_of reading = record {
  profile = reading.profile;
  identity = reading.identity;
  touches = reading.touches;
  since = reading.since;
}

unfoldable pub pull_key : Text → Text
pull_key device = codes "import-pull:" ++ device

abbrev pub i64_max : ℕ
i64_max = 2 ^ 63 - 1

-- A difference of two `i64`, which is not negative, as the `i64` that it wraps to.
unfoldable pub wrap_i64 : ℕ → ℤ
wrap_i64 n = if ltb i64_max n then sub_ℕ n (2 ^ 64) else pos n

unfoldable pub every_millis : ℕ → ℕ
every_millis every = min (min every i64_max * 1000) i64_max

unfoldable pub pull_due : Option ℤ → ℤ → ℕ → Bool
unfolding wrap_i64 every_millis
pull_due none now every = true
pull_due (some last_attempt) now every =
    if ltb_ℤ now last_attempt
    then false
    else not (ltb_ℤ (wrap_i64 (pos_part (now -ℤ last_attempt))) (pos (every_millis every)))

-- The loop of `read_tail`, over the chunks that are read.
unfoldable pub read_tail : ℕ → Text → List Text → Text
read_tail max_bytes tail [] = tail
read_tail max_bytes tail (chunk ∷ chunks) =
    let longer = tail ++ chunk in
    let rest =
      read_tail max_bytes
        (if ltb max_bytes (length longer) then drop (length longer - max_bytes) longer else longer)
        chunks in
    if length chunk == 0 then tail else rest

module _ (o : Outside) where
  unfoldable pub cursor_key : Text → Option Text → Text
  cursor_key path none = o.to_string_lossy path
  cursor_key path (some device) =
      codes "import-file:"
      ++ (decimal (length device)
          ++ (codes ":" ++ (device ++ (codes ":" ++ o.to_string_lossy path))))

  -- A cursor of an older version counts as none.
  unfoldable pub up_to_date : Option FileCursor → Option FileCursor
  up_to_date none = none
  up_to_date (some cursor) = if ltb cursor.version cursor_version then none else some cursor

  unfoldable pub decode : Text → Option FileCursor
  unfolding up_to_date
  decode value = up_to_date (o.parse_cursor value)

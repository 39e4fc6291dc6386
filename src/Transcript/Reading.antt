-- ===== src/Transcript/Reading.antt =====
-- src/providers/claude_code.rs: `read_increment`, which reads the lines of a transcript from its cursor
-- within a budget, and what it calls.
pub mod Skips
pub mod Lines
pub mod Ends
pub mod Resume
use nikki.Prelude.{
  ℕ, zero, suc, ◌+◌, ◌-◌, ◌*◌, ◌/◌, ◌^◌, Bool, true, false, not, Option, none, some, List, [], ◌∷◌,
  ◌++◌, Text, codes, text_eq, ℤ, pos, ltb_ℤ, ltb, leb, ◌==◌, ◌||◌, ◌&&◌, length, take, drop, min,
  and_then, unwrap_or, if◌then◌else◌,
}
use nikki.Json.{Value, object, get}
use nikki.Record.{RecordDraft}
use nikki.Record.Dedup.{hex}
use nikki.Transcript.{
  Externals, Identity, by_inode, by_head, FileCursor, ReadBudget, Source, LineContext, LineOutcome,
  Increment, cursor_version, head_hex_chars, max_line_bytes, head_hash_bytes,
}
use nikki.Transcript.Values.{as_str, get_value}
use nikki.Transcript.Drafts.{drafts_from_line}

-- A transcript on disk: its metadata, and what reading it gives. `modified` is in milliseconds since the
-- epoch, and `none` when the system does not say or it lies before that.
pub record File : Type 0 where
  pub inode : ℕ
  pub size : ℕ
  pub modified : Option ℤ
  pub stem : Text
  pub content : Text

pub data Reading : Type 0 where
  failed : Reading
  unfinished : Reading
  nothing_new : Reading
  read : Increment → Reading

abbrev pub newline : ℕ
newline = 10

-- `line.last() == Some(&b'\n')`
unfoldable pub ends_line : Text → Bool
ends_line [] = false
ends_line (c ∷ []) = c == newline
ends_line (c ∷ d ∷ s) = ends_line (d ∷ s)

-- `reader.take(cap).read_until(b'\n', &mut line)`
unfoldable pub read_until : ℕ → Text → Text
read_until zero s = []
read_until (suc cap) [] = []
read_until (suc cap) (c ∷ s) = if c == newline then c ∷ [] else c ∷ read_until cap s

-- `chunk.iter().position(|byte| *byte == b'\n')`
unfoldable pub position : Text → Option ℕ
position [] = none
position (c ∷ s) =
    if c == newline then some 0 else elim (position s) [ none ↦ none | some n ↦ some (suc n) ]

pub record Skipped : Type 0 where
  pub bytes : ℕ
  pub reached_newline : Bool

-- The loop of `skip_through_newline` over the chunks that the reader serves; an empty one is the end of
-- the file.
unfoldable pub skip_chunks : ℕ → ℕ → List Text → Skipped
skip_chunks limit bytes [] = record { bytes = bytes; reached_newline = false }
skip_chunks limit bytes (chunk ∷ chunks) =
    let window = min (length chunk) (limit - bytes) in
    let rest = skip_chunks limit (bytes + window) chunks in
    if ltb bytes limit && not (length chunk == 0)
    then elim (position (take window chunk)) [
      | none ↦ rest
      | some n ↦ record { bytes = bytes + n + 1; reached_newline = true }
    ]
    else record { bytes = bytes; reached_newline = false }

unfoldable pub skip_through_newline : ℕ → List Text → Skipped
skip_through_newline limit chunks = skip_chunks limit 0 chunks

unfoldable pub modified_millis : Option ℤ → ℤ → ℤ
modified_millis none now = now
modified_millis (some since_epoch) now = since_epoch

-- The file from its start.
unfoldable pub from_start : ℕ → Option Text → FileCursor
from_start inode head = record {
  inode = inode;
  offset = 0;
  last_message_ts = none;
  version = cursor_version;
  head = head;
  skipping = false;
}

unfoldable pub start_by_inode : Option FileCursor → ℕ → ℕ → FileCursor
start_by_inode none inode size = from_start inode none
start_by_inode (some cursor) inode size =
    if cursor.inode == inode && leb cursor.offset size then cursor else from_start inode none

unfoldable pub same_head : Option Text → Text → Bool
same_head none head = false
same_head (some h) head = text_eq h head

unfoldable pub start_by_head : Option FileCursor → Text → ℕ → ℕ → Option FileCursor
start_by_head none head inode size = some (from_start inode (some head))
start_by_head (some cursor) head inode size =
    if same_head cursor.head head
    then if ltb size cursor.offset then none else some (record cursor { inode = inode })
    else some (from_start inode (some head))

-- What the loop of `read_increment` changes: what is left of the file, and its variables.
pub record Scan : Type 0 where
  pub rest : Text
  pub offset : ℕ
  pub last_message_ts : Option ℤ
  pub skipping : Bool
  pub drafts : List RecordDraft
  pub text_bytes : ℕ

-- A round ends with the loop or goes on.
pub data Round : Type 0 where
  stop : Scan → Round
  next : Scan → Round

-- `payload.get("text").and_then(Value::as_str).map_or(0, str::len)`
unfoldable pub text_length : RecordDraft → ℕ
text_length draft = length (unwrap_or (and_then (get_value (codes "text") draft.payload) as_str) [])

unfoldable pub is_before : Option ℤ → ℤ → Bool
is_before none ts = false
is_before (some since) ts = ltb_ℤ ts since

-- The loop over the drafts of a line.
unfoldable pub keep_draft : Option ℤ → RecordDraft → Scan → Scan
keep_draft since draft s =
    if is_before since draft.ts
    then s
    else record s { text_bytes = s.text_bytes + text_length draft; drafts = s.drafts ++ draft ∷ [] }

unfoldable pub keep_drafts : Option ℤ → List RecordDraft → Scan → Scan
keep_drafts since [] s = s
keep_drafts since (draft ∷ drafts) s = keep_drafts since drafts (keep_draft since draft s)

abbrev pub or_keep : Option ℤ → Option ℤ → Option ℤ
or_keep none old = old
or_keep (some ts) old = some ts

unfoldable pub context_of : Source → Text → ℤ → Option ℤ → LineContext
context_of source stem modified last_message_ts = record {
  profile = source.profile;
  touches = source.touches;
  fallback_session_id = stem;
  last_message_ts = last_message_ts;
  file_modified = modified;
}

-- What a whole line adds, once it has been read.
unfoldable pub take_outcome : Source → LineOutcome → Scan → Scan
take_outcome source outcome s =
    keep_drafts source.since outcome.drafts
      (record s { last_message_ts = or_keep outcome.message_ts s.last_message_ts })

-- The cap on the next line: the first of a reading may be as long as a line may be.
unfoldable pub read_cap : ReadBudget → ℕ → ℕ → ℕ → ℕ
read_cap budget start line_cap offset =
    if offset - start == 0
    then line_cap
    else min line_cap (budget.max_scan_bytes - (offset - start))

unfoldable pub advanced : Text → Scan → Scan
advanced line s = record s { rest = drop (length line) s.rest; offset = s.offset + length line }

line_cap_of : Identity → ℕ
line_cap_of by_head = max_line_bytes
line_cap_of by_inode = 2 ^ 64 - 1

increment_of : ℕ → FileCursor → Option Scan → Reading
increment_of inode start none = unfinished
increment_of inode start (some s) =
    if s.offset == start.offset
    then nothing_new
    else read (record {
      drafts = s.drafts;
      cursor = record {
        inode = inode;
        offset = s.offset;
        last_message_ts = s.last_message_ts;
        version = cursor_version;
        head = start.head;
        skipping = s.skipping;
      };
    })

abbrev pub scan_from : FileCursor → Text → Scan
scan_from start content = record {
  rest = drop start.offset content;
  offset = start.offset;
  last_message_ts = start.last_message_ts;
  skipping = start.skipping;
  drafts = [];
  text_bytes = 0;
}

module _ (x : Externals) where
  unfoldable pub take_value : Source → Text → ℤ → Option Value → Scan → Scan
  take_value source stem modified none s = s
  take_value source stem modified (some value) s =
      take_outcome source
        (drafts_from_line x value (context_of source stem modified s.last_message_ts)) s

  unfoldable pub take_line : Source → Text → ℤ → Text → Scan → Scan
  take_line source stem modified line s = take_value source stem modified (x.parse_json line) s

  unfoldable pub head_digest : Text → Option Text
  head_digest content =
      let head = read_until head_hash_bytes content in
      if not (ends_line head) && ltb (length head) head_hash_bytes
      then none
      else some (hex (take (head_hex_chars / 2) (x.sha256 head)))

  module _ (source : Source) (budget : ReadBudget) (stem : Text) (modified : ℤ) (start : ℕ)
      (line_cap : ℕ) where
    -- Past a line that is too long.
    skip_round : Scan → Round
    skip_round s =
        let remaining = budget.max_scan_bytes - (s.offset - start) in
        let skipped = skip_through_newline remaining (x.chunks s.rest) in
        let after = record s {
          rest = drop skipped.bytes s.rest;
          offset = s.offset + skipped.bytes;
          skipping = not skipped.reached_newline;
        } in
        if skipped.reached_newline then next after else stop after

    line_round : Scan → Round
    line_round s =
        let cap = read_cap budget start line_cap s.offset in
        let line = read_until cap s.rest in
        if ends_line line
        then next (take_line source stem modified line (advanced line s))
        else if ltb (length line) cap || ltb cap line_cap
        then stop s
        else next (record (advanced line s) { skipping = true })

    pub round : Scan → Round
    unfolding skip_round line_round
    round s = if s.skipping then skip_round s else line_round s

    -- The condition of the loop.
    pub within : Scan → Bool
    within s =
        ltb (length s.drafts) budget.max_records
        && ltb s.text_bytes budget.max_bytes
        && ltb (s.offset - start) budget.max_scan_bytes

    unfoldable pub scan_loop : ℕ → Scan → Option Scan
    unfolding round within
    scan_loop zero s = none
    scan_loop (suc fuel) s = elim (within s) [
      | false ↦ some s
      | true ↦ elim (round s) [ stop after ↦ some after | next after ↦ scan_loop fuel after ]
    ]

  -- From the cursor that the reading starts at. The fuel is for one round more than there are bytes.
  pub read_from : File → ℤ → Source → ReadBudget → FileCursor → Reading
  unfolding increment_of line_cap_of
  read_from file now source budget start =
      if file.size == start.offset
      then nothing_new
      else increment_of file.inode start (
          scan_loop source budget file.stem (modified_millis file.modified now) start.offset
            (line_cap_of source.identity) (suc (length file.content))
            (scan_from start file.content))

  read_by : Identity → File → ℤ → Source → Option FileCursor → ReadBudget → Reading
  unfolding read_from
  read_by by_inode file now source cursor budget =
      read_from file now source budget (start_by_inode cursor file.inode file.size)
  read_by by_head file now source cursor budget = elim (head_digest file.content) [
    | none ↦ nothing_new
    | some head ↦ elim (start_by_head cursor head file.inode file.size) [
      | none ↦ nothing_new
      | some start ↦ read_from file now source budget start
    ]
  ]

  -- `none` is a file that cannot be read.
  unfoldable pub read_increment :
      Option File → ℤ → Source → Option FileCursor → ReadBudget → Reading
  unfolding read_by
  read_increment none now source cursor budget = failed
  read_increment (some file) now source cursor budget =
      read_by source.identity file now source cursor budget

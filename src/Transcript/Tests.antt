-- ===== src/Transcript/Tests.antt =====
-- A transcript of two whole lines and the start of a third, and the theorems about it.
use nikki.Prelude.{
  ◌+◌, ◌*◌, ◌≤◌, ◌≡◌, ◌↔◌, ◌⊎◌, inl, refl, false, true, Option, none, some, [], ◌∷◌, Text, codes,
  pos, arith, length,
}
use nikki.Json.{Value, object, field, empty, string, array, nil, item}
use nikki.Transcript.{Externals, by_inode, collected, FileCursor, Source, LineContext, read_budget}
use nikki.Transcript.Keys.{HasDistinctKeys}
use nikki.Transcript.Drafts.{drafts_from_line}
use nikki.Transcript.Drafts.Keys.{drafts_from_line-HasDistinctKeys}
use nikki.Transcript.Reading.{
  File, skip_through_newline, start_by_inode, from_start, read_increment,
}
use nikki.Transcript.Reading.Skips.{skipped_in, concat, skip_through_newline_lem}
use nikki.Transcript.Reading.Resume.{IsAmple, Reads, read_increment-Reads}
use nikki.Transcript.Shipping.{
  Outside, buffered, found, ClaudeCodeProvider, go_on, Shipped, cursor_key, lookup, pull_due,
  read_tail,
}
use nikki.Transcript.Shipping.Cursors.{
  end_of, all_read, cursor_key-injective, pull_due_lem, read_tail_lem,
}
use nikki.Transcript.Shipping.Ticks.{cursor_for, asked_for, ship_file}
use nikki.Transcript.Shipping.Whole.{IsQuiet, ShipsAll, ship_file-ShipsAll, ship_file-again}

-- Every line is a prompt with two blocks of text.
abbrev block : Value
block = object (
    field (codes "type") (string (codes "text")) (field (codes "text") (string (codes "hi")) empty))

abbrev prompt : Value
prompt = object (
    field (codes "type") (string (codes "user")) (
      field (codes "uuid") (string (codes "u")) (
        field (codes "timestamp") (string (codes "now")) (
          field (codes "message")
            (object (field (codes "content") (array (item block (item block nil))) empty)) empty))))

abbrev pub plain : Externals
plain = record {
  parse_json = λ s. some prompt;
  parse_rfc3339 = λ s. some (pos 7);
  trim_start = λ s. s;
  split_whitespace = λ s. s ∷ [];
  repo_of = λ s. none;
  sha256 = λ s. 1 ∷ [];
  chunks = λ s. s ∷ [];
}

abbrev two_lines : File
two_lines = record {
  inode = 9;
  size = 5;
  modified = some (pos 3);
  stem = codes "s";
  content = 120 ∷ 10 ∷ 121 ∷ 10 ∷ 122 ∷ [];
}

abbrev source : Source
source = record { profile = codes "p"; identity = by_inode; touches = collected; since = none }

skip_through_newline_example :
    skip_through_newline 4 ((120 ∷ 121 ∷ []) ∷ (122 ∷ 10 ∷ 120 ∷ []) ∷ [])
    ≡ skipped_in 4 (concat ((120 ∷ 121 ∷ []) ∷ (122 ∷ 10 ∷ 120 ∷ []) ∷ []))
skip_through_newline_example =
    skip_through_newline_lem 4 ((120 ∷ 121 ∷ []) ∷ (122 ∷ 10 ∷ 120 ∷ []) ∷ [])
      ((λ e. cc), ((λ e. cc), tt))

fresh_start : (start_by_inode none 9 5).skipping ≡ false
unfolding start_by_inode from_start
fresh_start = refl

ample : IsAmple read_budget
ample = record { records = omega arith; bytes = omega arith; scan = omega arith }

read_increment-Reads_example :
    Reads plain source read_budget two_lines
      (pos 1)
      (start_by_inode none 9 5)
      (read_increment plain (some two_lines) (pos 1) source none read_budget)
read_increment-Reads_example =
    read_increment-Reads plain source read_budget two_lines (pos 1) none ample refl refl
      (omega arith) fresh_start

-- Two of the drafts of a line are the blocks of the prompt.
abbrev context : LineContext
context = record {
  profile = codes "p";
  touches = collected;
  fallback_session_id = codes "s";
  last_message_ts = none;
  file_modified = pos 3;
}

drafts_from_line-HasDistinctKeys_example :
    HasDistinctKeys (drafts_from_line plain prompt context).drafts
drafts_from_line-HasDistinctKeys_example = drafts_from_line-HasDistinctKeys plain prompt context

abbrev pub outside : Outside
outside = record {
  now = λ n. pos n;
  disk = λ n path. some two_lines;
  projects = λ n path. none;
  stored = λ n key. found none;
  delivery = λ n. buffered;
  encode_cursor = λ c. c.offset ∷ [];
  parse_cursor = λ s. none;
  encode_schedule = λ t. [];
  parse_schedule = λ s. none;
  to_string_lossy = λ s. s;
  sort = λ s. s;
}

abbrev path : Text
path = codes "/f"

abbrev pub reading : Shipped
reading = record {
  profile = codes "p";
  identity = by_inode;
  touches = collected;
  since = none;
  device = some (codes "m");
}

abbrev idle : ClaudeCodeProvider
idle = record { known = []; unreadable = []; sent = []; asked = 0 }

abbrev opened : ClaudeCodeProvider
opened = record idle { known = (cursor_key outside path (some (codes "m")), none) ∷ []; asked = 1 }

quiet : IsQuiet plain outside path reading two_lines (pos 3)
quiet = record {
  by = refl;
  same = λ n. refl;
  modified = refl;
  size = refl;
  small = omega arith;
  taken = λ n. refl;
}

at_hand :
    ◌≡◌ {A = (Option FileCursor ⊎ Text) × ClaudeCodeProvider}
      (cursor_for plain outside path (some (codes "m")) idle)
      (inl none, opened)
unfolding cursor_for asked_for lookup
at_hand = refl

ship_file-ShipsAll_example :
    (t : ClaudeCodeProvider) × (ship_file plain outside path reading 6 idle ≡ (go_on, t))
    × ShipsAll plain outside path reading two_lines (pos 3) none idle t
ship_file-ShipsAll_example =
    ship_file-ShipsAll plain outside path reading two_lines (pos 3) quiet 6 none idle opened at_hand
      fresh_start (omega arith)

first_run : (t : ClaudeCodeProvider) × (ship_file plain outside path reading 6 idle ≡ (go_on, t))
first_run =
    let (t, ended, all) =
      ship_file-ShipsAll plain outside path reading two_lines (pos 3) quiet 6 none idle opened
        at_hand fresh_start (omega arith) in
    (t, ended)

ship_file-again_example :
    (u : ClaudeCodeProvider) × (ship_file plain outside path reading 6 first_run.0 ≡ (go_on, u))
    × (u.sent ≡ first_run.0.sent)
ship_file-again_example =
    ship_file-again plain outside path reading two_lines (pos 3) quiet 6 none idle opened
      first_run.0 at_hand fresh_start (omega arith) first_run.1

cursor_key-injective_example : (codes "/f" ≡ codes "/f") × (some (codes "m") ≡ some (codes "m"))
cursor_key-injective_example =
    cursor_key-injective outside path path (some (codes "m")) (some (codes "m")) (codes "f", refl)
      (codes "f", refl) (omega arith) (omega arith) refl

pull_due_example : (pull_due (some (pos 4000)) (pos 9000) 5 ≡ true) ↔ (4000 + 5 * 1000 ≤ 9000)
pull_due_example = pull_due_lem 4000 9000 5 (omega arith) (omega arith)

read_tail_example :
    (read_tail 3 [] (codes "ab" ∷ codes "cd" ∷ [])
      ≡ end_of 3 (all_read (codes "ab" ∷ codes "cd" ∷ [])))
    × (length (read_tail 3 [] (codes "ab" ∷ codes "cd" ∷ [])) ≤ 3)
read_tail_example = read_tail_lem 3 (codes "ab" ∷ codes "cd" ∷ [])

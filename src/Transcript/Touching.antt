-- ===== src/Transcript/Touching.antt =====
-- src/providers/claude_code.rs: `touch_drafts`, the repositories that the tools of a line touch.
pub mod Entries
use nikki.Prelude.{
  ℕ, suc, ◌+◌, Bool, true, false, not, Option, none, some, List, [], ◌∷◌, ◌++◌, Text, codes,
  text_eq, ℤ, pos, ltb, ◌==◌, ◌||◌, ◌&&◌, length, and_then, unwrap_or, or_else, if◌then◌else◌,
}
use nikki.Json.{
  Value, Items, Fields, object, field, empty, number, string, array, bool, nil, item, get,
}
use nikki.Record.{
  Provider, Kind, claude_code, message, session, touch, KeySource, claude_message, claude_session,
  claude_touch, RecordDraft,
}
use nikki.Transcript.{Externals, Touches, collected, skipped, LineContext, LineOutcome}
use nikki.Transcript.Values.{
  starts_with, get_value, as_str, as_array, as_object, as_bool, get_str, content_of, flag, nothing,
  session_id, text_blocks, line_timestamp,
}

pub data Action : Type 0 where
  edit read run : Action

unfoldable pub action_name : Action → Text
action_name edit = codes "edit"
action_name read = codes "read"
action_name run = codes "run"

-- `command.split(COMMAND_SEPARATORS)`
unfoldable pub is_separator : ℕ → Bool
is_separator c =
    c == b'"'
    || c == 39
    || c == b'`'
    || c == b';'
    || c == b'|'
    || c == b'&'
    || c == b'('
    || c == b')'
    || c == b'<'
    || c == b'>'
    || c == b'='
    || c == b','

push_first : ℕ → List Text → List Text
push_first c [] = (c ∷ []) ∷ []
push_first c (s ∷ ss) = (c ∷ s) ∷ ss

unfoldable pub split_separators : Text → List Text
unfolding push_first
split_separators [] = [] ∷ []
split_separators (c ∷ cs) =
    if is_separator c then [] ∷ split_separators cs else push_first c (split_separators cs)

-- `trim_end_matches(PATH_TRAILERS)`
unfoldable pub trim_trailers : Text → Text
trim_trailers [] = []
trim_trailers (c ∷ cs) = elim (trim_trailers cs) [
  | [] ↦ if c == b':' || c == b',' || c == b'.' then [] else c ∷ []
  | d ∷ ds ↦ c ∷ d ∷ ds
]

unfoldable pub looks_like_path : Text → Bool
looks_like_path token =
    ltb 1 (length token)
    && (starts_with token (codes "/")
        || starts_with token (codes "~/")
        || starts_with token (codes "$HOME/"))

path_tokens : List Text → List Text
path_tokens [] = []
path_tokens (token ∷ tokens) =
    let trimmed = trim_trailers token in
    if looks_like_path trimmed then trimmed ∷ path_tokens tokens else path_tokens tokens

split_pieces : List Text → List Text
split_pieces [] = []
split_pieces (piece ∷ pieces) = split_separators piece ++ split_pieces pieces

unfoldable pub same_action : Action → Action → Bool
same_action edit edit = true
same_action read read = true
same_action run run = true
same_action _ _ = false

-- `touched.contains(&entry)`
unfoldable pub touched_already : Text → Action → List (Text × Action) → Bool
touched_already repo action [] = false
touched_already repo action ((r, a) ∷ touched) =
    text_eq r repo && same_action a action || touched_already repo action touched

with_action : Action → List Text → List (Text × Action)
with_action action [] = []
with_action action (path ∷ paths) = (path, action) ∷ with_action action paths

-- The field of the input that a tool names its path in.
unfoldable pub tool_field : Text → Option (Text × Action)
tool_field name =
    if text_eq name (codes "Edit")
      || text_eq name (codes "Write")
      || text_eq name (codes "MultiEdit")
    then some (codes "file_path", edit)
    else if text_eq name (codes "NotebookEdit")
    then some (codes "notebook_path", edit)
    else if text_eq name (codes "Read")
    then some (codes "file_path", read)
    else if text_eq name (codes "Glob") || text_eq name (codes "Grep")
    then some (codes "path", read)
    else none

module _ (x : Externals) where
  unfoldable pub command_paths : Text → List Text
  unfolding path_tokens split_pieces
  command_paths s = path_tokens (split_pieces (x.split_whitespace s))

  unfoldable pub tool_paths : Text → Fields → List (Text × Action)
  unfolding with_action
  tool_paths name input =
      if text_eq name (codes "Bash")
      then elim (and_then (get (codes "command") input) as_str) [
        | none ↦ []
        | some s ↦ with_action run (command_paths s)
      ]
      else elim (tool_field name) [
        | none ↦ []
        | some (key, action) ↦ elim (and_then (get key input) as_str) [
          | none ↦ []
          | some path ↦ (path, action) ∷ []
        ]
      ]

  -- The inner loop of `touch_drafts`.
  touch_paths : List (Text × Action) → List (Text × Action) → List (Text × Action)
  touch_paths [] touched = touched
  touch_paths ((path, action) ∷ paths) touched = elim (x.repo_of path) [
    | none ↦ touch_paths paths touched
    | some repo ↦
        touch_paths paths
          (if touched_already repo action touched then touched else touched ++ (repo, action) ∷ [])
  ]

  -- The paths of a block, when it is the use of a tool.
  block_paths : Value → List (Text × Action)
  block_paths block =
      if text_eq (unwrap_or (get_str (codes "type") block) []) (codes "tool_use")
      then elim (get_str (codes "name") block) [
        | none ↦ []
        | some name ↦ elim (and_then (get_value (codes "input") block) as_object) [
          | none ↦ []
          | some input ↦ tool_paths name input
        ]
      ]
      else []

  touch_blocks : Items → List (Text × Action) → List (Text × Action)
  unfolding touch_paths block_paths
  touch_blocks nil touched = touched
  touch_blocks (item block blocks) touched =
      touch_blocks blocks (touch_paths (block_paths block) touched)

  unfoldable pub touch_draft : Text → Text → ℤ → Text × Action → RecordDraft
  touch_draft sid uuid ts (repo, action) = record {
    provider = claude_code;
    kind = touch;
    ts = ts;
    degraded = false;
    payload = object (
        field (codes "session_id") (string sid) (
          field (codes "uuid") (string uuid) (
            field (codes "repo") (string repo)
              (field (codes "action") (string (action_name action)) empty))));
    key = claude_touch sid uuid repo (action_name action);
  }

  touch_loop : Text → Text → ℤ → List (Text × Action) → List RecordDraft
  touch_loop sid uuid ts [] = []
  touch_loop sid uuid ts (entry ∷ entries) =
      touch_draft sid uuid ts entry ∷ touch_loop sid uuid ts entries

  unfoldable pub touch_drafts : Value → LineContext → List RecordDraft
  unfolding touch_loop touch_blocks
  touch_drafts line context =
      if flag line (codes "isSidechain") then [] else elim (get_str (codes "uuid") line) [
        | none ↦ []
        | some uuid ↦ elim (line_timestamp x line) [
          | none ↦ []
          | some ts ↦ elim (and_then (content_of line) as_array) [
            | none ↦ []
            | some blocks ↦ touch_loop (session_id line context) uuid ts (touch_blocks blocks [])
          ]
        ]
      ]

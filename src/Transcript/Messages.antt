-- ===== src/Transcript/Messages.antt =====
-- src/providers/claude_code.rs: `message_drafts`, one record for each block of text.
pub mod Blocks
use nikki.Prelude.{
  ℕ, suc, ◌+◌, Bool, true, false, not, Option, none, some, List, [], ◌∷◌, ◌++◌, Text, codes,
  text_eq, ℤ, pos, ltb, ◌==◌, ◌||◌, ◌&&◌, length, and_then, unwrap_or, or_else, if◌then◌else◌,
}
use nikki.Json.{
  Value, Items, Fields, object, field, empty, number, string, array, bool, nil, item, get,
}
use nikki.Record.{
  Provider, Kind, claude_code, message, session, touch, KeySource, claude_message, claude_session,
  claude_touch, RecordDraft,
}
use nikki.Transcript.{Externals, Touches, collected, skipped, LineContext, LineOutcome}
use nikki.Transcript.Values.{
  starts_with, get_value, as_str, as_array, as_object, as_bool, get_str, content_of, flag, nothing,
  session_id, text_blocks, line_timestamp,
}

pub data Role : Type 0 where
  user assistant : Role

pub data MessageKind : Type 0 where
  prompt command command_output notification compact_summary text : MessageKind

pub data LeadingTag : Type 0 where
  command_name command_message bash_input local_command_stdout local_command_stderr : LeadingTag
  bash_stdout bash_stderr task_notification : LeadingTag

unfoldable pub role_name : Role → Text
role_name user = codes "user"
role_name assistant = codes "assistant"

unfoldable pub message_kind_name : MessageKind → Text
message_kind_name prompt = codes "prompt"
message_kind_name command = codes "command"
message_kind_name command_output = codes "command_output"
message_kind_name notification = codes "notification"
message_kind_name compact_summary = codes "compact_summary"
message_kind_name text = codes "text"

abbrev pub leading_tags : List (Text × LeadingTag)
leading_tags =
    (codes "<command-name>", command_name)
    ∷ (codes "<command-message>", command_message)
    ∷ (codes "<bash-input>", bash_input)
    ∷ (codes "<local-command-stdout>", local_command_stdout)
    ∷ (codes "<local-command-stderr>", local_command_stderr)
    ∷ (codes "<bash-stdout>", bash_stdout)
    ∷ (codes "<bash-stderr>", bash_stderr)
    ∷ (codes "<task-notification>", task_notification)
    ∷ []

unfoldable pub message_kind : LeadingTag → MessageKind
message_kind command_name = command
message_kind command_message = command
message_kind bash_input = command
message_kind local_command_stdout = command_output
message_kind local_command_stderr = command_output
message_kind bash_stdout = command_output
message_kind bash_stderr = command_output
message_kind task_notification = notification

branch_field : Option Text → Fields → Fields
branch_field none rest = rest
branch_field (some []) rest = rest
branch_field (some (c ∷ cs)) rest = field (codes "git_branch") (string (c ∷ cs)) rest

module _ (x : Externals) where
  tag_in : Text → List (Text × LeadingTag) → Option LeadingTag
  tag_in s [] = none
  tag_in s ((prefix, tag) ∷ tags) = if starts_with s prefix then some tag else tag_in s tags

  -- `LeadingTag::of`
  unfoldable pub leading_tag : Text → Option LeadingTag
  unfolding tag_in
  leading_tag s = tag_in (x.trim_start s) leading_tags

  unfoldable pub kind_of_text : Role → Bool → Text → MessageKind
  kind_of_text assistant is_compact_summary s = text
  kind_of_text user true s = compact_summary
  kind_of_text user false s = elim (leading_tag s) [ none ↦ prompt | some tag ↦ message_kind tag ]

  -- One draft of the loop of `message_drafts`.
  unfoldable pub message_draft :
      Value → Role → Bool → LineContext → Text → ℤ → ℕ → Text → RecordDraft
  unfolding branch_field
  message_draft line role is_compact_summary context uuid ts block s = record {
    provider = claude_code;
    kind = message;
    ts = ts;
    degraded = false;
    payload = object (
        field (codes "session_id") (string (session_id line context)) (
          field (codes "uuid") (string uuid) (
            field (codes "block") (number (pos block)) (
              field (codes "role") (string (role_name role)) (
                field (codes "message_kind")
                  (string (message_kind_name (kind_of_text role is_compact_summary s)))
                  (field (codes "text") (string s) (
                    field (codes "cwd") (string (unwrap_or (get_str (codes "cwd") line) [])) (
                      branch_field (get_str (codes "gitBranch") line)
                        (field (codes "profile") (string context.profile) empty)))))))));
    key = claude_message (session_id line context) uuid block;
  }

  message_loop : Value → Role → Bool → LineContext → Text → ℤ → ℕ → List Text → List RecordDraft
  message_loop line role summary context uuid ts block [] = []
  message_loop line role summary context uuid ts block (s ∷ ss) =
      message_draft line role summary context uuid ts block s
      ∷ message_loop line role summary context uuid ts (suc block) ss

  message_outcome : Value → Role → Bool → LineContext → Text → ℤ → List Text → LineOutcome
  unfolding message_loop
  message_outcome line role summary context uuid ts [] = nothing
  message_outcome line role summary context uuid ts (s ∷ ss) = record {
    drafts = message_loop line role summary context uuid ts 0 (s ∷ ss);
    message_ts = some ts;
  }

  -- What is left of `message_drafts` once the line is known to be wanted.
  message_body : Value → Role → Bool → LineContext → LineOutcome
  unfolding message_outcome
  message_body line role summary context = elim (get_str (codes "uuid") line) [
    | none ↦ nothing
    | some uuid ↦ elim (line_timestamp x line) [
      | none ↦ nothing
      | some ts ↦ message_outcome line role summary context uuid ts (text_blocks (content_of line))
    ]
  ]

  message_of_role : Role → Value → LineContext → LineOutcome
  unfolding message_body
  message_of_role user line context =
      if flag line (codes "isMeta")
      then nothing
      else message_body line user (flag line (codes "isCompactSummary")) context
  message_of_role assistant line context = message_body line assistant false context

  unfoldable pub message_drafts : Value → Role → LineContext → LineOutcome
  unfolding message_of_role
  message_drafts line role context =
      if flag line (codes "isSidechain") then nothing else message_of_role role line context

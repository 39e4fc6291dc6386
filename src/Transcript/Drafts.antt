-- ===== src/Transcript/Drafts.antt =====
-- src/providers/claude_code.rs: the records that one line of a transcript comes to.
pub mod Keys
use nikki.Prelude.{
  ℕ, suc, ◌+◌, Bool, true, false, not, Option, none, some, List, [], ◌∷◌, ◌++◌, Text, codes,
  text_eq, ℤ, pos, ltb, ◌==◌, ◌||◌, ◌&&◌, length, and_then, unwrap_or, or_else, if◌then◌else◌,
}
use nikki.Json.{
  Value, Items, Fields, object, field, empty, number, string, array, bool, nil, item, get,
}
use nikki.Record.{
  Provider, Kind, claude_code, message, session, touch, KeySource, claude_message, claude_session,
  claude_touch, RecordDraft,
}
use nikki.Transcript.{Externals, Touches, collected, skipped, LineContext, LineOutcome}
use nikki.Transcript.Values.{
  starts_with, get_value, as_str, as_array, as_object, as_bool, get_str, content_of, flag, nothing,
  session_id, text_blocks, line_timestamp,
}
use nikki.Transcript.Messages.{user, assistant, message_drafts}
use nikki.Transcript.Touching.{touch_drafts}

module _ (x : Externals) where
  unfoldable pub session_drafts : Value → Text → Text → LineContext → LineOutcome
  session_drafts line name value_key context = elim (get_str value_key line) [
    | none ↦ nothing
    | some [] ↦ nothing
    | some (c ∷ cs) ↦ record {
      drafts =
          record {
            provider = claude_code;
            kind = session;
            ts =
                unwrap_or (or_else (line_timestamp x line) context.last_message_ts)
                  context.file_modified;
            degraded = false;
            payload = object (
                field (codes "session_id") (string (session_id line context)) (
                  field (codes "field") (string name)
                    (field (codes "value") (string (c ∷ cs)) empty)));
            key = claude_session (session_id line context) name (c ∷ cs);
          }
          ∷ [];
      message_ts = none;
    }
  ]

  -- `outcome.drafts.push(draft)` for each draft of a touch.
  with_touches : Touches → Value → LineContext → LineOutcome → LineOutcome
  with_touches skipped line context outcome = outcome
  with_touches collected line context outcome = record outcome {
    drafts = outcome.drafts ++ touch_drafts x line context;
  }

  drafts_of_type : Text → Value → LineContext → LineOutcome
  unfolding with_touches
  drafts_of_type line_type line context =
      if text_eq line_type (codes "user")
      then message_drafts x line user context
      else if text_eq line_type (codes "assistant")
      then with_touches context.touches line context (message_drafts x line assistant context)
      else if text_eq line_type (codes "custom-title")
      then session_drafts line (codes "custom_title") (codes "customTitle") context
      else if text_eq line_type (codes "ai-title")
      then session_drafts line (codes "ai_title") (codes "aiTitle") context
      else if text_eq line_type (codes "pr-link")
      then session_drafts line (codes "pr") (codes "prUrl") context
      else nothing

  unfoldable pub drafts_from_line : Value → LineContext → LineOutcome
  unfolding drafts_of_type
  drafts_from_line line context = elim (get_str (codes "type") line) [
    | none ↦ nothing
    | some line_type ↦ drafts_of_type line_type line context
  ]

-- ===== src/Transcript/Drafts/Keys.antt =====
-- src/providers/claude_code.rs: the keys of all the records of a line.
use nikki.Prelude.{
  ℕ, ◌≢◌, inl, inr, sym, ◌∙◌, Bool, true, false, [], ◌∷◌, Text, codes, text_eq, All-mono,
  Option-cases, if◌then◌else◌,
}
use nikki.Json.{Value}
use nikki.Record.{RecordDraft, claude_message, claude_touch}
use nikki.Transcript.{Externals, Touches, collected, skipped, LineContext, LineOutcome}
use nikki.Transcript.Keys.{HasDistinctKeys, HasDistinctKeys-append, IsMessage, IsTouch}
use nikki.Transcript.Values.{get_str}
use nikki.Transcript.Messages.{user, assistant}
use nikki.Transcript.Messages.Blocks.{AreBlocks, message_drafts-AreBlocks}
use nikki.Transcript.Touching.{touch_drafts}
use nikki.Transcript.Touching.Entries.{touch_drafts-AreTouches}
use nikki.Transcript.Drafts.{session_drafts, with_touches, drafts_of_type, drafts_from_line}

module _ (x : Externals) (line : Value) (context : LineContext) where
  session_drafts-distinct :
      (name key : Text) → HasDistinctKeys (session_drafts x line name key context).drafts
  unfolding session_drafts
  session_drafts-distinct name key = elim (Option-cases (get_str key line)) [
    | inl h ↦ rw (session_drafts, h) tt
    | inr ([], h) ↦ rw (session_drafts, h) tt
    | inr (c ∷ cs, h) ↦ rw (session_drafts, h) (tt, tt)
  ]

  either :
      (b : Bool) (p q : LineOutcome)
      → HasDistinctKeys p.drafts
      → HasDistinctKeys q.drafts
      → HasDistinctKeys (if b then p else q).drafts
  either true p q hp hq = hp
  either false p q hp hq = hq

  message_touch_apart :
      (d e : RecordDraft) (sid uuid : Text) → IsMessage sid uuid 0 d → IsTouch e → d.key ≢ e.key
  message_touch_apart d e sid uuid (k, h, p) (sid', uuid', repo, action, q) same =
      apart sid uuid k sid' uuid' repo action (sym p ∙ same ∙ q)
    where
      apart :
          (sid uuid : Text) (k : ℕ) (sid' uuid' repo action : Text)
          → claude_message sid uuid k ≢ claude_touch sid' uuid' repo action
      apart sid uuid k sid' uuid' repo action h = cc

  with_touches-distinct :
      (touches : Touches) (outcome : LineOutcome)
      → AreBlocks outcome.drafts
      → HasDistinctKeys (with_touches x touches line context outcome).drafts
  unfolding with_touches
  with_touches-distinct skipped outcome h = h.0
  with_touches-distinct collected outcome (distinct, (sid, uuid, blocks)) =
      let (distinct', touches) = touch_drafts-AreTouches x line context in
      HasDistinctKeys-append outcome.drafts (touch_drafts x line context) distinct distinct' (
        All-mono _ _
          (λ d block.
            All-mono _ _ (λ e touch. message_touch_apart d e sid uuid block touch) _ touches)
          _ blocks)

  drafts_of_type-distinct :
      (line_type : Text) → HasDistinctKeys (drafts_of_type x line_type line context).drafts
  unfolding drafts_of_type
  drafts_of_type-distinct line_type =
      either (text_eq line_type (codes "user")) _ _ (message_drafts-AreBlocks x line user context).0
        (either (text_eq line_type (codes "assistant")) _ _
          (with_touches-distinct context.touches _
            (message_drafts-AreBlocks x line assistant context))
          (either (text_eq line_type (codes "custom-title")) _ _ (session_drafts-distinct _ _) (
            either (text_eq line_type (codes "ai-title")) _ _ (session_drafts-distinct _ _)
              (either (text_eq line_type (codes "pr-link")) _ _ (session_drafts-distinct _ _) tt))))

-- No two records of a line have the same key.
pub drafts_from_line-HasDistinctKeys :
    (x : Externals) (line : Value) (context : LineContext)
    → HasDistinctKeys (drafts_from_line x line context).drafts
unfolding drafts_from_line
drafts_from_line-HasDistinctKeys x line context =
    elim (Option-cases (get_str (codes "type") line)) [
      | inl h ↦ rw (drafts_from_line, h) tt
      | inr (line_type, h) ↦
          rw (drafts_from_line, h) (drafts_of_type-distinct x line context line_type)
    ]

-- ===== src/Transcript/Messages/Blocks.antt =====
-- src/providers/claude_code.rs: the keys of the messages of a line.
use nikki.Prelude.{
  ℕ, suc, ◌<◌, ◌≡◌, ◌≢◌, inl, inr, refl, ◌∙◌, Bool, false, none, some, List, [], ◌∷◌, Text, codes,
  ℤ, arith, All, All-mono, Bool-cases,
}
use nikki.Json.{Value}
use nikki.Record.{RecordDraft, claude_message}
use nikki.Transcript.{Externals, LineContext, LineOutcome}
use nikki.Transcript.Keys.{HasDistinctKeys, IsMessage}
use nikki.Transcript.Values.{
  flag, nothing, get_str, line_timestamp, session_id, text_blocks, content_of,
}
use nikki.Transcript.Messages.{
  Role, user, assistant, message_draft, message_loop, message_outcome, message_body,
  message_of_role, message_drafts,
}

blocks_apart :
    (sid uuid : Text) (m n : ℕ) → m < n → claude_message sid uuid m ≢ claude_message sid uuid n
blocks_apart sid uuid m n h e = let same : m ≡ n = cc in omega (arith, h, same)

-- What the drafts of a message are: nothing, or blocks of one message, numbered.
abbrev pub AreBlocks : List RecordDraft → Type 0
AreBlocks ds = HasDistinctKeys ds × ((sid : Text) × (uuid : Text) × All (IsMessage sid uuid 0) ds)

module _ (x : Externals) (line : Value) where
  message_loop-blocks :
      (role : Role) (summary : Bool) (context : LineContext) (uuid : Text) (ts : ℤ) (block : ℕ)
      (ss : List Text)
      → HasDistinctKeys (message_loop x line role summary context uuid ts block ss)
        × All
            (IsMessage (session_id line context) uuid block)
            (message_loop x line role summary context uuid ts block ss)
  unfolding message_loop message_draft
  message_loop-blocks role summary context uuid ts block [] = (tt, tt)
  message_loop-blocks role summary context uuid ts block (s ∷ ss) =
      let (distinct, later) = message_loop-blocks role summary context uuid ts (suc block) ss in
      (
        (
          All-mono _ _
              (λ e (k, h, q) same.
                blocks_apart (session_id line context) uuid block k (omega (arith, h)) (same ∙ q))
              _ later,
          distinct,
        ),
        (
          (block, (omega arith), refl),
          All-mono _ _ (λ e (k, h, q). (k, (omega (arith, h)), q)) _ later,
        ),
      )

  none_AreBlocks : AreBlocks []
  none_AreBlocks = (tt, ([], [], tt))

  message_outcome-AreBlocks :
      (role : Role) (summary : Bool) (context : LineContext) (uuid : Text) (ts : ℤ) (ss : List Text)
      → AreBlocks (message_outcome x line role summary context uuid ts ss).drafts
  unfolding message_outcome
  message_outcome-AreBlocks role summary context uuid ts [] = none_AreBlocks
  message_outcome-AreBlocks role summary context uuid ts (s ∷ ss) =
      let (distinct, all) = message_loop-blocks role summary context uuid ts 0 (s ∷ ss) in
      (distinct, (session_id line context, uuid, all))

  message_body-AreBlocks :
      (role : Role) (summary : Bool) (context : LineContext)
      → AreBlocks (message_body x line role summary context).drafts
  unfolding message_body
  message_body-AreBlocks role summary context =
      elim (get_str (codes "uuid") line)
        as (λ u.
          AreBlocks
            (elim u as (λ u. LineOutcome) [
              | none ↦ nothing
              | some uuid ↦ elim (line_timestamp x line) [
                | none ↦ nothing
                | some ts ↦
                    message_outcome x line role summary context uuid ts
                      (text_blocks (content_of line))
              ]
            ]).drafts) [
              | none ↦ none_AreBlocks
              | some uuid ↦
                  elim (line_timestamp x line)
                    as (λ t.
                      AreBlocks
                        (elim t as (λ t. LineOutcome) [
                          | none ↦ nothing
                          | some ts ↦
                              message_outcome x line role summary context uuid ts
                                (text_blocks (content_of line))
                        ]).drafts) [
                          | none ↦ none_AreBlocks
                          | some ts ↦
                              message_outcome-AreBlocks role summary context uuid ts
                                (text_blocks (content_of line))
                        ]
            ]

  message_of_role-AreBlocks :
      (role : Role) (context : LineContext) → AreBlocks (message_of_role x role line context).drafts
  unfolding message_of_role
  message_of_role-AreBlocks user context = elim (Bool-cases (flag line (codes "isMeta"))) [
    | inl meta ↦ rw (message_of_role, meta) none_AreBlocks
    | inr other ↦ rw (message_of_role, other) (message_body-AreBlocks user _ context)
  ]
  message_of_role-AreBlocks assistant context = message_body-AreBlocks assistant false context

  -- The messages of a line have keys of their own.
  pub message_drafts-AreBlocks :
      (role : Role) (context : LineContext) → AreBlocks (message_drafts x line role context).drafts
  unfolding message_drafts
  message_drafts-AreBlocks role context = elim (Bool-cases (flag line (codes "isSidechain"))) [
    | inl aside ↦ rw (message_drafts, aside) none_AreBlocks
    | inr other ↦ rw (message_drafts, other) (message_of_role-AreBlocks role context)
  ]

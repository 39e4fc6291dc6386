-- ===== src/Transcript/Reading/Lines.antt =====
-- src/providers/claude_code.rs: the whole lines of a transcript, and the records that they come to.
use nikki.Prelude.{
  ℕ, zero, suc, ◌+◌, ◌≤◌, ◌<◌, ◌≡◌, refl, sym, ap, ◌∙◌, inl, inr, true, false, Option, none, some,
  List, [], ◌∷◌, ◌++◌, Text, arith, ℤ, length, drop, ◌==◌, Bool-cases, if◌then◌else◌,
}
use mathlib.Core.List.{append_assoc, append-nil}
use nikki.Json.{Value}
use nikki.Record.{RecordDraft}
use nikki.Transcript.{Externals, Source, LineOutcome}
use nikki.Transcript.Drafts.{drafts_from_line}
use nikki.Transcript.Reading.{
  newline, ends_line, read_until, Scan, is_before, keep_draft, keep_drafts, text_length, or_keep,
  context_of, take_outcome, take_line, take_value,
}

push_line : ℕ → List Text → List Text
push_line c [] = []
push_line c (l ∷ ls) = (c ∷ l) ∷ ls

-- The lines that end in a newline, each with its own; what follows the last newline is no line yet.
unfoldable pub whole_lines : Text → List Text
unfolding push_line
whole_lines [] = []
whole_lines (c ∷ s) = if c == newline then (c ∷ []) ∷ whole_lines s else push_line c (whole_lines s)

abbrev pub bytes_in : List Text → ℕ
bytes_in [] = 0
bytes_in (l ∷ ls) = length l + bytes_in ls

ends_line-other : (c : ℕ) (s : Text) → (c == newline) ≡ false → ends_line (c ∷ s) ≡ ends_line s
unfolding ends_line
ends_line-other c [] h = h
ends_line-other c (d ∷ s) h = refl

-- A line that was read to its newline is the first of the whole lines.
pub whole_lines-read :
    (cap : ℕ) (s : Text)
    → ends_line (read_until cap s) ≡ true
    → whole_lines s ≡ read_until cap s ∷ whole_lines (drop (length (read_until cap s)) s)
unfolding whole_lines read_until ends_line
whole_lines-read zero s h = absurd (cc)
whole_lines-read (suc cap) [] h = absurd (cc)
whole_lines-read (suc cap) (c ∷ s) h = elim (Bool-cases (c == newline)) [
  | inl same ↦ rw same refl
  | inr other ↦ rw other (ap (push_line c) (whole_lines-read cap s (rest other)))
]
  where
    rest : (c == newline) ≡ false → ends_line (read_until cap s) ≡ true
    rest other = sym (ends_line-other c (read_until cap s) other) ∙ (rw other at h)

-- A reading that ended before its cap without a newline saw the end of the file.
pub whole_lines-unread :
    (cap : ℕ) (s : Text)
    → ends_line (read_until cap s) ≡ false
    → length (read_until cap s) < cap
    → whole_lines s ≡ []
unfolding whole_lines read_until ends_line
whole_lines-unread zero s h k = absurd (omega (arith, k))
whole_lines-unread (suc cap) [] h k = refl
whole_lines-unread (suc cap) (c ∷ s) h k = elim (Bool-cases (c == newline)) [
  | inl same ↦ absurd (ground (arith, same, h))
  | inr other ↦ rw other (
      ap (push_line c) (
        whole_lines-unread cap s
          (sym (ends_line-other c (read_until cap s) other) ∙ (rw other at h)) (less other)))
]
  where
    less : (c == newline) ≡ false → length (read_until cap s) < cap
    less other = let k' = (rw other at k) in omega (arith, k')

bytes_in-push_line : (c : ℕ) (ls : List Text) → bytes_in (push_line c ls) ≤ suc (bytes_in ls)
unfolding push_line
bytes_in-push_line c [] = omega arith
bytes_in-push_line c (l ∷ ls) = omega arith

-- The whole lines are part of what there is.
pub bytes_in-whole_lines : (s : Text) → bytes_in (whole_lines s) ≤ length s
unfolding whole_lines
bytes_in-whole_lines [] = omega arith
bytes_in-whole_lines (c ∷ s) = elim (Bool-cases (c == newline)) [
  | inl same ↦ rw same (omega (arith, bytes_in-whole_lines s))
  | inr other ↦
      rw other (omega (arith, bytes_in-whole_lines s, bytes_in-push_line c (whole_lines s)))
]

pub bytes_in-append : (ls ms : List Text) → bytes_in (ls ++ ms) ≡ bytes_in ls + bytes_in ms
bytes_in-append [] ms = omega arith
bytes_in-append (l ∷ ls) ms = omega (arith, bytes_in-append ls ms)

-- A reading is no longer than its cap and than what there is to read.
pub length-read_until :
    (cap : ℕ) (s : Text)
    → (length (read_until cap s) ≤ cap) × (length (read_until cap s) ≤ length s)
unfolding read_until
length-read_until zero s = (omega arith, omega arith)
length-read_until (suc cap) [] = (omega arith, omega arith)
length-read_until (suc cap) (c ∷ s) = ground (arith, length-read_until cap s)

module _ (x : Externals) (source : Source) (stem : Text) (modified : ℤ) where
  abbrev pub kept : Option ℤ → List RecordDraft → List RecordDraft
  kept since [] = []
  kept since (d ∷ ds) = if is_before since d.ts then kept since ds else d ∷ kept since ds

  -- What the lines come to, one after the other, from the moment of the last message before them: the
  -- records of each that are recent enough, and the moment of the last message.
  abbrev pub told : LineOutcome → Option ℤ → List RecordDraft × Option ℤ
  told outcome ts = (kept source.since outcome.drafts, or_keep outcome.message_ts ts)

  abbrev pub value_records : Option Value → Option ℤ → List RecordDraft × Option ℤ
  value_records none ts = ([], ts)
  value_records (some value) ts =
      told (drafts_from_line x value (context_of source stem modified ts)) ts

  abbrev pub line_records : Text → Option ℤ → List RecordDraft × Option ℤ
  line_records line ts = value_records (x.parse_json line) ts

  abbrev pub records_from : List Text → Option ℤ → List RecordDraft × Option ℤ
  records_from [] ts = ([], ts)
  records_from (l ∷ ls) ts = (
    (line_records l ts).0 ++ (records_from ls (line_records l ts).1).0,
    (records_from ls (line_records l ts).1).1,
  )

  pub records_from-append :
      (ls ms : List Text) (ts : Option ℤ)
      → records_from (ls ++ ms) ts ≡ (
        (records_from ls ts).0 ++ (records_from ms (records_from ls ts).1).0,
        (records_from ms (records_from ls ts).1).1,
      )
  records_from-append [] ms ts = refl
  records_from-append (l ∷ ls) ms ts = λ i. (
    ((λ j. (line_records l ts).0 ++ (records_from-append ls ms (line_records l ts).1 j).0)
          ∙ sym (append_assoc (line_records l ts).0 (records_from ls (line_records l ts).1).0 _))
        i,
    (records_from-append ls ms (line_records l ts).1 i).1,
  )

  -- What a step leaves alone, and what it adds to the records.
  record Adds (ds : List RecordDraft) (s t : Scan) : Type 0 where
    pub rest : t.rest ≡ s.rest
    pub offset : t.offset ≡ s.offset
    pub skipping : t.skipping ≡ s.skipping
    pub last_message_ts : t.last_message_ts ≡ s.last_message_ts
    pub drafts : t.drafts ≡ s.drafts ++ ds

  keep_draft-Adds :
      (since : Option ℤ) (d : RecordDraft) (s : Scan)
      → Adds (if is_before since d.ts then [] else d ∷ []) s (keep_draft since d s)
  unfolding keep_draft
  keep_draft-Adds since d s =
      elim (is_before since d.ts)
        as (λ b. Adds (if b then [] else d ∷ []) s (
          if b then s else record s {
            text_bytes = s.text_bytes + text_length d;
            drafts = s.drafts ++ d ∷ [];
          })) [
            | true ↦ record {
              rest = refl;
              offset = refl;
              skipping = refl;
              last_message_ts = refl;
              drafts = sym (append-nil s.drafts);
            }
            | false ↦ record {
              rest = refl;
              offset = refl;
              skipping = refl;
              last_message_ts = refl;
              drafts = refl;
            }
          ]

  kept-cons :
      (since : Option ℤ) (d : RecordDraft) (ds : List RecordDraft)
      → (if is_before since d.ts then [] else d ∷ []) ++ kept since ds ≡ kept since (d ∷ ds)
  kept-cons since d ds =
      elim (is_before since d.ts)
        as (λ b.
          (if b then [] else d ∷ []) ++ kept since ds
          ≡ (if b then kept since ds else d ∷ kept since ds)) [ true ↦ refl | false ↦ refl ]

  keep_drafts-Adds :
      (since : Option ℤ) (ds : List RecordDraft) (s : Scan)
      → Adds (kept since ds) s (keep_drafts since ds s)
  unfolding keep_drafts
  keep_drafts-Adds since [] s = record {
    rest = refl;
    offset = refl;
    skipping = refl;
    last_message_ts = refl;
    drafts = sym (append-nil s.drafts);
  }
  keep_drafts-Adds since (d ∷ ds) s =
      let one = keep_draft-Adds since d s in
      let more = keep_drafts-Adds since ds (keep_draft since d s) in
      record {
        rest = more.rest ∙ one.rest;
        offset = more.offset ∙ one.offset;
        skipping = more.skipping ∙ one.skipping;
        last_message_ts = more.last_message_ts ∙ one.last_message_ts;
        drafts =
            more.drafts
            ∙ ap (λ l. l ++ kept since ds) one.drafts
            ∙ append_assoc s.drafts _ (kept since ds)
            ∙ ap (◌++◌ s.drafts) (kept-cons since d ds);
      }

  -- What a line leaves alone, and what it adds.
  pub record Takes (told_by : Option ℤ → List RecordDraft × Option ℤ) (s t : Scan) : Type 0 where
    pub rest : t.rest ≡ s.rest
    pub offset : t.offset ≡ s.offset
    pub skipping : t.skipping ≡ s.skipping
    pub drafts : t.drafts ≡ s.drafts ++ (told_by s.last_message_ts).0
    pub last_message_ts : t.last_message_ts ≡ (told_by s.last_message_ts).1

  take_value-Takes :
      (value : Option Value) (s : Scan)
      → Takes (value_records value) s (take_value x source stem modified value s)
  unfolding take_value take_outcome
  take_value-Takes none s = record {
    rest = refl;
    offset = refl;
    skipping = refl;
    drafts = sym (append-nil s.drafts);
    last_message_ts = refl;
  }
  take_value-Takes (some value) s =
      let outcome = drafts_from_line x value (context_of source stem modified s.last_message_ts) in
      let adds =
        keep_drafts-Adds source.since outcome.drafts
          (record s { last_message_ts = or_keep outcome.message_ts s.last_message_ts }) in
      record {
        rest = adds.rest;
        offset = adds.offset;
        skipping = adds.skipping;
        drafts = adds.drafts;
        last_message_ts = adds.last_message_ts;
      }

  -- A whole line adds its records and nothing else.
  pub take_line-Takes :
      (line : Text) (s : Scan)
      → Takes (line_records line) s (take_line x source stem modified line s)
  unfolding take_line
  take_line-Takes line s = take_value-Takes (x.parse_json line) s

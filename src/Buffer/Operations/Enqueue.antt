-- ===== src/Buffer/Operations/Enqueue.antt =====
-- What `enqueue` comes to: the envelopes that are sealed, the rows that are written, the rows that
-- are dropped and the counter.
use nikki.Prelude.{
  ℕ, suc, ◌+◌, ◌≡◌, refl, sym, ◌∙◌, Option, none, some, List, [], ◌∷◌, ◌++◌, Text, decimal,
  parse_u64, arith, ℤ, length,
}
use mathlib.Core.List.{append_assoc, append-nil}
use nikki.Record.{RecordDraft, Envelope, Cursor, provider_name}
use nikki.Record.Dedup.{into_envelope}
use nikki.World.{World}
use nikki.Redact.{Redactor, apply}
use nikki.Buffer.Sql.{Tables, Connection, pure, fail, query}
use nikki.Buffer.Sql.Yields.{
  Yields, Yields-bind, Yields-value, Yields-pure, Yields-query, Yields-execute, Yields-transaction,
}
use nikki.Buffer.Evict.{Caps, Evicted, candidate_of_pending, evict_pending}
use nikki.Buffer.Evict.Rows.{IsAscending, IsAscending-drop, IsAscending-insert}
use nikki.Buffer.Evict.Runs.{eviction, dropped_pending, evict_pending-Yields}
use nikki.Buffer.Operations.{
  seq_key, select_meta, upsert_meta, upsert_cursor, push_pending, overflow_draft, device_or,
  insert_text, insert_pending, parse_seq, read_seq, write_seq, seal_drafts, store_cursor,
  report_eviction, enqueue_body, enqueue,
}

plus_none : (a : ℕ) → a + 0 ≡ a
plus_none a = omega arith

plus_one_more : (a b : ℕ) → a + suc b ≡ a + 1 + b
plus_one_more a b = omega arith

-- The counter in the tables: none if what is stored is not a number.
abbrev pub counter_of : Option Text → Option ℕ
counter_of none = some 0
counter_of (some stored) = parse_u64 stored

abbrev pub stored_seq : Tables → Option ℕ
stored_seq t = counter_of (select_meta seq_key t.meta)

abbrev pub with_cursor : Option Cursor → Tables → Tables
with_cursor none t = t
with_cursor (some cursor) t = record t {
  cursors = upsert_cursor (provider_name cursor.provider) cursor.key cursor.value t.cursors;
}

abbrev pub with_seq : ℕ → Tables → Tables
with_seq seq t = record t { meta = upsert_meta seq_key (decimal seq) t.meta }

module _ (w : World) where
  abbrev text_or_empty : Option Text → Text
  text_or_empty none = []
  text_or_empty (some s) = s

  unfoldable pub json_of : Envelope → Text
  json_of e = text_or_empty (w.to_json e)

  -- The envelopes of the drafts, redacted and numbered from the counter on.
  unfoldable pub sealed_from : Redactor → Text → ℕ → List RecordDraft → List Envelope
  sealed_from redactor device seq [] = []
  sealed_from redactor device seq (draft ∷ drafts) =
      into_envelope w.sha256 (record draft { payload = apply w redactor draft.payload }) device
        (seq + 1)
      ∷ sealed_from redactor device (seq + 1) drafts

  unfoldable pub push_all : Text → List Envelope → Tables → Tables
  push_all created_at [] t = t
  push_all created_at (e ∷ es) t = push_all created_at es (push_pending (json_of e) created_at t)

  -- The record that reports an eviction, if there was one.
  unfoldable pub markers : Option Evicted → Text → ℤ → ℕ → List Envelope
  markers none device later seq = []
  markers (some evicted) device later seq =
      into_envelope w.sha256 (overflow_draft evicted later) device (seq + 1) ∷ []

  insert_text-Yields :
      (e : Envelope) (o : Option Text) (created_at : Text) (c : Connection) (t : Tables)
      → w.to_json e ≡ o
      → c.tables ≡ t
      → Yields w (insert_text w o created_at) c tt (push_pending (text_or_empty o) created_at t)
  unfolding insert_text fail
  insert_text-Yields e none created_at c t q at = λ h. h.serialises e q
  insert_text-Yields e (some text) created_at c t q at = Yields-execute w c t at _

  insert_pending-Yields :
      (e : Envelope) (created_at : Text) (c : Connection) (t : Tables)
      → c.tables ≡ t
      → Yields w (insert_pending w e created_at) c tt (push_pending (json_of e) created_at t)
  unfolding insert_pending json_of
  insert_pending-Yields e created_at c t at =
      insert_text-Yields e (w.to_json e) created_at c t refl at

  seal_drafts-Yields :
      (redactor : Redactor) (device created_at : Text) (drafts : List RecordDraft) (seq : ℕ)
      (sealed : List Envelope) (c : Connection) (t : Tables)
      → c.tables ≡ t
      → Yields w
          (seal_drafts w redactor device created_at drafts seq sealed)
          c
          (seq + length drafts, sealed ++ sealed_from redactor device seq drafts)
          (push_all created_at (sealed_from redactor device seq drafts) t)
  unfolding seal_drafts sealed_from push_all
  seal_drafts-Yields redactor device created_at [] seq sealed c t at =
      rw (append-nil sealed) (rw (plus_none seq) (Yields-pure w c t at (seq, sealed)))
  seal_drafts-Yields redactor device created_at (d ∷ drafts) seq sealed c t at =
      Yields-bind w (insert_pending w e created_at) _ c tt _ _ _
        (insert_pending-Yields e created_at c t at)
        λ c' at'.
          Yields-value w
            (seal_drafts w redactor device created_at drafts (seq + 1) (sealed ++ e ∷ [])) c' _ _ _
            (λ i. (
              sym (plus_one_more seq (length drafts)) i,
              append_assoc sealed (e ∷ []) (sealed_from redactor device (seq + 1) drafts) i,
            ))
            (seal_drafts-Yields redactor device created_at drafts (seq + 1) (sealed ++ e ∷ []) c' _
              at')
    where
      e : Envelope
      e =
          into_envelope w.sha256 (record d { payload = apply w redactor d.payload }) device
            (seq + 1)

  parse_seq-Yields :
      (o : Option Text) (seq : ℕ) (c : Connection) (t : Tables)
      → c.tables ≡ t
      → counter_of o ≡ some seq
      → Yields w (parse_seq w o) c seq t
  unfolding parse_seq
  parse_seq-Yields none seq c t at e =
      Yields-value w (pure 0) c 0 seq t (cc) (Yields-pure w c t at 0)
  parse_seq-Yields (some stored) seq c t at e =
      let read : parse_u64 stored ≡ some seq = e in rw (read, parse_seq) (Yields-pure w c t at seq)

  read_seq-Yields :
      (c : Connection) (t : Tables) (seq : ℕ)
      → c.tables ≡ t
      → stored_seq t ≡ some seq
      → Yields w (read_seq w) c seq t
  unfolding read_seq
  read_seq-Yields c t seq at e =
      Yields-bind w (query w _) _ c (select_meta seq_key t.meta) seq t t (Yields-query w c t at _)
        λ c' at'. parse_seq-Yields (select_meta seq_key t.meta) seq c' t at' e

  store_cursor-Yields :
      (cursor : Option Cursor) (c : Connection) (t : Tables)
      → c.tables ≡ t
      → Yields w (store_cursor w cursor) c tt (with_cursor cursor t)
  unfolding store_cursor
  store_cursor-Yields none c t at = Yields-pure w c t at tt
  store_cursor-Yields (some cursor) c t at = Yields-execute w c t at _

  report_eviction-Yields :
      (evicted : Option Evicted) (device created_at : Text) (later : ℤ) (seq : ℕ)
      (sealed : List Envelope) (c : Connection) (t : Tables)
      → c.tables ≡ t
      → Yields w
          (report_eviction w evicted device created_at later seq sealed)
          c
          (
            seq + length (markers evicted device later seq),
            sealed ++ markers evicted device later seq,
          )
          (push_all created_at (markers evicted device later seq) t)
  unfolding report_eviction markers push_all
  report_eviction-Yields none device created_at later seq sealed c t at =
      rw (append-nil sealed) (rw (plus_none seq) (Yields-pure w c t at (seq, sealed)))
  report_eviction-Yields (some evicted) device created_at later seq sealed c t at =
      Yields-bind w (insert_pending w _ created_at) _ c tt _ _ _
        (insert_pending-Yields _ created_at c t at) λ c' at'. Yields-pure w c' _ at' _

  push_all-dead :
      (created_at : Text) (es : List Envelope) (t : Tables)
      → (push_all created_at es t).dead_letter ≡ t.dead_letter
  unfolding push_all push_pending
  push_all-dead created_at [] t = refl
  push_all-dead created_at (e ∷ es) t = push_all-dead created_at es _

  pub push_all-IsAscending :
      (created_at : Text) (es : List Envelope) (t : Tables)
      → IsAscending candidate_of_pending t.pending
      → IsAscending candidate_of_pending (push_all created_at es t).pending
  unfolding push_all push_pending candidate_of_pending
  push_all-IsAscending created_at [] t s = s
  push_all-IsAscending created_at (e ∷ es) t s =
      push_all-IsAscending created_at es _
        (IsAscending-insert candidate_of_pending t.pending _ refl s)

  module _ (device : Text) (caps : Caps) (redactor : Redactor) (now later : ℤ)
      (drafts : List RecordDraft) (cursor : Option Cursor) (record_device : Option Text) where
    -- The tables once the drafts and the cursor are written.
    unfoldable pub written : ℕ → Tables → Tables
    written seq t = with_cursor cursor (
        push_all (w.to_rfc3339 now)
          (sealed_from redactor (device_or record_device device) seq drafts) t)

    -- The record of the eviction that follows.
    unfoldable pub overflow_records : ℕ → Tables → List Envelope
    overflow_records seq t =
        markers (eviction caps (written seq t).pending) device later (seq + length drafts)

    -- What `enqueue` returns from a counter `seq`.
    unfoldable pub enqueued : ℕ → Tables → List Envelope
    enqueued seq t =
        sealed_from redactor (device_or record_device device) seq drafts ++ overflow_records seq t

    -- What it leaves in the tables.
    unfoldable pub enqueued_tables : ℕ → Tables → Tables
    enqueued_tables seq t = with_seq (seq + length drafts + length (overflow_records seq t)) (
        push_all (w.to_rfc3339 now) (overflow_records seq t) (dropped_pending caps (written seq t)))

    written-IsAscending :
        (cursor' : Option Cursor) (t : Tables)
        → IsAscending candidate_of_pending t.pending
        → IsAscending candidate_of_pending (with_cursor cursor' t).pending
    written-IsAscending none t s = s
    written-IsAscending (some _) t s = s

    pub enqueue-Yields :
        (seq : ℕ) (c : Connection) (t : Tables)
        → c.tables ≡ t
        → stored_seq t ≡ some seq
        → IsAscending candidate_of_pending t.pending
        → Yields w
            (enqueue w device caps redactor now later drafts cursor record_device)
            c
            (enqueued seq t)
            (enqueued_tables seq t)
    unfolding enqueue enqueue_body enqueued enqueued_tables overflow_records written write_seq
    enqueue-Yields seq c t at e s =
        Yields-transaction w
          (enqueue_body w device caps redactor now later drafts cursor record_device) c _ t _ at
          λ c0 at0.
            Yields-bind w (read_seq w) _ c0 seq _ t _ (read_seq-Yields c0 t seq at0 e) λ c1 at1.
              Yields-bind w
                (seal_drafts w redactor (device_or record_device device) (w.to_rfc3339 now) drafts
                  seq [])
                _ c1 _ _ _ _
                (seal_drafts-Yields redactor (device_or record_device device) (w.to_rfc3339 now)
                  drafts seq [] c1 t at1)
                λ c2 at2.
                  Yields-bind w (store_cursor w cursor) _ c2 tt _ _ _
                    (store_cursor-Yields cursor c2 _ at2)
                    λ c3 at3.
                      Yields-bind w (evict_pending w caps) _ c3 _ _ _ _
                        (evict_pending-Yields w caps c3 _ at3 (
                          written-IsAscending cursor _
                            (push_all-IsAscending (w.to_rfc3339 now) _ t s)))
                        λ c4 at4.
                          Yields-bind w (report_eviction w _ device (w.to_rfc3339 now) later _ _) _
                            c4 _ _ _ _
                            (report_eviction-Yields _ device (w.to_rfc3339 now) later _ _ c4 _ at4)
                            λ c5 at5.
                              Yields-bind w (write_seq w _) _ c5 tt _ _ _
                                (Yields-execute w c5 _ at5 _) λ c6 at6. Yields-pure w c6 _ at6 _

    with_cursor-dead :
        (cursor' : Option Cursor) (t : Tables) → (with_cursor cursor' t).dead_letter ≡ t.dead_letter
    with_cursor-dead none t = refl
    with_cursor-dead (some _) t = refl

    pub enqueued_tables-IsAscending :
        (seq : ℕ) (t : Tables)
        → IsAscending candidate_of_pending t.pending
        → IsAscending candidate_of_pending (enqueued_tables seq t).pending
    unfolding enqueued_tables written
    enqueued_tables-IsAscending seq t s =
        push_all-IsAscending (w.to_rfc3339 now) (overflow_records seq t) _ (
          IsAscending-drop candidate_of_pending _ _
            (written-IsAscending cursor _ (push_all-IsAscending (w.to_rfc3339 now) _ t s)))

    pub enqueued_tables-dead :
        (seq : ℕ) (t : Tables) → (enqueued_tables seq t).dead_letter ≡ t.dead_letter
    unfolding enqueued_tables written
    enqueued_tables-dead seq t =
        push_all-dead (w.to_rfc3339 now) (overflow_records seq t) _
        ∙ with_cursor-dead cursor _
        ∙ push_all-dead (w.to_rfc3339 now) _ t

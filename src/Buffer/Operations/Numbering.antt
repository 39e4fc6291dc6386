-- ===== src/Buffer/Operations/Numbering.antt =====
-- The sequence numbers that `enqueue` gives out, and the counter that it stores.
use nikki.Prelude.{
  ℕ, suc, ◌+◌, ◌^◌, ◌<◌, ◌≡◌, refl, sym, ap, subst, ◌∙◌, Option, none, some, List, [], ◌∷◌, ◌++◌,
  Text, ℤ, arith, length, decimal, parse_u64-decimal, text_eq_refl, length-append,
}
use nikki.Record.{RecordDraft, Envelope, Cursor}
use nikki.Record.Dedup.{into_envelope}
use nikki.World.{World}
use nikki.Redact.{Redactor}
use nikki.Buffer.Sql.{Tables, Connection, ok}
use nikki.Buffer.Sql.Yields.{Ends-ok}
use nikki.Buffer.Evict.{Caps, Evicted, candidate_of_pending}
use nikki.Buffer.Evict.Rows.{IsAscending}
use nikki.Buffer.Evict.Runs.{dropped_pending}
use nikki.Buffer.Operations.{seq_key, select_meta, upsert_meta, device_or, enqueue}
use nikki.Buffer.Operations.Enqueue.{
  counter_of, stored_seq, with_seq, sealed_from, push_all, written, markers, overflow_records,
  enqueued, enqueued_tables, enqueue-Yields,
}

-- The envelopes carry the numbers after `n`, one by one.
abbrev pub IsNumberedFrom : ℕ → List Envelope → Type 0
IsNumberedFrom n [] = Unit
IsNumberedFrom n (e ∷ es) = (e.seq ≡ n + 1) × IsNumberedFrom (n + 1) es

pub select_meta-upsert_meta :
    (k : Text) (v : Text) (m : List (Text × Text)) → select_meta k (upsert_meta k v m) ≡ some v
unfolding select_meta upsert_meta
select_meta-upsert_meta k v [] = ground (arith, text_eq_refl k)
select_meta-upsert_meta k v ((j, x) ∷ m) = ground (arith, select_meta-upsert_meta k v m)

pub stored_seq-with_seq : (n : ℕ) (t : Tables) → n < 2 ^ 64 → stored_seq (with_seq n t) ≡ some n
stored_seq-with_seq n t h =
    ap counter_of (select_meta-upsert_meta seq_key (decimal n) t.meta) ∙ parse_u64-decimal n h

module _ (w : World) where
  sealed_from-numbered :
      (redactor : Redactor) (device : Text) (seq : ℕ) (drafts : List RecordDraft)
      (es : List Envelope)
      → IsNumberedFrom (seq + length drafts) es
      → IsNumberedFrom seq (sealed_from w redactor device seq drafts ++ es)
  unfolding sealed_from into_envelope
  sealed_from-numbered redactor device seq [] es h =
      subst (λ n. IsNumberedFrom n es) (omega arith) h
  sealed_from-numbered redactor device seq (d ∷ drafts) es h = (
    refl,
    sealed_from-numbered redactor device (seq + 1) drafts es
        (subst (λ n. IsNumberedFrom n es) (omega arith) h),
  )

  markers-numbered :
      (ev : Option Evicted) (device : Text) (later : ℤ) (seq : ℕ)
      → IsNumberedFrom seq (markers w ev device later seq)
  unfolding markers into_envelope
  markers-numbered none device later seq = tt
  markers-numbered (some ev) device later seq = (refl, tt)

  pub length-sealed_from :
      (redactor : Redactor) (device : Text) (seq : ℕ) (drafts : List RecordDraft)
      → length (sealed_from w redactor device seq drafts) ≡ length drafts
  unfolding sealed_from
  length-sealed_from redactor device seq [] = refl
  length-sealed_from redactor device seq (d ∷ drafts) =
      ap suc (length-sealed_from redactor device (seq + 1) drafts)

  module _ (device : Text) (caps : Caps) (redactor : Redactor) (now later : ℤ)
      (drafts : List RecordDraft) (cursor : Option Cursor) (record_device : Option Text) (seq : ℕ)
      (c : Connection) where
    length-enqueued :
        length (enqueued w device caps redactor now later drafts cursor record_device seq c.tables)
        ≡ length drafts
          + length (
              overflow_records w device caps redactor now later drafts cursor record_device seq
                c.tables)
    unfolding enqueued
    length-enqueued = omega (
      arith,
      length-append (sealed_from w redactor (device_or record_device device) seq drafts) (
          overflow_records w device caps redactor now later drafts cursor record_device seq
            c.tables),
      length-sealed_from redactor (device_or record_device device) seq drafts,
    )

    -- A successful `enqueue` numbers its envelopes one by one from the stored counter on, the record
    -- of an eviction included, and stores a counter that reads back as the last number given, as
    -- long as that fits in 64 bits. The stored counter is a number and the rows stand in the order of
    -- their ids.
    pub enqueue_numbers :
        (sealed : List Envelope)
        → stored_seq c.tables ≡ some seq
        → IsAscending candidate_of_pending c.tables.pending
        → seq + length sealed < 2 ^ 64
        → (enqueue w device caps redactor now later drafts cursor record_device c).0 ≡ ok sealed
        → IsNumberedFrom seq sealed
          × (stored_seq
                (enqueue w device caps redactor now later drafts cursor record_device c).1.tables
              ≡ some (seq + length sealed))
    unfolding enqueued enqueued_tables overflow_records
    enqueue_numbers sealed e s fits done =
        let (is, at) =
          Ends-ok w _ _ sealed _
            (enqueue-Yields w device caps redactor now later drafts cursor record_device seq c
              c.tables refl e s)
            done in
        (
          subst (IsNumberedFrom seq) (sym is)
              (sealed_from-numbered redactor _ seq drafts _ (markers-numbered _ device later _)),
          ap stored_seq at
              ∙ stored_seq-with_seq _
                  (push_all w (w.to_rfc3339 now)
                    (overflow_records w device caps redactor now later drafts cursor record_device
                      seq c.tables)
                    (dropped_pending caps (
                      written w device caps redactor now later drafts cursor record_device seq
                        c.tables)))
                  (omega (arith, ap length is, length-enqueued))
              ∙ ap some (omega (arith, ap length is, length-enqueued)),
        )

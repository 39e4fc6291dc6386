-- ===== src/Buffer/Operations/Queue.antt =====
-- `enqueue` as a queue of envelopes: nothing is reordered, the oldest leave first, and the record of
-- an eviction says exactly what left.
use nikki.Prelude.{
  ℕ, ◌≡◌, refl, sym, ap, ◌∙◌, Option, none, some, List, [], ◌∷◌, ◌++◌, map, Text, ℤ, drop, map-drop,
  ◌⊎◌, inl, inr,
}
use mathlib.Core.List.{append_assoc, append-nil, map-append}
use nikki.Record.{RecordDraft, Envelope, Cursor}
use nikki.World.{World}
use nikki.Redact.{Redactor}
use nikki.Buffer.Sql.{Tables, Connection, Result, BufferError, ok, err}
use nikki.Buffer.Sql.Yields.{IsHealthy, Ends-cases, transaction-rolls_back}
use nikki.Buffer.Evict.{Caps, candidate_of_pending}
use nikki.Buffer.Evict.Rows.{IsAscending}
use nikki.Buffer.Evict.Runs.{overdue}
use nikki.Buffer.Operations.{device_or, push_pending, enqueue}
use nikki.Buffer.Operations.Enqueue.{
  stored_seq, json_of, sealed_from, push_all, with_cursor, written, overflow_records, enqueued,
  enqueued_tables, enqueue-Yields,
}

-- The envelopes that wait, the oldest first.
abbrev pub queue : Tables → List Text
queue t = map (λ r. r.envelope) t.pending

module _ (w : World) where
  queue-push_all :
      (created_at : Text) (es : List Envelope) (t : Tables)
      → queue (push_all w created_at es t) ≡ queue t ++ map (json_of w) es
  unfolding push_all push_pending
  queue-push_all created_at [] t = sym (append-nil (queue t))
  queue-push_all created_at (e ∷ es) t =
      queue-push_all created_at es _
      ∙ ap (λ q. q ++ map (json_of w) es) (map-append (λ r. r.envelope) t.pending _)
      ∙ append_assoc (queue t) (json_of w e ∷ []) (map (json_of w) es)

  queue-with_cursor : (cursor : Option Cursor) (t : Tables) → queue (with_cursor cursor t) ≡ queue t
  queue-with_cursor none t = refl
  queue-with_cursor (some cursor) t = refl

  module _ (device : Text) (caps : Caps) (redactor : Redactor) (now later : ℤ)
      (drafts : List RecordDraft) (cursor : Option Cursor) (record_device : Option Text) (seq : ℕ)
      (c : Connection) where
    abbrev pub run : Result (List Envelope) × Connection
    run = enqueue w device caps redactor now later drafts cursor record_device c

    abbrev pub drafted : List Envelope
    drafted = sealed_from w redactor (device_or record_device device) seq drafts

    abbrev pub reported : List Envelope
    reported =
        overflow_records w device caps redactor now later drafts cursor record_device seq c.tables

    abbrev pub due : ℕ
    due =
        overdue caps
          (written w device caps redactor now later drafts cursor record_device seq
            c.tables).pending

    enqueued_queue :
        queue (
          enqueued_tables w device caps redactor now later drafts cursor record_device seq c.tables)
        ≡ drop due (queue c.tables ++ map (json_of w) drafted) ++ map (json_of w) reported
    unfolding enqueued_tables written
    enqueued_queue =
        queue-push_all (w.to_rfc3339 now) reported _
        ∙ ap (λ q. q ++ map (json_of w) reported)
            (map-drop (λ r. r.envelope) due _
              ∙ ap (drop due)
                  (queue-with_cursor cursor _ ∙ queue-push_all (w.to_rfc3339 now) drafted c.tables))

    -- `enqueue` either succeeds, and then it returns the envelopes of the drafts and the record of
    -- the eviction, if there was one, and of all the envelopes that waited and were sealed the
    -- `overdue` oldest have left and the rest stand in order, that record last; or it fails, and
    -- then no table has changed. In a healthy world it succeeds. The stored counter is a number and
    -- the rows stand in the order of their ids.
    pub enqueue_outcome :
        stored_seq c.tables ≡ some seq
        → IsAscending candidate_of_pending c.tables.pending
        → ((run.0 ≡ ok (drafted ++ reported))
            × (queue run.1.tables
                ≡ drop due (queue c.tables ++ map (json_of w) drafted) ++ map (json_of w) reported))
          ⊎ ((e : BufferError) × (run.0 ≡ err e) × (run.1.tables ≡ c.tables) × (¬ IsHealthy w))
    unfolding enqueue enqueued
    enqueue_outcome e s =
        elim (Ends-cases w run _ _ (
          enqueue-Yields w device caps redactor now later drafts cursor record_device seq c c.tables
            refl e s)) [
              | inl (done, at) ↦ inl (done, ap queue at ∙ enqueued_queue)
              | inr (x, failed, sick) ↦ inr (x, failed, transaction-rolls_back w _ c x failed, sick)
            ]

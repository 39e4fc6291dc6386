-- ===== src/Buffer/Operations/Bounds.antt =====
-- `enqueue` against the caps of the buffer.
use nikki.Prelude.{
  ℕ, ◌+◌, ◌≤◌, ◌≡◌, refl, sym, subst, ◌∙◌, inl, inr, Option, none, some, List, [], ◌∷◌, arith, Text,
  ℤ, length, drop, All, length-append,
}
use nikki.Record.{RecordDraft, Envelope, Cursor}
use nikki.World.{World}
use nikki.Redact.{Redactor}
use nikki.Buffer.Sql.{Tables, Connection, PendingRow, ok}
use nikki.Buffer.Sql.Yields.{Ends-ok}
use nikki.Buffer.Evict.{Caps, Evicted, candidate_of_pending, total_bytes, overflow_headroom_bytes}
use nikki.Buffer.Evict.Prefix.{report}
use nikki.Buffer.Evict.Rows.{IsAscending, total_bytes-append}
use nikki.Buffer.Evict.Bounds.{overdue_bounds}
use nikki.Buffer.Evict.Runs.{overdue, eviction}
use nikki.Buffer.Operations.{push_pending, enqueue}
use nikki.Buffer.Operations.Enqueue.{
  stored_seq, json_of, push_all, markers, written, overflow_records, enqueued_tables,
  enqueue-Yields,
}

-- The pending table is inside the caps.
pub record IsWithinCaps (caps : Caps) (t : Tables) : Type 0 where
  pub rows : length t.pending ≤ caps.max_rows
  pub bytes : total_bytes candidate_of_pending t.pending ≤ caps.max_bytes

module _ (w : World) where
  push_all-length :
      (created_at : Text) (es : List Envelope) (t : Tables)
      → length (push_all w created_at es t).pending ≡ length t.pending + length es
  unfolding push_all push_pending
  push_all-length created_at [] t = omega arith
  push_all-length created_at (e ∷ es) t =
      omega (arith, push_all-length created_at es _, length-append t.pending)

  marker_fits :
      (ev : Option Evicted) (device created_at : Text) (later : ℤ) (seq : ℕ) (caps : Caps)
      (t : Tables)
      → All (λ e. length (json_of w e) ≤ overflow_headroom_bytes) (markers w ev device later seq)
      → length t.pending + 1 ≤ caps.max_rows
      → total_bytes candidate_of_pending t.pending + overflow_headroom_bytes ≤ caps.max_bytes
      → IsWithinCaps caps (push_all w created_at (markers w ev device later seq) t)
  unfolding markers push_all push_pending total_bytes candidate_of_pending
  marker_fits none device created_at later seq caps t small few light = record {
    rows = omega arith;
    bytes = omega arith;
  }
  marker_fits (some ev) device created_at later seq caps t small few light = record {
    rows = omega (arith, length-append t.pending);
    bytes = omega (arith, small.0, total_bytes-append candidate_of_pending t.pending);
  }

  eviction_of_none :
      (caps : Caps) (rows : List PendingRow) → overdue caps rows ≡ 0 → eviction caps rows ≡ none
  unfolding eviction report
  eviction_of_none caps rows e = rw (e, eviction)

  evicted_fits :
      (device created_at : Text) (caps : Caps) (later : ℤ) (ev : Option Evicted) (seq : ℕ)
      (t : Tables)
      → eviction caps t.pending ≡ ev
      → 1 ≤ caps.max_rows
      → overflow_headroom_bytes ≤ caps.max_bytes
      → All (λ e. length (json_of w e) ≤ overflow_headroom_bytes) (markers w ev device later seq)
      → IsWithinCaps caps (
          push_all w created_at
            (markers w ev device later seq)
            (record t { pending = drop (overdue caps t.pending) t.pending }))
  unfolding push_all markers
  evicted_fits device created_at caps later ev seq t e hr hb small =
      elim (overdue_bounds caps t.pending hr hb) [
        | inl (none_due, few, light) ↦
            subst
              (λ o. IsWithinCaps caps (
                push_all w created_at (markers w o device later seq)
                  (record t { pending = drop (overdue caps t.pending) t.pending })))
              (sym (eviction_of_none caps t.pending none_due) ∙ e)
              (rw none_due (record { rows = few; bytes = light }))
        | inr (few, light) ↦ marker_fits ev device created_at later seq caps _ small few light
      ]

  marker-rows :
      (ev : Option Evicted) (device created_at : Text) (later : ℤ) (seq n : ℕ) (t : Tables)
      → length t.pending + 1 ≤ n
      → length (push_all w created_at (markers w ev device later seq) t).pending ≤ n
  unfolding markers
  marker-rows none device created_at later seq n t few =
      omega (arith, push_all-length created_at [] t)
  marker-rows (some ev) device created_at later seq n t few =
      omega (arith, push_all-length created_at (markers w (some ev) device later seq) t)

  evicted-rows :
      (device created_at : Text) (caps : Caps) (later : ℤ) (ev : Option Evicted) (seq : ℕ)
      (t : Tables)
      → eviction caps t.pending ≡ ev
      → 1 ≤ caps.max_rows
      → overflow_headroom_bytes ≤ caps.max_bytes
      → length
          (push_all w created_at
            (markers w ev device later seq)
            (record t { pending = drop (overdue caps t.pending) t.pending })).pending
        ≤ caps.max_rows
  unfolding push_all markers
  evicted-rows device created_at caps later ev seq t e hr hb =
      elim (overdue_bounds caps t.pending hr hb) [
        | inl (none_due, few, light) ↦
            subst
              (λ o.
                length
                  (push_all w created_at (markers w o device later seq)
                    (record t { pending = drop (overdue caps t.pending) t.pending })).pending
                ≤ caps.max_rows)
              (sym (eviction_of_none caps t.pending none_due) ∙ e) (rw none_due few)
        | inr (few, light) ↦ marker-rows ev device created_at later seq caps.max_rows _ few
      ]

  module _ (device : Text) (caps : Caps) (redactor : Redactor) (now later : ℤ)
      (drafts : List RecordDraft) (cursor : Option Cursor) (record_device : Option Text) (seq : ℕ)
      (c : Connection) where
    -- Whatever was enqueued, the rows that are left are no more than the cap.
    pub enqueued_tables-rows :
        1 ≤ caps.max_rows
        → overflow_headroom_bytes ≤ caps.max_bytes
        → length
            (enqueued_tables w device caps redactor now later drafts cursor record_device seq
              c.tables).pending
          ≤ caps.max_rows
    unfolding enqueued_tables overflow_records markers
    enqueued_tables-rows hr hb =
        evicted-rows device (w.to_rfc3339 now) caps later _ (seq + length drafts)
          (written w device caps redactor now later drafts cursor record_device seq c.tables) refl
          hr hb

    -- After a successful `enqueue` the pending table is inside the caps, in rows and in bytes,
    -- whatever was enqueued. The caps leave room for one row and for the headroom, as the
    -- configuration demands, the serialised overflow record is no longer than the headroom, the
    -- stored counter is a number and the rows stand in the order of their ids.
    pub enqueue-IsWithinCaps :
        (sealed : List Envelope)
        → 1 ≤ caps.max_rows
        → overflow_headroom_bytes ≤ caps.max_bytes
        → stored_seq c.tables ≡ some seq
        → IsAscending candidate_of_pending c.tables.pending
        → All
            (λ e. length (json_of w e) ≤ overflow_headroom_bytes)
            (overflow_records w device caps redactor now later drafts cursor record_device seq
              c.tables)
        → (enqueue w device caps redactor now later drafts cursor record_device c).0 ≡ ok sealed
        → IsWithinCaps caps
            (enqueue w device caps redactor now later drafts cursor record_device c).1.tables
    unfolding enqueued_tables overflow_records
    enqueue-IsWithinCaps sealed hr hb e s small done =
        let (_, at) =
          Ends-ok w _ _ sealed _
            (enqueue-Yields w device caps redactor now later drafts cursor record_device seq c
              c.tables refl e s)
            done in
        let fits =
          evicted_fits device (w.to_rfc3339 now) caps later _ (seq + length drafts)
            (written w device caps redactor now later drafts cursor record_device seq c.tables) refl
            hr hb small in
        subst (IsWithinCaps caps) (sym at) (record { rows = fits.rows; bytes = fits.bytes })

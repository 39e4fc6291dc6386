-- ===== src/Buffer/Serve/Capped.antt =====
-- src/runtime/buffer.rs: what the tables are like after any commands of the owner thread.
use nikki.Prelude.{
  ℕ, ◌≤◌, refl, sym, ap, subst, inl, inr, Bool, true, false, Option, List, [], ◌∷◌, Text, ℤ, arith,
  length, Option-cases, Bool-cases, ◌==◌,
}
use nikki.Record.{RecordDraft, Cursor}
use nikki.World.{World}
use nikki.Redact.{Redactor}
use nikki.Buffer.Sql.{Tables, Connection, PendingRow}
use nikki.Buffer.Sql.Yields.{IsReadOnly-call, IsReadOnly-query}
use nikki.Buffer.Evict.{
  Caps, candidate_of_pending, candidate_of_dead, delete_id, total_bytes, overflow_headroom_bytes,
  dead_letter_max_rows, dead_letter_max_bytes,
}
use nikki.Buffer.Evict.Rows.{IsAscending}
use nikki.Buffer.Evict.Bounds.{overdue_dead_bounds}
use nikki.Buffer.Operations
use nikki.Buffer.Operations.{PendingRecord, checkpoint, remove_id}
use nikki.Buffer.Operations.Enqueue
use nikki.Buffer.Operations.Enqueue.{stored_seq}
use nikki.Buffer.Operations.Batch.{
  removed, buried, take_batch-IsReadOnly, delete_batch-Yields, dead_letter-Yields, dead_lettered,
}
use nikki.Buffer.Operations.Bounds.{enqueued_tables-rows}
use nikki.Buffer.Operations.Removal.{removed-IsAscending, removed-dead, ids_of, pending-buried}
use nikki.Buffer.Operations.Refusal.{enqueue_refused}
use nikki.Buffer.Serve.{
  Command, enqueue, take_batch, delete_batch, dead_letter, read_cursor, flush_now, close, Request,
  Reply, closes, proceed, handle, respond, serve,
}
use nikki.Buffer.Serve.Invariant.{
  IsOrdered, keeps, dead_letter_rolls_back, delete_batch_rolls_back, enqueue_rolls_back,
  dead_lettered-IsOrdered,
}

-- The tables are in the order of their ids, and no larger than their caps: the pending rows in their number,
-- the dead letters in their number and in bytes.
pub record IsCapped (caps : Caps) (t : Tables) : Type 0 where
  pub ordered : IsOrdered t
  pub rows : length t.pending ≤ caps.max_rows
  pub dead_rows : length t.dead_letter ≤ dead_letter_max_rows
  pub dead_bytes : total_bytes candidate_of_dead t.dead_letter ≤ dead_letter_max_bytes

length-delete_id :
    (id : ℕ) (rows : List PendingRow)
    → length (delete_id candidate_of_pending id rows) ≤ length rows
unfolding delete_id candidate_of_pending
length-delete_id id [] = omega arith
length-delete_id id (r ∷ rows) = elim (Bool-cases (r.id == id)) [
  | inl same ↦ rw same (omega (arith, length-delete_id id rows))
  | inr other ↦ rw other (omega (arith, length-delete_id id rows))
]

length-removed : (ids : List ℕ) (t : Tables) → length (removed ids t).pending ≤ length t.pending
unfolding removed remove_id
length-removed [] t = omega arith
length-removed (id ∷ ids) t =
    omega (arith, length-removed ids (remove_id id t), length-delete_id id t.pending)

dead_lettered-IsCapped :
    (w : World) (caps : Caps) (rs : List PendingRecord) (reason : Text) (now : ℤ) (t : Tables)
    → IsCapped caps t
    → IsCapped caps (dead_lettered w rs reason now t)
unfolding dead_lettered
dead_lettered-IsCapped w caps [] reason now t o = o
dead_lettered-IsCapped w caps (r ∷ rs) reason now t o =
    let b = buried (r ∷ rs) reason (w.to_rfc3339 now) t in
    let (few, small) = overdue_dead_bounds b.dead_letter in
    record {
      ordered = dead_lettered-IsOrdered w (r ∷ rs) reason now t o.ordered;
      rows = omega (
        arith,
        o.rows,
        length-removed (ids_of (r ∷ rs)) t,
        ap length (pending-buried (r ∷ rs) reason (w.to_rfc3339 now) t t refl),
      );
      dead_rows = few;
      dead_bytes = small;
    }

delete_batch-IsCapped :
    (w : World) (caps : Caps) (ids : List ℕ) (c : Connection)
    → IsCapped caps c.tables
    → IsCapped caps (Operations.delete_batch w ids c).1.tables
delete_batch-IsCapped w caps ids c o =
    let same = sym (removed-dead ids c.tables) in
    keeps w (IsCapped caps) (Operations.delete_batch w ids c) tt c.tables _
      (delete_batch-Yields w ids c c.tables refl) (delete_batch_rolls_back w ids c) o
      (record {
        ordered = record {
          pending = removed-IsAscending ids c.tables o.ordered.pending;
          dead = subst (IsAscending candidate_of_dead) same o.ordered.dead;
        };
        rows = omega (arith, o.rows, length-removed ids c.tables);
        dead_rows = subst (λ d. length d ≤ dead_letter_max_rows) same o.dead_rows;
        dead_bytes =
            subst (λ d. total_bytes candidate_of_dead d ≤ dead_letter_max_bytes) same o.dead_bytes;
      })

dead_letter-IsCapped :
    (w : World) (caps : Caps) (records : List PendingRecord) (reason : Text) (now : ℤ)
    (c : Connection)
    → IsCapped caps c.tables
    → IsCapped caps (Operations.dead_letter w records reason now c).1.tables
dead_letter-IsCapped w caps records reason now c o =
    keeps w (IsCapped caps) (Operations.dead_letter w records reason now c) tt c.tables _
      (dead_letter-Yields w records reason now c c.tables refl o.ordered.dead)
      (dead_letter_rolls_back w records reason now c) o
      (dead_lettered-IsCapped w caps records reason now c.tables o)

proceed-IsCapped :
    (caps : Caps) (b : Bool) (reply : Reply) (c : Connection) (rest : List Reply × Connection)
    → IsCapped caps c.tables
    → IsCapped caps rest.1.tables
    → IsCapped caps (proceed b reply c rest).1.tables
unfolding proceed
proceed-IsCapped caps true reply c rest o o' = o
proceed-IsCapped caps false reply c (replies, last) o o' = o'

module _ (w : World) (device : Text) (caps : Caps) (redactor : Redactor) where
  enqueue-IsCapped :
      (drafts : List RecordDraft) (cursor : Option Cursor) (record_device : Option Text)
      (now later : ℤ) (c : Connection)
      → 1 ≤ caps.max_rows
      → overflow_headroom_bytes ≤ caps.max_bytes
      → IsCapped caps c.tables
      → IsCapped caps
          (Operations.enqueue w device caps redactor now later drafts cursor record_device
            c).1.tables
  enqueue-IsCapped drafts cursor record_device now later c hr hb o =
      elim (Option-cases (stored_seq c.tables)) [
        | inl damaged ↦
            let (e, failed, same) =
              enqueue_refused w device caps redactor now later drafts cursor record_device c
                damaged in
            subst (IsCapped caps) (sym same) o
        | inr (seq, e) ↦
            let same = sym (
              Enqueue.enqueued_tables-dead w device caps redactor now later drafts cursor
                record_device seq c.tables) in
            keeps w (IsCapped caps)
              (Operations.enqueue w device caps redactor now later drafts cursor record_device c) _
              c.tables _
              (Enqueue.enqueue-Yields w device caps redactor now later drafts cursor record_device
                seq c c.tables refl e o.ordered.pending)
              (enqueue_rolls_back w device caps redactor now later drafts cursor record_device c) o
              (record {
                ordered = record {
                  pending =
                      Enqueue.enqueued_tables-IsAscending w device caps redactor now later drafts
                        cursor record_device seq c.tables o.ordered.pending;
                  dead = subst (IsAscending candidate_of_dead) same o.ordered.dead;
                };
                rows =
                    enqueued_tables-rows w device caps redactor now later drafts cursor
                      record_device seq c hr hb;
                dead_rows = subst (λ d. length d ≤ dead_letter_max_rows) same o.dead_rows;
                dead_bytes =
                    subst (λ d. total_bytes candidate_of_dead d ≤ dead_letter_max_bytes) same
                      o.dead_bytes;
              })
      ]

  handle-IsCapped :
      (command : Command) (now later : ℤ) (c : Connection)
      → 1 ≤ caps.max_rows
      → overflow_headroom_bytes ≤ caps.max_bytes
      → IsCapped caps c.tables
      → IsCapped caps (handle w device caps redactor command now later c).1.tables
  unfolding handle respond Operations.read_cursor checkpoint
  handle-IsCapped (enqueue drafts cursor record_device) now later c hr hb o =
      enqueue-IsCapped drafts cursor record_device now later c hr hb o
  handle-IsCapped (take_batch limit) now later c hr hb o =
      subst (IsCapped caps) (sym (take_batch-IsReadOnly w limit c)) o
  handle-IsCapped (delete_batch ids) now later c hr hb o = delete_batch-IsCapped w caps ids c o
  handle-IsCapped (dead_letter records reason) now later c hr hb o =
      dead_letter-IsCapped w caps records reason now c o
  handle-IsCapped (read_cursor provider key) now later c hr hb o =
      subst (IsCapped caps) (sym (IsReadOnly-query w _ c)) o
  handle-IsCapped flush_now now later c hr hb o =
      subst (IsCapped caps) (sym (IsReadOnly-call w c)) o
  handle-IsCapped close now later c hr hb o = subst (IsCapped caps) (sym (IsReadOnly-call w c)) o

  -- When the caps leave room for one row and for the headroom: whatever requests come, and whichever of their
  -- statements fail, tables in the order of their ids and no larger than their caps, the pending rows in
  -- their number, the dead letters in their number and in bytes, are so afterwards.
  pub serve-IsCapped :
      (c : Connection) (requests : List Request)
      → 1 ≤ caps.max_rows
      → overflow_headroom_bytes ≤ caps.max_bytes
      → IsCapped caps c.tables
      → IsCapped caps (serve w device caps redactor c requests).1.tables
  unfolding serve
  serve-IsCapped c [] hr hb o = o
  serve-IsCapped c (q ∷ qs) hr hb o =
      let after = handle-IsCapped q.command q.now q.later c hr hb o in
      proceed-IsCapped caps (closes q.command) _ _ _ after
        (serve-IsCapped (handle w device caps redactor q.command q.now q.later c).1 qs hr hb after)

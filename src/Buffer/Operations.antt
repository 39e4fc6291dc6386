-- ===== src/Buffer/Operations.antt =====
-- src/runtime/buffer.rs: the operations behind the commands of the owner thread. The two readings of
-- the clock that `enqueue` takes are its arguments `now` and `later`.
pub mod Enqueue
pub mod Batch
pub mod Bounds
pub mod Numbering
pub mod Cursors
pub mod Queue
pub mod Refusal
pub mod Removal
use nikki.Prelude.{
  ℕ, zero, suc, ◌+◌, Bool, true, false, Option, none, some, List, [], ◌∷◌, ◌++◌, Text, codes, ℤ,
  pos, decimal, parse_u64, text_eq, take, length, if◌then◌else◌, ◌&&◌,
}
use nikki.Json.{Value, Fields, object, field, empty, number, string}
use nikki.Record.{
  RecordDraft, Envelope, Cursor, Provider, Kind, windows, buffer_overflow, windows_key,
  provider_name,
}
use nikki.Record.Dedup.{into_envelope}
use nikki.World.{World}
use nikki.Redact.{Redactor, apply}
use nikki.Buffer.Sql.{
  BufferError, serialise, counter, Result, Tx, Tables, PendingRow, CursorRow, DeadRow, ◌>>=◌, ◌>>◌,
  pure, fail, call, query, execute, transaction,
}
use nikki.Buffer.Evict.{
  Caps, Evicted, candidate_of_pending, candidate_of_dead, next_id, delete_id, evict_pending,
  evict_dead_letter,
}

pub record PendingRecord : Type 0 where
  pub id : ℕ
  pub envelope : Text
  pub bytes : ℕ

abbrev pub seq_key : Text
seq_key = codes "seq"

-- `SELECT value FROM meta WHERE key = ?1`
unfoldable pub select_meta : Text → List (Text × Text) → Option Text
select_meta k [] = none
select_meta k ((j, v) ∷ m) = if text_eq j k then some v else select_meta k m

-- `INSERT INTO meta ... ON CONFLICT(key) DO UPDATE`
unfoldable pub upsert_meta : Text → Text → List (Text × Text) → List (Text × Text)
upsert_meta k v [] = (k, v) ∷ []
upsert_meta k v ((j, x) ∷ m) = if text_eq j k then (j, v) ∷ m else (j, x) ∷ upsert_meta k v m

-- `SELECT value FROM cursors WHERE provider = ?1 AND key = ?2`
unfoldable pub select_cursor : Text → Text → List CursorRow → Option Text
select_cursor provider key [] = none
select_cursor provider key (r ∷ rs) =
    if text_eq r.provider provider && text_eq r.key key
    then some r.value
    else select_cursor provider key rs

-- `INSERT INTO cursors ... ON CONFLICT(provider, key) DO UPDATE`
unfoldable pub upsert_cursor : Text → Text → Text → List CursorRow → List CursorRow
upsert_cursor provider key value [] = record { provider = provider; key = key; value = value } ∷ []
upsert_cursor provider key value (r ∷ rs) =
    if text_eq r.provider provider && text_eq r.key key
    then record r { value = value } ∷ rs
    else r ∷ upsert_cursor provider key value rs

-- `INSERT INTO pending`
unfoldable pub push_pending : Text → Text → Tables → Tables
push_pending text created_at t = record t {
  pending =
      t.pending
      ++ record {
        id = next_id candidate_of_pending t.pending;
        envelope = text;
        bytes = length text;
        created_at = created_at;
      }
        ∷ [];
}

-- `INSERT INTO dead_letter`
unfoldable pub push_dead : PendingRecord → Text → Text → Tables → Tables
push_dead r reason at t = record t {
  dead_letter =
      t.dead_letter
      ++ record {
        id = next_id candidate_of_dead t.dead_letter;
        envelope = r.envelope;
        bytes = r.bytes;
        reason = reason;
        at = at;
      }
        ∷ [];
}

-- `DELETE FROM pending WHERE id = ?1`
unfoldable pub remove_id : ℕ → Tables → Tables
remove_id id t = record t { pending = delete_id candidate_of_pending id t.pending }

unfoldable pub overflow_draft : Evicted → ℤ → RecordDraft
overflow_draft evicted now = record {
  provider = windows;
  kind = buffer_overflow;
  ts = now;
  degraded = false;
  payload = object (
      field (codes "details")
        (object (
          field (codes "dropped") (number (pos evicted.dropped)) (
            field (codes "dropped_from") (string evicted.dropped_from)
              (field (codes "dropped_to") (string evicted.dropped_to) empty))))
        empty);
  key = windows_key;
}

abbrev pub device_or : Option Text → Text → Text
device_or none device = device
device_or (some record_device) device = record_device

unfoldable pub record_of : PendingRow → PendingRecord
record_of r = record { id = r.id; envelope = r.envelope; bytes = r.bytes }

module _ (w : World) where
  insert_text : Option Text → Text → Tx (Unit {0})
  insert_text none created_at = fail (serialise [])
  insert_text (some text) created_at = execute w (push_pending text created_at)

  insert_pending : Envelope → Text → Tx (Unit {0})
  unfolding insert_text
  insert_pending envelope created_at = insert_text (w.to_json envelope) created_at

  parse_seq : Option Text → Tx ℕ
  parse_seq none = pure 0
  parse_seq (some stored) = elim (parse_u64 stored) [
    | none ↦ fail (counter seq_key stored)
    | some seq ↦ pure seq
  ]

  read_seq : Tx ℕ
  unfolding parse_seq
  read_seq = do stored ← query w (λ t. select_meta seq_key t.meta); parse_seq stored

  write_seq : ℕ → Tx (Unit {0})
  write_seq seq = execute w (λ t. record t { meta = upsert_meta seq_key (decimal seq) t.meta })

  -- The loop over the drafts: the counter and the sealed envelopes.
  seal_drafts :
      Redactor → Text → Text → List RecordDraft → ℕ → List Envelope → Tx (ℕ × List Envelope)
  seal_drafts redactor device created_at [] seq sealed = pure (seq, sealed)
  seal_drafts redactor device created_at (draft ∷ drafts) seq sealed =
      let redacted = record draft { payload = apply w redactor draft.payload } in
      let envelope = into_envelope w.sha256 redacted device (seq + 1) in
      insert_pending envelope created_at
      >> seal_drafts redactor device created_at drafts (seq + 1) (sealed ++ envelope ∷ [])

  store_cursor : Option Cursor → Tx (Unit {0})
  store_cursor none = pure tt
  store_cursor (some cursor) = execute w λ t. record t {
    cursors = upsert_cursor (provider_name cursor.provider) cursor.key cursor.value t.cursors;
  }

  report_eviction : Option Evicted → Text → Text → ℤ → ℕ → List Envelope → Tx (ℕ × List Envelope)
  report_eviction none device created_at later seq sealed = pure (seq, sealed)
  report_eviction (some evicted) device created_at later seq sealed =
      let envelope = into_envelope w.sha256 (overflow_draft evicted later) device (seq + 1) in
      do insert_pending envelope created_at; pure (seq + 1, sealed ++ envelope ∷ [])

  enqueue_body :
      Text
      → Caps
      → Redactor
      → ℤ
      → ℤ
      → List RecordDraft
      → Option Cursor
      → Option Text
      → Tx (List Envelope)
  unfolding read_seq seal_drafts store_cursor report_eviction write_seq insert_pending
  enqueue_body device caps redactor now later drafts cursor record_device = do
    let created_at = w.to_rfc3339 now
    first ← read_seq
    (seq, sealed) ← seal_drafts redactor (device_or record_device device) created_at drafts first []
    store_cursor cursor
    evicted ← evict_pending w caps
    (last, all) ← report_eviction evicted device created_at later seq sealed
    write_seq last
    pure all

  unfoldable pub enqueue :
      Text
      → Caps
      → Redactor
      → ℤ
      → ℤ
      → List RecordDraft
      → Option Cursor
      → Option Text
      → Tx (List Envelope)
  unfolding enqueue_body
  enqueue device caps redactor now later drafts cursor record_device =
      transaction w (enqueue_body device caps redactor now later drafts cursor record_device)

  -- One call of the engine for each row that is read.
  read_rows : List PendingRow → Tx (List PendingRecord)
  unfolding record_of
  read_rows [] = do call w; pure []
  read_rows (r ∷ rs) = do call w; rest ← read_rows rs; pure (record_of r ∷ rest)

  unfoldable pub take_batch : ℕ → Tx (List PendingRecord)
  unfolding read_rows
  take_batch limit = do call w; rows ← query w (λ t. take limit t.pending); read_rows rows

  delete_ids : List ℕ → Tx (Unit {0})
  delete_ids [] = pure tt
  delete_ids (id ∷ ids) = execute w (remove_id id) >> delete_ids ids

  unfoldable pub delete_batch : List ℕ → Tx (Unit {0})
  unfolding delete_ids
  delete_batch [] = pure tt
  delete_batch (id ∷ ids) = transaction w (call w >> delete_ids (id ∷ ids))

  bury : List PendingRecord → Text → Text → Tx (Unit {0})
  bury [] reason at = pure tt
  bury (r ∷ rs) reason at = do
    execute w (push_dead r reason at)
    execute w (remove_id r.id)
    bury rs reason at

  unfoldable pub dead_letter : List PendingRecord → Text → ℤ → Tx (Unit {0})
  unfolding bury
  dead_letter [] reason now = pure tt
  dead_letter (r ∷ rs) reason now =
      transaction w
        (do call w; call w; bury (r ∷ rs) reason (w.to_rfc3339 now); evict_dead_letter w)

  unfoldable pub read_cursor : Provider → Text → Tx (Option Text)
  read_cursor provider key = query w (λ t. select_cursor (provider_name provider) key t.cursors)

  -- `PRAGMA wal_checkpoint(TRUNCATE)` moves the log into the file and changes no table.
  unfoldable pub checkpoint : Tx (Unit {0})
  checkpoint = call w

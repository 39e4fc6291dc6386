-- ===== src/Buffer/Tests.antt =====
-- A healthy world, a buffer with two rows that takes three at most, and the theorems about it.
use nikki.Prelude.{
  ℕ, ◌+◌, ◌^◌, ◌<◌, ◌≡◌, ◌⊎◌, refl, false, none, some, List, [], ◌∷◌, ◌++◌, map, codes, pos, arith,
  decimal, parse_u64, text_eq, drop, length, All, ◌≤◌,
}
use nikki.Json.{object, empty}
use nikki.Record.{RecordDraft, Envelope, windows, tick, windows_key}
use nikki.World.{World}
use nikki.Redact.{Redactor, host}
use nikki.Buffer.Sql.{
  Result, ok, err, BufferError, PendingRow, Connection, transaction, settle, ◌>>=◌, followed_by,
  pure, fail, call, query, execute, tables_of, write_tables,
}
use nikki.Buffer.Sql.Yields.{IsHealthy}
use nikki.Buffer.Evict.{
  Caps, candidate_of_pending, evict_pending, total_bytes, delete_through, next_id, greatest_id,
}
use nikki.Buffer.Evict.Runs.{overdue, eviction}
use nikki.Buffer.Evict.Prefix.{surplus, report, last_of}
use nikki.Record.Dedup.{into_envelope}
use nikki.Buffer.Operations
use nikki.Buffer.Operations.{enqueue, device_or, overflow_draft}
use nikki.Buffer.Operations.Queue
use nikki.Buffer.Operations.Enqueue.{
  markers, push_all, stored_seq, json_of, sealed_from, overflow_records, written, enqueued,
}
use nikki.Buffer.Operations.Bounds.{IsWithinCaps, enqueue-IsWithinCaps}
use nikki.Buffer.Operations.Numbering.{IsNumberedFrom, enqueue_numbers}
use nikki.Buffer.Operations.Queue.{queue, enqueue_outcome}
use nikki.Buffer.Operations.Refusal.{enqueue_refused}
use nikki.Buffer.Serve.{Command, Request, serve}
use nikki.Buffer.Serve.Invariant.{IsOrdered}
use nikki.Buffer.Serve.Capped.{IsCapped, serve-IsCapped}

-- The serialiser writes the number, the hash is constant, nothing is a URL and no statement fails.
abbrev pub calm : World
calm = record {
  sha256 = λ s. 1 ∷ 2 ∷ 3 ∷ 4 ∷ 5 ∷ 6 ∷ 7 ∷ 8 ∷ [];
  to_rfc3339 = λ t. codes "now";
  to_json = λ e. some (decimal e.seq);
  parse_url = λ s. none;
  to_lowercase = λ s. s;
  fault = λ n. none;
}

pub calm-IsHealthy : IsHealthy calm
calm-IsHealthy = record { no_fault = λ n. refl; serialises = λ e h. cc }

abbrev plain : Redactor
plain = record { fallback = host; hosts = []; titleless_bundles = [] }

abbrev draft : RecordDraft
draft = record {
  provider = windows;
  kind = tick;
  ts = pos 5;
  degraded = false;
  payload = object empty;
  key = windows_key;
}

abbrev row : ℕ → PendingRow
row n = record { id = n; envelope = decimal n; bytes = 1; created_at = codes "then" }

abbrev pub two_rows : Connection
two_rows = record {
  tables = record {
    pending = row 1 ∷ row 2 ∷ [];
    cursors = [];
    dead_letter = [];
    meta = (codes "seq", codes "2") ∷ [];
  };
  ran = 0;
}

abbrev three : Caps
three = record { max_rows = 3; max_bytes = 600 }

abbrev run : Result (List Envelope) × Connection
run = enqueue calm (codes "m") three plain (pos 0) (pos 1) (draft ∷ draft ∷ []) none none two_rows

two_rows-seq : stored_seq two_rows.tables ≡ some 2
unfolding Operations.select_meta text_eq parse_u64
two_rows-seq = refl

-- What the runs below compute with.
program : Unit {0}
unfolding enqueue Operations.select_meta Operations.upsert_meta Operations.push_pending text_eq
    parse_u64 evict_pending candidate_of_pending total_bytes delete_through next_id greatest_id
    transaction settle ◌>>=◌ followed_by pure call query execute tables_of write_tables
    into_envelope overflow_draft decimal fail
program = tt

-- Four rows are one too many for three, so the oldest leave and a record of that comes in.
run_queue : queue run.1.tables ≡ codes "3" ∷ codes "4" ∷ codes "5" ∷ []
unfolding program
run_queue = refl

abbrev drafts : List RecordDraft
drafts = draft ∷ draft ∷ []

abbrev sealed : List Envelope
sealed = enqueued calm (codes "m") three plain (pos 0) (pos 1) drafts none none 2 two_rows.tables

run-ok : run.0 ≡ ok sealed
unfolding program enqueued overflow_records written sealed_from eviction overdue markers push_all
    json_of report surplus last_of
run-ok = refl

pub two_rows-IsOrdered : IsOrdered two_rows.tables
unfolding candidate_of_pending
two_rows-IsOrdered = record { pending = omega arith; dead = tt }

enqueue_outcome_example :
    ((Queue.run calm (codes "m") three plain (pos 0) (pos 1) drafts none none 2 two_rows).0
        ≡ ok (
            Queue.drafted calm (codes "m") three plain (pos 0) (pos 1) drafts none none 2 two_rows
            ++ Queue.reported calm
                (codes "m")
                three
                plain
                (pos 0)
                (pos 1)
                drafts
                none
                none
                2
                two_rows))
      × (queue
            (Queue.run calm
              (codes "m")
              three
              plain
              (pos 0)
              (pos 1)
              drafts
              none
              none
              2
              two_rows).1.tables
          ≡ drop
              (Queue.due calm (codes "m") three plain (pos 0) (pos 1) drafts none none 2 two_rows)
              (queue two_rows.tables
                ++ map (json_of calm) (
                    Queue.drafted calm
                      (codes "m")
                      three
                      plain
                      (pos 0)
                      (pos 1)
                      drafts
                      none
                      none
                      2
                      two_rows))
            ++ map (json_of calm) (
                Queue.reported calm
                  (codes "m")
                  three
                  plain
                  (pos 0)
                  (pos 1)
                  drafts
                  none
                  none
                  2
                  two_rows))
    ⊎ ((e : BufferError) × ((Queue.run calm
            (codes "m")
            three
            plain
            (pos 0)
            (pos 1)
            drafts
            none
            none
            2
            two_rows).0
          ≡ err e)
        × ((Queue.run calm
              (codes "m")
              three
              plain
              (pos 0)
              (pos 1)
              drafts
              none
              none
              2
              two_rows).1.tables
            ≡ two_rows.tables)
        × (¬ IsHealthy calm))
enqueue_outcome_example =
    enqueue_outcome calm (codes "m") three plain (pos 0) (pos 1) drafts none none 2 two_rows
      two_rows-seq two_rows-IsOrdered.pending

marker_is_small :
    All
      (λ e. length (json_of calm e) ≤ 512)
      (overflow_records calm
        (codes "m")
        three
        plain
        (pos 0)
        (pos 1)
        drafts
        none
        none
        2
        two_rows.tables)
unfolding program overflow_records written sealed_from eviction overdue markers push_all json_of
    report surplus last_of
marker_is_small = omega arith

enqueue-IsWithinCaps_example : IsWithinCaps three run.1.tables
enqueue-IsWithinCaps_example =
    enqueue-IsWithinCaps calm (codes "m") three plain (pos 0) (pos 1) drafts none none 2 two_rows
      sealed (omega arith) (omega arith) two_rows-seq two_rows-IsOrdered.pending marker_is_small
      run-ok

sealed_short : 2 + length sealed < 2 ^ 64
unfolding program enqueued overflow_records written sealed_from eviction overdue markers push_all
    json_of report surplus last_of
sealed_short = omega arith

enqueue_numbers_example :
    IsNumberedFrom 2 sealed × (stored_seq run.1.tables ≡ some (2 + length sealed))
enqueue_numbers_example =
    enqueue_numbers calm (codes "m") three plain (pos 0) (pos 1) drafts none none 2 two_rows sealed
      two_rows-seq two_rows-IsOrdered.pending sealed_short run-ok

abbrev damaged : Connection
damaged = record {
  tables = record two_rows.tables { meta = (codes "seq", codes "x") ∷ [] };
  ran = 0;
}

damaged-seq : stored_seq damaged.tables ≡ none
unfolding program
damaged-seq = refl

enqueue_refused_example :
    (e : BufferError) × ((enqueue calm
        (codes "m")
        three
        plain
        (pos 0)
        (pos 1)
        drafts
        none
        none
        damaged).0
      ≡ err e)
    × ((enqueue calm (codes "m") three plain (pos 0) (pos 1) drafts none none damaged).1.tables
        ≡ damaged.tables)
enqueue_refused_example =
    enqueue_refused calm (codes "m") three plain (pos 0) (pos 1) drafts none none damaged
      damaged-seq

two_rows-IsCapped : IsCapped three two_rows.tables
unfolding total_bytes
two_rows-IsCapped = record {
  ordered = two_rows-IsOrdered;
  rows = omega arith;
  dead_rows = omega arith;
  dead_bytes = omega arith;
}

abbrev requests : List Request
requests =
    record { command = Command.enqueue drafts none none; now = pos 0; later = pos 1 }
    ∷ record { command = Command.delete_batch (4 ∷ 2 ∷ []); now = pos 2; later = pos 2 }
    ∷ record { command = Command.close; now = pos 3; later = pos 3 }
    ∷ []

serve-IsCapped_example :
    IsCapped three (serve calm (codes "m") three plain two_rows requests).1.tables
serve-IsCapped_example =
    serve-IsCapped calm (codes "m") three plain two_rows requests (omega arith) (omega arith)
      two_rows-IsCapped

abbrev one_row : Connection
one_row = record { tables = record two_rows.tables { pending = row 1 ∷ [] }; ran = 0 }

-- With a cap of one row the eviction empties the table, and the record of it gets the id of the row
-- that was there before.
one_row_ids :
    map
      (λ r. r.id)
      (enqueue calm
        (codes "m")
        (record { max_rows = 1; max_bytes = 600 })
        plain
        (pos 0)
        (pos 1)
        (draft ∷ [])
        none
        none
        one_row).1.tables.pending
    ≡ 1 ∷ []
unfolding program
one_row_ids = refl

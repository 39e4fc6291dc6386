-- ===== src/Pipeline/Tests.antt =====
-- An emission on the buffer with two rows, and the theorems about it.
use nikki.Prelude.{
  ◌≡◌, ◌⊎◌, refl, true, false, if◌then◌else◌, none, some, [], ◌∷◌, ◌++◌, Text, codes, text_eq,
  parse_u64, pos, arith, map, drop,
}
use nikki.Json.{object, empty}
use nikki.Record.{RecordDraft, Cursor, windows, tick, windows_key, claude_code}
use nikki.Redact.{Redactor, host}
use nikki.Providers.{awaiting_commit, awaiting_buffer}
use nikki.Buffer.Sql.{ok}
use nikki.Buffer.Sql.Yields.{IsHealthy}
use nikki.Buffer.Evict.{Caps}
use nikki.Buffer.Operations
use nikki.Buffer.Operations.{enqueue, read_cursor}
use nikki.Buffer.Operations.Enqueue.{stored_seq, json_of}
use nikki.Buffer.Operations.Cursors.{is_for, read_cursor-enqueue}
use nikki.Buffer.Operations.Queue.{queue}
use nikki.Buffer.Tests.{calm, calm-IsHealthy, two_rows, two_rows-IsOrdered}
use nikki.Transcript.{Increment, FileCursor, cursor_version}
use nikki.Transcript.Shipping.{Outside, cursor_key, decode}
use nikki.Transcript.Shipping.Ticks.{shipment}
use nikki.Transcript.Tests.{plain, outside, reading}
use nikki.Pipeline.{acknowledged, Arrival, store, absorb}
use nikki.Pipeline.Stored.{asks, drafts, overflow, gone, store_lem}
use nikki.Pipeline.Absorbed.{IsSound, asked_by, absorb-asked_by}
use nikki.Pipeline.Restart.{arrival, store-shipment}

abbrev draft : RecordDraft
draft = record {
  provider = windows;
  kind = tick;
  ts = pos 5;
  degraded = false;
  payload = object empty;
  key = windows_key;
}

abbrev cursor : Cursor
cursor = record { provider = claude_code; key = codes "/f"; value = codes "v" }

abbrev redactor : Redactor
redactor = record { fallback = host; hosts = []; titleless_bundles = [] }

abbrev three : Caps
three = record { max_rows = 3; max_bytes = 600 }

two_rows-counter : stored_seq two_rows.tables ≡ some 2
unfolding Operations.select_meta text_eq parse_u64
two_rows-counter = refl

read_cursor-enqueue_example :
    (read_cursor calm claude_code
      (codes "/f")
      (enqueue calm
        (codes "m")
        three
        redactor
        (pos 0)
        (pos 1)
        (draft ∷ [])
        (some cursor)
        none
        two_rows).1).0
    ≡ (if is_for cursor claude_code (codes "/f")
        then ok (some (codes "v"))
        else (read_cursor calm claude_code (codes "/f") two_rows).0)
read_cursor-enqueue_example =
    read_cursor-enqueue calm (codes "m") three redactor (pos 0) (pos 1) (draft ∷ []) cursor none 2
      two_rows claude_code (codes "/f") calm-IsHealthy two_rows-counter two_rows-IsOrdered.pending

abbrev commits : Arrival
commits = record {
  emission = awaiting_commit (draft ∷ draft ∷ []) (some cursor);
  now = pos 0;
  later = pos 1;
}

abbrev buffers : Arrival
buffers = record { emission = awaiting_buffer (draft ∷ []) none; now = pos 2; later = pos 3 }

store_example :
    (((store calm (codes "m") three redactor commits two_rows).0 ≡ asks true true)
      × (queue (store calm (codes "m") three redactor commits two_rows).1.tables
          ≡ drop (gone calm (codes "m") three redactor commits 2 two_rows) (
              queue two_rows.tables
              ++ map (json_of calm) (drafts calm (codes "m") three redactor commits 2 two_rows))
            ++ map (json_of calm) (overflow calm (codes "m") three redactor commits 2 two_rows)))
    ⊎ (((store calm (codes "m") three redactor commits two_rows).0 ≡ [])
        × ((store calm (codes "m") three redactor commits two_rows).1.tables ≡ two_rows.tables)
        × (¬ IsHealthy calm))
store_example =
    store_lem calm (codes "m") three redactor commits 2 two_rows two_rows-counter
      two_rows-IsOrdered.pending

two_rows-IsSound : IsSound 2 two_rows
two_rows-IsSound = record {
  seq = 2;
  stored = two_rows-counter;
  bound = omega arith;
  ordered = two_rows-IsOrdered.pending;
}

absorb_example :
    (absorb calm (codes "m") three redactor (commits ∷ []) (buffers ∷ []) two_rows).0
    ≡ asked_by (commits ∷ buffers ∷ [])
absorb_example =
    absorb-asked_by calm (codes "m") three redactor calm-IsHealthy (commits ∷ []) (buffers ∷ []) 2
      two_rows two_rows-IsSound (omega arith)

abbrev advanced : FileCursor
advanced = record {
  inode = 9;
  offset = 4;
  last_message_ts = none;
  version = cursor_version;
  head = none;
  skipping = false;
}

abbrev increment : Increment
increment = record { drafts = draft ∷ []; cursor = advanced }

abbrev reads_back : Outside
reads_back = record outside { parse_cursor = λ s. some advanced }

store-shipment_example :
    ((store calm
        (codes "m")
        three
        redactor
        (arrival (shipment plain reads_back (codes "/f") reading increment) (pos 0) (pos 1))
        two_rows).0
      ≡ acknowledged ∷ [])
    × ((value : Text) × ((read_cursor calm claude_code
            (cursor_key reads_back (codes "/f") (some (codes "m")))
            (store calm
              (codes "m")
              three
              redactor
              (arrival (shipment plain reads_back (codes "/f") reading increment) (pos 0) (pos 1))
              two_rows).1).0
          ≡ ok (some value))
        × (decode reads_back value ≡ some advanced))
store-shipment_example =
    store-shipment calm (codes "m") three redactor (pos 0) (pos 1) 2 two_rows calm-IsHealthy
      two_rows-counter two_rows-IsOrdered.pending plain reads_back (codes "/f") reading increment
      refl refl

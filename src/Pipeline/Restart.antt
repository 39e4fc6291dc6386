-- ===== src/Pipeline/Restart.antt =====
-- src/runtime/mod.rs and src/providers/claude_code.rs: what a provider finds in the buffer when it starts
-- again after an increment was stored.
use nikki.Prelude.{
  ℕ, ◌≡◌, refl, ap, ◌∙◌, Bool, true, false, Option, none, some, List, [], ◌∷◌, Text, text_eq_refl,
  ℤ, ltb, arith,
}
use nikki.Record.{RecordDraft, Cursor, claude_code, provider_name}
use nikki.World.{World}
use nikki.Redact.{Redactor}
use nikki.Providers.{Emission}
use nikki.Buffer.Sql.{ok, Connection}
use nikki.Buffer.Sql.Yields.{IsHealthy, Ends-eq}
use nikki.Buffer.Evict.{Caps, candidate_of_pending}
use nikki.Buffer.Evict.Rows.{IsAscending}
use nikki.Buffer.Operations.{enqueue, read_cursor}
use nikki.Buffer.Operations.Enqueue.{stored_seq, enqueue-Yields}
use nikki.Buffer.Operations.Cursors.{is_for, read_cursor-enqueue}
use nikki.Transcript.{Externals, FileCursor, Increment, cursor_version}
use nikki.Transcript.Shipping.{Outside, Shipped, cursor_key, decode, up_to_date}
use nikki.Transcript.Shipping.Ticks.{emission_of, stored_cursor, shipment}
use nikki.Pipeline.{acknowledged, Arrival, acknowledge, store}
use nikki.Pipeline.Stored.{after_ok}

abbrev own_cursor : Cursor → Bool
own_cursor cursor = is_for cursor cursor.provider cursor.key

is_own : (cursor : Cursor) → own_cursor cursor ≡ true
is_own cursor = rw (text_eq_refl (provider_name cursor.provider), text_eq_refl cursor.key) refl

decode_current :
    (o : Outside) (cursor : FileCursor)
    → o.parse_cursor (o.encode_cursor cursor) ≡ some cursor
    → cursor.version ≡ cursor_version
    → decode o (o.encode_cursor cursor) ≡ some cursor
unfolding decode up_to_date
decode_current o cursor reads current = rw (decode, reads, is_current) refl
  where
    is_current : ltb cursor.version cursor_version ≡ false
    is_current = ground (arith, current)

abbrev pub arrival : Emission → ℤ → ℤ → Arrival
arrival emission now later = record { emission = emission; now = now; later = later }

module _ (w : World) (device : Text) (caps : Caps) (redactor : Redactor) (now later : ℤ) (seq : ℕ)
    (c : Connection) (healthy : IsHealthy w) (stored : stored_seq c.tables ≡ some seq)
    (ordered : IsAscending candidate_of_pending c.tables.pending) where
  -- Buffered, acknowledged, and its cursor is there.
  abbrev Lands : Emission → Cursor → Type 0
  Lands emission cursor =
      ((store w device caps redactor (arrival emission now later) c).0 ≡ acknowledged ∷ [])
      × ((read_cursor w cursor.provider cursor.key
            (store w device caps redactor (arrival emission now later) c).1).0
          ≡ ok (some cursor.value))

  abbrev waiting : List RecordDraft → Cursor → Option Text → Emission
  waiting drafts cursor record_device = record {
    records = drafts;
    cursor = some cursor;
    committed = true;
    ships_before_commit = false;
    device = record_device;
  }

  waiting-Lands :
      (drafts : List RecordDraft) (cursor : Cursor) (record_device : Option Text)
      → Lands (waiting drafts cursor record_device) cursor
  unfolding store acknowledge
  waiting-Lands drafts cursor record_device =
      let (done, at) =
        Ends-eq w (enqueue w device caps redactor now later drafts (some cursor) record_device c) _
          _ healthy
          (enqueue-Yields w device caps redactor now later drafts (some cursor) record_device seq c
            c.tables refl stored ordered) in
      let stepped =
        after_ok w device caps redactor (waiting drafts cursor record_device) _ _ done in
      (
        ap (λ r. r.0) stepped,
        ap (λ r. (read_cursor w cursor.provider cursor.key r.1).0) stepped
            ∙ read_cursor-enqueue w device caps redactor now later drafts cursor record_device seq c
                cursor.provider cursor.key healthy stored ordered
            ∙ rw (is_own cursor) refl,
      )

  emission_of-Lands :
      (drafts : List RecordDraft) (cursor : Cursor) (record_device : Option Text)
      → Lands (emission_of drafts cursor record_device) cursor
  unfolding emission_of
  emission_of-Lands drafts cursor none = waiting-Lands drafts cursor none
  emission_of-Lands drafts cursor (some d) = waiting-Lands drafts cursor (some d)

  -- In a healthy world, with a counter that is a number and the rows in the order of their ids, and cursors
  -- that are read back as they were written: an increment of a transcript that is stored is acknowledged, and
  -- the cursor that a provider then finds for the file, when it has forgotten everything, is the increment's,
  -- of the current version.
  pub store-shipment :
      (x : Externals) (o : Outside) (path : Text) (reading : Shipped) (i : Increment)
      → o.parse_cursor (o.encode_cursor i.cursor) ≡ some i.cursor
      → i.cursor.version ≡ cursor_version
      → ((store w device caps redactor (arrival (shipment x o path reading i) now later) c).0
          ≡ acknowledged ∷ [])
        × ((value : Text) × ((read_cursor w claude_code
                (cursor_key o path reading.device)
                (store w device caps redactor
                  (arrival (shipment x o path reading i) now later)
                  c).1).0
              ≡ ok (some value))
            × (decode o value ≡ some i.cursor))
  unfolding shipment stored_cursor
  store-shipment x o path reading i reads current =
      let (told, found) =
        emission_of-Lands i.drafts
          (stored_cursor (cursor_key o path reading.device) i.cursor o.encode_cursor)
          reading.device in
      (told, (o.encode_cursor i.cursor, found, decode_current o i.cursor reads current))

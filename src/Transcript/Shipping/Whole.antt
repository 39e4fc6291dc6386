-- ===== src/Transcript/Shipping/Whole.antt =====
-- src/providers/claude_code.rs: `ship_file` on a file that does not change, while the runtime takes every
-- emission.
use nikki.Prelude.{
  ℕ, zero, suc, ◌-◌, ◌^◌, ◌<◌, ◌≡◌, refl, sym, ap, ◌∙◌, subst, inl, inr, false, Option, none, some,
  List, [], ◌∷◌, ◌++◌, Text, text_eq_refl, arith, ℤ, length, drop, All,
}
use mathlib.Core.List.{append_assoc, append-nil}
use nikki.Record.{RecordDraft, Cursor}
use nikki.Providers.{Emission}
use nikki.Transcript.{Externals, by_inode, FileCursor, Increment, read_budget}
use nikki.Transcript.Reading.{
  File, Reading, nothing_new, read, modified_millis, read_increment, start_by_inode,
}
use nikki.Transcript.Reading.Lines.{
  whole_lines, bytes_in, bytes_in-append, records_from, records_from-append,
}
use nikki.Transcript.Reading.Resume.{
  IsAmple, Takes, Reads, read_increment-Reads, start_by_inode-resume,
}
use nikki.Transcript.Shipping.{
  buffered, Outside, ClaudeCodeProvider, Flow, go_on, provider_error, Shipped, remove, lookup,
  source_of, cursor_key,
}
use nikki.Transcript.Shipping.Known.{cursor_for-IsFound, cursor_for-known}
use nikki.Transcript.Shipping.Ticks.{
  cursor_for, emission_of, shipment, after_send, after_buffered, ship_loop, ship_file, send,
}

abbrev pub records_of : List Emission → List RecordDraft
records_of [] = []
records_of (e ∷ es) = e.records ++ records_of es

-- The budget of the provider is ample.
read_budget-IsAmple : IsAmple read_budget
read_budget-IsAmple = record { records = omega arith; bytes = omega arith; scan = omega arith }

module _ (x : Externals) (o : Outside) (path : Text) (reading : Shipped) where
  idle_after : ClaudeCodeProvider → ClaudeCodeProvider
  idle_after s = record s { unreadable = remove path s.unreadable; asked = suc s.asked }

  abbrev answer : Option FileCursor → ClaudeCodeProvider → Reading
  answer cursor s =
      read_increment x (o.disk s.asked path) (o.now s.asked) (source_of reading) cursor read_budget

  ship_loop-idle :
      (fuel : ℕ) (cursor : Option FileCursor) (s : ClaudeCodeProvider)
      → answer cursor s ≡ nothing_new
      → ship_loop x o path reading (suc fuel) cursor s ≡ (go_on, idle_after s)
  unfolding ship_loop idle_after
  ship_loop-idle fuel cursor s e = rw (ship_loop, e) refl

  ship_loop-more :
      (fuel : ℕ) (cursor : Option FileCursor) (s : ClaudeCodeProvider) (i : Increment)
      → answer cursor s ≡ read i
      → o.delivery (suc s.asked) ≡ buffered
      → ship_loop x o path reading (suc fuel) cursor s
        ≡ ship_loop x o path reading fuel
            (some i.cursor)
            (after_buffered x o path reading i (after_send x o path reading i s))
  unfolding ship_loop
  ship_loop-more fuel cursor s i e d = rw (ship_loop, e, d) refl

  knows_last :
      (i : Increment) (s : ClaudeCodeProvider)
      → lookup (cursor_key o path reading.device) (after_buffered x o path reading i s).known
        ≡ some (some i.cursor)
  unfolding lookup after_buffered
  knows_last i s = rw (text_eq_refl (cursor_key o path reading.device)) refl

  emission_of-records :
      (drafts : List RecordDraft) (c : Cursor) (device : Option Text)
      → (emission_of drafts c device).records ≡ drafts
  unfolding emission_of
  emission_of-records drafts c none = refl
  emission_of-records drafts c (some device) = refl

  shipment-records : (i : Increment) → (shipment x o path reading i).records ≡ i.drafts
  unfolding shipment
  shipment-records i = emission_of-records i.drafts _ reading.device

  after_send-sent :
      (i : Increment) (s : ClaudeCodeProvider)
      → (after_buffered x o path reading i (after_send x o path reading i s)).sent
        ≡ s.sent ++ shipment x o path reading i ∷ []
  unfolding after_buffered after_send send
  after_send-sent i s = refl

  module _ (file : File) (m : ℤ) where
    abbrev at : Option FileCursor → FileCursor
    at cursor = start_by_inode cursor file.inode file.size

    abbrev lines_from : ℕ → List Text
    lines_from offset = whole_lines (drop offset file.content)

    -- The records of the lines behind a cursor, and the moment of the last message.
    abbrev pub due : FileCursor → List RecordDraft
    due start =
        (records_from x (source_of reading) file.stem m (lines_from start.offset)
          start.last_message_ts).0

    -- A file that does not change, read by its inode, with a runtime that takes every emission.
    pub record IsQuiet : Type 0 where
      pub by : reading.identity ≡ by_inode
      pub same : (n : ℕ) → o.disk n path ≡ some file
      pub modified : file.modified ≡ some m
      pub size : file.size ≡ length file.content
      pub small : file.size < 2 ^ 64 - 1
      pub taken : (n : ℕ) → o.delivery n ≡ buffered

    -- An emission carries a cursor of the file under its key, and the device.
    abbrev pub IsAddressed : Emission → Type 0
    IsAddressed e =
        (i : Increment) × (e ≡ shipment x o path reading i) × (i.cursor.inode ≡ file.inode)

    -- From a cursor on, everything has been sent: the emissions, each addressed, hold exactly the records
    -- of the whole lines behind it, in their order, none if there are no such lines, and the cursor that
    -- the provider knows afterwards has no whole line behind it.
    pub record ShipsAll (cursor : Option FileCursor) (s t : ClaudeCodeProvider) : Type 0 where
      pub sent : List Emission
      pub appended : t.sent ≡ s.sent ++ sent
      pub records : records_of sent ≡ due (at cursor)
      pub addressed : All IsAddressed sent
      pub idle : lines_from (at cursor).offset ≡ [] → sent ≡ []
      pub last : Option FileCursor
      pub knows : lookup (cursor_key o path reading.device) t.known ≡ some last
      pub clear : (at last).skipping ≡ false
      pub nothing_left : lines_from (at last).offset ≡ []

    ShipsAll-from :
        (cursor : Option FileCursor) (s s' t : ClaudeCodeProvider)
        → s'.sent ≡ s.sent
        → ShipsAll cursor s' t
        → ShipsAll cursor s t
    ShipsAll-from cursor s s' t same all = record {
      sent = all.sent;
      appended = all.appended ∙ ap (λ l. l ++ all.sent) same;
      records = all.records;
      addressed = all.addressed;
      idle = all.idle;
      last = all.last;
      knows = all.knows;
      clear = all.clear;
      nothing_left = all.nothing_left;
    }

    abbrev Ships : Option FileCursor → ClaudeCodeProvider → Flow × ClaudeCodeProvider → Type 0
    Ships cursor s r = (t : ClaudeCodeProvider) × (r ≡ (go_on, t)) × ShipsAll cursor s t

    modified_at : IsQuiet → (now : ℤ) → modified_millis file.modified now ≡ m
    unfolding modified_millis
    modified_at quiet now = ap (λ since_epoch. modified_millis since_epoch now) quiet.modified

    module _ (quiet : IsQuiet) where
      reads :
          (cursor : Option FileCursor) (s : ClaudeCodeProvider)
          → (at cursor).skipping ≡ false
          → Reads x
              (source_of reading)
              read_budget
              file
              (o.now s.asked)
              (at cursor)
              (answer cursor s)
      unfolding source_of
      reads cursor s clear =
          subst
            (λ f.
              Reads x (source_of reading) read_budget file (o.now s.asked) (at cursor)
                (read_increment x f (o.now s.asked) (source_of reading) cursor read_budget))
            (sym (quiet.same s.asked))
            (read_increment-Reads x (source_of reading) read_budget file (o.now s.asked) cursor
              read_budget-IsAmple quiet.by quiet.size quiet.small clear)

      ShipsAll-idle :
          (cursor : Option FileCursor) (s : ClaudeCodeProvider)
          → (at cursor).skipping ≡ false
          → lookup (cursor_key o path reading.device) s.known ≡ some cursor
          → lines_from (at cursor).offset ≡ []
          → ShipsAll cursor s (idle_after s)
      unfolding idle_after
      ShipsAll-idle cursor s clear knows none_left = record {
        sent = [];
        appended = sym (append-nil s.sent);
        records = sym (
            ap
              (λ ls.
                (records_from x (source_of reading) file.stem m ls (at cursor).last_message_ts).0)
              none_left);
        addressed = tt;
        idle = λ h. refl;
        last = cursor;
        knows = knows;
        clear = clear;
        nothing_left = none_left;
      }

      ShipsAll-more :
          (cursor : Option FileCursor) (s t : ClaudeCodeProvider) (i : Increment)
          (taken : List Text)
          → Takes x (source_of reading) read_budget file (o.now s.asked) (at cursor) taken i
          → ShipsAll
              (some i.cursor)
              (after_buffered x o path reading i (after_send x o path reading i s))
              t
          → ShipsAll cursor s t
      ShipsAll-more cursor s t i taken takes more = record {
        sent = shipment x o path reading i ∷ more.sent;
        appended =
            more.appended
            ∙ ap (λ l. l ++ more.sent) (after_send-sent i s)
            ∙ append_assoc s.sent (shipment x o path reading i ∷ []) more.sent;
        records =
            ap (λ ds. ds ++ records_of more.sent) (shipment-records i ∙ drafts)
            ∙ ap (◌++◌ (told taken).0) (more.records ∙ rest)
            ∙ sym (
                ap (λ r. r.0)
                  (ap told takes.lines
                    ∙ records_from-append x (source_of reading) file.stem m taken
                        (lines_from i.cursor.offset) (at cursor).last_message_ts));
        addressed = ((i, refl, takes.inode), more.addressed);
        idle = λ h. absurd (some_taken h);
        last = more.last;
        knows = more.knows;
        clear = more.clear;
        nothing_left = more.nothing_left;
      }
        where
          told : List Text → List RecordDraft × Option ℤ
          told lines =
              records_from x (source_of reading) file.stem m lines (at cursor).last_message_ts

          at_m : modified_millis file.modified (o.now s.asked) ≡ m
          at_m = modified_at quiet (o.now s.asked)

          drafts : i.drafts ≡ (told taken).0
          drafts =
              takes.drafts
              ∙ ap
                  (λ n.
                    (records_from x (source_of reading) file.stem n taken
                      (at cursor).last_message_ts).0)
                  at_m

          ts : i.cursor.last_message_ts ≡ (told taken).1
          ts =
              takes.last_message_ts
              ∙ ap
                  (λ n.
                    (records_from x (source_of reading) file.stem n taken
                      (at cursor).last_message_ts).1)
                  at_m

          rest :
              due (at (some i.cursor))
              ≡ (records_from x
                  (source_of reading)
                  file.stem
                  m
                  (lines_from i.cursor.offset)
                  (told taken).1).0
          rest =
              ap due (start_by_inode-resume i.cursor file.inode file.size takes.inode takes.bound)
              ∙ ap
                  (λ n.
                    (records_from x (source_of reading) file.stem m (lines_from i.cursor.offset)
                      n).0)
                  ts

          some_taken : lines_from (at cursor).offset ≡ [] → ⊥
          some_taken h = omega (
            arith,
            takes.offset,
            takes.progress,
            bytes_in-append taken (lines_from i.cursor.offset),
            ap bytes_in takes.lines,
            ap bytes_in h,
          )

      ship_loop-ShipsAll :
          (fuel : ℕ) (cursor : Option FileCursor) (s : ClaudeCodeProvider)
          → (at cursor).skipping ≡ false
          → lookup (cursor_key o path reading.device) s.known ≡ some cursor
          → file.size - (at cursor).offset < fuel
          → Ships cursor s (ship_loop x o path reading fuel cursor s)
      ship_loop-ShipsAll zero cursor s clear knows enough = absurd (omega (arith, enough))
      ship_loop-ShipsAll (suc fuel) cursor s clear knows enough = elim (reads cursor s clear) [
        | inl (e, none_left) ↦ (
          idle_after s,
          ship_loop-idle fuel cursor s e,
          ShipsAll-idle cursor s clear knows none_left,
        )
        | inr (i, taken, e, takes) ↦
            let stays =
              start_by_inode-resume i.cursor file.inode file.size takes.inode takes.bound in
            let (t, ended, more) =
              ship_loop-ShipsAll fuel (some i.cursor)
                (after_buffered x o path reading i (after_send x o path reading i s))
                (ap (λ c. c.skipping) stays ∙ takes.skipping)
                (knows_last i (after_send x o path reading i s))
                (omega (arith, ap (λ c. c.offset) stays, takes.progress, takes.bound, enough)) in
            (
              t,
              ship_loop-more fuel cursor s i e (quiet.taken (suc s.asked)) ∙ ended,
              ShipsAll-more cursor s t i taken takes more,
            )
      ]

      -- A reading of the whole file, when the cursor for it is at hand.
      ship_file-from :
          (fuel : ℕ) (cursor : Option FileCursor) (s s' : ClaudeCodeProvider)
          → cursor_for x o path reading.device s ≡ (inl cursor, s')
          → ship_file x o path reading fuel s ≡ ship_loop x o path reading fuel cursor s'
      unfolding ship_file
      ship_file-from fuel cursor s s' e =
          ap
            (λ r. elim r.0 [
              | inr error ↦ (provider_error error, r.1)
              | inl c ↦ ship_loop x o path reading fuel c r.1
            ])
            e

-- A transcript that does not change, with a runtime that takes every emission, and its cursor at hand, which
-- is not past a line too long. One call of `ship_file` ends, with fuel for one round more than the file has
-- bytes. It sends emissions that hold exactly the records of the whole lines behind the cursor, in their
-- order, each with a cursor of the file under its key and with the device. The provider then knows a cursor
-- that has no whole line behind it.
pub ship_file-ShipsAll :
    (x : Externals) (o : Outside) (path : Text) (reading : Shipped) (file : File) (m : ℤ)
    → IsQuiet x o path reading file m
    → (fuel : ℕ) (cursor : Option FileCursor) (s s' : ClaudeCodeProvider)
    → cursor_for x o path reading.device s ≡ (inl cursor, s')
    → (start_by_inode cursor file.inode file.size).skipping ≡ false
    → file.size < fuel
    → (t : ClaudeCodeProvider) × (ship_file x o path reading fuel s ≡ (go_on, t))
      × ShipsAll x o path reading file m cursor s t
ship_file-ShipsAll x o path reading file m quiet fuel cursor s s' at_hand clear enough =
    let at_first = cursor_for-IsFound x o path reading s in
    let knows =
      subst (λ k. lookup (cursor_key o path reading.device) k ≡ some cursor)
        (ap (λ r. r.1.known) at_hand) (at_first.knows cursor (ap (λ r. r.0) at_hand)) in
    let (t, ended, all) =
      ship_loop-ShipsAll x o path reading file m quiet fuel cursor s' clear knows
        (omega (arith, enough)) in
    (
      t,
      ship_file-from x o path reading file m quiet fuel cursor s s' at_hand ∙ ended,
      ShipsAll-from x o path reading file m cursor s s' t
          (ap (λ r. r.1.sent) (sym at_hand) ∙ at_first.sent) all,
    )

-- Under the same conditions a second call of `ship_file` ends too, and sends nothing.
pub ship_file-again :
    (x : Externals) (o : Outside) (path : Text) (reading : Shipped) (file : File) (m : ℤ)
    → IsQuiet x o path reading file m
    → (fuel : ℕ) (cursor : Option FileCursor) (s s' t : ClaudeCodeProvider)
    → cursor_for x o path reading.device s ≡ (inl cursor, s')
    → (start_by_inode cursor file.inode file.size).skipping ≡ false
    → file.size < fuel
    → ship_file x o path reading fuel s ≡ (go_on, t)
    → (u : ClaudeCodeProvider) × (ship_file x o path reading fuel t ≡ (go_on, u))
      × (u.sent ≡ t.sent)
ship_file-again x o path reading file m quiet fuel cursor s s' t at_hand clear enough first =
    let (t', ended, all) =
      ship_file-ShipsAll x o path reading file m quiet fuel cursor s s' at_hand clear enough in
    let same : t' ≡ t = ap (λ r. r.1) (sym ended ∙ first) in
    let knows =
      subst (λ v. lookup (cursor_key o path reading.device) v.known ≡ some all.last) same
        all.knows in
    let (u, ended_again, again) =
      ship_file-ShipsAll x o path reading file m quiet fuel all.last t t
        (cursor_for-known x o path reading all.last t knows) all.clear enough in
    (
      u,
      ended_again,
      again.appended ∙ ap (◌++◌ t.sent) (again.idle all.nothing_left) ∙ append-nil t.sent,
    )

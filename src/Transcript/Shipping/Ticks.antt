-- ===== src/Transcript/Shipping/Ticks.antt =====
-- src/providers/claude_code.rs: the methods of `ClaudeCodeProvider`, from `tick` on.
use nikki.Prelude.{
  ℕ, zero, suc, Bool, true, false, Option, none, some, List, [], ◌∷◌, ◌++◌, Text, codes, text_eq, ℤ,
  ◌&&◌, ◌⊎◌, inl, inr, if◌then◌else◌,
}
use nikki.Record.{RecordDraft, Cursor, claude_code}
use nikki.Providers.{Emission, awaiting_buffer, for_device}
use nikki.Config.{Pull, ClaudeRoot, ClaudeImport}
use nikki.Transcript.{
  Externals, by_inode, by_head, collected, skipped, FileCursor, Increment, read_budget,
}
use nikki.Transcript.Reading.{failed, unfinished, nothing_new, read, read_increment}
use nikki.Transcript.Shipping.{
  gone, lost, buffered, Lookup, refused, found, Entry, Project, Outside, ClaudeCodeProvider, Flow,
  go_on, runtime_gone, provider_error, unended, Shipped, asked_once, remove, insert, lookup,
  source_of, pull_key, pull_due, cursor_key, decode,
}

abbrev pub import_profile : Text
import_profile = codes "claude"

unfoldable pub is_transcript : Option Text → Bool
is_transcript none = false
is_transcript (some extension) = text_eq extension (codes "jsonl")

-- The paths of the transcripts among the entries of a project.
unfoldable pub in_project : List (Option Entry) → List Text
in_project [] = []
in_project (none ∷ entries) = in_project entries
in_project (some entry ∷ entries) =
    if is_transcript entry.extension && entry.is_file
    then entry.path ∷ in_project entries
    else in_project entries

in_entries : Text → Option (List (Option Entry)) → List Text → List Text × List Text
in_entries path none unreadable = ([], insert path unreadable)
in_entries path (some entries) unreadable = (in_project entries, remove path unreadable)

-- The loop over the projects: the paths, and the unreadable ones.
unfoldable pub in_projects : List (Option Project) → List Text → List Text × List Text
unfolding in_entries
in_projects [] unreadable = ([], unreadable)
in_projects (none ∷ projects) unreadable = in_projects projects unreadable
in_projects (some project ∷ projects) unreadable =
    let (here, unreadable') =
      if project.is_dir
      then in_entries project.path project.entries unreadable
      else ([], unreadable) in
    let (there, unreadable'') = in_projects projects unreadable' in (here ++ there, unreadable'')

unfoldable pub stored_cursor : Text → FileCursor → (FileCursor → Text) → Cursor
stored_cursor key cursor encode = record {
  provider = claude_code;
  key = key;
  value = encode cursor;
}

unfoldable pub emission_of : List RecordDraft → Cursor → Option Text → Emission
emission_of drafts cursor none = awaiting_buffer drafts (some cursor)
emission_of drafts cursor (some device) = for_device device (awaiting_buffer drafts (some cursor))

unfoldable pub send : Emission → ClaudeCodeProvider → ClaudeCodeProvider
send emission s = record s { sent = s.sent ++ emission ∷ []; asked = suc s.asked }

module _ (x : Externals) (o : Outside) where
  -- `transcripts`, and what `transcripts_in` makes of its result; `none` is a directory to pass over.
  unfoldable pub transcripts_in :
      Text → ClaudeCodeProvider → Option (List Text) × ClaudeCodeProvider
  transcripts_in projects s = elim (o.projects s.asked projects) [
    | none ↦ (none, record s { unreadable = insert projects s.unreadable; asked = suc s.asked })
    | some listing ↦
        let (paths, unreadable) = in_projects listing s.unreadable in
        (
          some (o.sort paths),
          record s { unreadable = remove projects unreadable; asked = suc s.asked },
        )
  ]

  unfoldable pub asked_for :
      Text → Lookup → ClaudeCodeProvider → (Option FileCursor ⊎ Text) × ClaudeCodeProvider
  asked_for key (refused error) s = (inr error, asked_once s)
  asked_for key (found none) s =
      (inl none, record s { known = (key, none) ∷ s.known; asked = suc s.asked })
  asked_for key (found (some value)) s = (
    inl (decode o value),
    record s { known = (key, decode o value) ∷ s.known; asked = suc s.asked },
  )

  -- The error is on the right.
  unfoldable pub cursor_for :
      Text → Option Text → ClaudeCodeProvider → (Option FileCursor ⊎ Text) × ClaudeCodeProvider
  unfolding asked_for
  cursor_for path device s = elim (lookup (cursor_key o path device) s.known) [
    | some cursor ↦ (inl cursor, s)
    | none ↦ asked_for (cursor_key o path device) (o.stored s.asked (cursor_key o path device)) s
  ]

  module _ (path : Text) (reading : Shipped) where
    -- What is sent for an increment.
    unfoldable pub shipment : Increment → Emission
    unfolding stored_cursor
    shipment i =
        emission_of i.drafts
          (stored_cursor (cursor_key o path reading.device) i.cursor o.encode_cursor) reading.device

    -- An increment was read: the file counts as readable, and the increment is sent.
    unfoldable pub after_send : Increment → ClaudeCodeProvider → ClaudeCodeProvider
    after_send i s =
        send (shipment i) (record s { unreadable = remove path s.unreadable; asked = suc s.asked })

    unfoldable pub after_buffered : Increment → ClaudeCodeProvider → ClaudeCodeProvider
    after_buffered i s = record s {
      known = (cursor_key o path reading.device, some i.cursor) ∷ s.known;
    }

    -- The loop of `ship_file`.
    unfoldable pub ship_loop :
        ℕ → Option FileCursor → ClaudeCodeProvider → Flow × ClaudeCodeProvider
    ship_loop zero cursor s = (unended, s)
    ship_loop (suc fuel) cursor s =
        elim (read_increment x (o.disk s.asked path) (o.now s.asked) (source_of reading) cursor
          read_budget) [
            | failed ↦
                (go_on, record s { unreadable = insert path s.unreadable; asked = suc s.asked })
            | unfinished ↦ (unended, s)
            | nothing_new ↦
                (go_on, record s { unreadable = remove path s.unreadable; asked = suc s.asked })
            | read i ↦ elim (o.delivery (suc s.asked)) [
              | gone ↦ (
                runtime_gone,
                record s { unreadable = remove path s.unreadable; asked = suc (suc s.asked) },
              )
              | lost ↦ (go_on, after_send i s)
              | buffered ↦ ship_loop fuel (some i.cursor) (after_buffered i (after_send i s))
            ]
          ]

    unfoldable pub ship_file : ℕ → ClaudeCodeProvider → Flow × ClaudeCodeProvider
    ship_file fuel s =
        let (cursor, s') = cursor_for path reading.device s in
        elim cursor [
          | inr error ↦ (provider_error error, s')
          | inl cursor ↦ ship_loop fuel cursor s'
        ]

  -- The schedule of the next pull, once the command has run.
  unfoldable pub pull_schedule : Text → ℤ → Emission
  pull_schedule device at = awaiting_buffer [] (
      some (record { provider = claude_code; key = pull_key device; value = o.encode_schedule at }))

  -- The command has run. Whether the schedule was buffered changes what is logged only.
  pulled : Text → ClaudeCodeProvider → Flow × ClaudeCodeProvider
  pulled device s = elim (o.delivery (suc s.asked)) [
    | gone ↦ (runtime_gone, asked_once (asked_once s))
    | lost ↦ (go_on, send (pull_schedule device (o.now s.asked)) (asked_once s))
    | buffered ↦ (go_on, send (pull_schedule device (o.now s.asked)) (asked_once s))
  ]

  last_attempt : Option Text → Option ℤ
  last_attempt none = none
  last_attempt (some value) = o.parse_schedule value

  -- The readings of the clock and the run of the command are calls of what is outside.
  unfoldable pub pull_if_due : Text → Pull → ClaudeCodeProvider → Flow × ClaudeCodeProvider
  unfolding pulled last_attempt
  pull_if_due device pull s = elim (o.stored s.asked (pull_key device)) [
    | refused error ↦ (provider_error error, asked_once s)
    | found stored ↦ elim (pull_due (last_attempt stored) (o.now (suc s.asked)) pull.every) [
      | false ↦ (go_on, asked_once (asked_once s))
      | true ↦ pulled device (asked_once (asked_once (asked_once s)))
    ]
  ]

  -- The loop over the paths of a directory.
  ship_files : ℕ → Shipped → List Text → ClaudeCodeProvider → Flow × ClaudeCodeProvider
  ship_files fuel reading [] s = (go_on, s)
  ship_files fuel reading (path ∷ paths) s =
      let (flow, s') = ship_file path reading fuel s in
      let rest = ship_files fuel reading paths s' in
      elim flow [ go_on ↦ rest | other ↦ (other, s') ]

  ship_directory : ℕ → Shipped → Text → ClaudeCodeProvider → Flow × ClaudeCodeProvider
  unfolding ship_files
  ship_directory fuel reading projects s =
      let (paths, s') = transcripts_in projects s in
      elim paths [ none ↦ (go_on, s') | some paths ↦ ship_files fuel reading paths s' ]

  tick_roots : ℕ → List ClaudeRoot → ClaudeCodeProvider → Flow × ClaudeCodeProvider
  unfolding ship_directory
  tick_roots fuel [] s = (go_on, s)
  tick_roots fuel (root ∷ roots) s =
      let reading : Shipped = record {
        profile = root.profile;
        identity = by_inode;
        touches = collected;
        since = none;
        device = none;
      } in
      let (flow, s') = ship_directory fuel reading root.projects s in
      let rest = tick_roots fuel roots s' in elim flow [ go_on ↦ rest | other ↦ (other, s') ]

  pull_first : ClaudeImport → ClaudeCodeProvider → Flow × ClaudeCodeProvider
  pull_first source s = elim source.pull [
    | none ↦ (go_on, s)
    | some pull ↦ pull_if_due source.device pull s
  ]

  tick_imports : ℕ → List ClaudeImport → ClaudeCodeProvider → Flow × ClaudeCodeProvider
  unfolding ship_directory pull_first
  tick_imports fuel [] s = (go_on, s)
  tick_imports fuel (source ∷ imports) s =
      let reading : Shipped = record {
        profile = import_profile;
        identity = by_head;
        touches = skipped;
        since = some source.since;
        device = some source.device;
      } in
      let (pulling, s') = pull_first source s in
      let (flow, s'') = ship_directory fuel reading source.projects s' in
      let rest = tick_imports fuel imports s'' in
      elim pulling [
        | go_on ↦ elim flow [ go_on ↦ rest | other ↦ (other, s'') ]
        | other ↦ (other, s')
      ]

  unfoldable pub tick :
      ℕ → List ClaudeRoot → List ClaudeImport → ClaudeCodeProvider → Flow × ClaudeCodeProvider
  unfolding tick_roots tick_imports
  tick fuel roots imports s =
      let (flow, s') = tick_roots fuel roots s in
      let rest = tick_imports fuel imports s' in elim flow [ go_on ↦ rest | other ↦ (other, s') ]

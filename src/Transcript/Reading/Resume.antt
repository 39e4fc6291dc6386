-- ===== src/Transcript/Reading/Resume.antt =====
-- src/providers/claude_code.rs: what one reading of a transcript takes, and where the next one starts.
use nikki.Prelude.{
  ℕ, zero, suc, ◌+◌, ◌-◌, ◌^◌, ◌≤◌, ◌<◌, ◌≡◌, ◌⊎◌, refl, sym, ap, ◌∙◌, subst, inl, inr, true, false,
  Option, none, some, List, [], ◌∷◌, ◌++◌, Text, arith, ℤ, length, drop, drop-drop, length-drop,
  leb, le→leb, ◌==◌, Bool-cases,
}
use nikki.Record.{RecordDraft}
use nikki.Transcript.{Externals, by_inode, FileCursor, ReadBudget, Source, Increment}
use nikki.Transcript.Reading.{
  File, Reading, nothing_new, read, Scan, modified_millis, start_by_inode, from_start, scan_loop,
  line_cap_of, increment_of, scan_from, read_from, read_by, read_increment, within,
}
use nikki.Transcript.Reading.Lines.{
  whole_lines, bytes_in, bytes_in-whole_lines, bytes_in-append, records_from,
}
use nikki.Transcript.Reading.Ends.{Consumes, scan_loop-Consumes, scan_loop-idle}

-- A budget lets a reading take at least one line.
pub record IsAmple (b : ReadBudget) : Type 0 where
  pub records : 1 ≤ b.max_records
  pub bytes : 1 ≤ b.max_bytes
  pub scan : 1 ≤ b.max_scan_bytes

drop_all : (n : ℕ) (s : Text) → length s ≤ n → drop n s ≡ []
drop_all zero [] h = refl
drop_all (suc n) [] h = refl
drop_all zero (c ∷ s) h = absurd (omega (arith, h))
drop_all (suc n) (c ∷ s) h = drop_all n s (omega (arith, h))

module _ (x : Externals) (source : Source) (budget : ReadBudget) (file : File) (now : ℤ) where
  abbrev pub modified : ℤ
  modified = modified_millis file.modified now

  -- The lines that are whole from an offset on.
  abbrev pub lines_after : ℕ → List Text
  lines_after offset = whole_lines (drop offset file.content)

  abbrev pub told_by : List Text → Option ℤ → List RecordDraft × Option ℤ
  told_by lines ts = records_from x source file.stem modified lines ts

  -- A reading from a cursor that takes these lines, which are not none, and stops behind them.
  pub record Takes (start : FileCursor) (taken : List Text) (i : Increment) : Type 0 where
    pub lines : lines_after start.offset ≡ taken ++ lines_after i.cursor.offset
    pub offset : i.cursor.offset ≡ start.offset + bytes_in taken
    pub progress : start.offset < i.cursor.offset
    pub bound : i.cursor.offset ≤ file.size
    pub inode : i.cursor.inode ≡ file.inode
    pub skipping : i.cursor.skipping ≡ false
    pub drafts : i.drafts ≡ (told_by taken start.last_message_ts).0
    pub last_message_ts : i.cursor.last_message_ts ≡ (told_by taken start.last_message_ts).1

  abbrev pub Reads : FileCursor → Reading → Type 0
  Reads start reading =
      ((reading ≡ nothing_new) × (lines_after start.offset ≡ []))
      ⊎ ((i : Increment) × (taken : List Text) × (reading ≡ read i) × Takes start taken i)

  module _ (start : FileCursor) (ample : IsAmple budget) (by : source.identity ≡ by_inode)
      (size : file.size ≡ length file.content) (small : file.size < 2 ^ 64 - 1)
      (clear : start.skipping ≡ false) (within_file : start.offset ≤ file.size) where
    abbrev cap : ℕ
    cap = line_cap_of source.identity

    abbrev looped : Option Scan
    looped =
        scan_loop x source budget file.stem modified start.offset cap (suc (length file.content))
          (scan_from start file.content)

    cap_inode : cap ≡ 2 ^ 64 - 1
    unfolding line_cap_of
    cap_inode = ap line_cap_of by

    rest_short : length (drop start.offset file.content) ≤ length file.content
    rest_short = omega (arith, length-drop start.offset file.content)

    increment_of-Reads :
        (t : Scan) (taken : List Text)
        → looped ≡ some t
        → Consumes x source budget file.stem modified start.offset cap taken
            (scan_from start file.content)
            t
        → Reads start (increment_of file.inode start (some t))
    unfolding increment_of within
    increment_of-Reads t taken result c = elim (Bool-cases (t.offset == start.offset)) [
      | inl idle ↦ rw idle (
          inl (
            refl,
            scan_loop-idle x source budget file.stem modified start.offset cap (length file.content)
                (scan_from start file.content) t clear refl
                (omega (arith, rest_short, cap_inode, size, small)) rest_short (going) result
                (ground (arith, idle)),
          ))
      | inr moved ↦ rw moved (
          inr (
            _,
            taken,
            refl,
            record {
              lines = c.lines ∙ ap (λ r. taken ++ whole_lines r) behind;
              offset = c.offset;
              progress = ground (arith, moved, c.offset);
              bound = bounded;
              inode = refl;
              skipping = c.skipping;
              drafts = c.drafts;
              last_message_ts = c.last_message_ts;
            },
          ))
    ]
      where
        going :
            within x source budget file.stem modified start.offset cap
              (scan_from start file.content)
            ≡ true
        going = ground (arith, ample.records, ample.bytes, ample.scan)

        behind : t.rest ≡ drop t.offset file.content
        behind =
            c.rest
            ∙ drop-drop start.offset (bytes_in taken) file.content
            ∙ ap (λ n. drop n file.content) (sym c.offset)

        bounded : t.offset ≤ file.size
        bounded = omega (
          arith,
          c.offset,
          within_file,
          size,
          bytes_in-whole_lines (drop start.offset file.content),
          ap bytes_in c.lines,
          bytes_in-append taken (whole_lines t.rest),
          length-drop start.offset file.content,
        )

    pub read_from-Reads : Reads start (read_from x file now source budget start)
    unfolding read_from whole_lines
    read_from-Reads = elim (Bool-cases (file.size == start.offset)) [
      | inl done ↦ rw done (
          inl (
            refl,
            ap whole_lines (drop_all start.offset file.content (ground (arith, done, size))),
          ))
      | inr more ↦
          let (t, taken, result, consumes) =
            scan_loop-Consumes x source budget file.stem modified start.offset cap
              (suc (length file.content)) (scan_from start file.content) clear
              (omega (arith, rest_short, cap_inode, size, small)) (omega (arith, rest_short)) in
          rw more (
            subst (λ r. Reads start (increment_of file.inode start r)) (sym result)
              (increment_of-Reads t taken result consumes))
    ]

-- The cursor that a reading by inode starts at lies in the file.
pub start_by_inode-within :
    (cursor : Option FileCursor) (inode size : ℕ) → (start_by_inode cursor inode size).offset ≤ size
unfolding start_by_inode from_start
start_by_inode-within none inode size = omega arith
start_by_inode-within (some cursor) inode size = elim (Bool-cases (leb cursor.offset size)) [
  | inl fits ↦ elim (Bool-cases (cursor.inode == inode)) [
    | inl same ↦ rw (same, fits) (ground (arith, fits))
    | inr other ↦ rw other (omega arith)
  ]
  | inr past ↦ elim (Bool-cases (cursor.inode == inode)) [
    | inl same ↦ rw (same, past) (omega arith)
    | inr other ↦ rw other (omega arith)
  ]
]

-- A file that is read by its inode, with a budget for at least one line, from no cursor or from one that is
-- not past a line too long: either there is no whole line after the cursor and nothing is read, or the
-- reading takes at least one whole line, those that come first after the cursor, it gives the records of
-- exactly these lines, and the cursor it gives stands right behind them.
pub read_increment-Reads :
    (x : Externals) (source : Source) (budget : ReadBudget) (file : File) (now : ℤ)
    (cursor : Option FileCursor)
    → IsAmple budget
    → source.identity ≡ by_inode
    → file.size ≡ length file.content
    → file.size < 2 ^ 64 - 1
    → (start_by_inode cursor file.inode file.size).skipping ≡ false
    → Reads x source budget file now
        (start_by_inode cursor file.inode file.size)
        (read_increment x (some file) now source cursor budget)
unfolding read_increment read_by
read_increment-Reads x source budget file now cursor ample by size small clear =
    subst
      (λ identity.
        Reads x source budget file now (start_by_inode cursor file.inode file.size)
          (read_by x identity file now source cursor budget))
      (sym by)
      (read_from-Reads x source budget file now (start_by_inode cursor file.inode file.size) ample
        by size small clear (start_by_inode-within cursor file.inode file.size))

-- A cursor of this file that lies in it is where the next reading starts.
pub start_by_inode-resume :
    (cursor : FileCursor) (inode size : ℕ)
    → cursor.inode ≡ inode
    → cursor.offset ≤ size
    → start_by_inode (some cursor) inode size ≡ cursor
unfolding start_by_inode
start_by_inode-resume cursor inode size same fits =
    rw (the_same, le→leb cursor.offset size fits) refl
  where
    the_same : (cursor.inode == inode) ≡ true
    the_same = ground (arith, same)

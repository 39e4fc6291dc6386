-- ===== src/Transcript/Reading/Ends.antt =====
-- src/providers/claude_code.rs: what the loop of `read_increment` consumes, when no line is longer than
-- the cap.
use nikki.Prelude.{
  ℕ, zero, suc, ◌+◌, ◌≤◌, ◌<◌, ◌≡◌, refl, sym, ap, ◌∙◌, inl, inr, true, false, Option, some, List,
  [], ◌∷◌, ◌++◌, Text, arith, ℤ, length, drop, drop-drop, length-drop, ltb, Bool, Bool-cases, ◌||◌,
}
use mathlib.Core.List.{append_assoc, append-nil}
use nikki.Transcript.{Externals, Source, ReadBudget}
use nikki.Transcript.Reading.{
  ends_line, read_until, Scan, Round, stop, next, take_line, read_cap, advanced, line_round, round,
  within, scan_loop,
}
use nikki.Transcript.Reading.Lines.{
  whole_lines, bytes_in, whole_lines-read, whole_lines-unread, length-read_until, line_records,
  records_from, take_line-Takes,
}

ends_line-nonempty : (s : Text) → ends_line s ≡ true → 1 ≤ length s
unfolding ends_line
ends_line-nonempty [] h = absurd (cc)
ends_line-nonempty (c ∷ s) h = omega arith

some-injective : {A : Type 0} (a b : A) → some a ≡ some b → a ≡ b
some-injective a b h = cc

module _ (x : Externals) (source : Source) (budget : ReadBudget) (stem : Text) (modified : ℤ)
    (start line_cap : ℕ) where
  -- The loop has consumed these lines, and nothing else.
  pub record Consumes (taken : List Text) (s t : Scan) : Type 0 where
    pub lines : whole_lines s.rest ≡ taken ++ whole_lines t.rest
    pub rest : t.rest ≡ drop (bytes_in taken) s.rest
    pub offset : t.offset ≡ s.offset + bytes_in taken
    pub skipping : t.skipping ≡ false
    pub drafts :
        t.drafts ≡ s.drafts ++ (records_from x source stem modified taken s.last_message_ts).0
    pub last_message_ts :
        t.last_message_ts ≡ (records_from x source stem modified taken s.last_message_ts).1

  Consumes-none : (s : Scan) → s.skipping ≡ false → Consumes [] s s
  Consumes-none s h = record {
    lines = refl;
    rest = refl;
    offset = omega arith;
    skipping = h;
    drafts = sym (append-nil s.drafts);
    last_message_ts = refl;
  }

  abbrev line_of : Scan → Text
  line_of s = read_until (read_cap budget start line_cap s.offset) s.rest

  abbrev after_line : Scan → Scan
  after_line s = take_line x source stem modified (line_of s) (advanced (line_of s) s)

  Consumes-more :
      (taken : List Text) (s t : Scan)
      → ends_line (line_of s) ≡ true
      → Consumes taken (after_line s) t
      → Consumes (line_of s ∷ taken) s t
  unfolding advanced
  Consumes-more taken s t h c =
      let line = take_line-Takes x source stem modified (line_of s) (advanced (line_of s) s) in
      record {
        lines =
            whole_lines-read _ s.rest h
            ∙ ap (◌∷◌ (line_of s)) (sym (ap whole_lines line.rest) ∙ c.lines);
        rest =
            c.rest
            ∙ ap (drop (bytes_in taken)) line.rest
            ∙ drop-drop (length (line_of s)) (bytes_in taken) s.rest;
        offset = omega (arith, c.offset, line.offset);
        skipping = c.skipping;
        drafts =
            c.drafts
            ∙ (λ i.
                line.drafts i
                ++ (records_from x source stem modified taken (line.last_message_ts i)).0)
            ∙ append_assoc s.drafts
                (line_records x source stem modified (line_of s) s.last_message_ts).0 _;
        last_message_ts =
            c.last_message_ts
            ∙ (λ i. (records_from x source stem modified taken (line.last_message_ts i)).1);
      }

  abbrev loop : ℕ → Scan → Option Scan
  loop fuel s = scan_loop x source budget stem modified start line_cap fuel s

  abbrev in_budget : Scan → Bool
  in_budget s = within x source budget stem modified start line_cap s

  abbrev one_round : Scan → Round
  one_round s = round x source budget stem modified start line_cap s

  pub scan_loop-spent : (fuel : ℕ) (s : Scan) → in_budget s ≡ false → loop (suc fuel) s ≡ some s
  unfolding scan_loop
  scan_loop-spent fuel s h = rw (scan_loop, h) refl

  pub scan_loop-stop :
      (fuel : ℕ) (s t : Scan)
      → in_budget s ≡ true
      → one_round s ≡ stop t
      → loop (suc fuel) s ≡ some t
  unfolding scan_loop
  scan_loop-stop fuel s t h e = rw (scan_loop, h, e) refl

  pub scan_loop-next :
      (fuel : ℕ) (s t : Scan)
      → in_budget s ≡ true
      → one_round s ≡ next t
      → loop (suc fuel) s ≡ loop fuel t
  unfolding scan_loop
  scan_loop-next fuel s t h e = rw (scan_loop, h, e) refl

  -- A round on a line that is whole goes on with it; a round on one that is not ends the loop.
  round-whole :
      (s : Scan)
      → s.skipping ≡ false
      → ends_line (line_of s) ≡ true
      → one_round s ≡ next (after_line s)
  unfolding round line_round
  round-whole s clear h = rw (clear, h) refl

  round-partial :
      (s : Scan)
      → s.skipping ≡ false
      → length s.rest < line_cap
      → ends_line (line_of s) ≡ false
      → one_round s ≡ stop s
  unfolding round line_round
  round-partial s clear short h = rw (clear, h, cut) refl
    where
      cut :
          (ltb (length (line_of s)) (read_cap budget start line_cap s.offset)
            || ltb (read_cap budget start line_cap s.offset) line_cap)
          ≡ true
      cut =
          ground
            (arith, (length-read_until (read_cap budget start line_cap s.offset) s.rest).1, short)

  length-after_line :
      (s : Scan) → ends_line (line_of s) ≡ true → length (after_line s).rest < length s.rest
  unfolding advanced
  length-after_line s h =
      let line = take_line-Takes x source stem modified (line_of s) (advanced (line_of s) s) in
      omega (
        arith,
        ap length line.rest,
        length-drop (length (line_of s)) s.rest,
        ends_line-nonempty (line_of s) h,
        length-read_until (read_cap budget start line_cap s.offset) s.rest,
      )

  abbrev Ends : Scan → Option Scan → Type 0
  Ends s result = (t : Scan) × (taken : List Text) × (result ≡ some t) × Consumes taken s t

  -- The loop ends, and consumes whole lines only.
  pub scan_loop-Consumes :
      (fuel : ℕ) (s : Scan)
      → s.skipping ≡ false
      → length s.rest < line_cap
      → length s.rest < fuel
      → Ends s (loop fuel s)
  unfolding advanced
  scan_loop-Consumes zero s clear short enough = absurd (omega (arith, enough))
  scan_loop-Consumes (suc fuel) s clear short enough = elim (Bool-cases (in_budget s)) [
    | inr spent ↦ (s, [], scan_loop-spent fuel s spent, Consumes-none s clear)
    | inl going ↦ elim (Bool-cases (ends_line (line_of s))) [
      | inr partial ↦ (
        s,
        [],
        scan_loop-stop fuel s s going (round-partial s clear short partial),
        Consumes-none s clear,
      )
      | inl whole ↦
          let line = take_line-Takes x source stem modified (line_of s) (advanced (line_of s) s) in
          let less = length-after_line s whole in
          let (t, taken, result, consumes) =
            scan_loop-Consumes fuel (after_line s) (line.skipping ∙ clear)
              (omega (arith, less, short)) (omega (arith, less, enough)) in
          (
            t,
            line_of s ∷ taken,
            scan_loop-next fuel s (after_line s) going (round-whole s clear whole) ∙ result,
            Consumes-more taken s t whole consumes,
          )
    ]
  ]

  -- A loop that got nowhere saw no whole line.
  pub scan_loop-idle :
      (fuel : ℕ) (s t : Scan)
      → s.skipping ≡ false
      → s.offset ≡ start
      → length s.rest < line_cap
      → length s.rest ≤ fuel
      → in_budget s ≡ true
      → loop (suc fuel) s ≡ some t
      → t.offset ≡ s.offset
      → whole_lines s.rest ≡ []
  unfolding advanced read_cap
  scan_loop-idle fuel s t clear first short enough going ended same =
      elim (Bool-cases (ends_line (line_of s))) [
        | inr partial ↦
            whole_lines-unread (read_cap budget start line_cap s.offset) s.rest partial
              (less (length-read_until (read_cap budget start line_cap s.offset) s.rest).1)
        | inl whole ↦
            let line =
              take_line-Takes x source stem modified (line_of s) (advanced (line_of s) s) in
            let shorter = length-after_line s whole in
            let (u, taken, result, consumes) =
              scan_loop-Consumes fuel (after_line s) (line.skipping ∙ clear)
                (omega (arith, shorter, short)) (omega (arith, shorter, enough)) in
            let both = some-injective t u (
              sym ended
              ∙ scan_loop-next fuel s (after_line s) going (round-whole s clear whole)
              ∙ result) in
            absurd (
              omega (
                arith,
                same,
                ap (λ v. v.offset) both,
                consumes.offset,
                line.offset,
                ends_line-nonempty (line_of s) whole,
              ))
      ]
    where
      full_cap : read_cap budget start line_cap s.offset ≡ line_cap
      full_cap = ground (arith, first)

      less :
          length (line_of s) ≤ length s.rest
          → length (line_of s) < read_cap budget start line_cap s.offset
      less h = omega (arith, h, short, full_cap)

-- ===== src/History/Repeat.antt =====
-- src/providers/browser_history.rs: what one poll emits, and that a second poll of the same history
-- emits nothing.
use nikki.Prelude.{
  ℕ, ◌-◌, ◌≤◌, ◌<◌, ◌≡◌, sym, ap, ◌∙◌, subst, true, Option, none, some, List, [], ◌∷◌, map, Text,
  arith, All, length, max,
}
use nikki.History.{
  Visit, VisitRow, Snapshot, HistoryState, PollOutcome, max_id, joined_rows, join_row, row_of,
  rows_after, highest_visit_id, starting_state, fresh, regenerated, settled, finish, collect,
  visit_record, skips,
}
use nikki.History.Pages.{
  IsSorted, IsChronicle, Collected, run, last_id, collect_pages_all, joined_rows-IsSorted,
  rows_after-IsSorted, rows_after-All, rows_after-AllOver, rows_after_later, run-position,
}
use nikki.History.Emissions.{
  new_rows, run-records, run-skips, run_skipped, skips_by, get_shipped-retain,
}

last_id-upper : (m n : ℕ) (rs : List VisitRow) → All (λ r. r.id ≤ m) rs → last_id rs n ≤ max n m
last_id-upper m n [] h = omega arith
last_id-upper m n (r ∷ rs) h = omega (arith, h.0, last_id-upper m r.id rs h.1)

joined_rows-below : (m : ℕ) (vs : List Visit) → max_id vs ≤ m → All (λ r. r.id ≤ m) (joined_rows vs)
unfolding joined_rows join_row row_of max_id
joined_rows-below m [] h = tt
joined_rows-below m (v ∷ vs) h =
    let rest = joined_rows-below m vs (omega (arith, h)) in
    elim v.joined as (λ u. All (λ r. r.id ≤ m) (join_row v u (joined_rows vs))) [
      | none ↦ rest
      | some u ↦ (omega (arith, h), rest)
    ]

length-rows_after : (n : ℕ) (rs : List VisitRow) → length (rows_after n rs) ≤ length rs
unfolding rows_after
length-rows_after n [] = omega arith
length-rows_after n (r ∷ rs) = ground (arith, length-rows_after n rs)

-- Two facts about every element give a third.
All-both :
    (P Q R : VisitRow → Type 0) (rs : List VisitRow)
    → ((r : VisitRow) → P r → Q r → R r)
    → All P rs
    → All Q rs
    → All R rs
All-both P Q R [] f h k = tt
All-both P Q R (r ∷ rs) f h k = (f r h.0 k.0, All-both P Q R rs f h.1 k.1)

-- The rows after a position, the state that a poll starts from and the position of its first page.
abbrev pub rows : Snapshot → ℕ → List VisitRow
rows s position = rows_after position (joined_rows s.visits)

abbrev pub started : Snapshot → Option HistoryState → HistoryState
started s state = starting_state state (max_id s.visits)

abbrev pub start : Snapshot → ℕ → Option HistoryState → ℕ
start s window state = (started s state).cursor - window

module _ (sha256 : Text → List ℕ) (s : Snapshot) (profile : Text) (window page : ℕ)
    (some_rows : 1 ≤ page) (answers : (n : ℕ) → s.answers n ≡ true)
    (up : IsChronicle s.visits) where
  -- One pass over the rows after the start.
  abbrev pass :
      (state : Option HistoryState) → Collected sha256 profile (started s state).generation
  pass state =
      run sha256 profile (started s state).generation (rows s (start s window state))
        ((started s state).shipped, [], start s window state)

  abbrev pub outcome : Option HistoryState → PollOutcome
  outcome state = record {
    records = (pass state).1;
    state = settled (started s state) window (pass state).0 (pass state).2;
  }

  pub collect-outcome :
      (fuel : ℕ) (state : Option HistoryState)
      → length (rows s (start s window state)) < fuel
      → collect sha256 fuel s profile window state page ≡ some (some (outcome state))
  unfolding collect highest_visit_id finish
  collect-outcome fuel state enough =
      rw (collect, highest_visit_id, answers 0)
        (ap (finish (started s state) window) (
          collect_pages_all sha256 profile (started s state).generation s page some_rows answers up
            fuel 1 ((started s state).shipped, [], start s window state) enough))

  pass-IsSorted : (position : ℕ) → IsSorted (rows s position)
  pass-IsSorted position = rows_after-IsSorted position _ (joined_rows-IsSorted s.visits up)

  -- A poll of a history whose queries succeed, with fuel for more pages than there are rows to read
  -- and at least one row to a page, records in the order of their ids exactly the visits after the
  -- start that have an address and whose digest is not the one in the map that the poll starts from;
  -- the ids of the visits go up.
  pub collect_emits :
      (fuel : ℕ) (state : Option HistoryState)
      → length (rows s (start s window state)) < fuel
      → (out : PollOutcome) × (collect sha256 fuel s profile window state page ≡ some (some out))
        × (out.records
            ≡ map
                (visit_record profile (started s state).generation)
                (new_rows sha256 (started s state).shipped (rows s (start s window state))))
  collect_emits fuel state enough = (
    outcome state,
    collect-outcome fuel state enough,
    run-records sha256 profile (started s state).generation (rows s (start s window state)) _
        (pass-IsSorted (start s window state)),
  )

  started-below : (state : Option HistoryState) → (started s state).cursor ≤ max_id s.visits
  unfolding starting_state fresh regenerated
  started-below none = omega arith
  started-below (some state) = ground arith

  pass-below : (state : Option HistoryState) → (pass state).2 ≤ max_id s.visits
  pass-below state = omega (
    arith,
    started-below state,
    run-position sha256 profile (started s state).generation (rows s (start s window state))
        ((started s state).shipped, [], start s window state),
    last_id-upper (max_id s.visits) (start s window state) (rows s (start s window state)) (
        rows_after-All (λ r. r.id ≤ max_id s.visits) (start s window state) (joined_rows s.visits)
          (joined_rows-below (max_id s.visits) s.visits (omega arith))),
  )

  -- The state that a poll leaves is the one that the next poll of the same history starts from.
  started-again :
      (state : Option HistoryState) → started s (some (outcome state).state) ≡ (outcome state).state
  unfolding starting_state settled
  started-again state = ground (arith, pass-below state, started-below state)

  -- Where the next poll starts.
  abbrev resumed : Option HistoryState → ℕ
  resumed state = max (started s state).cursor (pass state).2 - window

  rows-resumed :
      (state : Option HistoryState)
      → rows_after (resumed state) (rows s (start s window state)) ≡ rows s (resumed state)
  rows-resumed state =
      rows_after_later (start s window state) (resumed state) (joined_rows s.visits) (omega arith)

  -- The map that is left skips every row that the next poll reads.
  resumed-skips :
      (state : Option HistoryState)
      → All (λ r. skips sha256 r (outcome state).state.shipped ≡ true) (rows s (resumed state))
  unfolding settled
  resumed-skips state =
      let skipped = subst (All (λ r. skips sha256 r (pass state).0 ≡ true)) (rows-resumed state) (
        rows_after-All _ (resumed state) (rows s (start s window state)) (
          run-skips sha256 profile (started s state).generation (rows s (start s window state)) _
            (pass-IsSorted (start s window state)))) in
      All-both (λ r. resumed state < r.id) (λ r. skips sha256 r (pass state).0 ≡ true) _
        (rows s (resumed state))
        (λ r over same.
          skips_by sha256 r _ (pass state).0 (
            get_shipped-retain (max (started s state).cursor (pass state).2) window r.id
              (pass state).0 (omega (arith, over)))
          ∙ same)
        (rows_after-AllOver (resumed state) (joined_rows s.visits)) skipped

  -- A second poll of the same history emits nothing: whatever state the first poll starts from, and
  -- with fuel for more pages than there are rows after the start, the poll from the state that the
  -- first one leaves records no visit. The queries succeed, a page holds at least one row and the
  -- ids of the visits go up.
  pub collect_repeats :
      (fuel : ℕ) (state : Option HistoryState)
      → length (rows s (start s window state)) < fuel
      → (out again : PollOutcome) × (collect sha256 fuel s profile window state page
          ≡ some (some out))
        × (collect sha256 fuel s profile window (some out.state) page ≡ some (some again))
        × (again.records ≡ [])
  unfolding settled
  collect_repeats fuel state enough =
      let left = (outcome state).state in
      let less : length (rows s (start s window (some left)))
          ≤ length (rows s (start s window state)) =
        subst (λ st. length (rows s (st.cursor - window)) ≤ length (rows s (start s window state)))
          (sym (started-again state))
          (omega (
            arith,
            ap length (rows-resumed state),
            length-rows_after (resumed state) (rows s (start s window state)),
          )) in
      (
        outcome state,
        outcome (some left),
        collect-outcome fuel state enough,
        collect-outcome fuel (some left) (omega (arith, less, enough)),
        subst
            (λ st.
              (run sha256 profile st.generation (rows s (st.cursor - window))
                (st.shipped, [], st.cursor - window)).1
              ≡ [])
            (sym (started-again state))
            (run_skipped sha256 profile left.generation (rows s (resumed state))
              (left.shipped, [], resumed state) (resumed-skips state)),
      )

-- ===== src/History/Tests.antt =====
-- A history of three visits read two rows at a time, and the theorems about polling it.
use nikki.Prelude.{
  ℕ, ◌<◌, ◌≡◌, refl, true, none, some, List, [], ◌∷◌, map, Text, codes, pos, arith, length, Option,
}
use nikki.History.{
  Visit, Snapshot, HistoryState, PollOutcome, collect, visit_record, joined_rows, row_of,
  rows_after, max_id, starting_state,
}
use nikki.History.Pages.{IsChronicle}
use nikki.History.Emissions.{new_rows}
use nikki.History.Repeat.{rows, started, start, collect_emits, collect_repeats}

abbrev digest8 : Text → List ℕ
digest8 s = 1 ∷ 2 ∷ 3 ∷ 4 ∷ 5 ∷ 6 ∷ 7 ∷ 8 ∷ []

abbrev visit : ℕ → Visit
visit n = record {
  id = n;
  visit_time = pos 13300000000000000;
  transition = pos 1;
  visit_duration = pos 0;
  joined = some (record { url = some (codes "https://a.test/"); title = none });
}

abbrev three : Snapshot
three = record { visits = visit 4 ∷ visit 5 ∷ visit 7 ∷ []; answers = λ n. true }

three-IsChronicle : IsChronicle three.visits
three-IsChronicle = (omega arith, omega arith)

abbrev me : Text
me = codes "me"

-- A state that has seen the first visit.
abbrev seen : Option HistoryState
seen = some (record { cursor = 4; generation = 2; shipped = [] })

few : length (rows three (start three 1 seen)) < 5
unfolding joined_rows row_of rows_after max_id starting_state
few = omega arith

collect_emits_example :
    (out : PollOutcome) × (collect digest8 5 three me 1 seen 2 ≡ some (some out))
    × (out.records
        ≡ map
            (visit_record me (started three seen).generation)
            (new_rows digest8 (started three seen).shipped (rows three (start three 1 seen))))
collect_emits_example =
    collect_emits digest8 three me 1 2 (omega arith) (λ n. refl) three-IsChronicle 5 seen few

collect_repeats_example :
    (out again : PollOutcome) × (collect digest8 5 three me 1 seen 2 ≡ some (some out))
    × (collect digest8 5 three me 1 (some out.state) 2 ≡ some (some again))
    × (again.records ≡ [])
collect_repeats_example =
    collect_repeats digest8 three me 1 2 (omega arith) (λ n. refl) three-IsChronicle 5 seen few

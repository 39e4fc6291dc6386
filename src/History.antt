-- ===== src/History.antt =====
-- src/providers/browser_history.rs: one poll of a snapshot of the browser's history. A snapshot is
-- its visits in the order of their ids, each with the row of `urls` that the join finds, and which of
-- its queries succeed. Ids and cursors are natural numbers, as SQLite's row ids are.
pub mod Pages
pub mod Emissions
pub mod Repeat
mod Tests
use nikki.Prelude.{
  ℕ, zero, suc, ◌+◌, ◌-◌, Bool, true, false, not, Option, none, some, List, [], ◌∷◌, ◌++◌, Text,
  codes, text_eq, decimal_ℤ, ℤ, pos, ◌-ℤ◌, div_ℤ, ltb, leb, ◌==◌, ◌||◌, max, take, length,
  if◌then◌else◌,
}
use nikki.Json.{Value, Fields, object, field, empty, number, string}
use nikki.Record.{RecordDraft, browser_history, visit, browser_visit}
use nikki.Record.Dedup.{key}

abbrev pub page_limit : ℕ
page_limit = 5000

abbrev pub webkit_epoch_offset_millis : ℕ
webkit_epoch_offset_millis = 11644473600000

-- The row of `urls` that belongs to a visit.
pub record UrlRow : Type 0 where
  pub url : Option Text
  pub title : Option Text

pub record Visit : Type 0 where
  pub id : ℕ
  pub visit_time : ℤ
  pub transition : ℤ
  pub visit_duration : ℤ
  pub joined : Option UrlRow

pub record VisitRow : Type 0 where
  pub id : ℕ
  pub visit_time : ℤ
  pub transition : ℤ
  pub visit_duration : ℤ
  pub url : Text
  pub title : Option Text

-- `answers n` says whether the query numbered `n` of the poll succeeds.
pub record Snapshot : Type 0 where
  pub visits : List Visit
  pub answers : ℕ → Bool

-- `shipped` is the map from the ids to the digests.
pub record HistoryState : Type 0 where
  pub cursor : ℕ
  pub generation : ℕ
  pub shipped : List (ℕ × Text)

pub record PollOutcome : Type 0 where
  pub records : List RecordDraft
  pub state : HistoryState

unfoldable pub fresh : ℕ → HistoryState
fresh highest = record { cursor = highest; generation = 1; shipped = [] }

unfoldable pub regenerated : HistoryState → ℕ → HistoryState
regenerated s highest = record { cursor = highest; generation = s.generation + 1; shipped = [] }

abbrev pub text_or_empty : Option Text → Text
text_or_empty none = []
text_or_empty (some s) = s

-- `SELECT MAX(id) FROM visits`, nothing counting as zero.
unfoldable pub max_id : List Visit → ℕ
max_id [] = 0
max_id (v ∷ vs) = max v.id (max_id vs)

unfoldable pub row_of : Visit → UrlRow → VisitRow
row_of v u = record {
  id = v.id;
  visit_time = v.visit_time;
  transition = v.transition;
  visit_duration = v.visit_duration;
  url = text_or_empty u.url;
  title = u.title;
}

join_row : Visit → Option UrlRow → List VisitRow → List VisitRow
join_row v none rows = rows
join_row v (some u) rows = row_of v u ∷ rows

-- The join of the visits with their urls.
unfoldable pub joined_rows : List Visit → List VisitRow
unfolding join_row
joined_rows [] = []
joined_rows (v ∷ vs) = join_row v v.joined (joined_rows vs)

-- `WHERE v.id > ?1`
unfoldable pub rows_after : ℕ → List VisitRow → List VisitRow
rows_after from [] = []
rows_after from (r ∷ rs) = if ltb from r.id then r ∷ rows_after from rs else rows_after from rs

unfoldable pub read_page : Snapshot → ℕ → ℕ → ℕ → Option (List VisitRow)
read_page s query from limit =
    if s.answers query then some (take limit (rows_after from (joined_rows s.visits))) else none

unfoldable pub highest_visit_id : Snapshot → Option ℕ
highest_visit_id s = if s.answers 0 then some (max_id s.visits) else none

unfoldable pub get_shipped : ℕ → List (ℕ × Text) → Option Text
get_shipped id [] = none
get_shipped id ((j, d) ∷ m) = if j == id then some d else get_shipped id m

unfoldable pub insert_shipped : ℕ → Text → List (ℕ × Text) → List (ℕ × Text)
insert_shipped id d [] = (id, d) ∷ []
insert_shipped id d ((j, e) ∷ m) = if j == id then (j, d) ∷ m else (j, e) ∷ insert_shipped id d m

-- `shipped.retain(|id, _| *id > floor)`, where the floor is `cursor - window` and may be negative.
unfoldable pub retain_shipped : ℕ → ℕ → List (ℕ × Text) → List (ℕ × Text)
retain_shipped cursor window [] = []
retain_shipped cursor window ((j, d) ∷ m) =
    if ltb cursor (j + window)
    then (j, d) ∷ retain_shipped cursor window m
    else retain_shipped cursor window m

unfoldable pub unix_millis : ℤ → ℤ
unix_millis visit_time = div_ℤ visit_time 1000 -ℤ pos webkit_epoch_offset_millis

unfoldable pub duration_millis : ℤ → ℤ
duration_millis visit_duration = div_ℤ visit_duration 1000

title_field : Option Text → Fields → Fields
title_field none rest = rest
title_field (some []) rest = rest
title_field (some (c ∷ cs)) rest = field (codes "title") (string (c ∷ cs)) rest

unfoldable pub visit_record : Text → ℕ → VisitRow → RecordDraft
unfolding title_field
visit_record profile generation row = record {
  provider = browser_history;
  kind = visit;
  ts = unix_millis row.visit_time;
  degraded = false;
  payload = object (
      field (codes "url") (string row.url) (
        title_field row.title (
          field (codes "profile") (string profile) (
            field (codes "transition") (number row.transition) (
              field (codes "visit_id") (number (pos row.id)) (
                field (codes "duration_ms") (number (duration_millis row.visit_duration))
                  empty))))));
  key = browser_visit profile generation (pos row.id);
}

is_same : Option Text → Text → Bool
is_same none d = false
is_same (some e) d = text_eq e d

module _ (sha256 : Text → List ℕ) where
  unfoldable pub digest : VisitRow → Text
  digest row =
      key sha256
        (text_or_empty row.title ∷ decimal_ℤ row.transition ∷ decimal_ℤ row.visit_duration ∷ [])

  -- The tests that skip a row.
  unfoldable pub skips : VisitRow → List (ℕ × Text) → Bool
  unfolding is_same
  skips row shipped = length row.url == 0 || is_same (get_shipped row.id shipped) (digest row)

  -- The loop over the rows of a page: the map, the records and the position.
  unfoldable pub collect_rows :
      Text
      → ℕ
      → List VisitRow
      → List (ℕ × Text)
      → List RecordDraft
      → ℕ
      → List (ℕ × Text) × List RecordDraft × ℕ
  collect_rows profile generation [] shipped records position = (shipped, records, position)
  collect_rows profile generation (r ∷ rs) shipped records position =
      if skips r shipped
      then collect_rows profile generation rs shipped records r.id
      else collect_rows profile generation rs (insert_shipped r.id (digest r) shipped)
          (records ++ visit_record profile generation r ∷ []) r.id

  -- The loop over the pages, on fuel: `none` when the fuel runs out, `some none` when a query fails.
  unfoldable pub collect_pages :
      ℕ
      → Snapshot
      → Text
      → ℕ
      → ℕ
      → ℕ
      → List (ℕ × Text)
      → List RecordDraft
      → ℕ
      → Option (Option (List (ℕ × Text) × List RecordDraft × ℕ))
  collect_pages zero s profile generation page query shipped records position = none
  collect_pages (suc fuel) s profile generation page query shipped records position =
      elim (read_page s query position page) [
        | none ↦ some none
        | some rows ↦
            let (shipped', records', position') =
              collect_rows profile generation rows shipped records position in
            let rest =
              collect_pages fuel s profile generation page (suc query) shipped' records'
                position' in
            if ltb (length rows) page then some (some (shipped', records', position')) else rest
      ]

-- The state that a poll starts from.
unfoldable pub starting_state : Option HistoryState → ℕ → HistoryState
starting_state none highest = fresh highest
starting_state (some state) highest =
    if ltb highest state.cursor then regenerated state highest else state

-- The state that a poll leaves.
unfoldable pub settled : HistoryState → ℕ → List (ℕ × Text) → ℕ → HistoryState
settled state window shipped position =
    let cursor = max state.cursor position in
    record {
      cursor = cursor;
      generation = state.generation;
      shipped = retain_shipped cursor window shipped;
    }

finish :
    HistoryState
    → ℕ
    → Option (Option (List (ℕ × Text) × List RecordDraft × ℕ))
    → Option (Option PollOutcome)
finish state window none = none
finish state window (some none) = some none
finish state window (some (some (shipped, records, position))) =
    some (some (record { records = records; state = settled state window shipped position }))

module _ (sha256 : Text → List ℕ) where
  -- `collect`, on fuel for its pages.
  unfoldable pub collect :
      ℕ → Snapshot → Text → ℕ → Option HistoryState → ℕ → Option (Option PollOutcome)
  unfolding finish
  collect fuel s profile window state page = elim (highest_visit_id s) [
    | none ↦ some none
    | some highest ↦
        let started = starting_state state highest in
        finish started window (
          collect_pages sha256 fuel s profile started.generation page 1 started.shipped []
            (started.cursor - window))
  ]

-- ===== src/History/Pages.antt =====
-- src/providers/browser_history.rs: reading by pages comes to one pass over the visits after the
-- position. The ids of the visits go up, since they are the primary key that orders them.
use nikki.Prelude.{
  ℕ, zero, suc, ◌≤◌, ◌<◌, ◌≡◌, refl, sym, ap, ◌∙◌, true, none, some, List, [], ◌∷◌, ◌++◌, Text,
  arith, All, take, drop, length, take-append-drop, length-take, length-drop, ltb, Bool-cases, inl,
  inr,
}
use nikki.Record.{RecordDraft}
use nikki.History.{
  Visit, VisitRow, Snapshot, joined_rows, join_row, row_of, rows_after, read_page, collect_rows,
  collect_pages, skips,
}

abbrev pub AllOver : ℕ → List VisitRow → Type 0
AllOver n = All (λ r. n < r.id)

-- The ids go up.
abbrev pub IsSorted : List VisitRow → Type 0
IsSorted [] = Unit
IsSorted (r ∷ rs) = AllOver r.id rs × IsSorted rs

abbrev pub IsChronicle : List Visit → Type 0
IsChronicle [] = Unit
IsChronicle (v ∷ vs) = All (λ u. v.id < u.id) vs × IsChronicle vs

pub rows_after-All :
    (P : VisitRow → Type 0) (n : ℕ) (rs : List VisitRow) → All P rs → All P (rows_after n rs)
unfolding rows_after
rows_after-All P n [] h = tt
rows_after-All P n (r ∷ rs) h = elim (Bool-cases (ltb n r.id)) [
  | inl over ↦ rw over (h.0, rows_after-All P n rs h.1)
  | inr under ↦ rw under (rows_after-All P n rs h.1)
]

pub rows_after-IsSorted : (n : ℕ) (rs : List VisitRow) → IsSorted rs → IsSorted (rows_after n rs)
unfolding rows_after
rows_after-IsSorted n [] h = tt
rows_after-IsSorted n (r ∷ rs) h = elim (Bool-cases (ltb n r.id)) [
  | inl over ↦ rw over (rows_after-All (λ s. r.id < s.id) n rs h.0, rows_after-IsSorted n rs h.1)
  | inr under ↦ rw under (rows_after-IsSorted n rs h.1)
]

pub rows_after-AllOver : (n : ℕ) (rs : List VisitRow) → AllOver n (rows_after n rs)
unfolding rows_after
rows_after-AllOver n [] = tt
rows_after-AllOver n (r ∷ rs) = elim (Bool-cases (ltb n r.id)) [
  | inl over ↦ rw over (ground (arith, over), rows_after-AllOver n rs)
  | inr under ↦ rw under (rows_after-AllOver n rs)
]

pub rows_after_all : (n : ℕ) (rs : List VisitRow) → AllOver n rs → rows_after n rs ≡ rs
unfolding rows_after
rows_after_all n [] h = refl
rows_after_all n (r ∷ rs) h = ground (arith, h.0, rows_after_all n rs h.1)

-- A later position looks only at what follows the earlier one.
pub rows_after_later :
    (n m : ℕ) (rs : List VisitRow) → n ≤ m → rows_after m (rows_after n rs) ≡ rows_after m rs
unfolding rows_after
rows_after_later n m [] h = refl
rows_after_later n m (r ∷ rs) h = ground (arith, h, rows_after_later n m rs h)

joined_rows-AllOver :
    (n : ℕ) (vs : List Visit) → All (λ v. n < v.id) vs → AllOver n (joined_rows vs)
unfolding joined_rows join_row row_of
joined_rows-AllOver n [] h = tt
joined_rows-AllOver n (v ∷ vs) h =
    elim v.joined as (λ u. AllOver n (join_row v u (joined_rows vs))) [
      | none ↦ joined_rows-AllOver n vs h.1
      | some u ↦ (h.0, joined_rows-AllOver n vs h.1)
    ]

pub joined_rows-IsSorted : (vs : List Visit) → IsChronicle vs → IsSorted (joined_rows vs)
unfolding joined_rows join_row row_of
joined_rows-IsSorted [] h = tt
joined_rows-IsSorted (v ∷ vs) h = elim v.joined as (λ u. IsSorted (join_row v u (joined_rows vs))) [
  | none ↦ joined_rows-IsSorted vs h.1
  | some u ↦ (joined_rows-AllOver v.id vs h.0, joined_rows-IsSorted vs h.1)
]

take_short : (k : ℕ) (rs : List VisitRow) → length rs ≤ k → take k rs ≡ rs
take_short zero [] h = refl
take_short zero (r ∷ rs) h = absurd (omega (arith, h))
take_short (suc k) [] h = refl
take_short (suc k) (r ∷ rs) h = ap (◌∷◌ r) (take_short k rs (omega (arith, h)))

-- The position after some rows.
abbrev pub last_id : List VisitRow → ℕ → ℕ
last_id [] n = n
last_id (r ∷ rs) n = last_id rs r.id

pub last_id-lower : (n : ℕ) (rs : List VisitRow) → AllOver n rs → IsSorted rs → n ≤ last_id rs n
last_id-lower n [] h s = omega arith
last_id-lower n (r ∷ rs) h s = omega (arith, h.0, last_id-lower r.id rs s.0 s.1)

take-AllOver : (n k : ℕ) (rs : List VisitRow) → AllOver n rs → AllOver n (take k rs)
take-AllOver n zero rs h = tt
take-AllOver n (suc k) [] h = tt
take-AllOver n (suc k) (r ∷ rs) h = (h.0, take-AllOver n k rs h.1)

take-IsSorted : (k : ℕ) (rs : List VisitRow) → IsSorted rs → IsSorted (take k rs)
take-IsSorted zero rs h = tt
take-IsSorted (suc k) [] h = tt
take-IsSorted (suc k) (r ∷ rs) h = (take-AllOver r.id k rs h.0, take-IsSorted k rs h.1)

-- After a page come the rows that the page left.
rows_after_page :
    (k n : ℕ) (rs : List VisitRow)
    → AllOver n rs
    → IsSorted rs
    → rows_after (last_id (take k rs) n) rs ≡ drop k rs
unfolding rows_after
rows_after_page zero n rs h s = rows_after_all n rs h
rows_after_page (suc k) n [] h s = refl
rows_after_page (suc k) n (r ∷ rs) h s = ground (
  arith,
  last_id-lower r.id (take k rs) (take-AllOver r.id k rs s.0) (take-IsSorted k rs s.1),
  rows_after_page k r.id rs s.0 s.1,
)

module _ (sha256 : Text → List ℕ) (profile : Text) (generation : ℕ) where
  abbrev pub Collected : Type 0
  Collected = List (ℕ × Text) × List RecordDraft × ℕ

  abbrev pub run : List VisitRow → Collected → Collected
  run rows (shipped, records, position) =
      collect_rows sha256 profile generation rows shipped records position

  run-append : (xs ys : List VisitRow) (c : Collected) → run (xs ++ ys) c ≡ run ys (run xs c)
  unfolding collect_rows
  run-append [] ys (shipped, records, position) = refl
  run-append (x ∷ xs) ys (shipped, records, position) = elim (Bool-cases (skips sha256 x shipped)) [
    | inl same ↦ rw same (run-append xs ys (shipped, records, x.id))
    | inr other ↦ rw other (run-append xs ys _)
  ]

  pub run-position : (xs : List VisitRow) (c : Collected) → (run xs c).2 ≡ last_id xs c.2
  unfolding collect_rows
  run-position [] (shipped, records, position) = refl
  run-position (x ∷ xs) (shipped, records, position) = elim (Bool-cases (skips sha256 x shipped)) [
    | inl same ↦ rw same (run-position xs (shipped, records, x.id))
    | inr other ↦ rw other (run-position xs _)
  ]

  module _ (s : Snapshot) (page : ℕ) (some_rows : 1 ≤ page) (answers : (n : ℕ) → s.answers n ≡ true)
      (up : IsChronicle s.visits) where
    abbrev pub after : ℕ → List VisitRow
    after position = rows_after position (joined_rows s.visits)

    after-next :
        (position : ℕ)
        → after (last_id (take page (after position)) position) ≡ drop page (after position)
    after-next position =
        let over = rows_after-AllOver position (joined_rows s.visits) in
        let sorted = rows_after-IsSorted position _ (joined_rows-IsSorted s.visits up) in
        sym (
          rows_after_later position _ (joined_rows s.visits) (
            last_id-lower position _ (take-AllOver position page _ over)
              (take-IsSorted page _ sorted)))
        ∙ rows_after_page page position (after position) over sorted

    -- Reading page by page, with fuel for more pages than there are rows after the position, comes
    -- to one pass over those rows.
    pub collect_pages_all :
        (fuel query : ℕ) (c : Collected)
        → length (after c.2) < fuel
        → collect_pages sha256 fuel s profile generation page query c.0 c.1 c.2
          ≡ some (some (run (after c.2) c))
    unfolding collect_pages read_page
    collect_pages_all zero query c h = absurd (omega (arith, h))
    collect_pages_all (suc fuel) query (shipped, records, position) h =
        let c : Collected = (shipped, records, position) in
        let rows = after position in
        let first = run (take page rows) c in
        let split =
          sym (run-append (take page rows) (drop page rows) c)
          ∙ ap (λ xs. run xs c) (take-append-drop page rows) in
        let next : after first.2 ≡ drop page rows =
          ap after (run-position (take page rows) c) ∙ after-next position in
        elim (Bool-cases (ltb (length (take page rows)) page)) [
          | inl short ↦
              rw (collect_pages, read_page, answers query)
                (rw short (
                  ap (λ xs. some (some (run xs c)))
                    (take_short page rows (ground (arith, short, length-take page rows)))))
          | inr full ↦
              let full_page : page ≤ length rows = ground (arith, full, length-take page rows) in
              rw (collect_pages, read_page, answers query)
                (rw full (
                  collect_pages_all fuel (suc query) first
                    (omega (arith, h, some_rows, ap length next, length-drop page rows, full_page))
                  ∙ ap (λ xs. some (some (run xs first))) next
                  ∙ ap (λ r. some (some r)) split))
        ]

-- ===== src/History/Emissions.antt =====
-- src/providers/browser_history.rs: which rows of a pass become records, and what the map of digests
-- holds after it.
use nikki.Prelude.{
  Option, Bool, none, text_eq, ℕ, ◌+◌, ◌<◌, ◌≡◌, ◌≢◌, refl, sym, ap, ◌∙◌, subst, true, false, some,
  List, [], ◌∷◌, ◌++◌, map, Text, arith, All, text_eq_refl, Bool-cases, inl, inr, ◌==◌, ◌||◌,
  length, if◌then◌else◌,
}
use mathlib.Core.List.{append_assoc, append-nil}
use nikki.History.{
  VisitRow, get_shipped, insert_shipped, retain_shipped, skips, is_same, digest, collect_rows,
  visit_record,
}
use nikki.History.Pages.{AllOver, IsSorted, Collected, run}

-- A map holds this digest.
abbrev pub holds : Option Text → Text → Bool
holds none d = false
holds (some e) d = text_eq e d

-- The rows that have an address and whose digest is not the one in the map.
abbrev pub new_rows : (Text → List ℕ) → List (ℕ × Text) → List VisitRow → List VisitRow
new_rows sha256 shipped [] = []
new_rows sha256 shipped (r ∷ rs) =
    if length r.url == 0 || holds (get_shipped r.id shipped) (digest sha256 r)
    then new_rows sha256 shipped rs
    else r ∷ new_rows sha256 shipped rs

pub skips_lem :
    (sha256 : Text → List ℕ) (r : VisitRow) (m : List (ℕ × Text))
    → skips sha256 r m ≡ (length r.url == 0 || holds (get_shipped r.id m) (digest sha256 r))
unfolding skips is_same
skips_lem sha256 r m = ap (λ b. length r.url == 0 || b) (same (get_shipped r.id m))
  where
    same : (o : Option Text) → is_same o (digest sha256 r) ≡ holds o (digest sha256 r)
    same none = refl
    same (some e) = refl

get_shipped_same :
    (id : ℕ) (d : Text) (m : List (ℕ × Text)) → get_shipped id (insert_shipped id d m) ≡ some d
unfolding get_shipped insert_shipped
get_shipped_same id d [] = ground arith
get_shipped_same id d ((j, e) ∷ m) = ground (arith, get_shipped_same id d m)

get_shipped_other :
    (id k : ℕ) (d : Text) (m : List (ℕ × Text))
    → id ≢ k
    → get_shipped k (insert_shipped id d m) ≡ get_shipped k m
unfolding get_shipped insert_shipped
get_shipped_other id k d [] h = ground (arith, h)
get_shipped_other id k d ((j, e) ∷ m) h = ground (arith, h, get_shipped_other id k d m h)

-- An id inside the window is retained.
pub get_shipped-retain :
    (cursor window id : ℕ) (m : List (ℕ × Text))
    → cursor < id + window
    → get_shipped id (retain_shipped cursor window m) ≡ get_shipped id m
unfolding get_shipped retain_shipped
get_shipped-retain cursor window id [] h = refl
get_shipped-retain cursor window id ((j, e) ∷ m) h =
    ground (arith, h, get_shipped-retain cursor window id m h)

module _ (sha256 : Text → List ℕ) where
  -- A row is judged by what the map holds at its id.
  pub skips_by :
      (r : VisitRow) (m n : List (ℕ × Text))
      → get_shipped r.id m ≡ get_shipped r.id n
      → skips sha256 r m ≡ skips sha256 r n
  unfolding skips
  skips_by r m n e = ap (λ g. length r.url == 0 || is_same g (digest sha256 r)) e

  skips_shipped :
      (r : VisitRow) (m : List (ℕ × Text))
      → get_shipped r.id m ≡ some (digest sha256 r)
      → skips sha256 r m ≡ true
  unfolding skips is_same
  skips_shipped r m e = rw e (ground (arith, text_eq_refl (digest sha256 r)))

  new_rows_by :
      (id : ℕ) (d : Text) (m : List (ℕ × Text)) (rs : List VisitRow)
      → AllOver id rs
      → new_rows sha256 (insert_shipped id d m) rs ≡ new_rows sha256 m rs
  new_rows_by id d m [] h = refl
  new_rows_by id d m (r ∷ rs) h =
      rw (get_shipped_other id r.id d m (omega (arith, h.0))) (rw (new_rows_by id d m rs h.1) refl)

  module _ (profile : Text) (generation : ℕ) where
    -- A pass over rows in order records exactly the new ones, in order.
    pub run-records :
        (rs : List VisitRow) (c : Collected sha256 profile generation)
        → IsSorted rs
        → (run sha256 profile generation rs c).1
          ≡ c.1 ++ map (visit_record profile generation) (new_rows sha256 c.0 rs)
    unfolding collect_rows
    run-records [] (shipped, records, position) s = sym (append-nil records)
    run-records (r ∷ rs) (shipped, records, position) s =
        elim (Bool-cases (skips sha256 r shipped)) [
          | inl same ↦
              rw (same, sym (skips_lem sha256 r shipped) ∙ same)
                (run-records rs (shipped, records, r.id) s.1)
          | inr other ↦
              rw (other, sym (skips_lem sha256 r shipped) ∙ other)
                (run-records rs
                    (
                      insert_shipped r.id (digest sha256 r) shipped,
                      records ++ visit_record profile generation r ∷ [],
                      r.id,
                    )
                    s.1
                  ∙ ap
                      (λ l.
                        (records ++ visit_record profile generation r ∷ [])
                        ++ map (visit_record profile generation) l)
                      (new_rows_by r.id (digest sha256 r) shipped rs s.0)
                  ∙ append_assoc records (visit_record profile generation r ∷ []) _)
        ]

    run-shipped_before :
        (id : ℕ) (rs : List VisitRow) (c : Collected sha256 profile generation)
        → AllOver id rs
        → get_shipped id (run sha256 profile generation rs c).0 ≡ get_shipped id c.0
    unfolding collect_rows
    run-shipped_before id [] (shipped, records, position) h = refl
    run-shipped_before id (r ∷ rs) (shipped, records, position) h =
        elim (Bool-cases (skips sha256 r shipped)) [
          | inl same ↦ rw same (run-shipped_before id rs (shipped, records, r.id) h.1)
          | inr other ↦ rw other (
              run-shipped_before id rs
                (
                  insert_shipped r.id (digest sha256 r) shipped,
                  records ++ visit_record profile generation r ∷ [],
                  r.id,
                )
                h.1
              ∙ get_shipped_other r.id id (digest sha256 r) shipped (omega (arith, h.0)))
        ]

    run-same :
        (r : VisitRow) (rs : List VisitRow) (c : Collected sha256 profile generation)
        → skips sha256 r c.0 ≡ true
        → run sha256 profile generation (r ∷ rs) c
          ≡ run sha256 profile generation rs (c.0, c.1, r.id)
    unfolding collect_rows
    run-same r rs c same = rw same refl

    run-new :
        (r : VisitRow) (rs : List VisitRow) (c : Collected sha256 profile generation)
        → skips sha256 r c.0 ≡ false
        → run sha256 profile generation (r ∷ rs) c
          ≡ run sha256 profile generation rs (
            insert_shipped r.id (digest sha256 r) c.0,
            c.1 ++ visit_record profile generation r ∷ [],
            r.id,
          )
    unfolding collect_rows
    run-new r rs c other = rw other refl

    -- Every one of the rows is skipped by the map of a pass.
    abbrev AllSkipped : List VisitRow → Collected sha256 profile generation → Type 0
    AllSkipped rs c = All (λ r. skips sha256 r c.0 ≡ true) rs

    -- After a pass each of its rows would be skipped.
    pub run-skips :
        (rs : List VisitRow) (c : Collected sha256 profile generation)
        → IsSorted rs
        → All (λ r. skips sha256 r (run sha256 profile generation rs c).0 ≡ true) rs
    run-skips [] c s = tt
    run-skips (r ∷ rs) c s = elim (Bool-cases (skips sha256 r c.0)) [
      | inl same ↦
          let d : Collected sha256 profile generation = (c.0, c.1, r.id) in
          subst (AllSkipped (r ∷ rs)) (sym (run-same r rs c same))
            (skips_by r _ c.0 (run-shipped_before r.id rs d s.0) ∙ same, run-skips rs d s.1)
      | inr other ↦
          let d : Collected sha256 profile generation = (
            insert_shipped r.id (digest sha256 r) c.0,
            c.1 ++ visit_record profile generation r ∷ [],
            r.id,
          ) in
          subst (AllSkipped (r ∷ rs)) (sym (run-new r rs c other)) (
            skips_shipped r _
                (run-shipped_before r.id rs d s.0 ∙ get_shipped_same r.id (digest sha256 r) c.0),
            run-skips rs d s.1,
          )
    ]

    -- A pass over rows that are all skipped records nothing.
    pub run_skipped :
        (rs : List VisitRow) (c : Collected sha256 profile generation)
        → All (λ r. skips sha256 r c.0 ≡ true) rs
        → (run sha256 profile generation rs c).1 ≡ c.1
    unfolding collect_rows
    run_skipped [] (shipped, records, position) h = refl
    run_skipped (r ∷ rs) (shipped, records, position) h =
        rw h.0 (run_skipped rs (shipped, records, r.id) h.1)

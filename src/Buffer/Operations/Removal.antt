-- ===== src/Buffer/Operations/Removal.antt =====
-- Deleting a batch by its ids, from tables that may have changed since it was taken.
use nikki.Prelude.{
  ℕ, ◌≡◌, refl, sym, ap, ◌∙◌, List, [], ◌∷◌, ◌++◌, map, Text, arith, drop, take, take-append-drop,
  subst,
}
use mathlib.Core.List.{append-nil, append_assoc, map-append}
use nikki.Buffer.Sql.{Tables, PendingRow}
use nikki.Buffer.Evict.{Candidate, candidate_of_pending, delete_id}
use nikki.Buffer.Evict.Rows.{AllAbove, IsAscending, IsAscending-delete_id}
use nikki.Buffer.Operations.{PendingRecord, record_of, remove_id, push_dead}
use nikki.Buffer.Operations.Batch.{records_of, removed, buried}

abbrev pub ids_of : List PendingRecord → List ℕ
ids_of = map (λ r. r.id)

abbrev row_ids : List PendingRow → List ℕ
row_ids = map (λ r. r.id)

module _ {A : Type 0} (view : A → Candidate) where
  delete_id_above : (n : ℕ) (rs : List A) → AllAbove view n rs → delete_id view n rs ≡ rs
  unfolding delete_id
  delete_id_above n [] h = refl
  delete_id_above n (r ∷ rs) h = ground (arith, delete_id_above n rs h.1)

  pub delete_id_head :
      (r : A) (rs : List A) → IsAscending view (r ∷ rs) → delete_id view (view r).id (r ∷ rs) ≡ rs
  unfolding delete_id
  delete_id_head r rs h = ground (arith, delete_id_above (view r).id rs h.0)

-- Deleting the ids of a prefix leaves what follows it, when the ids go up.
pub removed-prefix :
    (p q : List PendingRow) (t : Tables)
    → t.pending ≡ p ++ q
    → IsAscending candidate_of_pending t.pending
    → removed (row_ids p) t ≡ record t { pending = q }
unfolding removed remove_id candidate_of_pending
removed-prefix [] q t e s = λ i. record t { pending = e i }
removed-prefix (r ∷ p) q t e s =
    let s' = subst (IsAscending candidate_of_pending) e s in
    let left =
      ap (delete_id candidate_of_pending r.id) e
      ∙ delete_id_head candidate_of_pending r (p ++ q) s' in
    removed-prefix p q (remove_id r.id t) left
      (subst (IsAscending candidate_of_pending) (sym left) s'.1)

pub ids_of-records_of : (rows : List PendingRow) → ids_of (records_of rows) ≡ row_ids rows
unfolding records_of record_of
ids_of-records_of [] = refl
ids_of-records_of (r ∷ rs) = ap (◌∷◌ r.id) (ids_of-records_of rs)

-- Deleting the batch that was just taken drops exactly its rows.
pub removed-take :
    (limit : ℕ) (t : Tables)
    → IsAscending candidate_of_pending t.pending
    → removed (ids_of (records_of (take limit t.pending))) t
      ≡ record t { pending = drop limit t.pending }
removed-take limit t s =
    ap (λ ids. removed ids t) (ids_of-records_of (take limit t.pending))
    ∙ removed-prefix (take limit t.pending) (drop limit t.pending) t
        (sym (take-append-drop limit t.pending)) s

pub removed-IsAscending :
    (ids : List ℕ) (t : Tables)
    → IsAscending candidate_of_pending t.pending
    → IsAscending candidate_of_pending (removed ids t).pending
unfolding removed remove_id
removed-IsAscending [] t s = s
removed-IsAscending (id ∷ ids) t s =
    removed-IsAscending ids _ (IsAscending-delete_id candidate_of_pending id t.pending s)

-- The two loops delete the same rows of `pending`.
pub pending-buried :
    (rs : List PendingRecord) (reason at : Text) (t u : Tables)
    → t.pending ≡ u.pending
    → (buried rs reason at t).pending ≡ (removed (ids_of rs) u).pending
unfolding buried removed remove_id push_dead
pending-buried [] reason at t u e = e
pending-buried (r ∷ rs) reason at t u e =
    pending-buried rs reason at _ _ (ap (delete_id candidate_of_pending r.id) e)

-- What stands in the dead letter table: the envelope and the reason.
abbrev pub graves : Tables → List (Text × Text)
graves t = map (λ r. (r.envelope, r.reason)) t.dead_letter

-- Each record of the batch gets one row there, in order, with the reason.
pub graves-buried :
    (rs : List PendingRecord) (reason at : Text) (t : Tables)
    → graves (buried rs reason at t) ≡ graves t ++ map (λ r. (r.envelope, reason)) rs
unfolding buried remove_id push_dead
graves-buried [] reason at t = sym (append-nil (graves t))
graves-buried (r ∷ rs) reason at t =
    graves-buried rs reason at _
    ∙ ap (λ g. g ++ map (λ x. (x.envelope, reason)) rs)
        (map-append (λ x. (x.envelope, x.reason)) t.dead_letter _)
    ∙ append_assoc (graves t) ((r.envelope, reason) ∷ []) _

pub removed-dead : (ids : List ℕ) (t : Tables) → (removed ids t).dead_letter ≡ t.dead_letter
unfolding removed remove_id
removed-dead [] t = refl
removed-dead (id ∷ ids) t = removed-dead ids _

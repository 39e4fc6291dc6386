-- ===== src/Buffer/Operations/Batch.antt =====
-- What `take_batch`, `delete_batch` and `dead_letter` come to.
use nikki.Prelude.{ℕ, ◌≡◌, refl, List, [], ◌∷◌, map, Text, ℤ, take}
use nikki.World.{World}
use nikki.Buffer.Sql.{Tables, Connection, PendingRow, ◌>>◌, call, query, execute}
use nikki.Buffer.Sql.Yields.{
  Yields, Yields-bind, Yields-pure, Yields-call, Yields-query, Yields-execute, Yields-transaction,
  IsReadOnly, IsReadOnly-bind, IsReadOnly-call, IsReadOnly-query, IsReadOnly-pure,
}
use nikki.Buffer.Evict.{candidate_of_dead}
use nikki.Buffer.Evict.Rows.{IsAscending, IsAscending-insert}
use nikki.Buffer.Evict.Runs.{dropped_dead, evict_dead_letter-Yields}
use nikki.Buffer.Operations.{
  PendingRecord, push_dead, remove_id, record_of, read_rows, take_batch, delete_ids, delete_batch,
  bury, dead_letter,
}

-- `DELETE ... WHERE id = ?1` for each id in turn.
unfoldable pub removed : List ℕ → Tables → Tables
removed [] t = t
removed (id ∷ ids) t = removed ids (remove_id id t)

-- The loop of `dead_letter`: each record is stored there and deleted here.
unfoldable pub buried : List PendingRecord → Text → Text → Tables → Tables
buried [] reason at t = t
buried (r ∷ rs) reason at t = buried rs reason at (remove_id r.id (push_dead r reason at t))

pub buried-IsAscending :
    (rs : List PendingRecord) (reason at : Text) (t : Tables)
    → IsAscending candidate_of_dead t.dead_letter
    → IsAscending candidate_of_dead (buried rs reason at t).dead_letter
unfolding buried remove_id push_dead candidate_of_dead
buried-IsAscending [] reason at t s = s
buried-IsAscending (r ∷ rs) reason at t s =
    buried-IsAscending rs reason at _ (IsAscending-insert candidate_of_dead t.dead_letter _ refl s)

unfoldable pub records_of : List PendingRow → List PendingRecord
records_of = map record_of

module _ (w : World) where
  read_rows-Yields :
      (rows : List PendingRow) (c : Connection) (t : Tables)
      → c.tables ≡ t
      → Yields w (read_rows w rows) c (records_of rows) t
  unfolding read_rows records_of
  read_rows-Yields [] c t at =
      Yields-bind w (call w) _ c tt _ t t (Yields-call w c t at) λ c' at'. Yields-pure w c' t at' []
  read_rows-Yields (r ∷ rs) c t at =
      Yields-bind w (call w) _ c tt _ t t (Yields-call w c t at) λ c1 at1.
        Yields-bind w (read_rows w rs) _ c1 _ _ t t (read_rows-Yields rs c1 t at1)
          λ c2 at2. Yields-pure w c2 t at2 _

  pub take_batch-Yields :
      (limit : ℕ) (c : Connection) (t : Tables)
      → c.tables ≡ t
      → Yields w (take_batch w limit) c (records_of (take limit t.pending)) t
  unfolding take_batch
  take_batch-Yields limit c t at =
      Yields-bind w (call w) _ c tt _ t t (Yields-call w c t at) λ c1 at1.
        Yields-bind w (query w _) _ c1 (take limit t.pending) _ t t (Yields-query w c1 t at1 _)
          λ c2 at2. read_rows-Yields (take limit t.pending) c2 t at2

  delete_ids-Yields :
      (ids : List ℕ) (c : Connection) (t : Tables)
      → c.tables ≡ t
      → Yields w (delete_ids w ids) c tt (removed ids t)
  unfolding delete_ids removed
  delete_ids-Yields [] c t at = Yields-pure w c t at tt
  delete_ids-Yields (id ∷ ids) c t at =
      Yields-bind w (execute w (remove_id id)) _ c tt tt _ _ (Yields-execute w c t at _)
        λ c' at'. delete_ids-Yields ids c' _ at'

  pub delete_batch-Yields :
      (ids : List ℕ) (c : Connection) (t : Tables)
      → c.tables ≡ t
      → Yields w (delete_batch w ids) c tt (removed ids t)
  unfolding delete_batch removed
  delete_batch-Yields [] c t at = Yields-pure w c t at tt
  delete_batch-Yields (id ∷ ids) c t at =
      Yields-transaction w (call w >> delete_ids w (id ∷ ids)) c tt t _ at λ c0 at0.
        Yields-bind w (call w) _ c0 tt tt t _ (Yields-call w c0 t at0)
          λ c1 at1. delete_ids-Yields (id ∷ ids) c1 t at1

  bury-Yields :
      (rs : List PendingRecord) (reason at : Text) (c : Connection) (t : Tables)
      → c.tables ≡ t
      → Yields w (bury w rs reason at) c tt (buried rs reason at t)
  unfolding bury buried
  bury-Yields [] reason at c t same = Yields-pure w c t same tt
  bury-Yields (r ∷ rs) reason at c t same =
      Yields-bind w (execute w (push_dead r reason at)) _ c tt tt _ _ (Yields-execute w c t same _)
        λ c1 s1.
          Yields-bind w (execute w (remove_id r.id)) _ c1 tt tt _ _ (Yields-execute w c1 _ s1 _)
            λ c2 s2. bury-Yields rs reason at c2 _ s2

  -- The tables after `dead_letter`: nothing happens to no record.
  unfoldable pub dead_lettered : List PendingRecord → Text → ℤ → Tables → Tables
  dead_lettered [] reason now t = t
  dead_lettered (r ∷ rs) reason now t = dropped_dead (buried (r ∷ rs) reason (w.to_rfc3339 now) t)

  pub dead_letter-Yields :
      (rs : List PendingRecord) (reason : Text) (now : ℤ) (c : Connection) (t : Tables)
      → c.tables ≡ t
      → IsAscending candidate_of_dead t.dead_letter
      → Yields w (dead_letter w rs reason now) c tt (dead_lettered rs reason now t)
  unfolding dead_letter dead_lettered
  dead_letter-Yields [] reason now c t same s = Yields-pure w c t same tt
  dead_letter-Yields (r ∷ rs) reason now c t same s = Yields-transaction w _ c tt t _ same λ c0 s0.
      Yields-bind w (call w) _ c0 tt tt t _ (Yields-call w c0 t s0) λ c1 s1.
        Yields-bind w (call w) _ c1 tt tt t _ (Yields-call w c1 t s1) λ c2 s2.
          Yields-bind w (bury w (r ∷ rs) reason (w.to_rfc3339 now)) _ c2 tt tt _ _
            (bury-Yields (r ∷ rs) reason (w.to_rfc3339 now) c2 t s2)
            λ c3 s3. evict_dead_letter-Yields w c3 _ s3 (buried-IsAscending (r ∷ rs) reason _ t s)

  read_rows-IsReadOnly : (rows : List PendingRow) → IsReadOnly w (read_rows w rows)
  unfolding read_rows
  read_rows-IsReadOnly [] =
      IsReadOnly-bind w (call w) _ (IsReadOnly-call w) λ a. IsReadOnly-pure w []
  read_rows-IsReadOnly (r ∷ rs) = IsReadOnly-bind w (call w) _ (IsReadOnly-call w) λ a.
      IsReadOnly-bind w (read_rows w rs) _ (read_rows-IsReadOnly rs) λ rest. IsReadOnly-pure w _

  pub take_batch-IsReadOnly : (limit : ℕ) → IsReadOnly w (take_batch w limit)
  unfolding take_batch
  take_batch-IsReadOnly limit =
      IsReadOnly-bind w (call w) _ (IsReadOnly-call w)
        λ a. IsReadOnly-bind w (query w _) _ (IsReadOnly-query w _) read_rows-IsReadOnly

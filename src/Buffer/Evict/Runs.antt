-- ===== src/Buffer/Evict/Runs.antt =====
-- What `evict_pending` and `evict_dead_letter` come to, against the prefix that is dropped.
use nikki.Prelude.{
  ℕ, zero, suc, ◌-◌, ◌≡◌, refl, ◌∙◌, inl, inr, Option, none, some, List, [], ◌∷◌, map, leb,
  if◌then◌else◌, ◌&&◌, length, take, drop, Bool-cases, subst,
}
use nikki.World.{World}
use nikki.Buffer.Sql.{Tables, Connection, PendingRow, DeadRow, call, query, execute}
use nikki.Buffer.Sql.Yields.{
  Yields, Yields-bind, Yields-pure, Yields-call, Yields-query, Yields-execute,
}
use nikki.Buffer.Evict.{
  Caps, Candidate, Plan, Evicted, candidate_of_pending, candidate_of_dead, total_bytes,
  delete_through, drop_one, start, plan_loop, plan_eviction, pending_totals, dead_totals,
  remove_pending, remove_dead, evict_pending, evict_dead_letter, overflow_headroom_bytes,
  dead_letter_max_rows, dead_letter_max_bytes,
}
use nikki.Buffer.Evict.Prefix.{
  surplus, planned, planned-eq-dropped_all, report, conclude-report, last_of,
}
use nikki.Buffer.Evict.Rows.{IsAscending, delete_through-drop}

module _ (w : World) where
  plan_loop-Yields :
      (rt bt : ℕ) (cs : List Candidate) (p : Plan) (c : Connection) (t : Tables)
      → c.tables ≡ t
      → Yields w (plan_loop w rt bt cs p) c (planned rt bt cs p) t
  unfolding plan_loop planned
  plan_loop-Yields rt bt [] p c t at = elim (Bool-cases (leb p.rows rt && leb p.bytes bt)) [
    | inl fits ↦ rw fits (Yields-pure w c t at p)
    | inr over ↦ rw over (
        Yields-bind w (call w) _ c tt p t t (Yields-call w c t at)
          λ c' at'. Yields-pure w c' t at' p)
  ]
  plan_loop-Yields rt bt (x ∷ cs) p c t at = elim (Bool-cases (leb p.rows rt && leb p.bytes bt)) [
    | inl fits ↦ rw fits (Yields-pure w c t at p)
    | inr over ↦ rw over (
        Yields-bind w (call w) _ c tt _ t t (Yields-call w c t at)
          λ c' at'. plan_loop-Yields rt bt cs (drop_one x p) c' t at')
  ]

  plan_eviction-Yields :
      (read : Tables → List Candidate) (rows bytes rt bt : ℕ) (c : Connection) (t : Tables)
      → c.tables ≡ t
      → Yields w
          (plan_eviction w read rows bytes rt bt)
          c
          (report (take (surplus rt bt rows bytes (read t)) (read t)))
          t
  unfolding plan_eviction
  plan_eviction-Yields read rows bytes rt bt c t at =
      Yields-bind w (call w) _ c tt _ t t (Yields-call w c t at) λ c1 at1.
        Yields-bind w (query w read) _ c1 (read t) _ t t (Yields-query w c1 t at1 read) λ c2 at2.
          Yields-bind w (plan_loop w rt bt (read t) (start rows bytes)) _ c2 _ _ t t
            (plan_loop-Yields rt bt (read t) (start rows bytes) c2 t at2)
            λ c3 at3. rw planned-eq-dropped_all (rw conclude-report (Yields-pure w c3 t at3 _))

-- How many rows `evict_pending` drops.
unfoldable pub overdue : Caps → List PendingRow → ℕ
overdue caps rows =
    if leb (length rows) caps.max_rows && leb (total_bytes candidate_of_pending rows) caps.max_bytes
    then 0
    else surplus (caps.max_rows - 1) (caps.max_bytes - overflow_headroom_bytes) (length rows)
        (total_bytes candidate_of_pending rows) (map candidate_of_pending rows)

abbrev evicted_of : Option (ℕ × Evicted) → Option Evicted
evicted_of none = none
evicted_of (some (cutoff, evicted)) = some evicted

-- What it reports: how many, and the times of the first and of the last.
unfoldable pub eviction : Caps → List PendingRow → Option Evicted
eviction caps rows = evicted_of (report (take (overdue caps rows) (map candidate_of_pending rows)))

-- The tables without the rows that are overdue.
abbrev pub dropped_pending : Caps → Tables → Tables
dropped_pending caps t = record t { pending = drop (overdue caps t.pending) t.pending }

unfoldable pub overdue_dead : List DeadRow → ℕ
overdue_dead rows =
    if leb (length rows) dead_letter_max_rows
      && leb (total_bytes candidate_of_dead rows) dead_letter_max_bytes
    then 0
    else surplus dead_letter_max_rows dead_letter_max_bytes (length rows)
        (total_bytes candidate_of_dead rows) (map candidate_of_dead rows)

abbrev pub dropped_dead : Tables → Tables
dropped_dead t = record t { dead_letter = drop (overdue_dead t.dead_letter) t.dead_letter }

module _ (w : World) where
  remove_pending-Yields :
      (k : ℕ) (rows : List PendingRow) (c : Connection) (t : Tables)
      → c.tables ≡ t
      → t.pending ≡ rows
      → IsAscending candidate_of_pending rows
      → Yields w
          (remove_pending w (report (take k (map candidate_of_pending rows))))
          c
          (evicted_of (report (take k (map candidate_of_pending rows))))
          (record t { pending = drop k rows })
  unfolding remove_pending report
  remove_pending-Yields zero rows c t at e s =
      Yields-pure w c _ (at ∙ (λ i. record t { pending = e i })) _
  remove_pending-Yields (suc k) [] c t at e s =
      Yields-pure w c _ (at ∙ (λ i. record t { pending = e i })) _
  remove_pending-Yields (suc k) (r ∷ rs) c t at e s =
      Yields-bind w (execute w _) _ c tt _ _ _ (Yields-execute w c t at _) λ c' at'.
        Yields-pure w c' _
          (at'
            ∙ (λ i. record t {
              pending =
                  delete_through candidate_of_pending
                    (last_of (candidate_of_pending r) (take k (map candidate_of_pending rs))).id
                    (e i);
            })
            ∙ (λ i. record t { pending = delete_through-drop candidate_of_pending r k rs s i }))
          _

  -- `evict_pending` drops exactly the overdue rows, the oldest ones, and reports them.
  pub evict_pending-Yields :
      (caps : Caps) (c : Connection) (t : Tables)
      → c.tables ≡ t
      → IsAscending candidate_of_pending t.pending
      → Yields w (evict_pending w caps) c (eviction caps t.pending) (dropped_pending caps t)
  unfolding evict_pending pending_totals overdue eviction report
  evict_pending-Yields caps c t at s =
      Yields-bind w (pending_totals w) _ c _ _ t _ (Yields-query w c t at _) λ c1 at1.
        elim (Bool-cases (
          leb (length t.pending) caps.max_rows
          && leb (total_bytes candidate_of_pending t.pending) caps.max_bytes)) [
            | inl fits ↦ rw fits (Yields-pure w c1 t at1 none)
            | inr over ↦ rw over (
                Yields-bind w (plan_eviction w _ _ _ _ _) _ c1 _ _ t _
                  (plan_eviction-Yields w _ _ _ _ _ c1 t at1)
                  λ c2 at2. remove_pending-Yields _ t.pending c2 t at2 refl s)
          ]

  remove_dead-Yields :
      (k : ℕ) (rows : List DeadRow) (c : Connection) (t : Tables)
      → c.tables ≡ t
      → t.dead_letter ≡ rows
      → IsAscending candidate_of_dead rows
      → Yields w
          (remove_dead w (report (take k (map candidate_of_dead rows))))
          c
          tt
          (record t { dead_letter = drop k rows })
  unfolding remove_dead report
  remove_dead-Yields zero rows c t at e s =
      Yields-pure w c _ (at ∙ (λ i. record t { dead_letter = e i })) _
  remove_dead-Yields (suc k) [] c t at e s =
      Yields-pure w c _ (at ∙ (λ i. record t { dead_letter = e i })) _
  remove_dead-Yields (suc k) (r ∷ rs) c t at e s =
      subst (Yields w (execute w _) c tt)
        ((λ i. record t {
          dead_letter =
              delete_through candidate_of_dead
                (last_of (candidate_of_dead r) (take k (map candidate_of_dead rs))).id (e i);
        })
          ∙ (λ i. record t { dead_letter = delete_through-drop candidate_of_dead r k rs s i }))
        (Yields-execute w c t at _)

  -- `evict_dead_letter` drops exactly the overdue rows of the dead letter table.
  pub evict_dead_letter-Yields :
      (c : Connection) (t : Tables)
      → c.tables ≡ t
      → IsAscending candidate_of_dead t.dead_letter
      → Yields w (evict_dead_letter w) c tt (dropped_dead t)
  unfolding evict_dead_letter dead_totals overdue_dead report
  evict_dead_letter-Yields c t at s =
      Yields-bind w (dead_totals w) _ c _ _ t _ (Yields-query w c t at _) λ c1 at1.
        elim (Bool-cases (
          leb (length t.dead_letter) dead_letter_max_rows
          && leb (total_bytes candidate_of_dead t.dead_letter) dead_letter_max_bytes)) [
            | inl fits ↦ rw fits (Yields-pure w c1 t at1 tt)
            | inr over ↦ rw over (
                Yields-bind w (plan_eviction w _ _ _ _ _) _ c1 _ _ t _
                  (plan_eviction-Yields w _ _ _ _ _ c1 t at1)
                  λ c2 at2. remove_dead-Yields _ t.dead_letter c2 t at2 refl s)
          ]

-- ===== src/Buffer/Evict/Bounds.antt =====
-- What an eviction leaves is inside the caps, with room for the record that reports it.
use nikki.Prelude.{
  ℕ, ◌+◌, ◌-◌, ◌≤◌, ◌≡◌, refl, ◌⊎◌, inl, inr, List, map, arith, leb, ◌&&◌, length, drop,
  length-drop, Bool-cases,
}
use nikki.Buffer.Sql.{PendingRow, DeadRow}
use nikki.Buffer.Evict.{
  Caps, candidate_of_pending, candidate_of_dead, total_bytes, overflow_headroom_bytes,
  dead_letter_max_rows, dead_letter_max_bytes, Candidate,
}
use nikki.Buffer.Evict.Prefix.{surplus, surplus_enough, surplus-le-length}
use nikki.Buffer.Evict.Rows.{total_bytes-drop, length-map, take_all}
use nikki.Buffer.Evict.Runs.{overdue, overdue_dead}

module _ {A : Type 0} (view : A → Candidate) (rt bt : ℕ) (rows : List A) where
  abbrev excess : ℕ
  excess = surplus rt bt (length rows) (total_bytes view rows) (map view rows)

  pub excess-le-length : excess ≤ length rows
  excess-le-length = rw (← length-map view rows) (surplus-le-length rt bt _ _ (map view rows))

  drop_all_fits :
      excess ≡ length rows
      → (length (drop excess rows) ≤ rt) × (total_bytes view (drop excess rows) ≤ bt)
  unfolding total_bytes
  drop_all_fits e = rw (take_all view excess rows e) (omega arith)

  -- The rows that the loop leaves are under both targets.
  pub excess_fits : (length (drop excess rows) ≤ rt) × (total_bytes view (drop excess rows) ≤ bt)
  excess_fits = elim (surplus_enough rt bt (length rows) (total_bytes view rows) (map view rows)) [
    | inl (few, small) ↦
        (omega (arith, length-drop excess rows), omega (arith, total_bytes-drop view excess rows))
    | inr e ↦ drop_all_fits (omega (arith, length-map view rows))
  ]

-- Either nothing is overdue and the table is inside its caps, or what stays leaves room for one more
-- row and for `overflow_headroom_bytes`.
pub overdue_bounds :
    (caps : Caps) (rows : List PendingRow)
    → 1 ≤ caps.max_rows
    → overflow_headroom_bytes ≤ caps.max_bytes
    → ((overdue caps rows ≡ 0)
        × (length rows ≤ caps.max_rows)
        × (total_bytes candidate_of_pending rows ≤ caps.max_bytes))
      ⊎ ((length (drop (overdue caps rows) rows) + 1 ≤ caps.max_rows)
          × (total_bytes candidate_of_pending (drop (overdue caps rows) rows)
                + overflow_headroom_bytes
              ≤ caps.max_bytes))
unfolding overdue
overdue_bounds caps rows hr hb =
    elim (Bool-cases (
      leb (length rows) caps.max_rows
      && leb (total_bytes candidate_of_pending rows) caps.max_bytes)) [
        | inl fits ↦ rw fits (inl (refl, ground arith, ground arith))
        | inr over ↦
            let (few, small) =
              excess_fits candidate_of_pending (caps.max_rows - 1)
                (caps.max_bytes - overflow_headroom_bytes) rows in
            rw over (inr (omega arith, omega arith))
      ]

-- The dead letter table is inside its caps after every eviction.
pub overdue_dead_bounds :
    (rows : List DeadRow)
    → (length (drop (overdue_dead rows) rows) ≤ dead_letter_max_rows)
      × (total_bytes candidate_of_dead (drop (overdue_dead rows) rows) ≤ dead_letter_max_bytes)
unfolding overdue_dead
overdue_dead_bounds rows =
    elim (Bool-cases (
      leb (length rows) dead_letter_max_rows
      && leb (total_bytes candidate_of_dead rows) dead_letter_max_bytes)) [
        | inl fits ↦ rw fits (ground arith, ground arith)
        | inr over ↦
            rw over (excess_fits candidate_of_dead dead_letter_max_rows dead_letter_max_bytes rows)
      ]

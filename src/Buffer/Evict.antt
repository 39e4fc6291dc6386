-- ===== src/Buffer/Evict.antt =====
-- src/runtime/buffer.rs: `totals`, `plan_eviction`, `evict_pending`, `evict_dead_letter` and the
-- statements that delete and number rows.
pub mod Bounds
pub mod Prefix
pub mod Runs
pub mod Rows
use nikki.Prelude.{
  ℕ, suc, ◌+◌, ◌-◌, ◌*◌, Bool, Option, none, some, List, [], ◌∷◌, map, Text, leb, ◌==◌, max, length,
  if◌then◌else◌, ◌&&◌,
}
use nikki.World.{World}
use nikki.Buffer.Sql.{Tx, Tables, PendingRow, DeadRow, ◌>>=◌, ◌>>◌, pure, call, query, execute}

abbrev pub dead_letter_max_rows : ℕ
dead_letter_max_rows = 5000

abbrev pub dead_letter_max_bytes : ℕ
dead_letter_max_bytes = 50 * 1024 * 1024

abbrev pub overflow_headroom_bytes : ℕ
overflow_headroom_bytes = 512

pub record Caps : Type 0 where
  pub max_rows : ℕ
  pub max_bytes : ℕ

pub record Evicted : Type 0 where
  pub dropped : ℕ
  pub dropped_from : Text
  pub dropped_to : Text

-- A row of the query that an eviction reads: `id`, `bytes`, and `created_at` or `at`.
pub record Candidate : Type 0 where
  pub id : ℕ
  pub size : ℕ
  pub at : Text

-- The variables of the loop in `plan_eviction`.
pub record Plan : Type 0 where
  pub rows : ℕ
  pub bytes : ℕ
  pub cutoff : Option ℕ
  pub dropped : ℕ
  pub dropped_from : Option Text
  pub dropped_to : Option Text

unfoldable pub candidate_of_pending : PendingRow → Candidate
candidate_of_pending r = record { id = r.id; size = r.bytes; at = r.created_at }

unfoldable pub candidate_of_dead : DeadRow → Candidate
candidate_of_dead r = record { id = r.id; size = r.bytes; at = r.at }

module _ {A : Type 0} (view : A → Candidate) where
  -- `SELECT COUNT(*), COALESCE(SUM(bytes), 0)`
  unfoldable pub total_bytes : List A → ℕ
  total_bytes [] = 0
  total_bytes (r ∷ rs) = (view r).size + total_bytes rs

  -- `DELETE ... WHERE id <= ?1`
  unfoldable pub delete_through : ℕ → List A → List A
  delete_through cutoff [] = []
  delete_through cutoff (r ∷ rs) =
      if leb (view r).id cutoff then delete_through cutoff rs else r ∷ delete_through cutoff rs

  -- `DELETE ... WHERE id = ?1`
  unfoldable pub delete_id : ℕ → List A → List A
  delete_id id [] = []
  delete_id id (r ∷ rs) = if (view r).id == id then delete_id id rs else r ∷ delete_id id rs

  unfoldable pub greatest_id : List A → ℕ
  greatest_id [] = 0
  greatest_id (r ∷ rs) = max (view r).id (greatest_id rs)

  -- The id of an inserted row: `INTEGER PRIMARY KEY` without `AUTOINCREMENT` is one above the greatest
  -- in the table.
  unfoldable pub next_id : List A → ℕ
  next_id rs = suc (greatest_id rs)

abbrev pub or_else : Option Text → Text → Option Text
or_else none s = some s
or_else (some t) s = some t

within : ℕ → ℕ → Plan → Bool
within row_target byte_target p = leb p.rows row_target && leb p.bytes byte_target

-- The body of the loop, after a row is read.
pub drop_one : Candidate → Plan → Plan
drop_one c p = record {
  rows = p.rows - 1;
  bytes = p.bytes - c.size;
  cutoff = some c.id;
  dropped = p.dropped + 1;
  dropped_from = or_else p.dropped_from c.at;
  dropped_to = some c.at;
}

abbrev pub start : ℕ → ℕ → Plan
start rows bytes = record {
  rows = rows;
  bytes = bytes;
  cutoff = none;
  dropped = 0;
  dropped_from = none;
  dropped_to = none;
}

pub conclude : Option ℕ → Option Text → Option Text → ℕ → Option (ℕ × Evicted)
conclude (some cutoff) (some from) (some to) dropped =
    some (cutoff, record { dropped = dropped; dropped_from = from; dropped_to = to })
conclude cutoff from to dropped = none

module _ (w : World) where
  pub plan_loop : ℕ → ℕ → List Candidate → Plan → Tx Plan
  unfolding within
  plan_loop row_target byte_target [] p =
      if within row_target byte_target p then pure p else (do call w; pure p)
  plan_loop row_target byte_target (c ∷ cs) p =
      let rest = (do call w; plan_loop row_target byte_target cs (drop_one c p)) in
      if within row_target byte_target p then pure p else rest

  plan_eviction : (Tables → List Candidate) → ℕ → ℕ → ℕ → ℕ → Tx (Option (ℕ × Evicted))
  unfolding plan_loop conclude drop_one
  plan_eviction read rows bytes row_target byte_target = do
    call w
    candidates ← query w read
    p ← plan_loop row_target byte_target candidates (start rows bytes)
    pure (conclude p.cutoff p.dropped_from p.dropped_to p.dropped)

  abbrev pending_candidates : Tables → List Candidate
  pending_candidates t = map candidate_of_pending t.pending

  abbrev dead_candidates : Tables → List Candidate
  dead_candidates t = map candidate_of_dead t.dead_letter

  pending_totals : Tx (ℕ × ℕ)
  pending_totals = query w λ t. (length t.pending, total_bytes candidate_of_pending t.pending)

  dead_totals : Tx (ℕ × ℕ)
  dead_totals = query w λ t. (length t.dead_letter, total_bytes candidate_of_dead t.dead_letter)

  remove_pending : Option (ℕ × Evicted) → Tx (Option Evicted)
  remove_pending none = pure none
  remove_pending (some (cutoff, evicted)) = do
    execute w (λ t. record t { pending = delete_through candidate_of_pending cutoff t.pending })
    pure (some evicted)

  unfoldable pub evict_pending : Caps → Tx (Option Evicted)
  unfolding pending_totals plan_eviction remove_pending
  evict_pending caps = do
    (rows, bytes) ← pending_totals
    if leb rows caps.max_rows && leb bytes caps.max_bytes then pure none else (do
      planned ←
          plan_eviction pending_candidates rows bytes (caps.max_rows - 1)
            (caps.max_bytes - overflow_headroom_bytes)
      remove_pending planned)

  remove_dead : Option (ℕ × Evicted) → Tx (Unit {0})
  remove_dead none = pure tt
  remove_dead (some (cutoff, evicted)) =
      execute w
        (λ t. record t { dead_letter = delete_through candidate_of_dead cutoff t.dead_letter })

  unfoldable pub evict_dead_letter : Tx (Unit {0})
  unfolding dead_totals plan_eviction remove_dead
  evict_dead_letter = do
    (rows, bytes) ← dead_totals
    if leb rows dead_letter_max_rows && leb bytes dead_letter_max_bytes then pure tt else (do
      planned ← plan_eviction dead_candidates rows bytes dead_letter_max_rows dead_letter_max_bytes
      remove_dead planned)

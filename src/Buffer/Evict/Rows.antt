-- ===== src/Buffer/Evict/Rows.antt =====
-- Rows in the order of their ids: insertion keeps the order, and deleting up to an id is dropping a
-- prefix.
use nikki.Prelude.{
  true, false, ℕ, zero, suc, ◌+◌, ◌≤◌, ◌<◌, ◌≡◌, refl, ap, List, [], ◌∷◌, ◌++◌, map, arith, ◌==◌,
  if◌then◌else◌, All, All-append, All-mono, length, take, drop,
}
use nikki.Buffer.Evict.{Candidate, total_bytes, delete_through, delete_id, greatest_id, next_id}
use nikki.Buffer.Evict.Prefix.{last_of, whole}

module _ {A : Type 0} (view : A → Candidate) where
  -- Every id is above the bound.
  abbrev pub AllAbove : ℕ → List A → Type 0
  AllAbove n = All (λ r. n < (view r).id)

  abbrev pub AllBelow : ℕ → List A → Type 0
  AllBelow n = All (λ r. (view r).id < n)

  -- The ids go up strictly.
  abbrev pub IsAscending : List A → Type 0
  IsAscending [] = Unit
  IsAscending (r ∷ rs) = AllAbove (view r).id rs × IsAscending rs

  pub IsAscending-drop : (k : ℕ) (rs : List A) → IsAscending rs → IsAscending (drop k rs)
  IsAscending-drop zero rs h = h
  IsAscending-drop (suc k) [] h = tt
  IsAscending-drop (suc k) (r ∷ rs) h = IsAscending-drop k rs h.1

  pub AllBelow-next_id : (rs : List A) → AllBelow (next_id view rs) rs
  unfolding next_id greatest_id
  AllBelow-next_id [] = tt
  AllBelow-next_id (r ∷ rs) =
      (omega arith, All-mono _ _ (λ x h. omega arith) rs (AllBelow-next_id rs))

  IsAscending-snoc :
      (rs : List A) (x : A) → AllBelow (view x).id rs → IsAscending rs → IsAscending (rs ++ x ∷ [])
  IsAscending-snoc [] x b h = (tt, tt)
  IsAscending-snoc (r ∷ rs) x b h =
      (All-append _ rs (x ∷ []) h.0 (b.0, tt), IsAscending-snoc rs x b.1 h.1)

  -- A row inserted under the next id goes to the end, and the order is kept.
  pub IsAscending-insert :
      (rs : List A) (x : A)
      → (view x).id ≡ next_id view rs
      → IsAscending rs
      → IsAscending (rs ++ x ∷ [])
  IsAscending-insert rs x e h = IsAscending-snoc rs x (rw e (AllBelow-next_id rs)) h

  AllAbove-delete_id : (n id : ℕ) (rs : List A) → AllAbove n rs → AllAbove n (delete_id view id rs)
  unfolding delete_id
  AllAbove-delete_id n id [] h = tt
  AllAbove-delete_id n id (r ∷ rs) h =
      elim ((view r).id == id)
        as (λ b. AllAbove n (if b then delete_id view id rs else r ∷ delete_id view id rs)) [
          | true ↦ AllAbove-delete_id n id rs h.1
          | false ↦ (h.0, AllAbove-delete_id n id rs h.1)
        ]

  pub IsAscending-delete_id :
      (id : ℕ) (rs : List A) → IsAscending rs → IsAscending (delete_id view id rs)
  unfolding delete_id
  IsAscending-delete_id id [] h = tt
  IsAscending-delete_id id (r ∷ rs) h =
      elim ((view r).id == id)
        as (λ b. IsAscending (if b then delete_id view id rs else r ∷ delete_id view id rs)) [
          | true ↦ IsAscending-delete_id id rs h.1
          | false ↦ (AllAbove-delete_id (view r).id id rs h.0, IsAscending-delete_id id rs h.1)
        ]

  delete_through_above : (n : ℕ) (rs : List A) → AllAbove n rs → delete_through view n rs ≡ rs
  unfolding delete_through
  delete_through_above n [] h = refl
  delete_through_above n (r ∷ rs) h = ground (arith, delete_through_above n rs h.1)

  last_of_lower :
      (c : A) (k : ℕ) (rs : List A)
      → AllAbove (view c).id rs
      → IsAscending rs
      → (view c).id ≤ (last_of (view c) (take k (map view rs))).id
  unfolding last_of
  last_of_lower c zero rs h s = omega arith
  last_of_lower c (suc k) [] h s = omega arith
  last_of_lower c (suc k) (r ∷ rs) h s = omega (arith, last_of_lower r k rs s.0 s.1)

  -- Deleting up to the id of the last row of a prefix leaves what follows the prefix.
  pub delete_through-drop :
      (c : A) (k : ℕ) (rs : List A)
      → IsAscending (c ∷ rs)
      → delete_through view (last_of (view c) (take k (map view rs))).id (c ∷ rs) ≡ drop k rs
  unfolding delete_through last_of
  delete_through-drop c zero rs h = ground (arith, delete_through_above (view c).id rs h.0)
  delete_through-drop c (suc k) [] h = ground arith
  delete_through-drop c (suc k) (r ∷ rs) h =
      ground (arith, last_of_lower r k rs h.1.0 h.1.1, delete_through-drop r k rs h.1)

  pub total_bytes-map : (rs : List A) → total_bytes whole (map view rs) ≡ total_bytes view rs
  unfolding total_bytes
  total_bytes-map [] = refl
  total_bytes-map (r ∷ rs) = omega (arith, total_bytes-map rs)

  pub total_bytes-append :
      (rs ss : List A) → total_bytes view (rs ++ ss) ≡ total_bytes view rs + total_bytes view ss
  unfolding total_bytes
  total_bytes-append [] ss = omega arith
  total_bytes-append (r ∷ rs) ss = omega (arith, total_bytes-append rs ss)

  pub total_bytes-drop :
      (k : ℕ) (rs : List A)
      → total_bytes whole (take k (map view rs)) + total_bytes view (drop k rs)
        ≡ total_bytes view rs
  unfolding total_bytes
  total_bytes-drop zero rs = omega arith
  total_bytes-drop (suc k) [] = omega arith
  total_bytes-drop (suc k) (r ∷ rs) = omega (arith, total_bytes-drop k rs)

  pub length-map : (rs : List A) → length (map view rs) ≡ length rs
  length-map [] = refl
  length-map (r ∷ rs) = ap suc (length-map rs)

  pub take_all : (k : ℕ) (rs : List A) → k ≡ length rs → drop k rs ≡ []
  take_all zero [] e = refl
  take_all zero (r ∷ rs) e = absurd (omega arith)
  take_all (suc k) [] e = absurd (omega arith)
  take_all (suc k) (r ∷ rs) e = take_all k rs (omega arith)

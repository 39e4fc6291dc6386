-- ===== src/Buffer/Evict/Prefix.antt =====
-- What an eviction drops: the shortest prefix that brings the rows and the bytes under the targets.
use nikki.Prelude.{
  ℕ, zero, suc, ◌+◌, ◌-◌, ◌≤◌, ◌<◌, ◌≡◌, refl, ◌∙◌, ◌⊎◌, inl, inr, Option, none, some, List, [],
  ◌∷◌, arith, Text, leb, if◌then◌else◌, ◌&&◌, length, take, Bool-cases,
}
use nikki.Buffer.Evict.{
  Candidate, Plan, Evicted, within, drop_one, start, conclude, or_else, total_bytes,
}

abbrev pub whole : Candidate → Candidate
whole c = c

-- How many candidates the loop drops.
unfoldable pub surplus : ℕ → ℕ → ℕ → ℕ → List Candidate → ℕ
surplus row_target byte_target rows bytes [] = 0
surplus row_target byte_target rows bytes (c ∷ cs) =
    if leb rows row_target && leb bytes byte_target
    then 0
    else suc (surplus row_target byte_target (rows - 1) (bytes - c.size) cs)

pub surplus-le-length :
    (rt bt rows bytes : ℕ) (cs : List Candidate) → surplus rt bt rows bytes cs ≤ length cs
unfolding surplus
surplus-le-length rt bt rows bytes [] = omega arith
surplus-le-length rt bt rows bytes (c ∷ cs) =
    ground (arith, surplus-le-length rt bt (rows - 1) (bytes - c.size) cs)

-- What is left is under both targets, or everything is dropped.
pub surplus_enough :
    (rt bt rows bytes : ℕ) (cs : List Candidate)
    → ((rows - surplus rt bt rows bytes cs ≤ rt)
        × (bytes - total_bytes whole (take (surplus rt bt rows bytes cs) cs) ≤ bt))
      ⊎ (surplus rt bt rows bytes cs ≡ length cs)
unfolding surplus total_bytes
surplus_enough rt bt rows bytes [] = inr refl
surplus_enough rt bt rows bytes (c ∷ cs) = elim (Bool-cases (leb rows rt && leb bytes bt)) [
  | inl fits ↦ rw fits (inl (ground arith, ground arith))
  | inr over ↦ rw over (ground (arith, surplus_enough rt bt (rows - 1) (bytes - c.size) cs))
]

-- Nothing shorter would do.
pub surplus_least :
    (rt bt rows bytes : ℕ) (cs : List Candidate) (k : ℕ)
    → k < surplus rt bt rows bytes cs
    → (rt < rows - k) ⊎ (bt < bytes - total_bytes whole (take k cs))
unfolding surplus total_bytes
surplus_least rt bt rows bytes [] k h = elim h [ ]
surplus_least rt bt rows bytes (c ∷ cs) zero h = ground arith
surplus_least rt bt rows bytes (c ∷ cs) (suc k) h =
    elim (Bool-cases (leb rows rt && leb bytes bt)) [
      | inl fits ↦ absurd (ground arith)
      | inr over ↦ ground (arith, surplus_least rt bt (rows - 1) (bytes - c.size) cs k)
    ]

unfoldable pub last_of : Candidate → List Candidate → Candidate
last_of c [] = c
last_of c (d ∷ ds) = last_of d ds

-- The loop after it has dropped the candidates of a list.
pub dropped_all : List Candidate → Plan → Plan
dropped_all [] p = p
dropped_all (c ∷ cs) p = dropped_all cs (drop_one c p)

-- The value of the loop.
unfoldable pub planned : ℕ → ℕ → List Candidate → Plan → Plan
unfolding within
planned rt bt [] p = p
planned rt bt (c ∷ cs) p = if within rt bt p then p else planned rt bt cs (drop_one c p)

pub planned-eq-dropped_all :
    (rt bt : ℕ) (cs : List Candidate) (p : Plan)
    → planned rt bt cs p ≡ dropped_all (take (surplus rt bt p.rows p.bytes cs) cs) p
unfolding planned dropped_all surplus drop_one
planned-eq-dropped_all rt bt [] p = refl
planned-eq-dropped_all rt bt (c ∷ cs) p = elim (Bool-cases (leb p.rows rt && leb p.bytes bt)) [
  | inl fits ↦ rw fits
  | inr over ↦ rw over (planned-eq-dropped_all rt bt cs (drop_one c p))
]

-- What the dropped prefix says of itself.
dropped_all_fields :
    (c : Candidate) (cs : List Candidate) (p : Plan)
    → ((dropped_all (c ∷ cs) p).cutoff ≡ some (last_of c cs).id)
      × ((dropped_all (c ∷ cs) p).dropped ≡ p.dropped + suc (length cs))
      × ((dropped_all (c ∷ cs) p).dropped_from ≡ or_else p.dropped_from c.at)
      × ((dropped_all (c ∷ cs) p).dropped_to ≡ some (last_of c cs).at)
unfolding dropped_all drop_one last_of
dropped_all_fields c [] p = (refl, omega arith, refl, refl)
dropped_all_fields c (d ∷ ds) p =
    let (a, b, f, t) = dropped_all_fields d ds (drop_one c p) in
    (a, omega arith, f ∙ or_else_twice p.dropped_from c.at d.at, t)
  where
    or_else_twice : (o : Option Text) (s u : Text) → or_else (or_else o s) u ≡ or_else o s
    or_else_twice none s u = refl
    or_else_twice (some r) s u = refl

-- `rows -= 1` never runs below zero: there are at least as many rows as candidates.
pub dropped_all-rows :
    (cs : List Candidate) (p : Plan)
    → length cs ≤ p.rows
    → (dropped_all cs p).rows + length cs ≡ p.rows
unfolding dropped_all drop_one
dropped_all-rows [] p h = omega arith
dropped_all-rows (c ∷ cs) p h = omega (arith, dropped_all-rows cs (drop_one c p))

-- The report on a dropped prefix, none if it is empty.
unfoldable pub report : List Candidate → Option (ℕ × Evicted)
report [] = none
report (c ∷ cs) = some (
  (last_of c cs).id,
  record { dropped = suc (length cs); dropped_from = c.at; dropped_to = (last_of c cs).at },
)

pub conclude-report :
    (cs : List Candidate) (rows bytes : ℕ)
    → (let p = dropped_all cs (start rows bytes) in
        conclude p.cutoff p.dropped_from p.dropped_to p.dropped)
      ≡ report cs
unfolding conclude report dropped_all
conclude-report [] rows bytes = refl
conclude-report (c ∷ cs) rows bytes =
    let (a, b, f, t) = dropped_all_fields c cs (start rows bytes) in
    unfold dropped_all in ground (arith, a, b, f, t)

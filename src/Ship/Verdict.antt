-- ===== src/Ship/Verdict.antt =====
-- src/runtime/ship.rs: which answers delete a batch, which bury it, and how the retries are paced.
use nikki.Prelude.{
  ℕ, suc, ◌+◌, ◌-◌, ◌*◌, ◌^◌, Option, length, ◌≤◌, ◌<◌, ◌≡◌, ◌≢◌, ◌↔◌, refl, ap, ◌∙◌, none, some,
  List, [], ◌∷◌, ◌++◌, map, Text, arith, All, min,
}
use native.Mathlib.Omega.{pow_step}
use nikki.Ship.{
  ServiceResponse, Rejection, rejections_of, saturating_add, Answer, response, transport_error,
  Disposition, delete, dead_letters, Progress, idle, shipped, kept, dead_lettered, shrunk,
  disposition_of, decide, decide_accepted, counted, pace, pauses,
}

abbrev pub rejected_in : Option (List Rejection) → ℕ
rejected_in none = 0
rejected_in (some rs) = length rs

-- How many records a body accounts for: those accepted, the duplicates and the rejected ones, as far as 64
-- bits go.
abbrev pub accounted : ServiceResponse → ℕ
accounted r = min (r.accepted + r.duplicates + rejected_in r.rejected) (2 ^ 64 - 1)

counted_lem : (r : ServiceResponse) → counted r ≡ accounted r
unfolding counted saturating_add
counted_lem r = sums r.accepted r.duplicates r.rejected
  where
    sums :
        (a d : ℕ) (o : Option (List Rejection))
        → min (min (a + d) (2 ^ 64 - 1) + length (rejections_of o)) (2 ^ 64 - 1)
          ≡ min (a + d + rejected_in o) (2 ^ 64 - 1)
    sums a d none = omega arith
    sums a d (some rs) = omega arith

-- The answer accounts for the batch: a 200 whose body adds up to it.
abbrev pub AccountsFor : Answer → ℕ → Type 0
AccountsFor (response status none) n = ⊥
AccountsFor (response status (some r)) n = (status ≡ 200) × (accounted r ≡ n)
AccountsFor (transport_error e) n = ⊥

abbrev pub IsDelete : Disposition → Type 0
IsDelete (delete rejections) = Unit
IsDelete _ = ⊥

abbrev pub IsBurial : Disposition → Type 0
IsBurial (dead_letters reason) = Unit
IsBurial _ = ⊥

-- The statuses that reject a batch for good.
abbrev pub IsPermanent : ℕ → Type 0
IsPermanent s =
    (400 ≤ s)
    × (s < 500)
    × All (λ k. s ≢ k) (401 ∷ 403 ∷ 404 ∷ 405 ∷ 407 ∷ 408 ∷ 425 ∷ 429 ∷ 413 ∷ [])

abbrev pub HasStatus : (ℕ → Type 0) → Answer → Type 0
HasStatus P (response status body) = P status
HasStatus P (transport_error e) = ⊥

pub IsDelete-AccountsFor : (a : Answer) (n : ℕ) → IsDelete (disposition_of a n) → AccountsFor a n
unfolding disposition_of decide decide_accepted
IsDelete-AccountsFor (response status none) n h = ground arith
IsDelete-AccountsFor (response status (some r)) n h = ground (arith, counted_lem r)
IsDelete-AccountsFor (transport_error e) n h = h

pub AccountsFor-IsDelete : (a : Answer) (n : ℕ) → AccountsFor a n → IsDelete (disposition_of a n)
unfolding disposition_of decide decide_accepted
AccountsFor-IsDelete (response status none) n h = absurd h
AccountsFor-IsDelete (response status (some r)) n h = ground (arith, counted_lem r)
AccountsFor-IsDelete (transport_error e) n h = h

pub IsBurial-IsPermanent :
    (a : Answer) (n : ℕ) → IsBurial (disposition_of a n) → HasStatus IsPermanent a
unfolding disposition_of decide decide_accepted
IsBurial-IsPermanent (response status none) n h = ground arith
IsBurial-IsPermanent (response status (some r)) n h = ground arith
IsBurial-IsPermanent (transport_error e) n h = h

IsPermanent-IsBurial :
    (a : Answer) (n : ℕ) → HasStatus IsPermanent a → IsBurial (disposition_of a n)
unfolding disposition_of decide decide_accepted
IsPermanent-IsBurial (response status none) n h = ground arith
IsPermanent-IsBurial (response status (some r)) n h = ground arith
IsPermanent-IsBurial (transport_error e) n h = h

-- The disposition of an answer to a batch of `n` records deletes the batch exactly when the answer
-- is a 200 whose body accounts for `n` records, and buries it exactly when the answer has a status
-- from 400 to 499 that is none of the statuses of a configuration failure, of a retry or of a batch
-- that is too large.
pub disposition-safe :
    (a : Answer) (n : ℕ)
    → (IsDelete (disposition_of a n) ↔ AccountsFor a n)
      × (IsBurial (disposition_of a n) ↔ HasStatus IsPermanent a)
disposition-safe a n = (
  (IsDelete-AccountsFor a n, AccountsFor-IsDelete a n),
  (IsBurial-IsPermanent a n, IsPermanent-IsBurial a n),
)

-- A progress after which the backoff starts again.
abbrev pub IsReset : Progress → Type 0
IsReset (shipped count) = Unit
IsReset (dead_lettered count) = Unit
IsReset (shrunk size) = Unit
IsReset _ = ⊥

-- The pauses of consecutive failures, the first of them the one numbered `i`.
abbrev pub doublings : ℕ → List Text → List ℕ
doublings i [] = []
doublings i (reason ∷ reasons) = min (1000 * 2 ^ i) 300000 ∷ doublings (suc i) reasons

abbrev pub failures : List Text → List Progress
failures = map kept

capped_double :
    (i : ℕ) → min (min (1000 * 2 ^ i) 300000 * 2) 300000 ≡ min (1000 * 2 ^ (suc i)) 300000
capped_double i = omega (arith, pow_step 2 i)

pauses-failures :
    (i : ℕ) (reasons : List Text)
    → pauses (failures reasons) (min (1000 * 2 ^ i) 300000) ≡ doublings i reasons
unfolding pauses pace
pauses-failures i [] = refl
pauses-failures i (reason ∷ reasons) =
    ap (◌∷◌ (min (1000 * 2 ^ i) 300000))
      (ap (pauses (failures reasons)) (capped_double i) ∙ pauses-failures (suc i) reasons)

pauses-after :
    (ps : List Progress) (p : Progress) (reasons : List Text) (b : ℕ)
    → IsReset p
    → pauses (ps ++ p ∷ failures reasons) b ≡ pauses ps b ++ 0 ∷ doublings 0 reasons
unfolding pauses pace
pauses-after [] (shipped n) reasons b h = ap (◌∷◌ 0) (pauses-failures 0 reasons)
pauses-after [] (dead_lettered n) reasons b h = ap (◌∷◌ 0) (pauses-failures 0 reasons)
pauses-after [] (shrunk n) reasons b h = ap (◌∷◌ 0) (pauses-failures 0 reasons)
pauses-after [] idle reasons b h = absurd h
pauses-after [] (kept r) reasons b h = absurd h
pauses-after (q ∷ ps) p reasons b h =
    ap (◌∷◌ (pace q b).0) (pauses-after ps p reasons (pace q b).1 h)

pauses-bounded : (ps : List Progress) (b : ℕ) → b ≤ 300000 → All (λ p. p ≤ 300000) (pauses ps b)
unfolding pauses pace
pauses-bounded [] b h = tt
pauses-bounded (idle ∷ ps) b h = (omega arith, pauses-bounded ps b h)
pauses-bounded (kept r ∷ ps) b h = (h, pauses-bounded ps (min (b * 2) 300000) (omega arith))
pauses-bounded (shipped n ∷ ps) b h = (omega arith, pauses-bounded ps 1000 (omega arith))
pauses-bounded (dead_lettered n ∷ ps) b h = (omega arith, pauses-bounded ps 1000 (omega arith))
pauses-bounded (shrunk n ∷ ps) b h = (omega arith, pauses-bounded ps 1000 (omega arith))

-- From a backoff that is at most five minutes, every pause of a run is at most five minutes; and
-- after a shipment that delivered, buried or shrank the batch, the failures that follow pause for
-- one second, twice that, twice that again, up to five minutes.
pub pauses-double :
    (ps : List Progress) (p : Progress) (reasons : List Text) (b : ℕ)
    → b ≤ 300000
    → IsReset p
    → All (λ pause. pause ≤ 300000) (pauses (ps ++ p ∷ failures reasons) b)
      × (pauses (ps ++ p ∷ failures reasons) b ≡ pauses ps b ++ 0 ∷ doublings 0 reasons)
pauses-double ps p reasons b h reset =
    (pauses-bounded (ps ++ p ∷ failures reasons) b h, pauses-after ps p reasons b reset)

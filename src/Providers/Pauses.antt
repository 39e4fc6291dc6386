-- ===== src/Providers/Pauses.antt =====
-- src/providers/mod.rs: how often `supervise` restarts a provider, and what it sleeps before.
use nikki.Prelude.{
  ℕ, zero, suc, ◌*◌, ◌^◌, ◌≡◌, refl, ap, ◌∙◌, Bool, true, false, List, [], ◌∷◌, min, arith,
}
use nikki.Providers.{
  AttemptEnd, finished, attempt_failed, cancelled, panicked, Backoff, supervise_from, slept,
  supervise,
}

-- The attempts that ask for another, which come before the first that does not.
abbrev pub restarts : List AttemptEnd → ℕ
restarts [] = 0
restarts (finished ∷ ends) = 0
restarts (cancelled ∷ ends) = 0
restarts (attempt_failed ∷ ends) = suc (restarts ends)
restarts (panicked ∷ ends) = suc (restarts ends)

-- An attempt that asks for no other is among them.
abbrev pub ends_well : List AttemptEnd → Bool
ends_well [] = false
ends_well (finished ∷ ends) = true
ends_well (cancelled ∷ ends) = true
ends_well (attempt_failed ∷ ends) = ends_well ends
ends_well (panicked ∷ ends) = ends_well ends

-- n pauses from the k-th on, each the start doubled as often as there were pauses before it, and at
-- most the ceiling.
abbrev pub doubled : ℕ → ℕ → ℕ → ℕ → List ℕ
doubled ceiling pause k zero = []
doubled ceiling pause k (suc n) = min (pause * 2 ^ k) ceiling ∷ doubled ceiling pause (suc k) n

-- The first is the start itself, even above the ceiling.
abbrev pub pauses_of : Backoff → ℕ → List ℕ
pauses_of backoff zero = []
pauses_of backoff (suc n) = backoff.start ∷ doubled backoff.ceiling backoff.start 1 n

step : (c p n : ℕ) → min (min (p * n) c * 2) c ≡ min (p * (n * 2)) c
step c p n = grind (arith)

doubles : (c p k : ℕ) → min (min (p * 2 ^ k) c * 2) c ≡ min (p * 2 ^ suc k) c
doubles c p k = step c p (2 ^ k) ∙ ap (λ n. min (p * n) c) (grind (arith))

supervise_from-pauses :
    (c p k : ℕ) (ends : List AttemptEnd)
    → (supervise_from c (min (p * 2 ^ k) c) ends).pauses ≡ doubled c p k (restarts ends)
unfolding supervise_from slept
supervise_from-pauses c p k [] = refl
supervise_from-pauses c p k (finished ∷ ends) = refl
supervise_from-pauses c p k (cancelled ∷ ends) = refl
supervise_from-pauses c p k (attempt_failed ∷ ends) = ap (◌∷◌ (min (p * 2 ^ k) c)) (
    ap (λ pause. (supervise_from c pause ends).pauses) (doubles c p k)
    ∙ supervise_from-pauses c p (suc k) ends)
supervise_from-pauses c p k (panicked ∷ ends) = ap (◌∷◌ (min (p * 2 ^ k) c)) (
    ap (λ pause. (supervise_from c pause ends).pauses) (doubles c p k)
    ∙ supervise_from-pauses c p (suc k) ends)

once : (p : ℕ) → p * 2 ≡ p * 2 ^ 1
once p = omega arith

after_first :
    (backoff : Backoff) (ends : List AttemptEnd)
    → backoff.start
        ∷ (supervise_from backoff.ceiling (min (backoff.start * 2) backoff.ceiling) ends).pauses
      ≡ pauses_of backoff (suc (restarts ends))
after_first backoff ends = ap (◌∷◌ backoff.start) (
    ap (λ p. (supervise_from backoff.ceiling (min p backoff.ceiling) ends).pauses)
      (once backoff.start)
    ∙ supervise_from-pauses backoff.ceiling backoff.start 1 ends)

supervise-pauses :
    (backoff : Backoff) (ends : List AttemptEnd)
    → (supervise backoff ends).pauses ≡ pauses_of backoff (restarts ends)
unfolding supervise supervise_from slept
supervise-pauses backoff [] = refl
supervise-pauses backoff (finished ∷ ends) = refl
supervise-pauses backoff (cancelled ∷ ends) = refl
supervise-pauses backoff (attempt_failed ∷ ends) = after_first backoff ends
supervise-pauses backoff (panicked ∷ ends) = after_first backoff ends

supervise_from-returned :
    (c p : ℕ) (ends : List AttemptEnd) → (supervise_from c p ends).returned ≡ ends_well ends
unfolding supervise_from slept
supervise_from-returned c p [] = refl
supervise_from-returned c p (finished ∷ ends) = refl
supervise_from-returned c p (cancelled ∷ ends) = refl
supervise_from-returned c p (attempt_failed ∷ ends) = supervise_from-returned c (min (p * 2) c) ends
supervise_from-returned c p (panicked ∷ ends) = supervise_from-returned c (min (p * 2) c) ends

-- A supervised provider is restarted after each attempt that fails or panics, until the first that
-- finishes or is cancelled, and never after that one. Before its n-th restart the supervision sleeps the
-- start of the backoff doubled n - 1 times, but from the second restart on never more than the ceiling.
pub supervise_lem :
    (backoff : Backoff) (ends : List AttemptEnd)
    → ((supervise backoff ends).pauses ≡ pauses_of backoff (restarts ends))
      × ((supervise backoff ends).returned ≡ ends_well ends)
unfolding supervise
supervise_lem backoff ends =
    (supervise-pauses backoff ends, supervise_from-returned backoff.ceiling backoff.start ends)

-- ===== src/Frontmost/Ordinary.antt =====
-- src/macos/window_list.rs: what an application that counts as in front is like.
use nikki.Prelude.{
  ◌≡◌, ◌⊎◌, refl, subst, inl, inr, Bool, true, false, not, Option, none, some, List, [], ◌∷◌, ℤ,
  ◌&&◌, Bool-cases, Option-cases,
}
use nikki.Visibility.{Floats, WindowEntry, is_zero}
use nikki.Windows.{RunningApplication}
use nikki.Windows.Samples.{is_lock_screen}
use nikki.Frontmost.{
  is_application, owns_ordinary_window, known_or_owner, focused_of, suits, first_suitable,
  frontmost_of,
}

module _ (f : Floats) (application_of : ℤ → Option RunningApplication) where
  -- The application of an ordinary window, as the system knows it.
  abbrev pub OwnsOne : RunningApplication → List (WindowEntry f) → Type 0
  OwnsOne a [] = ⊥
  OwnsOne a (w ∷ ws) =
      ((is_zero f w.layer ≡ true) × (application_of w.owner_pid ≡ some a)) ⊎ OwnsOne a ws

  abbrev pub IsInFront : Option ℤ → List (WindowEntry f) → RunningApplication → Type 0
  IsInFront focused windows a =
      (is_lock_screen a ≡ false)
      × (((pid : ℤ) × (focused ≡ some pid)
            × ((application_of pid ≡ some a)
                ⊎ ((application_of pid ≡ none)
                    × (owns_ordinary_window f windows pid ≡ true)
                    × (a.pid ≡ pid))))
          ⊎ ((is_application a ≡ true) × OwnsOne a windows))

  -- What is found in front: nothing, or an application in front.
  abbrev pub InFront : Option ℤ → List (WindowEntry f) → Option RunningApplication → Type 0
  InFront focused windows none = Unit
  InFront focused windows (some a) = IsInFront focused windows a

  Suitable : List (WindowEntry f) → Option RunningApplication → Type 0
  Suitable windows none = Unit
  Suitable windows (some a) =
      (is_lock_screen a ≡ false) × ((is_application a ≡ true) × OwnsOne a windows)

  suits_lem :
      (a : RunningApplication)
      → suits f application_of a ≡ true
      → (is_application a ≡ true) × (is_lock_screen a ≡ false)
  unfolding suits
  suits_lem a h = both (is_application a) (is_lock_screen a) h
    where
      both : (b c : Bool) → (b && not c) ≡ true → (b ≡ true) × (c ≡ false)
      both true true h = absurd (cc)
      both true false h = (refl, refl)
      both false c h = absurd (cc)

  Suitable-more :
      (w : WindowEntry f) (ws : List (WindowEntry f)) (o : Option RunningApplication)
      → Suitable ws o
      → Suitable (w ∷ ws) o
  unfolding Suitable
  Suitable-more w ws none h = tt
  Suitable-more w ws (some a) (locked, (application, owns)) = (locked, (application, inr owns))

  first_suitable-Suitable :
      (ws : List (WindowEntry f)) → Suitable ws (first_suitable f application_of ws)
  unfolding first_suitable Suitable
  first_suitable-Suitable [] = tt
  first_suitable-Suitable (w ∷ ws) =
      let rest = Suitable-more w ws _ (first_suitable-Suitable ws) in
      elim (Bool-cases (is_zero f w.layer)) [
        | inr other ↦ rw (first_suitable, other) rest
        | inl ordinary ↦ elim (Option-cases (application_of w.owner_pid)) [
          | inl unknown ↦ rw (first_suitable, ordinary, unknown) rest
          | inr (a, known) ↦ elim (Bool-cases (suits f application_of a)) [
            | inl good ↦
                let (application, locked) = suits_lem a good in
                rw (first_suitable, ordinary, known, good)
                  (locked, (application, inl (ordinary, known)))
            | inr bad ↦ rw (first_suitable, ordinary, known, bad) rest
          ]
        ]
      ]

  known_or_owner-InFront :
      (windows : List (WindowEntry f)) (pid : ℤ) (known : Option RunningApplication)
      → application_of pid ≡ known
      → InFront (some pid) windows (known_or_owner f application_of windows pid known)
  unfolding known_or_owner is_lock_screen
  known_or_owner-InFront windows pid none e =
      elim (Bool-cases (owns_ordinary_window f windows pid)) [
        | inl owns ↦ rw (known_or_owner, owns) (refl, inl (pid, refl, inr (e, owns, refl)))
        | inr none_there ↦ rw (known_or_owner, none_there) tt
      ]
  known_or_owner-InFront windows pid (some a) e = elim (Bool-cases (is_lock_screen a)) [
    | inl locked ↦ rw (known_or_owner, locked) tt
    | inr other ↦ rw (known_or_owner, other) (other, inl (pid, refl, inl e))
  ]

  focused_of-InFront :
      (focused : Option ℤ) (windows : List (WindowEntry f))
      → InFront focused windows (focused_of f application_of focused windows)
  unfolding focused_of
  focused_of-InFront none windows = tt
  focused_of-InFront (some pid) windows =
      known_or_owner-InFront windows pid (application_of pid) refl

  Suitable-InFront :
      (focused : Option ℤ) (windows : List (WindowEntry f)) (o : Option RunningApplication)
      → Suitable windows o
      → InFront focused windows o
  unfolding Suitable
  Suitable-InFront focused windows none h = tt
  Suitable-InFront focused windows (some a) (locked, rest) = (locked, inr rest)

  -- The application that is found in front is never the lock screen. It is the one of the focused process, as
  -- the system knows it or, if the system does not know it, when it owns an ordinary window; or one with a
  -- bundle that owns an ordinary window.
  pub frontmost_of-InFront :
      (focused : Option ℤ) (windows : List (WindowEntry f))
      → InFront focused windows (frontmost_of f application_of focused windows)
  unfolding frontmost_of
  frontmost_of-InFront focused windows =
      elim (Option-cases (focused_of f application_of focused windows)) [
        | inl unfocused ↦
            rw (frontmost_of, unfocused)
              (Suitable-InFront focused windows _ (first_suitable-Suitable windows))
        | inr (a, found) ↦
            let in_front : InFront focused windows (some a) =
              (subst (InFront focused windows) found (focused_of-InFront focused windows)) in
            rw (frontmost_of, found) in_front
      ]

-- ===== src/Frontmost.antt =====
-- src/macos/window_list.rs: which application is in front. What the system knows of a process is a
-- parameter.
pub mod Ordinary
mod Tests
use nikki.Prelude.{
  Bool, true, false, not, Option, none, some, List, [], ◌∷◌, ℤ, ◌&&◌, ◌||◌, if◌then◌else◌,
}
use nikki.Visibility.{Floats, WindowEntry, is_zero}
use nikki.Windows.{RunningApplication}
use nikki.Windows.Samples.{same_pid, is_lock_screen}

unfoldable pub is_application : RunningApplication → Bool
is_application application = elim application.bundle_id [
  | none ↦ false
  | some [] ↦ false
  | some (c ∷ cs) ↦ true
]

module _ (f : Floats) where
  unfoldable pub owns_ordinary_window : List (WindowEntry f) → ℤ → Bool
  owns_ordinary_window [] pid = false
  owns_ordinary_window (w ∷ ws) pid =
      if is_zero f w.layer && same_pid w.owner_pid pid then true else owns_ordinary_window ws pid

  module _ (application_of : ℤ → Option RunningApplication) where
    -- The application of the focused process; `none` is a process that the system does not know.
    known_or_owner :
        List (WindowEntry f) → ℤ → Option RunningApplication → Option RunningApplication
    known_or_owner windows pid none =
        if owns_ordinary_window windows pid
        then some (record { pid = pid; name = none; bundle_id = none })
        else none
    known_or_owner windows pid (some application) =
        if is_lock_screen application then none else some application

    unfoldable pub focused_of : Option ℤ → List (WindowEntry f) → Option RunningApplication
    unfolding known_or_owner
    focused_of none windows = none
    focused_of (some pid) windows = known_or_owner windows pid (application_of pid)

    suits : RunningApplication → Bool
    suits application = is_application application && not (is_lock_screen application)

    -- The loop over the windows.
    unfoldable pub first_suitable : List (WindowEntry f) → Option RunningApplication
    unfolding suits
    first_suitable [] = none
    first_suitable (w ∷ ws) =
        let rest = first_suitable ws in
        if is_zero f w.layer
        then elim (application_of w.owner_pid) [
          | none ↦ rest
          | some application ↦ if suits application then some application else rest
        ]
        else rest

    unfoldable pub frontmost_of : Option ℤ → List (WindowEntry f) → Option RunningApplication
    frontmost_of focused_pid windows = elim (focused_of focused_pid windows) [
      | some application ↦ some application
      | none ↦ first_suitable windows
    ]

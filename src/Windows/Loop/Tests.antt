-- ===== src/Windows/Loop/Tests.antt =====
-- A lock, two sleeps and the end of the events, with a runtime that is gone after two emissions.
use nikki.Prelude.{ℕ, ◌+◌, ◌≡◌, Bool, none, List, [], ◌∷◌, ltb, pos}
use nikki.Visibility.Tests.{whole}
use nikki.Windows.{MacEvent, screen_locked, will_sleep}
use nikki.Windows.Loop.{Arm, event, closed, LoopState, is_sampling, run}
use nikki.Windows.Loop.Sleeps.{sleeps, run-acknowledged}

abbrev takes : ℕ → Bool
takes n = ltb n 2

abbrev at_noon : MacEvent → Arm whole
at_noon e = event (record { at = pos 12; event = e; now = 12 })

abbrev arms : List (Arm whole)
arms =
    at_noon screen_locked
    ∷ at_noon will_sleep
    ∷ at_noon will_sleep
    ∷ closed
    ∷ at_noon will_sleep
    ∷ []

abbrev idle : LoopState
idle = record {
  pending = none;
  sampling = is_sampling;
  previous = none;
  sent = [];
  offered = 0;
  acknowledged = 0;
}

run_example :
    (run takes whole 30 arms idle).0.acknowledged + sleeps (run takes whole 30 arms idle).1
    ≡ 0 + sleeps arms
run_example = run-acknowledged takes whole 30 arms idle

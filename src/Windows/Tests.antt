-- ===== src/Windows/Tests.antt =====
-- Counters that wrap around, a burst of three events, and the theorems about them.
use nikki.Prelude.{ℕ, ◌≡◌, refl, none, some, List, [], ◌∷◌, map, pos, arith}
use nikki.Record.{state_change}
use nikki.Windows.{
  application_activated, title_changed, screen_locked, Pending, is_focus, Observed, burst, deltas,
}
use nikki.Windows.Burst.{IsSampled, gathered, burst-gathered}
use nikki.Windows.Counters.{reading, differences, deltas-reading}

abbrev totals : List (ℕ × ℕ)
totals = (4294967300, 7) ∷ (4294967301, 9) ∷ []

deltas-reading_example :
    deltas none (map reading ((4294967290, 5) ∷ totals))
    ≡ record { keys = 0; mouse = 0 } ∷ differences (4294967290, 5) totals
deltas-reading_example = deltas-reading (4294967290, 5) totals (omega arith)

abbrev change : Pending
change = record { kind = state_change; ts = pos 1; application = none; first = 10; deadline = 310 }

abbrev events : List Observed
events =
    record { at = pos 2; event = title_changed (pos 5); now = 200 }
    ∷ record {
      at = pos 3;
      event = application_activated (record { pid = pos 6; name = none; bundle_id = none });
      now = 400;
    }
    ∷ record { at = pos 4; event = screen_locked; now = 650 }
    ∷ []

change-IsSampled : IsSampled change.kind
unfolding is_focus
change-IsSampled = refl

burst-gathered_example : burst (some change) events ≡ some (gathered change events)
burst-gathered_example = burst-gathered change events change-IsSampled

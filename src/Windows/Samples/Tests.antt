-- ===== src/Windows/Samples/Tests.antt =====
-- Two windows of one application, and sources that answer differently every time.
use nikki.Prelude.{ℕ, ◌≡◌, none, some, List, [], ◌∷◌, map, codes, ℤ, pos, false, true, decimal, ◌↔◌}
use nikki.Json.{empty}
use nikki.Visibility.{VisibleWindow}
use nikki.Visibility.Tests.{whole}
use nikki.Windows.Samples.{sole, absent, Sources, is_focused, visible_entries}
use nikki.Windows.Samples.Bundles.{entry_by, visible_entries_lem}

abbrev fickle : Sources whole
fickle = record {
  windows = [];
  displays = [];
  frontmost = none;
  bundle_id = λ n pid. some (decimal n);
  cursor_display = none;
  focused_window = λ pid. absent;
  window_title = λ n pid. sole (some (decimal n));
  activity = record {
    idle_sec = pos 0;
    counters = record { keys = 0; mouse = 0 };
    mic_active = false;
    screen_locked = false;
    display_asleep = false;
  };
  details = λ bundle. empty;
}

abbrev window : ℕ → VisibleWindow whole
window n = record {
  window = record {
    owner_pid = pos 7;
    owner_name = codes "Zed";
    window_number = n;
    bounds = record { x = 0; y = 0; width = 1; height = 1 };
    layer = pos 0;
    z = n;
  };
  display = 0;
}

abbrev visible : List (VisibleWindow whole)
visible = window 1 ∷ window 2 ∷ []

visible_entries_example :
    ((v : VisibleWindow whole)
      → (is_focused (pos 8) none v.window.owner_pid v.window.window_number ≡ true)
        ↔ ((v.window.owner_pid ≡ pos 8) × (none ≡ some v.window.window_number)))
    × (b : ℤ → ℕ) × (t : ℤ → ℕ) × (visible_entries whole fickle visible (pos 8) none none 0
        ≡ map
            (entry_by whole fickle
              (pos 8)
              none
              none
              (λ pid. fickle.bundle_id (b pid) pid)
              (λ pid. fickle.window_title (t pid) pid))
            visible)
visible_entries_example = visible_entries_lem whole fickle visible (pos 8) none none 0

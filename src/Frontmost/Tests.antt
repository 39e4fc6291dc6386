-- ===== src/Frontmost/Tests.antt =====
-- A focused process that the system does not know and that owns the first window.
use nikki.Prelude.{Option, none, some, List, [], ◌∷◌, codes, ℤ, pos}
use nikki.Visibility.{WindowEntry}
use nikki.Visibility.Tests.{whole}
use nikki.Windows.{RunningApplication}
use nikki.Frontmost.{frontmost_of}
use nikki.Frontmost.Ordinary.{InFront, frontmost_of-InFront}

abbrev unknown : ℤ → Option RunningApplication
unknown pid = none

abbrev windows : List (WindowEntry whole)
windows =
    record {
      owner_pid = pos 7;
      owner_name = codes "Zed";
      window_number = 1;
      bounds = record { x = 0; y = 0; width = 1; height = 1 };
      layer = pos 0;
      z = 0;
    }
    ∷ []

frontmost_of_example :
    InFront whole unknown (some (pos 7)) windows (frontmost_of whole unknown (some (pos 7)) windows)
frontmost_of_example = frontmost_of-InFront whole unknown (some (pos 7)) windows

-- ===== src/Executable/Tests.antt =====
-- A program whose file is replaced by another one.
use nikki.Prelude.{ℕ, some, [], ◌∷◌, Text, codes, refl}
use nikki.Executable.{Moment, Executable, identity, swapped, current}
use nikki.Executable.Watch.{Watched, swapped-Watched}

abbrev program : Text
program = codes "/nikki"

abbrev holding : ℕ → Moment
holding inode = record {
  current_exe = some program;
  canonicalize = λ path. some path;
  symlink_metadata = λ path. some (1, inode);
}

abbrev running : Executable
running = record { path = program; identity = record { device = 1; inode = 7 } }

swapped-Watched_example :
    Watched program
      (holding 7)
      (holding 7 ∷ holding 8 ∷ [])
      (swapped (current (holding 7)) (holding 7 ∷ holding 8 ∷ []))
unfolding current identity
swapped-Watched_example = swapped-Watched (holding 7) running refl (holding 7 ∷ holding 8 ∷ [])

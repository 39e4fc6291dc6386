-- ===== src/Executable.antt =====
-- src/executable.rs: the watch on the file that the daemon runs from. The disk, as a moment shows it, is a
-- parameter.
pub mod Watch
pub mod Tests
use nikki.Prelude.{
  ℕ, Bool, true, not, Option, none, some, List, [], ◌∷◌, Text, ◌==◌, ◌&&◌, and_then, if◌then◌else◌,
}

-- The identity of a file, which src/executable.rs calls `Identity`: its device and its inode.
pub record FileIdentity : Type 0 where
  pub device : ℕ
  pub inode : ℕ

pub record Executable : Type 0 where
  pub path : Text
  pub identity : FileIdentity

-- What the system answers at one moment: `std::env::current_exe`, `fs::canonicalize`, and the device and the
-- inode that `fs::symlink_metadata` finds.
pub record Moment : Type 0 where
  pub current_exe : Option Text
  pub canonicalize : Text → Option Text
  pub symlink_metadata : Text → Option (ℕ × ℕ)

abbrev pub file_identity : ℕ × ℕ → FileIdentity
file_identity (device, inode) = record { device = device; inode = inode }

unfoldable pub identity : Moment → Text → Option FileIdentity
identity m path = and_then (m.symlink_metadata path) (λ found. some (file_identity found))

abbrev pub executable_of : Text → FileIdentity → Executable
executable_of path found = record { path = path; identity = found }

-- `Executable::current`
unfoldable pub current : Moment → Option Executable
current m = and_then m.current_exe (λ exe.
    and_then (m.canonicalize exe)
      (λ path. and_then (identity m path) (λ found. some (executable_of path found))))

-- `==` on identities
unfoldable pub same_identity : FileIdentity → FileIdentity → Bool
same_identity a b = (a.device == b.device) && (a.inode == b.inode)

unfoldable pub replaced : FileIdentity → Option FileIdentity → Bool
replaced original none = true
replaced original (some found) = not (same_identity found original)

-- The loop of `swapped`, over the moments at which it wakes: those left when it returns, or nothing while it
-- waits on.
unfoldable pub watch_loop : Executable → List Moment → Option (List Moment)
watch_loop e [] = none
watch_loop e (m ∷ ms) =
    let rest = watch_loop e ms in if replaced e.identity (identity m e.path) then some ms else rest

-- `swapped`, which waits for ever when there is no executable.
unfoldable pub swapped : Option Executable → List Moment → Option (List Moment)
swapped none moments = none
swapped (some e) moments = watch_loop e moments

-- ===== src/RepoRoots.antt =====
-- src/providers/repo_roots.rs: the repository above a path, and the cache of what was found. A directory is
-- its components, the last first; the root has none.
pub mod Cached
mod Tests
use nikki.Prelude.{
  ℕ, suc, ◌+◌, Bool, true, false, Option, none, some, List, [], ◌∷◌, Text, codes, text_eq, ltb,
  ◌==◌, length, ◌&&◌, ◌||◌, and_then, if◌then◌else◌,
}

abbrev pub Dir : Type 0
Dir = List Text

-- `Path`, and the disk. `absolute` is `none` for a path that is not absolute.
pub record Disk : Type 0 where
  pub absolute : Text → Option Dir
  pub join : Dir → Text → Dir
  pub to_string_lossy : Dir → Text
  -- `dir.join(".git").exists()`
  pub has_git : Dir → Bool

abbrev pub cache_limit : ℕ
cache_limit = 50000

abbrev pub Known : Type 0
Known = List (Dir × Option Text)

-- The map, its last entry first.
pub record GitRoots : Type 0 where
  pub home : Option Dir
  pub known : Known

unfoldable pub dir_eq : Dir → Dir → Bool
dir_eq [] [] = true
dir_eq [] (d ∷ ds) = false
dir_eq (c ∷ cs) [] = false
dir_eq (c ∷ cs) (d ∷ ds) = text_eq c d && dir_eq cs ds

unfoldable pub get_known : Dir → Known → Option (Option Text)
get_known dir [] = none
get_known dir ((d, found) ∷ known) = if dir_eq d dir then some found else get_known dir known

-- `str::strip_prefix`
unfoldable pub strip_prefix : Text → Text → Option Text
strip_prefix s [] = some s
strip_prefix [] (p ∷ ps) = none
strip_prefix (c ∷ s) (p ∷ ps) = let rest = strip_prefix s ps in if c == p then rest else none

unfoldable pub same_dir : Option Dir → Dir → Bool
same_dir none dir = false
same_dir (some home) dir = dir_eq home dir

unfoldable pub is_root : Dir → Bool
is_root [] = true
is_root (c ∷ cs) = false

unfoldable pub is_boundary : Option Dir → Dir → Bool
is_boundary home dir = is_root dir || same_dir home dir

unfoldable pub insert_all : List Dir → Option Text → Known → Known
insert_all [] found known = known
insert_all (dir ∷ visited) found known = insert_all visited found ((dir, found) ∷ known)

module _ (disk : Disk) where
  in_home : Option Dir → Text → Option Dir
  in_home none rest = none
  in_home (some home) rest = some (disk.join home rest)

  unfoldable pub expand : Option Dir → Text → Option Dir
  unfolding in_home
  expand home path = elim (strip_prefix path (codes "~/")) [
    | some rest ↦ in_home home rest
    | none ↦ elim (strip_prefix path (codes "$HOME/")) [
      | some rest ↦ in_home home rest
      | none ↦ disk.absolute path
    ]
  ]

  -- The loop over the ancestors: the directories visited, and what was found.
  unfoldable pub walk : Option Dir → Known → Dir → List Dir × Option Text
  walk home known [] = elim (get_known [] known) [
    | some found ↦ ([], found)
    | none ↦ ([] ∷ [], none)
  ]
  walk home known (c ∷ parent) =
      let (visited, found) = walk home known parent in
      elim (get_known (c ∷ parent) known) [
        | some known_found ↦ ([], known_found)
        | none ↦
            if is_boundary home (c ∷ parent)
            then ((c ∷ parent) ∷ [], none)
            else if disk.has_git (c ∷ parent)
            then ((c ∷ parent) ∷ [], some (disk.to_string_lossy (c ∷ parent)))
            else ((c ∷ parent) ∷ visited, found)
      ]

  unfoldable pub remember : List Dir → Option Text → GitRoots → GitRoots
  remember visited found roots = record roots {
    known =
        insert_all visited found (if ltb cache_limit (length roots.known) then [] else roots.known);
  }

  unfoldable pub repo_of : Text → GitRoots → Option Text × GitRoots
  repo_of path roots = elim (expand roots.home path) [
    | none ↦ (none, roots)
    | some dir ↦
        let (visited, found) = walk roots.home roots.known dir in
        (found, remember visited found roots)
  ]

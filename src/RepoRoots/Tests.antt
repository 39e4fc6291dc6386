-- ===== src/RepoRoots/Tests.antt =====
-- A disk with one repository, and the theorem about it.
use nikki.Prelude.{◌≡◌, Bool, true, false, some, [], ◌∷◌, codes}
use nikki.RepoRoots.{Dir, Disk, GitRoots, expand, repo_of}
use nikki.RepoRoots.Cached.{IsTrue, uncached, repo_of-uncached}

-- Every path lies two directories below the root, and the one in between is a repository.
ends_in_src : Dir → Bool
ends_in_src (c ∷ []) = true
ends_in_src _ = false

abbrev disk : Disk
disk = record {
  absolute = λ path. some (codes "file" ∷ codes "src" ∷ []);
  join = λ dir rest. rest ∷ dir;
  to_string_lossy = λ dir. codes "/src";
  has_git = ends_in_src;
}

abbrev roots : GitRoots
roots = record { home = some (codes "me" ∷ []); known = [] }

repo_of_example :
    ((repo_of disk (codes "/src/file") roots).0
      ≡ uncached disk roots.home (expand disk roots.home (codes "/src/file")))
    × IsTrue disk roots.home (repo_of disk (codes "/src/file") roots).1.known
    × ((repo_of disk (codes "/src/file") roots).1.home ≡ roots.home)
repo_of_example = repo_of-uncached disk (codes "/src/file") roots tt

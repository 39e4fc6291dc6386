-- ===== src/RepoRoots/Cached.antt =====
-- src/providers/repo_roots.rs: the cache changes no answer, as long as the disk does not change.
use nikki.Prelude.{
  both, ◌≡◌, refl, sym, ap, ◌∙◌, inl, inr, Bool, true, false, Option, none, some, List, [], ◌∷◌,
  Text, text_eq, text_eq_iff, ltb, length, All, All-mono, Bool-cases, Option-cases, if◌then◌else◌,
}
use nikki.RepoRoots.{
  Dir, Disk, Known, GitRoots, cache_limit, dir_eq, get_known, is_boundary, insert_all, expand, walk,
  remember, repo_of,
}

dir_eq_sound : (c d : Dir) → dir_eq c d ≡ true → c ≡ d
unfolding dir_eq
dir_eq_sound [] [] h = refl
dir_eq_sound [] (d ∷ ds) h = absurd (cc)
dir_eq_sound (c ∷ cs) [] h = absurd (cc)
dir_eq_sound (c ∷ cs) (d ∷ ds) h =
    let (first, rest) = both (text_eq c d) (dir_eq cs ds) h in
    let heads : c ≡ d = (text_eq_iff c d).0 first in let tails = dir_eq_sound cs ds rest in cc

module _ (disk : Disk) (home : Option Dir) where
  -- What the directory and those above it come to, up to the root or the home directory, without a cache.
  abbrev pub repo_above : Dir → Option Text
  repo_above [] = none
  repo_above (c ∷ parent) =
      if is_boundary home (c ∷ parent)
      then none
      else if disk.has_git (c ∷ parent)
      then some (disk.to_string_lossy (c ∷ parent))
      else repo_above parent

  -- Every answer in the cache is the one of the disk.
  abbrev pub IsTrue : Known → Type 0
  IsTrue [] = Unit
  IsTrue ((dir, found) ∷ known) = (found ≡ repo_above dir) × IsTrue known

  get_known-true :
      (dir : Dir) (known : Known) (found : Option Text)
      → IsTrue known
      → get_known dir known ≡ some found
      → found ≡ repo_above dir
  unfolding get_known
  get_known-true dir [] found h e = absurd (cc)
  get_known-true dir ((d, f) ∷ known) found h e = elim (Bool-cases (dir_eq d dir)) [
    | inl same ↦
        let got : some f ≡ some found = (rw same at e) in
        let same_found : f ≡ found = cc in
        sym same_found ∙ h.0 ∙ ap repo_above (dir_eq_sound d dir same)
    | inr other ↦ get_known-true dir known found h.1 (rw other at e)
  ]

  -- A walk finds what is above, and so did every directory on its way.
  record Walks (dir : Dir) (r : List Dir × Option Text) : Type 0 where
    pub found : r.1 ≡ repo_above dir
    pub visited : All (λ d. repo_above d ≡ repo_above dir) r.0

  walk-Walks : (known : Known) (dir : Dir) → IsTrue known → Walks dir (walk disk home known dir)
  unfolding walk
  walk-Walks known [] h = elim (Option-cases (get_known [] known)) [
    | inl fresh ↦ rw (walk, fresh) (record { found = refl; visited = (refl, tt) })
    | inr (found, e) ↦
        rw (walk, e) (record { found = get_known-true [] known found h e; visited = tt })
  ]
  walk-Walks known (c ∷ parent) h = elim (Option-cases (get_known (c ∷ parent) known)) [
    | inr (found, e) ↦
        rw (walk, e) (record { found = get_known-true (c ∷ parent) known found h e; visited = tt })
    | inl fresh ↦ elim (Bool-cases (is_boundary home (c ∷ parent))) [
      | inl end ↦ rw (walk, fresh, end) (one_dir none (rw end refl))
      | inr inside ↦ elim (Bool-cases (disk.has_git (c ∷ parent))) [
        | inl git ↦
            rw (walk, fresh, inside, git)
              (one_dir (some (disk.to_string_lossy (c ∷ parent))) (rw (inside, git) refl))
        | inr bare ↦
            rw (walk, fresh, inside, bare)
              (above (walk-Walks known parent h) (rw (inside, bare) refl))
      ]
    ]
  ]
    where
      one_dir :
          (found : Option Text)
          → repo_above (c ∷ parent) ≡ found
          → Walks (c ∷ parent) ((c ∷ parent) ∷ [], found)
      one_dir found e = record { found = sym e; visited = (refl, tt) }

      above :
          Walks parent (walk disk home known parent)
          → repo_above (c ∷ parent) ≡ repo_above parent
          → Walks
              (c ∷ parent)
              ((c ∷ parent) ∷ (walk disk home known parent).0, (walk disk home known parent).1)
      above walks e = record {
        found = walks.found ∙ sym e;
        visited = (refl, All-mono _ _ (λ d p. p ∙ sym e) _ walks.visited);
      }

  insert_all-IsTrue :
      (visited : List Dir) (found : Option Text) (known : Known)
      → All (λ d. found ≡ repo_above d) visited
      → IsTrue known
      → IsTrue (insert_all visited found known)
  unfolding insert_all
  insert_all-IsTrue [] found known h k = k
  insert_all-IsTrue (d ∷ visited) found known h k =
      insert_all-IsTrue visited found ((d, found) ∷ known) h.1 (h.0, k)

  -- What a path comes to without a cache.
  abbrev pub uncached : Option Dir → Option Text
  uncached none = none
  uncached (some dir) = repo_above dir

-- While the disk does not change: a lookup finds, whatever true answers are in the cache, the nearest
-- repository at or above the path and below the root and the home directory, and it leaves only true answers
-- in the cache, also when it has emptied it.
pub repo_of-uncached :
    (disk : Disk) (path : Text) (roots : GitRoots)
    → IsTrue disk roots.home roots.known
    → ((repo_of disk path roots).0 ≡ uncached disk roots.home (expand disk roots.home path))
      × IsTrue disk roots.home (repo_of disk path roots).1.known
      × ((repo_of disk path roots).1.home ≡ roots.home)
unfolding repo_of remember
repo_of-uncached disk path roots true_known = elim (Option-cases (expand disk roots.home path)) [
  | inl e ↦ rw (repo_of, e) (refl, true_known, refl)
  | inr (dir, e) ↦
      let walks = walk-Walks disk roots.home roots.known dir true_known in
      rw (repo_of, e)
        (
          walks.found,
          insert_all-IsTrue disk roots.home _ _ _
              (All-mono _ _ (λ d p. walks.found ∙ sym p) _ walks.visited)
              (kept (ltb cache_limit (length roots.known))),
          refl,
        )
]
  where
    kept : (b : Bool) → IsTrue disk roots.home (if b then [] else roots.known)
    kept true = tt
    kept false = true_known

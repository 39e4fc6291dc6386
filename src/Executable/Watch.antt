-- ===== src/Executable/Watch.antt =====
-- src/executable.rs: when the watch on the running file ends.
use nikki.Prelude.{
  both, ◌≡◌, ◌≢◌, ◌∙◌, refl, sym, ap, inl, inr, true, false, Option, none, some, List, [], ◌∷◌,
  ◌++◌, Text, All, Bool-cases, ==_iff, and_then, ℕ, ◌==◌, Bool, not, subst,
}
use nikki.Executable.{
  FileIdentity, Executable, Moment, identity, current, same_identity, replaced, executable_of,
  watch_loop, swapped,
}

FileIdentity-ext : (a b : FileIdentity) → a.device ≡ b.device → a.inode ≡ b.inode → a ≡ b
FileIdentity-ext a b d i = ap record_of d ∙ ap (λ n. record { device = b.device; inode = n }) i
  where
    record_of : ℕ → FileIdentity
    record_of n = record { device = n; inode = a.inode }

same_identity→eq : (a b : FileIdentity) → same_identity a b ≡ true → a ≡ b
unfolding same_identity
same_identity→eq a b h =
    let (device, inode) = both (a.device == b.device) (a.inode == b.inode) h in
    FileIdentity-ext a b ((==_iff a.device b.device).0 device) ((==_iff a.inode b.inode).0 inode)

same_identity_refl : (a : FileIdentity) → same_identity a a ≡ true
unfolding same_identity
same_identity_refl a = rw ((==_iff a.device a.device).1 refl, (==_iff a.inode a.inode).1 refl) refl

not-true : (b : Bool) → not b ≡ true → b ≡ false
not-true true h = absurd (cc)
not-true false h = refl

not-false : (b : Bool) → not b ≡ false → b ≡ true
not-false true h = refl
not-false false h = absurd (cc)

replaced-yes :
    (original : FileIdentity) (found : Option FileIdentity)
    → replaced original found ≡ true
    → found ≢ some original
unfolding replaced
replaced-yes original none h e = absurd (cc)
replaced-yes original (some a) h e =
    let same : a ≡ original = cc in
    let kept = subst (λ b. same_identity a b ≡ true) same (same_identity_refl a) in
    let changed = not-true (same_identity a original) h in absurd (cc)

replaced-no :
    (original : FileIdentity) (found : Option FileIdentity)
    → replaced original found ≡ false
    → found ≡ some original
unfolding replaced
replaced-no original none h = absurd (cc)
replaced-no original (some a) h =
    ap some (same_identity→eq a original (not-false (same_identity a original) h))

-- The path holds the file that it held at the start.
abbrev pub Stays : Text → Moment → Moment → Type 0
Stays path start m = identity m path ≡ identity start path

-- The watch returns at the first moment at which the path does not hold the file of the start, or waits on
-- while it does.
abbrev pub Watched : Text → Moment → List Moment → Option (List Moment) → Type 0
Watched path start moments none = All (Stays path start) moments
Watched path start moments (some after) =
    (before : List Moment) × (m : Moment) × (moments ≡ before ++ m ∷ after)
    × All (Stays path start) before
    × (identity m path ≢ identity start path)

and_then-some :
    {A : Type 0} {B : Type 0} (o : Option A) (next : A → Option B) (b : B)
    → and_then o next ≡ some b
    → (a : A) × (o ≡ some a) × (next a ≡ some b)
and_then-some none next b h = absurd (cc)
and_then-some (some a) next b h = (a, refl, h)

-- The executable that is found at the start has the identity that its path has then.
current-identity :
    (start : Moment) (e : Executable)
    → current start ≡ some e
    → identity start e.path ≡ some e.identity
unfolding current
current-identity start e h =
    let (exe, _, after_exe) = and_then-some start.current_exe _ e h in
    let (path, _, after_path) = and_then-some (start.canonicalize exe) _ e after_exe in
    let (found, at, is) = and_then-some (identity start path) _ e after_path in
    let same : executable_of path found ≡ e = cc in
    subst (λ x. identity start x.path ≡ some x.identity) same at

Watched-later :
    (path : Text) (start m : Moment) (ms : List Moment) (o : Option (List Moment))
    → Stays path start m
    → Watched path start ms o
    → Watched path start (m ∷ ms) o
Watched-later path start m ms none stays all = (stays, all)
Watched-later path start m ms (some after) stays (before, at, split, all, differs) =
    (m ∷ before, at, ap (λ l. m ∷ l) split, (stays, all), differs)

watch_loop-Watched :
    (start : Moment) (e : Executable)
    → identity start e.path ≡ some e.identity
    → (moments : List Moment) → Watched e.path start moments (watch_loop e moments)
unfolding watch_loop
watch_loop-Watched start e h [] = tt
watch_loop-Watched start e h (m ∷ ms) =
    elim (Bool-cases (replaced e.identity (identity m e.path))) [
      | inl changed ↦
          rw (watch_loop, changed)
            (
              [],
              m,
              refl,
              tt,
              λ same. replaced-yes e.identity (identity m e.path) changed (same ∙ h),
            )
      | inr kept ↦
          rw (watch_loop, kept)
            (Watched-later e.path start m ms (watch_loop e ms)
              (replaced-no e.identity (identity m e.path) kept ∙ sym h)
              (watch_loop-Watched start e h ms))
    ]

-- For an executable that is found at the start, the watch returns at the first moment at which its path does
-- not hold the file of the start, be it another file or none, and not before; it waits on while the path
-- holds that file.
pub swapped-Watched :
    (start : Moment) (e : Executable)
    → current start ≡ some e
    → (moments : List Moment) → Watched e.path start moments (swapped (current start) moments)
unfolding swapped
swapped-Watched start e h moments =
    rw h (watch_loop-Watched start e (current-identity start e h) moments)

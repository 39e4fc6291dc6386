-- ===== src/Windows/Samples/Maps.antt =====
-- src/providers/windows.rs: the maps of `visible_entries`, by process: what an insertion keeps, and which answers
-- they hold.
use nikki.Prelude.{
  ℕ, ◌≡◌, refl, sym, ap, ◌∙◌, inl, inr, true, false, none, some, List, ◌∷◌, ℤ, arith, Bool-cases,
  Option-cases, eq_of_parts,
}
use nikki.Windows.Samples.{same_pid, get_pid}

pub same_pid_sound : (p q : ℤ) → same_pid p q ≡ true → p ≡ q
unfolding same_pid
same_pid_sound p q h = eq_of_parts p q (ground (arith, h))

pub same_pid_refl : (p : ℤ) → same_pid p p ≡ true
unfolding same_pid
same_pid_refl p = ground arith

-- One map holds what another does.
abbrev pub Extends : {A : Type 0} → List (ℤ × A) → List (ℤ × A) → Type 0
Extends {A} known more = (p : ℤ) (a : A) → get_pid p known ≡ some a → get_pid p more ≡ some a

pub Extends-new :
    {A : Type 0} (p : ℤ) (a : A) (known : List (ℤ × A))
    → get_pid p known ≡ none
    → Extends known ((p, a) ∷ known)
unfolding get_pid
Extends-new p a known fresh q b h = elim (Bool-cases (same_pid p q)) [
  | inl same ↦
      let gone : none ≡ some b =
        sym fresh ∙ ap (λ r. get_pid r known) (same_pid_sound p q same) ∙ h in
      absurd (cc)
  | inr other ↦ rw other h
]

pub get_pid-new :
    {A : Type 0} (p : ℤ) (a : A) (known : List (ℤ × A)) → get_pid p ((p, a) ∷ known) ≡ some a
unfolding get_pid
get_pid-new p a known = rw (same_pid_refl p) refl

pub some-injective : {A : Type 0} (a b : A) → some a ≡ some b → a ≡ b
some-injective a b h = cc

pub true-false : ¬ (true ≡ false)
true-false h = cc

pub none-some : {A : Type 0} (a : A) → ¬ (none ≡ some a)
none-some a h = cc

pub answered-new :
    {A : Type 0} (answer : ℕ → ℤ → A) (n : ℕ) (pid : ℤ) (known : List (ℤ × A))
    → ((p : ℤ) (a : A) → get_pid p known ≡ some a → (m : ℕ) × (answer m p ≡ a))
    → (p : ℤ) (a : A) → get_pid p ((pid, answer n pid) ∷ known) ≡ some a
    → (m : ℕ) × (answer m p ≡ a)
unfolding get_pid
answered-new answer n pid known old p a h = elim (Bool-cases (same_pid pid p)) [
  | inl same ↦
      let here : some (answer n pid) ≡ some a = sym (rw (get_pid, same) refl) ∙ h in
      (n, ap (answer n) (sym (same_pid_sound pid p same)) ∙ some-injective _ _ here)
  | inr other ↦ old p a (sym (rw (get_pid, other) refl) ∙ h)
]

-- A number of a question whose answer is in the map, when there is one.
pub number_in :
    {A : Type 0} (answer : ℕ → ℤ → A) (known : List (ℤ × A))
    → ((p : ℤ) (a : A) → get_pid p known ≡ some a → (m : ℕ) × (answer m p ≡ a))
    → (p : ℤ) → (n : ℕ) × ((a : A) → get_pid p known ≡ some a → answer n p ≡ a)
number_in answer known old p = elim (Option-cases (get_pid p known)) [
  | inl fresh ↦ (0, λ a h. absurd (none-some _ (sym fresh ∙ h)))
  | inr (b, there) ↦
      let (n, at) = old p b there in (n, λ a h. at ∙ some-injective b a (sym there ∙ h))
]

-- ===== src/Windows/Samples/Bundles.antt =====
-- src/providers/windows.rs: of which answers `visible_entries` makes the entries.
use nikki.Prelude.{
  both, ℕ, ◌≡◌, refl, sym, ap, ◌∙◌, inl, inr, Bool, true, false, Option, none, some, List, [], ◌∷◌,
  map, Text, ℤ, Option-cases, ◌↔◌, ◌==◌, ==_iff,
}
use nikki.Json.{Value}
use nikki.Visibility.{Floats, VisibleWindow}
use nikki.Windows.Samples.{
  WindowTitle, sole, ambiguous, untold, ambiguous_reason, Sources, Looked, same_pid, get_pid,
  title_of, is_focused, entry_of, bundle_of, lookup_title, entry_title, entries_loop,
  visible_entries,
}
use nikki.Windows.Samples.Maps.{
  same_pid_sound, same_pid_refl, Extends, Extends-new, get_pid-new, some-injective, true-false,
  none-some, answered-new, number_in,
}

module _ (f : Floats) (sources : Sources f) (focused_pid : ℤ) (focused_window : Option ℕ)
    (focused_title : Option Text) where
  -- Both maps hold what they held.
  record Grows (s t : Looked) : Type 0 where
    pub bundles : Extends s.bundles t.bundles
    pub titles : Extends s.titles t.titles

  Grows-refl : (s : Looked) → Grows s s
  Grows-refl s = record { bundles = λ p a h. h; titles = λ p a h. h }

  Grows-trans : (s t u : Looked) → Grows s t → Grows t u → Grows s u
  Grows-trans s t u g h = record {
    bundles = λ p a e. h.bundles p a (g.bundles p a e);
    titles = λ p a e. h.titles p a (g.titles p a e);
  }

  -- What is answered for an application is in the map afterwards.
  bundle_of_lem :
      (pid : ℤ) (s : Looked)
      → Grows s (bundle_of f sources pid s).1
        × (get_pid pid (bundle_of f sources pid s).1.bundles ≡ some (bundle_of f sources pid s).0)
  unfolding bundle_of
  bundle_of_lem pid s = elim (Option-cases (get_pid pid s.bundles)) [
    | inl fresh ↦
        rw (bundle_of, fresh)
          (
            record { bundles = Extends-new pid _ s.bundles fresh; titles = λ p a h. h },
            get_pid-new pid (sources.bundle_id s.asked pid) s.bundles,
          )
    | inr (bundle_id, known) ↦ rw (bundle_of, known) (Grows-refl s, known)
  ]

  lookup_title_lem :
      (pid : ℤ) (s : Looked)
      → Grows s (lookup_title f sources pid s).1
        × (get_pid pid (lookup_title f sources pid s).1.titles
            ≡ some (lookup_title f sources pid s).0)
  unfolding lookup_title
  lookup_title_lem pid s = elim (Option-cases (get_pid pid s.titles)) [
    | inl fresh ↦
        rw (lookup_title, fresh)
          (
            record { bundles = λ p a h. h; titles = Extends-new pid _ s.titles fresh },
            get_pid-new pid (sources.window_title s.asked pid) s.titles,
          )
    | inr (title, known) ↦ rw (lookup_title, known) (Grows-refl s, known)
  ]

  -- What is told of a title that was asked for: the title, if it is the only one, or why there is none.
  abbrev pub told_by : WindowTitle → Option Text × Option Text
  told_by (sole title) = (title, none)
  told_by ambiguous = (none, some ambiguous_reason)
  told_by untold = (none, none)

  told_by_lem : (title : WindowTitle) → title_of title ≡ told_by title
  unfolding title_of
  told_by_lem (sole title) = refl
  told_by_lem ambiguous = refl
  told_by_lem untold = refl

  -- The entry of a window, when every application has one bundle and one title.
  abbrev pub title_by : (ℤ → WindowTitle) → Bool → ℤ → Option Text × Option Text
  title_by title_at true pid = (focused_title, none)
  title_by title_at false pid = told_by (title_at pid)

  abbrev pub entry_by : (ℤ → Option Text) → (ℤ → WindowTitle) → VisibleWindow f → Value
  entry_by bundle_at title_at v =
      let told =
        title_by title_at
          (is_focused focused_pid focused_window v.window.owner_pid v.window.window_number)
          v.window.owner_pid in
      entry_of v.window.owner_name (bundle_at v.window.owner_pid) told.0 told.1 v.display v.window.z

  -- Answers that agree with what is in the maps.
  record Agrees (bundle_at : ℤ → Option Text) (title_at : ℤ → WindowTitle) (s : Looked)
      : Type 0 where
    pub bundles : (p : ℤ) (a : Option Text) → get_pid p s.bundles ≡ some a → bundle_at p ≡ a
    pub titles : (p : ℤ) (a : WindowTitle) → get_pid p s.titles ≡ some a → title_at p ≡ a

  Agrees-Grows :
      (b : ℤ → Option Text) (t : ℤ → WindowTitle) (s s' : Looked)
      → Grows s s'
      → Agrees b t s'
      → Agrees b t s
  Agrees-Grows b t s s' grows agrees = record {
    bundles = λ p a h. agrees.bundles p a (grows.bundles p a h);
    titles = λ p a h. agrees.titles p a (grows.titles p a h);
  }

  entry_title_lem :
      (focused : Bool) (pid : ℤ) (s : Looked)
      → Grows s (entry_title f sources focused focused_title pid s).1
        × ((bundle_at : ℤ → Option Text) (title_at : ℤ → WindowTitle)
            → Agrees bundle_at title_at (entry_title f sources focused focused_title pid s).1
            → (entry_title f sources focused focused_title pid s).0 ≡ title_by title_at focused pid)
  unfolding entry_title
  entry_title_lem true pid s = (Grows-refl s, λ b t agrees. refl)
  entry_title_lem false pid s =
      let (grows, there) = lookup_title_lem pid s in
      (
        grows,
        λ b t agrees.
            told_by_lem (lookup_title f sources pid s).0
            ∙ ap told_by (sym (agrees.titles pid _ there)),
      )

  -- What is in the maps was answered for the application that it stands for.
  record IsAnswered (s : Looked) : Type 0 where
    pub bundles :
        (p : ℤ) (a : Option Text)
        → get_pid p s.bundles ≡ some a
        → (n : ℕ) × (sources.bundle_id n p ≡ a)
    pub titles :
        (p : ℤ) (a : WindowTitle)
        → get_pid p s.titles ≡ some a
        → (n : ℕ) × (sources.window_title n p ≡ a)

  bundle_of-IsAnswered :
      (pid : ℤ) (s : Looked) → IsAnswered s → IsAnswered (bundle_of f sources pid s).1
  unfolding bundle_of
  bundle_of-IsAnswered pid s is = elim (Option-cases (get_pid pid s.bundles)) [
    | inl fresh ↦
        rw (bundle_of, fresh)
          (record {
            bundles = answered-new sources.bundle_id s.asked pid s.bundles is.bundles;
            titles = is.titles;
          })
    | inr (bundle_id, known) ↦ rw (bundle_of, known) is
  ]

  entry_title-IsAnswered :
      (focused : Bool) (pid : ℤ) (s : Looked)
      → IsAnswered s
      → IsAnswered (entry_title f sources focused focused_title pid s).1
  unfolding entry_title lookup_title
  entry_title-IsAnswered true pid s is = is
  entry_title-IsAnswered false pid s is = elim (Option-cases (get_pid pid s.titles)) [
    | inl fresh ↦
        rw (lookup_title, fresh)
          (record {
            bundles = is.bundles;
            titles = answered-new sources.window_title s.asked pid s.titles is.titles;
          })
    | inr (title, known) ↦ rw (lookup_title, known) is
  ]

  -- The answers to the questions of these numbers.
  abbrev pub bundle_answer : (ℤ → ℕ) → ℤ → Option Text
  bundle_answer number p = sources.bundle_id (number p) p

  abbrev pub title_answer : (ℤ → ℕ) → ℤ → WindowTitle
  title_answer number p = sources.window_title (number p) p

  entries_loop_lem :
      (vs : List (VisibleWindow f)) (s : Looked)
      → IsAnswered s
      → (b : ℤ → ℕ) × ((t : ℤ → ℕ) × (Agrees (bundle_answer b) (title_answer t) s
            × (entries_loop f sources focused_pid focused_window focused_title vs s
                ≡ map (entry_by (bundle_answer b) (title_answer t)) vs)))
  unfolding entries_loop
  entries_loop_lem [] s is =
      let b = number_in sources.bundle_id s.bundles is.bundles in
      let t = number_in sources.window_title s.titles is.titles in
      (
        (λ p. (b p).0),
        ((λ p. (t p).0), (record { bundles = λ p. (b p).1; titles = λ p. (t p).1 }, refl)),
      )
  entries_loop_lem (v ∷ vs) s is =
      let w = v.window in
      let (grows, there) = bundle_of_lem w.owner_pid s in
      let focused = is_focused focused_pid focused_window w.owner_pid w.window_number in
      let s' = (bundle_of f sources w.owner_pid s).1 in
      let (grows', told) = entry_title_lem focused w.owner_pid s' in
      let (b, (t, (agrees, rest))) =
        entries_loop_lem vs (entry_title f sources focused focused_title w.owner_pid s').1
          (entry_title-IsAnswered focused w.owner_pid s' (bundle_of-IsAnswered w.owner_pid s is)) in
      let before = Agrees-Grows (bundle_answer b) (title_answer t) _ _ grows' agrees in
      let bundles = sym (before.bundles w.owner_pid _ there) in
      let titles = told (bundle_answer b) (title_answer t) agrees in
      (
        b,
        (
          t,
          (
            Agrees-Grows (bundle_answer b) (title_answer t) s _ grows before,
            λ i. entry_of w.owner_name (bundles i) (titles i).0 (titles i).1 v.display w.z ∷ rest i,
          ),
        ),
      )

is_focused_iff :
    (focused_pid : ℤ) (focused_window : Option ℕ) (pid : ℤ) (window_number : ℕ)
    → (is_focused focused_pid focused_window pid window_number ≡ true)
      ↔ ((pid ≡ focused_pid) × (focused_window ≡ some window_number))
unfolding is_focused
is_focused_iff focused_pid none pid n =
    (λ h. absurd (true-false (sym h)), λ h. absurd (none-some n h.1))
is_focused_iff focused_pid (some m) pid n = (
  λ h.
      let (pids, numbers) = both (same_pid pid focused_pid) (n == m) h in
      (same_pid_sound pid focused_pid pids, ap some (sym ((==_iff n m).0 numbers))),
  λ h. rw (h.0, same_pid_refl focused_pid, (==_iff n m).1 (sym (some-injective m n h.1))) refl,
)

-- Although the sources may answer differently each time they are asked: each application has one question for
-- its bundle and one for its title, such that the entry of every visible window is made of its owner's
-- answers to these two: the name, the bundle, the display and the place of the window, and, for the focused
-- window, the title that is given for it, otherwise the title that is answered, or the reason that there is
-- none. The focused window is the one with the number and the owner that are given.
pub visible_entries_lem :
    (f : Floats) (sources : Sources f) (visible : List (VisibleWindow f)) (focused_pid : ℤ)
    (focused_window : Option ℕ) (focused_title : Option Text) (asked : ℕ)
    → ((v : VisibleWindow f)
        → (is_focused focused_pid focused_window v.window.owner_pid v.window.window_number ≡ true)
          ↔ ((v.window.owner_pid ≡ focused_pid) × (focused_window ≡ some v.window.window_number)))
      × (b : ℤ → ℕ) × (t : ℤ → ℕ) × (visible_entries f sources visible focused_pid focused_window
            focused_title asked
          ≡ map
              (entry_by f sources focused_pid focused_window focused_title
                (λ pid. sources.bundle_id (b pid) pid)
                (λ pid. sources.window_title (t pid) pid))
              visible)
unfolding visible_entries get_pid
visible_entries_lem f sources visible focused_pid focused_window focused_title asked =
    let (b, (t, (agrees, same))) =
      entries_loop_lem f sources focused_pid focused_window focused_title visible
        (record { bundles = []; titles = []; asked = asked })
        (record {
          bundles = λ p a h. absurd (none-some a h);
          titles = λ p a h. absurd (none-some a h);
        }) in
    (
      λ v. is_focused_iff focused_pid focused_window v.window.owner_pid v.window.window_number,
      b,
      t,
      same,
    )

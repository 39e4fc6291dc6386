-- ===== src/Transcript/Touching/Entries.antt =====
-- src/providers/claude_code.rs: the keys of the touches of a line.
use nikki.Prelude.{
  ◌≡◌, ◌≢◌, inl, inr, refl, sym, ap, ◌∙◌, true, false, Option, none, some, List, [], ◌∷◌, ◌++◌,
  Text, codes, text_eq, text_eq_iff, ℤ, All, All-append, and_then, Bool-cases, ◌&&◌, if◌then◌else◌,
}
use nikki.Json.{Value, Items, nil, item}
use nikki.Record.{RecordDraft, claude_touch}
use nikki.Transcript.{Externals, LineContext}
use nikki.Transcript.Keys.{HasDistinctKeys, IsTouch}
use nikki.Transcript.Values.{flag, as_array, get_str, line_timestamp, session_id, content_of}
use nikki.Transcript.Touching.{
  Action, edit, read, run, action_name, same_action, touched_already, touch_paths, block_paths,
  touch_blocks, touch_draft, touch_loop, touch_drafts,
}

abbrev Entry : Type 0
Entry = Text × Action

-- No entry is there twice.
abbrev IsDistinct : List Entry → Type 0
IsDistinct [] = Unit
IsDistinct (e ∷ es) = All (λ f. e ≢ f) es × IsDistinct es

IsDistinct-append :
    (es : List Entry) (e : Entry) → IsDistinct es → All (λ f. f ≢ e) es → IsDistinct (es ++ e ∷ [])
IsDistinct-append [] e h new = (tt, tt)
IsDistinct-append (f ∷ es) e h new =
    (All-append _ es (e ∷ []) h.0 (new.0, tt), IsDistinct-append es e h.1 new.1)

same_action_refl : (a : Action) → same_action a a ≡ true
unfolding same_action
same_action_refl edit = refl
same_action_refl read = refl
same_action_refl run = refl

action_of : Text → Option Action
action_of s =
    if text_eq s (codes "edit")
    then some edit
    else if text_eq s (codes "read")
    then some read
    else some run

action_of-action_name : (a : Action) → action_of (action_name a) ≡ some a
unfolding action_of action_name text_eq
action_of-action_name edit = refl
action_of-action_name read = refl
action_of-action_name run = refl

action_name-injective : (a b : Action) → action_name a ≡ action_name b → a ≡ b
action_name-injective a b h =
    let same : some a ≡ some b =
      sym (action_of-action_name a) ∙ ap action_of h ∙ action_of-action_name b in
    cc

same_entry :
    (repo : Text) (action : Action) (r : Text) (a : Action)
    → (text_eq r repo && same_action a action) ≡ false
    → ◌≢◌ {A = Entry} (r, a) (repo, action)
same_entry repo action r a h e =
    let found : text_eq r repo && same_action a action ≡ true = rw (the_repo, the_action) refl in
    absurd (cc)
  where
    the_repo : text_eq r repo ≡ true
    the_repo = (text_eq_iff r repo).1 (ap (λ f. f.0) e)

    the_action : same_action a action ≡ true
    the_action = ap (λ b. same_action b action) (ap (λ f. f.1) e) ∙ same_action_refl action

-- What is not found is new.
touched_already-new :
    (repo : Text) (action : Action) (touched : List Entry)
    → touched_already repo action touched ≡ false
    → All (λ f. f ≢ (repo, action)) touched
unfolding touched_already
touched_already-new repo action [] h = tt
touched_already-new repo action ((r, a) ∷ touched) h =
    elim (Bool-cases (text_eq r repo && same_action a action)) [
      | inl same ↦ absurd (cc)
      | inr other ↦ (
        same_entry repo action r a other,
        touched_already-new repo action touched (rw other at h),
      )
    ]

module _ (x : Externals) where
  touch_paths-IsDistinct :
      (paths touched : List Entry) → IsDistinct touched → IsDistinct (touch_paths x paths touched)
  unfolding touch_paths
  touch_paths-IsDistinct [] touched h = h
  touch_paths-IsDistinct ((path, action) ∷ paths) touched h =
      elim (x.repo_of path)
        as (λ o. IsDistinct (elim o as (λ o. List Entry) [
          | none ↦ touch_paths x paths touched
          | some repo ↦ touch_paths x paths (
              if touched_already repo action touched
              then touched
              else touched ++ (repo, action) ∷ [])
        ])) [
          | none ↦ touch_paths-IsDistinct paths touched h
          | some repo ↦ touch_paths-IsDistinct paths _ (once repo)
        ]
    where
      once :
          (repo : Text)
          → IsDistinct (
              if touched_already repo action touched
              then touched
              else touched ++ (repo, action) ∷ [])
      once repo = elim (Bool-cases (touched_already repo action touched)) [
        | inl there ↦ rw there h
        | inr new ↦ rw new (
            IsDistinct-append touched (repo, action) h
              (touched_already-new repo action touched new))
      ]

  touch_blocks-IsDistinct :
      (blocks : Items) (touched : List Entry)
      → IsDistinct touched
      → IsDistinct (touch_blocks x blocks touched)
  unfolding touch_blocks
  touch_blocks-IsDistinct nil touched h = h
  touch_blocks-IsDistinct (item block blocks) touched h =
      touch_blocks-IsDistinct blocks _ (touch_paths-IsDistinct (block_paths x block) touched h)

  touch_key-injective :
      (sid uuid : Text) (r s : Text) (a b : Action)
      → claude_touch sid uuid r (action_name a) ≡ claude_touch sid uuid s (action_name b)
      → ◌≡◌ {A = Entry} (r, a) (s, b)
  touch_key-injective sid uuid r s a b h =
      let names : action_name a ≡ action_name b = cc in
      let actions = action_name-injective a b names in
      let repos : r ≡ s = cc in λ i. (repos i, actions i)

  touch_loop-apart :
      (sid uuid : Text) (ts : ℤ) (e : Entry) (es : List Entry)
      → All (λ f. e ≢ f) es
      → All (λ d. (touch_draft x sid uuid ts e).key ≢ d.key) (touch_loop x sid uuid ts es)
  unfolding touch_loop touch_draft
  touch_loop-apart sid uuid ts e [] h = tt
  touch_loop-apart sid uuid ts (r, a) ((s, b) ∷ es) h = (
    λ same. h.0 (touch_key-injective sid uuid r s a b same),
    touch_loop-apart sid uuid ts (r, a) es h.1,
  )

  abbrev pub AreTouches : List RecordDraft → Type 0
  AreTouches ds = HasDistinctKeys ds × All IsTouch ds

  touch_loop-AreTouches :
      (sid uuid : Text) (ts : ℤ) (es : List Entry)
      → IsDistinct es
      → AreTouches (touch_loop x sid uuid ts es)
  unfolding touch_loop touch_draft
  touch_loop-AreTouches sid uuid ts [] h = (tt, tt)
  touch_loop-AreTouches sid uuid ts ((r, a) ∷ es) h =
      let (distinct, all) = touch_loop-AreTouches sid uuid ts es h.1 in
      (
        (touch_loop-apart sid uuid ts (r, a) es h.0, distinct),
        ((sid, uuid, r, action_name a, refl), all),
      )

  or_none :
      {A : Type 0} (o : Option A) (f : A → List RecordDraft)
      → ((a : A) → AreTouches (f a))
      → AreTouches (elim o as (λ o. List RecordDraft) [ none ↦ [] | some a ↦ f a ])
  or_none none f h = (tt, tt)
  or_none (some a) f h = h a

  -- The touches of a line have keys of their own.
  pub touch_drafts-AreTouches :
      (line : Value) (context : LineContext) → AreTouches (touch_drafts x line context)
  unfolding touch_drafts
  touch_drafts-AreTouches line context = elim (Bool-cases (flag line (codes "isSidechain"))) [
    | inl aside ↦ rw (touch_drafts, aside) (tt, tt)
    | inr other ↦
        rw (touch_drafts, other)
          (or_none (get_str (codes "uuid") line) _ λ uuid. or_none (line_timestamp x line) _ λ ts.
            or_none (and_then (content_of line) as_array) _ λ blocks.
              touch_loop-AreTouches (session_id line context) uuid ts (touch_blocks x blocks [])
                (touch_blocks-IsDistinct blocks [] tt))
  ]

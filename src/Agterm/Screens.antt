-- ===== src/Agterm/Screens.antt =====
-- src/extract/agterm.rs: which pane is on screen, and what is told of a session whose left surface is not.
use nikki.Prelude.{
  ◌≡◌, refl, inl, inr, Bool, true, false, Option, none, some, List, [], ◌∷◌, Text, codes,
  Bool-cases, text_eq, ◌&&◌, and_then, if◌then◌else◌,
}
use nikki.Json.{Fields, string, empty, insert, optional_field}
use nikki.Agterm.{
  TextFunctions, Screen, Session, Pane, is_on, is_left, pane_loop, pane_on, cwd_of, foreground_of,
  surface_on_screen, compose, command_line, session_identity, non_empty,
}

-- The panes of a session and a surface.
abbrev pub panes_of : Text → Text → List Pane → List Pane
panes_of session surface [] = []
panes_of session surface (pane ∷ panes) =
    if text_eq pane.session session && text_eq pane.pane surface
    then pane ∷ panes_of session surface panes
    else panes_of session surface panes

-- The one element of a list that has one.
abbrev pub only : {A : Type 0} → List A → Option A
only [] = none
only (a ∷ []) = some a
only (a ∷ b ∷ rest) = none

abbrev found_before : Option Pane → List Pane → List Pane
found_before none panes = panes
found_before (some pane) panes = pane ∷ panes

pane_loop_lem :
    (session surface : Text) (panes : List Pane) (found : Option Pane)
    → pane_loop session surface panes found
      ≡ only (found_before found (panes_of session surface panes))
unfolding pane_loop is_on
pane_loop_lem session surface [] none = refl
pane_loop_lem session surface [] (some pane) = refl
pane_loop_lem session surface (pane ∷ panes) none = elim (Bool-cases (is_on session surface pane)) [
  | inl here ↦ rw (pane_loop, here) (pane_loop_lem session surface panes (some pane))
  | inr other ↦ rw (pane_loop, other) (pane_loop_lem session surface panes none)
]
pane_loop_lem session surface (pane ∷ panes) (some p) =
    elim (Bool-cases (is_on session surface pane)) [
      | inl here ↦ rw (pane_loop, here) refl
      | inr other ↦ rw (pane_loop, other) (pane_loop_lem session surface panes (some p))
    ]

-- The pane on screen is the only one of the session, its name in upper case, and the surface, and there is
-- none when no pane or more than one is.
pub pane_on-only :
    (t : TextFunctions) (panes : List Pane) (session surface : Text)
    → pane_on t panes session surface ≡ only (panes_of (t.to_uppercase session) surface panes)
unfolding pane_on
pane_on-only t panes session surface = pane_loop_lem (t.to_uppercase session) surface panes none

cwd_of-other :
    (o : Option Text) (b : Bool) (c d : Option Text) → b ≡ false → cwd_of o b c ≡ cwd_of o b d
unfolding cwd_of
cwd_of-other (some pane_cwd) b c d h = refl
cwd_of-other none true c d h = absurd (cc)
cwd_of-other none false c d h = refl

foreground_of-other :
    (t : TextFunctions) (b : Bool) (c d : Option (List Text))
    → b ≡ false
    → foreground_of t b c ≡ foreground_of t b d
unfolding foreground_of
foreground_of-other t true c d h = absurd (cc)
foreground_of-other t false c d h = refl

module _ (t : TextFunctions) (workspace : Text) (s : Session) (panes : List Pane)
    (screen : Screen) where
  abbrev surface : Option Text
  surface = surface_on_screen t screen s.id s.surfaces

  abbrev on_screen : Option Pane
  on_screen = and_then surface (pane_on t panes s.id)

  abbrev commanded : Fields
  commanded =
      optional_field (codes "command") (and_then on_screen (λ pane. command_line t pane.argv)) (
        optional_field (codes "surface") surface (
          insert (codes "session") (string (session_identity t s.name))
            (insert (codes "workspace") (string workspace) empty)))

-- While another surface than the left one is on screen, the details do not depend on the session's own
-- directory and foreground command, which are those of the left surface.
pub compose-hides :
    (t : TextFunctions) (workspace : Text) (s : Session) (panes : List Pane) (screen : Screen)
    (cwd : Option Text) (foreground : Option (List Text))
    → is_left (surface_on_screen t screen s.id s.surfaces) ≡ false
    → compose t workspace (record s { cwd = cwd; foreground = foreground }) panes screen
      ≡ compose t workspace s panes screen
unfolding compose
compose-hides t workspace s panes screen cwd foreground other = λ i.
    optional_field (codes "foreground")
      (foreground_of-other t (is_left (surface t workspace s panes screen)) foreground s.foreground
        other i)
      (optional_field (codes "cwd")
        (and_then
          (cwd_of-other (and_then (on_screen t workspace s panes screen) (λ pane. pane.cwd))
            (is_left (surface t workspace s panes screen)) cwd s.cwd other i)
          non_empty)
        (commanded t workspace s panes screen))

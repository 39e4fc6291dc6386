-- ===== src/Agterm.antt =====
-- src/extract/agterm.rs: what is on screen in the terminal, from the tree that its command prints and the
-- panes of its processes. The tree is given parsed.
pub mod Screens
mod Tests
use nikki.Prelude.{
  ℕ, Bool, true, false, not, Option, none, some, List, [], ◌∷◌, ◌++◌, Text, codes, text_eq, ltb,
  leb, length, take, and_then, ◌&&◌, ◌||◌, if◌then◌else◌,
}
use nikki.Json.{Fields, Value, string, empty, insert, optional_field}

abbrev pub left_surface : Text
left_surface = codes "left"

abbrev pub quick_surface : Text
quick_surface = codes "quick"

abbrev pub dashboard_surface : Text
dashboard_surface = codes "dashboard"

abbrev pub surface_address : Text
surface_address = codes "surface:"

abbrev pub command_limit : ℕ
command_limit = 512

-- `…` in UTF-8
abbrev pub ellipsis : Text
ellipsis = 226 ∷ 128 ∷ 166 ∷ []

-- The glyphs in UTF-8, in the order of the source.
abbrev pub status_glyphs : List Text
status_glyphs =
    (226 ∷ 156 ∷ 179 ∷ [])
    ∷ (226 ∷ 156 ∷ 162 ∷ [])
    ∷ (226 ∷ 156 ∷ 182 ∷ [])
    ∷ (226 ∷ 156 ∷ 187 ∷ [])
    ∷ (226 ∷ 156 ∷ 189 ∷ [])
    ∷ (226 ∷ 151 ∷ 144 ∷ [])
    ∷ (226 ∷ 151 ∷ 147 ∷ [])
    ∷ (226 ∷ 151 ∷ 145 ∷ [])
    ∷ (226 ∷ 151 ∷ 146 ∷ [])
    ∷ (226 ∷ 151 ∷ 143 ∷ [])
    ∷ (226 ∷ 151 ∷ 139 ∷ [])
    ∷ []

-- The functions of `str` and `Path` that are called; `chars` is the text in its characters.
pub record TextFunctions : Type 0 where
  pub chars : Text → List Text
  pub to_uppercase : Text → Text
  pub eq_ignore_ascii_case : Text → Text → Bool
  pub trim : Text → Text
  pub trim_start : Text → Text
  pub strip_prefix : Text → Text → Option Text
  pub rsplit_once : ℕ → Text → Option (Text × Text)
  pub file_name : Text → Option Text

pub record Screen : Type 0 where
  pub quick_visible : Bool
  pub zoomed_surface : Option Text
  pub dashboard_members : Option (List Text)

pub record Surface : Type 0 where
  pub kind : Text
  pub active : Bool
  pub visible : Bool

pub record Session : Type 0 where
  pub id : Text
  pub name : Text
  pub active : Bool
  pub cwd : Option Text
  pub foreground : Option (List Text)
  pub surfaces : List Surface

pub record Workspace : Type 0 where
  pub name : Text
  pub active : Bool
  pub sessions : List Session

pub record Tree : Type 0 where
  pub workspaces : List Workspace
  pub screen : Screen

pub record Pane : Type 0 where
  pub session : Text
  pub pane : Text
  pub pane_id : Text
  pub argv : List Text
  pub cwd : Option Text

unfoldable pub join_words : List Text → Text
join_words [] = []
join_words (s ∷ []) = s
join_words (s ∷ t ∷ ts) = s ++ 32 ∷ join_words (t ∷ ts)

unfoldable pub concat_chars : List Text → Text
concat_chars [] = []
concat_chars (c ∷ cs) = c ++ concat_chars cs

unfoldable pub is_glyph : Text → List Text → Bool
is_glyph c [] = false
is_glyph c (g ∷ gs) = if text_eq c g then true else is_glyph c gs

unfoldable pub active_surface : List Surface → Option Text
active_surface [] = none
active_surface (s ∷ surfaces) =
    if s.active && s.visible then some s.kind else active_surface surfaces

unfoldable pub dashboard_open : Option (List Text) → Bool
dashboard_open none = false
dashboard_open (some []) = false
dashboard_open (some (member ∷ members)) = true

unfoldable pub active_workspace : List Workspace → Option Workspace
active_workspace [] = none
active_workspace (w ∷ ws) = if w.active then some w else active_workspace ws

unfoldable pub active_session : List Session → Option Session
active_session [] = none
active_session (s ∷ ss) = if s.active then some s else active_session ss

unfoldable pub is_left : Option Text → Bool
is_left none = false
is_left (some surface) = text_eq surface left_surface

unfoldable pub non_empty : Text → Option Text
non_empty [] = none
non_empty (c ∷ cs) = some (c ∷ cs)

-- The directory of the pane on screen, or of the session when its left surface is.
unfoldable pub cwd_of : Option Text → Bool → Option Text → Option Text
cwd_of (some pane_cwd) on_left cwd = some pane_cwd
cwd_of none true cwd = cwd
cwd_of none false cwd = none

abbrev pub first_of : List Text → Option Text
first_of [] = none
first_of (word ∷ words) = some word

unfoldable pub is_on : Text → Text → Pane → Bool
is_on session surface pane = text_eq pane.session session && text_eq pane.pane surface

-- The loop of `pane_on`, with what it found; a second pane ends it with nothing.
unfoldable pub pane_loop : Text → Text → List Pane → Option Pane → Option Pane
pane_loop session surface [] found = found
pane_loop session surface (pane ∷ panes) found =
    let skipped = pane_loop session surface panes found in
    let first = pane_loop session surface panes (some pane) in
    if is_on session surface pane then elim found [ none ↦ first | some other ↦ none ] else skipped

module _ (t : TextFunctions) where
  unfoldable pub pane_on : List Pane → Text → Text → Option Pane
  pane_on panes session surface = pane_loop (t.to_uppercase session) surface panes none

  cut_command : Text → Option Text
  cut_command [] = none
  cut_command (c ∷ cs) =
      let chars = t.chars (c ∷ cs) in
      if leb (length chars) command_limit
      then some (c ∷ cs)
      else some (concat_chars (take command_limit chars) ++ ellipsis)

  unfoldable pub command_line : List Text → Option Text
  unfolding cut_command
  command_line argv = cut_command (join_words argv)

  kind_of : Text → Text × Text → Option Text
  kind_of session (zoomed_session, []) = none
  kind_of session (zoomed_session, c ∷ kind) =
      if t.eq_ignore_ascii_case zoomed_session session then some (c ∷ kind) else none

  unfoldable pub zoomed_surface_of : Text → Text → Option Text
  unfolding kind_of
  zoomed_surface_of zoomed session =
      if text_eq zoomed quick_surface
      then some quick_surface
      else and_then (and_then (t.strip_prefix zoomed surface_address) (t.rsplit_once b':'))
          (kind_of session)

  unfoldable pub surface_on_screen : Screen → Text → List Surface → Option Text
  surface_on_screen screen session surfaces =
      if screen.quick_visible
      then some quick_surface
      else if dashboard_open screen.dashboard_members
      then some dashboard_surface
      else elim screen.zoomed_surface [
        | none ↦ active_surface surfaces
        | some zoomed ↦ zoomed_surface_of zoomed session
      ]

  identity_of : Text → List Text → Text
  identity_of name [] = []
  identity_of name (first ∷ characters) =
      if is_glyph first status_glyphs then t.trim_start (concat_chars characters) else name

  unfoldable pub session_identity : Text → Text
  unfolding identity_of
  session_identity name = identity_of (t.trim name) (t.chars (t.trim name))

  foreground_of : Bool → Option (List Text) → Option Text
  foreground_of false foreground = none
  foreground_of true foreground =
      and_then (and_then (and_then foreground first_of) t.file_name) non_empty

  unfoldable pub compose : Text → Session → List Pane → Screen → Fields
  unfolding foreground_of
  compose workspace s panes screen =
      let surface = surface_on_screen screen s.id s.surfaces in
      let on_screen = and_then surface (pane_on panes s.id) in
      let named =
        insert (codes "session") (string (session_identity s.name))
          (insert (codes "workspace") (string workspace) empty) in
      let commanded =
        optional_field (codes "command") (and_then on_screen (λ pane. command_line pane.argv))
          (optional_field (codes "surface") surface named) in
      let cwd = cwd_of (and_then on_screen (λ pane. pane.cwd)) (is_left surface) s.cwd in
      optional_field (codes "foreground") (foreground_of (is_left surface) s.foreground)
        (optional_field (codes "cwd") (and_then cwd non_empty) commanded)

  session_details : Text → List Pane → Screen → Option Session → Fields
  session_details workspace panes screen none = empty
  session_details workspace panes screen (some s) = compose workspace s panes screen

  workspace_details : List Pane → Screen → Option Workspace → Fields
  unfolding session_details
  workspace_details panes screen none = empty
  workspace_details panes screen (some w) =
      session_details w.name panes screen (active_session w.sessions)

  -- `none` is a tree that does not parse.
  unfoldable pub parse_tree : Option Tree → List Pane → Fields
  unfolding workspace_details
  parse_tree none panes = empty
  parse_tree (some tree) panes =
      workspace_details panes tree.screen (active_workspace tree.workspaces)

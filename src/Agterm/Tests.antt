-- ===== src/Agterm/Tests.antt =====
-- A session with two panes, and the theorems about it.
use nikki.Prelude.{◌≡◌, refl, true, false, none, some, List, [], ◌∷◌, Text, codes, text_eq}
use nikki.Agterm.{
  TextFunctions, Screen, Session, Pane, active_surface, surface_on_screen, dashboard_open, is_left,
  pane_on, compose,
}
use nikki.Agterm.Screens.{only, panes_of, pane_on-only, compose-hides}

abbrev functions : TextFunctions
functions = record {
  chars = λ s. s ∷ [];
  to_uppercase = λ s. s;
  eq_ignore_ascii_case = text_eq;
  trim = λ s. s;
  trim_start = λ s. s;
  strip_prefix = λ s p. none;
  rsplit_once = λ c s. none;
  file_name = λ s. some s;
}

abbrev pane : Text → Pane
pane name = record {
  session = codes "S";
  pane = name;
  pane_id = codes "1";
  argv = codes "vim" ∷ [];
  cwd = none;
}

abbrev screen : Screen
screen = record { quick_visible = false; zoomed_surface = none; dashboard_members = none }

abbrev session : Session
session = record {
  id = codes "S";
  name = codes "work";
  active = true;
  cwd = some (codes "/secret");
  foreground = some (codes "ssh" ∷ []);
  surfaces = record { kind = codes "scratch"; active = true; visible = true } ∷ [];
}

abbrev panes : List Pane
panes = pane (codes "left") ∷ pane (codes "scratch") ∷ []

pane_on_example :
    pane_on functions panes (codes "S") (codes "scratch")
    ≡ only (panes_of (codes "S") (codes "scratch") panes)
pane_on_example = pane_on-only functions panes (codes "S") (codes "scratch")

not_left : is_left (surface_on_screen functions screen session.id session.surfaces) ≡ false
unfolding is_left surface_on_screen dashboard_open active_surface text_eq
not_left = refl

compose-hides_example :
    compose functions (codes "w") (record session { cwd = none; foreground = none }) panes screen
    ≡ compose functions (codes "w") session panes screen
compose-hides_example = compose-hides functions (codes "w") session panes screen none none not_left

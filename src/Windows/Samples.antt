-- ===== src/Windows/Samples.antt =====
-- src/providers/windows.rs: what a sample holds, and the records that are made of it. A reading of the
-- sources that may be asked more than once has the number of the question.
pub mod Maps
pub mod Bundles
mod Tests
use nikki.Prelude.{
  ℕ, suc, Bool, true, false, not, Option, none, some, List, [], ◌∷◌, ◌++◌, Text, codes, text_eq, ℤ,
  pos, ◌==◌, ◌&&◌, ltb_ℤ, unwrap_or, if◌then◌else◌,
}
use nikki.Json.{
  Value, null, bool, number, string, array, object, Items, nil, item, Fields, empty, field, insert,
  optional_field, is_empty, optional,
}
use nikki.Record.{RecordDraft, Kind, tick, windows, windows_key}
use nikki.Visibility.{Floats, WindowEntry, DisplayEntry, VisibleWindow, visible_windows, is_zero}
use nikki.Windows.{RunningApplication, InputCounters, InputDelta}

abbrev pub ambiguous_reason : Text
ambiguous_reason = codes "ambiguous"

abbrev pub lock_screen_bundle_id : Text
lock_screen_bundle_id = codes "com.apple.loginwindow"

pub data FocusedWindow : Type 0 where
  window : Option Text → Option Text → FocusedWindow
  absent unavailable : FocusedWindow

pub data WindowTitle : Type 0 where
  sole : Option Text → WindowTitle
  ambiguous untold : WindowTitle

pub record Activity : Type 0 where
  pub idle_sec : ℤ
  pub counters : InputCounters
  pub mic_active : Bool
  pub screen_locked : Bool
  pub display_asleep : Bool

pub record Sample : Type 0 where
  pub app : Text
  pub bundle_id : Text
  pub title : Option Text
  pub path : Option Text
  pub details : Fields
  pub display : ℕ
  pub visible : List Value
  pub degraded : Bool

unfoldable pub same_pid : ℤ → ℤ → Bool
same_pid a b = not (ltb_ℤ a b) && not (ltb_ℤ b a)

unfoldable pub is_lock_screen : RunningApplication → Bool
is_lock_screen application = elim application.bundle_id [
  | none ↦ false
  | some bundle_id ↦ text_eq bundle_id lock_screen_bundle_id
]

unfoldable pub get_pid : {A : Type 0} → ℤ → List (ℤ × A) → Option A
get_pid pid [] = none
get_pid pid ((p, a) ∷ known) = if same_pid p pid then some a else get_pid pid known

unfoldable pub items_of : List Value → Items
items_of [] = nil
items_of (v ∷ vs) = item v (items_of vs)

unfoldable pub base_payload : Sample → Fields
base_payload s =
    let named =
      insert (codes "bundle_id") (string s.bundle_id) (insert (codes "app") (string s.app) empty) in
    let pathed =
      optional_field (codes "path") s.path (optional_field (codes "title") s.title named) in
    let detailed =
      if is_empty s.details then pathed else insert (codes "details") (object s.details) pathed in
    insert (codes "visible") (array (items_of s.visible))
      (insert (codes "display") (number (pos s.display)) detailed)

unfoldable pub marker_record : Kind → ℤ → RecordDraft
marker_record kind ts = record {
  provider = windows;
  kind = kind;
  ts = ts;
  degraded = false;
  payload = object empty;
  key = windows_key;
}

unfoldable pub sample_record : Kind → ℤ → Sample → RecordDraft
sample_record kind ts s = record {
  provider = windows;
  kind = kind;
  ts = ts;
  degraded = s.degraded;
  payload = object (base_payload s);
  key = windows_key;
}

-- `now` is `Timestamp::now()`.
unfoldable pub tick_record : Sample → ℕ → Activity → InputDelta → ℤ → RecordDraft
tick_record s tick_interval activity delta now =
    let intervals =
      insert (codes "tick_interval_sec") (number (pos tick_interval)) (base_payload s) in
    let idle = insert (codes "idle_sec") (number activity.idle_sec) intervals in
    let inputs =
      insert (codes "mouse_delta") (number (pos delta.mouse))
        (insert (codes "keys_delta") (number (pos delta.keys)) idle) in
    let states = insert (codes "display_asleep") (bool activity.display_asleep) (
      insert (codes "screen_locked") (bool activity.screen_locked)
        (insert (codes "mic_active") (bool activity.mic_active) inputs)) in
    record {
      provider = windows;
      kind = tick;
      ts = now;
      degraded = s.degraded;
      payload = object states;
      key = windows_key;
    }

-- What one sample reads of the system.
pub record Sources (f : Floats) : Type 0 where
  pub windows : List (WindowEntry f)
  pub displays : List (DisplayEntry f)
  pub frontmost : Option RunningApplication
  pub bundle_id : ℕ → ℤ → Option Text
  pub cursor_display : Option ℕ
  pub focused_window : ℤ → FocusedWindow
  pub window_title : ℕ → ℤ → WindowTitle
  pub activity : Activity
  pub details : Text → Fields

-- The maps of `visible_entries`, and how many questions were asked.
pub record Looked : Type 0 where
  pub bundles : List (ℤ × Option Text)
  pub titles : List (ℤ × WindowTitle)
  pub asked : ℕ

unfoldable pub title_of : WindowTitle → Option Text × Option Text
title_of (sole title) = (title, none)
title_of ambiguous = (none, some ambiguous_reason)
title_of untold = (none, none)

unfoldable pub is_focused : ℤ → Option ℕ → ℤ → ℕ → Bool
is_focused focused_pid none pid window_number = false
is_focused focused_pid (some focused_window) pid window_number =
    same_pid pid focused_pid && window_number == focused_window

unfoldable pub entry_of : Text → Option Text → Option Text → Option Text → ℕ → ℕ → Value
entry_of app bundle_id title reason display z = object (
    field (codes "app") (string app) (
      field (codes "bundle_id") (optional bundle_id) (
        field (codes "title") (optional title) (
          field (codes "title_reason") (optional reason) (
            field (codes "display") (number (pos display))
              (field (codes "z") (number (pos z)) empty))))))

module _ (f : Floats) where
  unfoldable pub front_window : List (WindowEntry f) → ℤ → Option (WindowEntry f)
  front_window [] pid = none
  front_window (w ∷ ws) pid =
      if is_zero f w.layer && same_pid w.owner_pid pid then some w else front_window ws pid

  unfoldable pub display_for : List (VisibleWindow f) → ℤ → Option ℕ
  display_for [] pid = none
  display_for (v ∷ vs) pid =
      if same_pid v.window.owner_pid pid then some v.display else display_for vs pid

  -- `bundles.entry(pid).or_insert_with(..)`
  unfoldable pub bundle_of : Sources f → ℤ → Looked → Option Text × Looked
  bundle_of sources pid s = elim (get_pid pid s.bundles) [
    | some bundle_id ↦ (bundle_id, s)
    | none ↦
        let bundle_id = sources.bundle_id s.asked pid in
        (bundle_id, record s { bundles = (pid, bundle_id) ∷ s.bundles; asked = suc s.asked })
  ]

  -- `titles.entry(pid).or_insert_with(..)`
  unfoldable pub lookup_title : Sources f → ℤ → Looked → WindowTitle × Looked
  lookup_title sources pid s = elim (get_pid pid s.titles) [
    | some title ↦ (title, s)
    | none ↦
        let title = sources.window_title s.asked pid in
        (title, record s { titles = (pid, title) ∷ s.titles; asked = suc s.asked })
  ]

  unfoldable pub entry_title :
      Sources f → Bool → Option Text → ℤ → Looked → (Option Text × Option Text) × Looked
  unfolding title_of
  entry_title sources true focused_title pid s = ((focused_title, none), s)
  entry_title sources false focused_title pid s =
      let (title, s') = lookup_title sources pid s in (title_of title, s')

  unfoldable pub entries_loop :
      Sources f → ℤ → Option ℕ → Option Text → List (VisibleWindow f) → Looked → List Value
  entries_loop sources focused_pid focused_window focused_title [] s = []
  entries_loop sources focused_pid focused_window focused_title (v ∷ vs) s =
      let w = v.window in
      let (bundle_id, s') = bundle_of sources w.owner_pid s in
      let ((title, reason), s'') =
        entry_title sources (is_focused focused_pid focused_window w.owner_pid w.window_number)
          focused_title w.owner_pid s' in
      entry_of w.owner_name bundle_id title reason v.display w.z
      ∷ entries_loop sources focused_pid focused_window focused_title vs s''

  unfoldable pub visible_entries :
      Sources f → List (VisibleWindow f) → ℤ → Option ℕ → Option Text → ℕ → List Value
  visible_entries sources visible focused_pid focused_window focused_title asked =
      entries_loop sources focused_pid focused_window focused_title visible
        (record { bundles = []; titles = []; asked = asked })

  application_of : Sources f → Option RunningApplication → Option RunningApplication
  application_of sources none = sources.frontmost
  application_of sources (some application) =
      if is_lock_screen application then sources.frontmost else some application

  app_name : Option Text → Option (WindowEntry f) → Text
  app_name (some name) front = name
  app_name none none = []
  app_name none (some front) = front.owner_name

  -- The identifier of the bundle, and how many questions were asked for it.
  named_bundle : Sources f → ℤ → Option Text → Text × ℕ
  named_bundle sources pid (some bundle_id) = (bundle_id, 0)
  named_bundle sources pid none = (unwrap_or (sources.bundle_id 0 pid) [], 1)

  is_degraded : FocusedWindow → Option (WindowEntry f) → Bool
  is_degraded (window title path) front = false
  is_degraded absent none = false
  is_degraded absent (some front) = true
  is_degraded unavailable front = true

  title_and_path : FocusedWindow → Option Text × Option Text
  title_and_path (window title path) = (title, path)
  title_and_path absent = (none, none)
  title_and_path unavailable = (none, none)

  number_of : Option (WindowEntry f) → Option ℕ
  number_of none = none
  number_of (some front) = some front.window_number

  details_of : Sources f → Text → Fields
  details_of sources [] = empty
  details_of sources (c ∷ bundle_id) = sources.details (c ∷ bundle_id)

  -- A sample of an application that is in front.
  sample_of : Sources f → RunningApplication → Sample
  unfolding app_name named_bundle is_degraded title_and_path number_of details_of
  sample_of sources application =
      let visible = visible_windows f sources.windows sources.displays in
      let front = front_window sources.windows application.pid in
      let (bundle_id, asked) = named_bundle sources application.pid application.bundle_id in
      let focused = sources.focused_window application.pid in
      let (title, path) = title_and_path focused in
      record {
        app = app_name application.name front;
        bundle_id = bundle_id;
        title = title;
        path = path;
        details = details_of sources bundle_id;
        display =
            unwrap_or (display_for visible application.pid) (unwrap_or sources.cursor_display 0);
        visible = visible_entries sources visible application.pid (number_of front) title asked;
        degraded = is_degraded focused front;
      }

  unfoldable pub assemble : Sources f → Option RunningApplication → Option Sample
  unfolding application_of sample_of
  assemble sources activated = elim (application_of sources activated) [
    | none ↦ none
    | some application ↦ some (sample_of sources application)
  ]

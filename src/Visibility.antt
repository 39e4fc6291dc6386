-- ===== src/Visibility.antt =====
-- src/window/visibility.rs: which windows are visible and on which display, and the rectangles of
-- src/macos/window_list.rs. Numbers with a point are a parameter.
pub mod Overlap
pub mod Best
pub mod Tests
use nikki.Prelude.{
  ℕ, Bool, true, false, not, Option, none, some, List, [], ◌∷◌, Text, ℤ, pos, ltb, ◌||◌, ◌&&◌,
  if◌then◌else◌,
}

-- `f64`: its zero and its literals, its operations, and its comparisons `<`, `<=` and `==`.
pub record Floats : Type 1 where
  pub Float : Type 0
  pub zero_float : Float
  -- The number that a numerator and a denominator stand for, as a literal of the source is read.
  pub literal : ℕ → ℕ → Float
  pub add : Float → Float → Float
  pub sub : Float → Float → Float
  pub mul : Float → Float → Float
  pub max_float : Float → Float → Float
  pub min_float : Float → Float → Float
  pub lt : Float → Float → Bool
  pub le : Float → Float → Bool
  pub eq : Float → Float → Bool

module _ (f : Floats) where
  -- `VISIBLE_AREA_FRACTION`, 0.2
  abbrev pub visible_area_fraction : f.Float
  visible_area_fraction = f.literal 2 10

  pub record Rect : Type 0 where
    pub x : f.Float
    pub y : f.Float
    pub width : f.Float
    pub height : f.Float

  unfoldable pub area : Rect → f.Float
  area r = f.mul (f.max_float r.width f.zero_float) (f.max_float r.height f.zero_float)

  unfoldable pub intersection_area : Rect → Rect → f.Float
  intersection_area r other =
      let left = f.max_float r.x other.x in
      let right = f.min_float (f.add r.x r.width) (f.add other.x other.width) in
      let top = f.max_float r.y other.y in
      let bottom = f.min_float (f.add r.y r.height) (f.add other.y other.height) in
      let width = f.sub right left in
      let height = f.sub bottom top in
      if f.le width f.zero_float || f.le height f.zero_float
      then f.zero_float
      else f.mul width height

  pub record WindowEntry : Type 0 where
    pub owner_pid : ℤ
    pub owner_name : Text
    pub window_number : ℕ
    pub bounds : Rect
    pub layer : ℤ
    pub z : ℕ

  pub record DisplayEntry : Type 0 where
    pub index : ℕ
    pub bounds : Rect

  pub record VisibleWindow : Type 0 where
    pub window : WindowEntry
    pub display : ℕ

  -- The display whose overlap is weighed against the best so far.
  unfoldable pub weigh : ℕ → f.Float → Option (ℕ × f.Float) → Option (ℕ × f.Float)
  weigh index overlap none = some (index, overlap)
  weigh index overlap (some (best_index, best_overlap)) =
      if f.lt best_overlap overlap || f.eq overlap best_overlap && ltb index best_index
      then some (index, overlap)
      else some (best_index, best_overlap)

  -- The loop over the displays.
  unfoldable pub best_loop :
      Rect → f.Float → List DisplayEntry → Option (ℕ × f.Float) → Option (ℕ × f.Float)
  best_loop bounds threshold [] best = best
  best_loop bounds threshold (d ∷ displays) best =
      let overlap = intersection_area bounds d.bounds in
      best_loop bounds threshold displays
        (if f.lt overlap threshold then best else weigh d.index overlap best)

  index_of : Option (ℕ × f.Float) → Option ℕ
  index_of none = none
  index_of (some (index, overlap)) = some index

  unfoldable pub best_display : Rect → List DisplayEntry → Option ℕ
  unfolding index_of
  best_display bounds displays =
      if f.le (area bounds) f.zero_float
      then none
      else index_of (best_loop bounds (f.mul (area bounds) visible_area_fraction) displays none)

  unfoldable pub is_zero : ℤ → Bool
  is_zero (pos n) = ltb n 1
  is_zero _ = false

  -- The loop of `visible_windows`.
  unfoldable pub visible_windows : List WindowEntry → List DisplayEntry → List VisibleWindow
  visible_windows [] displays = []
  visible_windows (window ∷ windows) displays =
      let rest = visible_windows windows displays in
      if is_zero window.layer
      then elim (best_display window.bounds displays) [
        | none ↦ rest
        | some display ↦ record { window = window; display = display } ∷ rest
      ]
      else rest

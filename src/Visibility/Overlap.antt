-- ===== src/Visibility/Overlap.antt =====
-- src/macos/window_list.rs: the area of a rectangle and of what two of them share, which
-- src/window/visibility.rs weighs.
use nikki.Prelude.{
  ℕ, ◌≤◌, ◌<◌, ◌≡◌, ◌⊎◌, ◌↔◌, refl, inl, inr, true, false, arith, ltb, ◌==◌, Bool-cases, ◌||◌,
  if◌then◌else◌,
}
use nikki.Visibility.{Floats, Rect, area, intersection_area}

module _ (f : Floats) (is_number : f.Float → Type 0) where
  -- The comparisons on values that are numbers are those of a total order, in which `max` and `min` pick the
  -- larger and the smaller, and zero is a number.
  pub record IsOrder : Type 0 where
    pub rank : f.Float → ℕ
    pub zero_number : is_number f.zero_float
    pub lt_lem : (a b : f.Float) → is_number a → is_number b → f.lt a b ≡ ltb (rank a) (rank b)
    pub eq_lem : (a b : f.Float) → is_number a → is_number b → f.eq a b ≡ (rank a == rank b)
    pub max_lem :
        (a b : f.Float)
        → is_number a
        → is_number b
        → ((f.max_float a b ≡ a) × (rank b ≤ rank a)) ⊎ ((f.max_float a b ≡ b) × (rank a ≤ rank b))
    pub min_lem :
        (a b : f.Float)
        → is_number a
        → is_number b
        → ((f.min_float a b ≡ a) × (rank a ≤ rank b)) ⊎ ((f.min_float a b ≡ b) × (rank b ≤ rank a))

  -- The corners and the sizes of a rectangle are numbers.
  pub record IsMeasured (r : Rect f) : Type 0 where
    pub left : is_number r.x
    pub top : is_number r.y
    pub width : is_number r.width
    pub height : is_number r.height
    pub right : is_number (f.add r.x r.width)
    pub bottom : is_number (f.add r.y r.height)

  module _ (order : IsOrder) where
    -- A side: the size, or zero in place of one below it.
    abbrev pub IsSide : f.Float → f.Float → Type 0
    IsSide size side =
        ((side ≡ size) × (order.rank f.zero_float ≤ order.rank size))
        ⊎ ((side ≡ f.zero_float) × (order.rank size ≤ order.rank f.zero_float))

    abbrev pub IsArea : Rect f → f.Float → Type 0
    IsArea r a =
        (width : f.Float) × (height : f.Float) × IsSide r.width width
        × IsSide r.height height
        × (a ≡ f.mul width height)

    -- A number lies between the two, the lower one included.
    abbrev pub IsBetween : f.Float → f.Float → f.Float → Type 0
    IsBetween a b p = (order.rank a ≤ order.rank p) × (order.rank p < order.rank b)

    -- What lies between a and b and between c and d is what lies between l and r.
    abbrev pub IsCut : f.Float → f.Float → f.Float → f.Float → f.Float → f.Float → Type 0
    IsCut a b c d l r = (p : f.Float) → (IsBetween a b p × IsBetween c d p) ↔ IsBetween l r p

    -- The product of two sides, zero when one of them is not positive.
    abbrev pub IsProduct : f.Float → f.Float → f.Float → Type 0
    IsProduct width height value =
        (((f.le width f.zero_float ≡ true) ⊎ (f.le height f.zero_float ≡ true))
          × (value ≡ f.zero_float))
        ⊎ ((f.le width f.zero_float ≡ false)
            × (f.le height f.zero_float ≡ false)
            × (value ≡ f.mul width height))

    -- The area of the rectangle of the points that are in both rectangles.
    pub record IsOverlap (r o : Rect f) (overlap : f.Float) : Type 0 where
      pub left : f.Float
      pub right : f.Float
      pub top : f.Float
      pub bottom : f.Float
      pub across : IsCut r.x (f.add r.x r.width) o.x (f.add o.x o.width) left right
      pub down : IsCut r.y (f.add r.y r.height) o.y (f.add o.y o.height) top bottom
      pub value : IsProduct (f.sub right left) (f.sub bottom top) overlap

    pub area-IsArea : (r : Rect f) → IsMeasured r → IsArea r (area f r)
    unfolding area
    area-IsArea r m = (
      f.max_float r.width f.zero_float,
      f.max_float r.height f.zero_float,
      order.max_lem r.width f.zero_float m.width order.zero_number,
      order.max_lem r.height f.zero_float m.height order.zero_number,
      refl,
    )

    product_lem :
        (width height : f.Float)
        → IsProduct width height (
            if f.le width f.zero_float || f.le height f.zero_float
            then f.zero_float
            else f.mul width height)
    product_lem width height = elim (Bool-cases (f.le width f.zero_float)) [
      | inl flat ↦ rw flat (inl (inl refl, refl))
      | inr wide ↦ elim (Bool-cases (f.le height f.zero_float)) [
        | inl flat ↦ rw (wide, flat) (inl (inr refl, refl))
        | inr high ↦ rw (wide, high) (inr (refl, refl, refl))
      ]
    ]

    max-rank :
        (a b : f.Float)
        → is_number a
        → is_number b
        → (n : ℕ) → (order.rank (f.max_float a b) ≤ n) ↔ ((order.rank a ≤ n) × (order.rank b ≤ n))
    max-rank a b ha hb n = elim (order.max_lem a b ha hb) [
      | inl (at, le) ↦ rw at (omega (arith, le))
      | inr (at, le) ↦ rw at (omega (arith, le))
    ]

    min-rank :
        (a b : f.Float)
        → is_number a
        → is_number b
        → (n : ℕ) → (n < order.rank (f.min_float a b)) ↔ ((n < order.rank a) × (n < order.rank b))
    min-rank a b ha hb n = elim (order.min_lem a b ha hb) [
      | inl (at, le) ↦ rw at (omega (arith, le))
      | inr (at, le) ↦ rw at (omega (arith, le))
    ]

    max-min-IsCut :
        (a b c d : f.Float)
        → is_number a
        → is_number b
        → is_number c
        → is_number d
        → IsCut a b c d (f.max_float a c) (f.min_float b d)
    max-min-IsCut a b c d ha hb hc hd p =
        let lower = max-rank a c ha hc (order.rank p) in
        let upper = min-rank b d hb hd (order.rank p) in
        (
          λ h. (lower.1 (h.0.0, h.1.0), upper.1 (h.0.1, h.1.1)),
          λ h. let l = lower.0 h.0 in let u = upper.0 h.1 in ((l.0, u.0), (l.1, u.1)),
        )

    pub intersection_area-IsOverlap :
        (r o : Rect f) → IsMeasured r → IsMeasured o → IsOverlap r o (intersection_area f r o)
    unfolding intersection_area
    intersection_area-IsOverlap r o m n = record {
      left = f.max_float r.x o.x;
      right = f.min_float (f.add r.x r.width) (f.add o.x o.width);
      top = f.max_float r.y o.y;
      bottom = f.min_float (f.add r.y r.height) (f.add o.y o.height);
      across = max-min-IsCut r.x _ o.x _ m.left m.right n.left n.right;
      down = max-min-IsCut r.y _ o.y _ m.top m.bottom n.top n.bottom;
      value = product_lem _ _;
    }

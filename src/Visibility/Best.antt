-- ===== src/Visibility/Best.antt =====
-- src/window/visibility.rs: which display `best_display` finds.
use nikki.Prelude.{
  ℕ, ◌≤◌, ◌<◌, ◌≡◌, ◌⊎◌, refl, sym, ◌∙◌, inl, inr, true, false, Option, none, some, List, [], ◌∷◌,
  arith, ltb, ◌==◌, ◌||◌, ◌&&◌, All, Bool-cases,
}
use nikki.Visibility.{
  Floats, visible_area_fraction, Rect, area, intersection_area, DisplayEntry, weigh, best_loop,
  best_display, index_of,
}
use nikki.Visibility.Overlap.{
  IsOrder, IsMeasured, IsArea, IsOverlap, area-IsArea, intersection_area-IsOverlap,
}

module _ (f : Floats) where
  module _ (is_number : f.Float → Type 0) (order : IsOrder f is_number) where
    -- The first is as good as the second: its overlap is larger, or as large and its index no larger.
    abbrev pub IsAtLeast : ℕ × f.Float → ℕ × f.Float → Type 0
    IsAtLeast (i, a) (j, b) =
        (order.rank b < order.rank a) ⊎ ((order.rank b ≡ order.rank a) × (i ≤ j))

    IsAtLeast-refl : (p : ℕ × f.Float) → IsAtLeast p p
    IsAtLeast-refl (i, a) = inr (refl, omega arith)

    IsAtLeast-trans : (p q r : ℕ × f.Float) → IsAtLeast p q → IsAtLeast q r → IsAtLeast p r
    IsAtLeast-trans (i, a) (j, b) (k, c) h l = grind (arith, h, l)

    better_rank :
        (i j a b : ℕ) → (ltb b a || a == b && ltb i j) ≡ true → (b < a) ⊎ ((b ≡ a) × (i ≤ j))
    better_rank i j a b h = grind (arith, h)

    worse_rank :
        (i j a b : ℕ) → (ltb b a || a == b && ltb i j) ≡ false → (a < b) ⊎ ((a ≡ b) × (j ≤ i))
    worse_rank i j a b h = grind (arith, h)

    -- Weighing keeps the better.
    weigh_lem :
        (i : ℕ) (a : f.Float) (j : ℕ) (b : f.Float)
        → is_number a
        → is_number b
        → (p : ℕ × f.Float) × (weigh f i a (some (j, b)) ≡ some p)
          × is_number p.1
          × IsAtLeast p (i, a)
          × IsAtLeast p (j, b)
          × ((p ≡ (i, a)) ⊎ (p ≡ (j, b)))
    unfolding weigh
    weigh_lem i a j b ha hb = elim (Bool-cases (f.lt b a || f.eq a b && ltb i j)) [
      | inl better ↦ (
        (i, a),
        rw (weigh, better) refl,
        ha,
        IsAtLeast-refl (i, a),
        better_rank i j (order.rank a) (order.rank b) (sym (ranks i a j b ha hb) ∙ better),
        inl refl,
      )
      | inr worse ↦ (
        (j, b),
        rw (weigh, worse) refl,
        hb,
        worse_rank i j (order.rank a) (order.rank b) (sym (ranks i a j b ha hb) ∙ worse),
        IsAtLeast-refl (j, b),
        inr refl,
      )
    ]
      where
        ranks :
            (i : ℕ) (a : f.Float) (j : ℕ) (b : f.Float)
            → is_number a
            → is_number b
            → (f.lt b a || f.eq a b && ltb i j)
              ≡ (ltb (order.rank b) (order.rank a) || order.rank a == order.rank b && ltb i j)
        ranks i a j b ha hb = λ k. order.lt_lem b a hb ha k || order.eq_lem a b ha hb k && ltb i j

    module _ (bounds : Rect f) (threshold : f.Float) where
      abbrev pub overlap : DisplayEntry f → f.Float
      overlap d = intersection_area f bounds d.bounds

      -- Too little of the window is on the display.
      abbrev pub IsBelow : DisplayEntry f → Type 0
      IsBelow d = f.lt (overlap d) threshold ≡ true

      -- One of the displays that are not below the threshold.
      abbrev pub IsAmong : ℕ × f.Float → List (DisplayEntry f) → Type 0
      IsAmong p [] = ⊥
      IsAmong p (d ∷ displays) =
          ((f.lt (overlap d) threshold ≡ false) × (p ≡ (d.index, overlap d))) ⊎ IsAmong p displays

      abbrev pub IsBest : ℕ × f.Float → List (DisplayEntry f) → Type 0
      IsBest p = All (λ d. IsBelow d ⊎ IsAtLeast p (d.index, overlap d))

      record Keeps (p q : ℕ × f.Float) (displays : List (DisplayEntry f)) : Type 0 where
        pub number : is_number q.1
        pub at_least : IsAtLeast q p
        pub best : IsBest q displays
        pub among : (q ≡ p) ⊎ IsAmong q displays

      best_loop-some :
          (displays : List (DisplayEntry f)) (p : ℕ × f.Float)
          → All (λ d. is_number (overlap d)) displays
          → is_number p.1
          → (q : ℕ × f.Float) × (best_loop f bounds threshold displays (some p) ≡ some q)
            × Keeps p q displays
      unfolding best_loop
      best_loop-some [] p numbers number = (
        p,
        refl,
        record { number = number; at_least = IsAtLeast-refl p; best = tt; among = inl refl },
      )
      best_loop-some (d ∷ displays) (j, b) numbers number =
          elim (Bool-cases (f.lt (overlap d) threshold)) [
            | inl below ↦
                let (q, found, keeps) = best_loop-some displays (j, b) numbers.1 number in
                (
                  q,
                  rw (best_loop, below) found,
                  record {
                    number = keeps.number;
                    at_least = keeps.at_least;
                    best = (inl below, keeps.best);
                    among = later d displays q (j, b) keeps.among;
                  },
                )
            | inr enough ↦
                let (p, weighed, is, better, as_good, either) =
                  weigh_lem d.index (overlap d) j b numbers.0 number in
                let (q, found, keeps) = best_loop-some displays p numbers.1 is in
                (
                  q,
                  rw (best_loop, enough, weighed) found,
                  record {
                    number = keeps.number;
                    at_least = IsAtLeast-trans q p (j, b) keeps.at_least as_good;
                    best = (
                      inr (IsAtLeast-trans q p (d.index, overlap d) keeps.at_least better),
                      keeps.best,
                    );
                    among = from d displays (j, b) p q enough either keeps.among;
                  },
                )
          ]
        where
          later :
              (d : DisplayEntry f) (displays : List (DisplayEntry f)) (q p : ℕ × f.Float)
              → (q ≡ p) ⊎ IsAmong q displays
              → (q ≡ p) ⊎ IsAmong q (d ∷ displays)
          later d displays q p (inl same) = inl same
          later d displays q p (inr there) = inr (inr there)

          from :
              (d : DisplayEntry f) (displays : List (DisplayEntry f)) (o p q : ℕ × f.Float)
              → f.lt (overlap d) threshold ≡ false
              → (p ≡ (d.index, overlap d)) ⊎ (p ≡ o)
              → (q ≡ p) ⊎ IsAmong q displays
              → (q ≡ o) ⊎ IsAmong q (d ∷ displays)
          from d displays o p q enough either (inr there) = inr (inr there)
          from d displays o p q enough (inl here) (inl same) = inr (inl (enough, same ∙ here))
          from d displays o p q enough (inr old) (inl same) = inl (same ∙ old)

      -- The loop finds nothing when every display is below the threshold, and the best of the others
      -- otherwise.
      abbrev Finds : List (DisplayEntry f) → Option (ℕ × f.Float) → Type 0
      Finds displays r =
          ((r ≡ none) × All IsBelow displays)
          ⊎ ((p : ℕ × f.Float) × (r ≡ some p) × IsAmong p displays × IsBest p displays)

      best_loop-Finds :
          (displays : List (DisplayEntry f))
          → All (λ d. is_number (overlap d)) displays
          → Finds displays (best_loop f bounds threshold displays none)
      unfolding best_loop weigh
      best_loop-Finds [] numbers = inl (refl, tt)
      best_loop-Finds (d ∷ displays) numbers = elim (Bool-cases (f.lt (overlap d) threshold)) [
        | inl below ↦ elim (best_loop-Finds displays numbers.1) [
          | inl (nothing, all) ↦ inl (rw (best_loop, below) nothing, (below, all))
          | inr (p, found, among, best) ↦
              inr (p, rw (best_loop, below) found, inr among, (inl below, best))
        ]
        | inr enough ↦
            let (q, found, keeps) =
              best_loop-some displays (d.index, overlap d) numbers.1 numbers.0 in
            inr (
              q,
              rw (best_loop, enough) found,
              first d displays q enough keeps.among,
              (inr keeps.at_least, keeps.best),
            )
      ]
        where
          first :
              (d : DisplayEntry f) (displays : List (DisplayEntry f)) (q : ℕ × f.Float)
              → f.lt (overlap d) threshold ≡ false
              → (q ≡ (d.index, overlap d)) ⊎ IsAmong q displays
              → IsAmong q (d ∷ displays)
          first d displays q enough (inl same) = inl (enough, same)
          first d displays q enough (inr there) = inr there

-- What `best_display` finds among the overlaps.
best_display-Chosen :
    (f : Floats) (is_number : f.Float → Type 0) (order : IsOrder f is_number) (bounds : Rect f)
    (displays : List (DisplayEntry f))
    → All (λ d. is_number (intersection_area f bounds d.bounds)) displays
    → ((best_display f bounds displays ≡ none)
        × ((f.le (area f bounds) f.zero_float ≡ true)
            ⊎ All
                (IsBelow f is_number order bounds (f.mul (area f bounds) (visible_area_fraction f)))
                displays))
      ⊎ ((p : ℕ × f.Float) × (best_display f bounds displays ≡ some p.0)
          × (f.le (area f bounds) f.zero_float ≡ false)
          × IsAmong f is_number order bounds
              (f.mul (area f bounds) (visible_area_fraction f))
              p
              displays
          × IsBest f is_number order bounds
              (f.mul (area f bounds) (visible_area_fraction f))
              p
              displays)
unfolding best_display index_of
best_display-Chosen f is_number order bounds displays numbers =
    elim (Bool-cases (f.le (area f bounds) f.zero_float)) [
      | inl flat ↦ inl (rw (best_display, flat) refl, inl flat)
      | inr solid ↦
          elim (best_loop-Finds f is_number order bounds
            (f.mul (area f bounds) (visible_area_fraction f)) displays numbers) [
              | inl (nothing, all) ↦ inl (rw (best_display, solid, nothing) refl, inr all)
              | inr (p, found, among, best) ↦
                  inr (p, rw (best_display, solid, found) refl, solid, among, best)
            ]
    ]

-- When the corners and sizes of a window and of the displays, and the overlaps, are numbers, on which the
-- comparisons are those of a total order and `max` and `min` pick one of two by it. The area of the window is
-- the product of its sides, zero for a negative one, and its overlap with a display is the area of the
-- rectangle of the points that are in both, zero when a side of that is not positive. A window without area is
-- on no display. Any other is on none if each of its overlaps is below 0.2 times its area, and otherwise on
-- one of the displays where it is not, the one of the largest overlap, and of those of the same overlap the
-- one of the lowest index.
pub best_display_lem :
    (f : Floats) (is_number : f.Float → Type 0) (order : IsOrder f is_number) (bounds : Rect f)
    (displays : List (DisplayEntry f))
    → IsMeasured f is_number bounds
    → All (λ d. IsMeasured f is_number d.bounds) displays
    → All (λ d. is_number (intersection_area f bounds d.bounds)) displays
    → IsArea f is_number order bounds (area f bounds)
      × All
          (λ d. IsOverlap f is_number order bounds d.bounds (intersection_area f bounds d.bounds))
          displays
      × (((best_display f bounds displays ≡ none)
            × ((f.le (area f bounds) f.zero_float ≡ true)
                ⊎ All
                    (IsBelow f is_number order bounds (f.mul (area f bounds) (f.literal 2 10)))
                    displays))
          ⊎ ((p : ℕ × f.Float) × (best_display f bounds displays ≡ some p.0)
              × (f.le (area f bounds) f.zero_float ≡ false)
              × IsAmong f is_number order bounds (f.mul (area f bounds) (f.literal 2 10)) p displays
              × IsBest f is_number order bounds
                  (f.mul (area f bounds) (f.literal 2 10))
                  p
                  displays))
best_display_lem f is_number order bounds displays measured all numbers = (
  area-IsArea f is_number order bounds measured,
  overlaps displays all,
  best_display-Chosen f is_number order bounds displays numbers,
)
  where
    overlaps :
        (ds : List (DisplayEntry f))
        → All (λ d. IsMeasured f is_number d.bounds) ds
        → All
            (λ d. IsOverlap f is_number order bounds d.bounds (intersection_area f bounds d.bounds))
            ds
    overlaps [] h = tt
    overlaps (d ∷ ds) h = (
      intersection_area-IsOverlap f is_number order bounds d.bounds measured h.0,
      overlaps ds h.1,
    )

-- ===== src/Visibility/Tests.antt =====
-- Numbers of tenths for the numbers with a point, two displays, and the theorem about them.
use nikki.Prelude.{
  ℕ, ◌+◌, ◌-◌, ◌*◌, ◌/◌, ◌≤◌, ◌≡◌, ◌⊎◌, refl, arith, true, false, none, some, List, [], ◌∷◌, ltb,
  leb, ◌==◌, max, min, All,
}
use nikki.Visibility.{
  Floats, Rect, DisplayEntry, area, intersection_area, best_loop, weigh, best_display,
}
use nikki.Visibility.Overlap.{IsOrder, IsMeasured, IsArea, IsOverlap}
use nikki.Visibility.Best.{IsBelow, IsAmong, IsBest, best_display_lem}

abbrev pub whole : Floats
whole = record {
  Float = ℕ;
  zero_float = 0;
  literal = λ n d. n * 10 / d;
  add = λ a b. a + b;
  sub = λ a b. a - b;
  mul = λ a b. a * b / 10;
  max_float = max;
  min_float = min;
  lt = ltb;
  le = leb;
  eq = λ a b. a == b;
}

abbrev IsAny : ℕ → Type 0
IsAny n = Unit

whole-IsOrder : IsOrder whole IsAny
whole-IsOrder = record {
  rank = λ n. n;
  zero_number = tt;
  lt_lem = λ a b h k. refl;
  eq_lem = λ a b h k. refl;
  max_lem = λ a b h k. max-either a b;
  min_lem = λ a b h k. min-either a b;
}
  where
    max-either : (a b : ℕ) → ((max a b ≡ a) × (b ≤ a)) ⊎ ((max a b ≡ b) × (a ≤ b))
    max-either a b = ground arith

    min-either : (a b : ℕ) → ((min a b ≡ a) × (a ≤ b)) ⊎ ((min a b ≡ b) × (b ≤ a))
    min-either a b = ground arith

-- A tenth of the window is on the first display, and the rest on the second.
abbrev window : Rect whole
window = record { x = 90; y = 0; width = 100; height = 20 }

abbrev displays : List (DisplayEntry whole)
displays =
    record { index = 0; bounds = record { x = 0; y = 0; width = 100; height = 100 } }
    ∷ record { index = 1; bounds = record { x = 100; y = 0; width = 100; height = 100 } }
    ∷ []

any-IsMeasured : (r : Rect whole) → IsMeasured whole IsAny r
any-IsMeasured r = record { left = tt; top = tt; width = tt; height = tt; right = tt; bottom = tt }

best_display_example :
    IsArea whole IsAny whole-IsOrder window (area whole window)
    × All
        (λ d.
          IsOverlap whole IsAny whole-IsOrder window d.bounds
            (intersection_area whole window d.bounds))
        displays
    × (((best_display whole window displays ≡ none)
          × ((leb (area whole window) 0 ≡ true)
              ⊎ All
                  (IsBelow whole IsAny whole-IsOrder window (area whole window * 2 / 10))
                  displays))
        ⊎ ((p : ℕ × ℕ) × (best_display whole window displays ≡ some p.0)
            × (leb (area whole window) 0 ≡ false)
            × IsAmong whole IsAny whole-IsOrder window (area whole window * 2 / 10) p displays
            × IsBest whole IsAny whole-IsOrder window (area whole window * 2 / 10) p displays))
best_display_example =
    best_display_lem whole IsAny whole-IsOrder window displays (any-IsMeasured window)
      (any-IsMeasured _, (any-IsMeasured _, tt)) (tt, (tt, tt))

-- The second display is found.
on_the_second : best_display whole window displays ≡ some 1
unfolding best_display best_loop intersection_area area weigh
on_the_second = refl

-- ===== src/Windows/Counters.antt =====
-- src/macos/activity.rs: the deltas of counters that wrap around.
use nikki.Prelude.{
  ℕ, ◌+◌, ◌-◌, ◌%◌, ◌^◌, ◌≤◌, ◌<◌, ◌≡◌, refl, ap, none, some, List, [], ◌∷◌, map, arith,
}
use nikki.Windows.{InputCounters, InputDelta, wrapping_sub, advance, deltas}

-- What the system counts in 32 bits, from the number of keys and of mouse events so far.
abbrev pub reading : ℕ × ℕ → InputCounters
reading (k, m) = record { keys = k % 2 ^ 32; mouse = m % 2 ^ 32 }

-- The numbers of events from one sample to the next.
abbrev pub differences : ℕ × ℕ → List (ℕ × ℕ) → List InputDelta
differences (k, m) [] = []
differences (k, m) ((l, n) ∷ rest) =
    record { keys = l - k; mouse = n - m } ∷ differences (l, n) rest

-- Each number is at least the one before, and fewer than 2 ^ 32 events lie between two samples.
abbrev pub IsCounting : ℕ × ℕ → List (ℕ × ℕ) → Type 0
IsCounting (k, m) [] = Unit
IsCounting (k, m) ((l, n) ∷ rest) =
    (k ≤ l) × (l < k + 2 ^ 32) × (m ≤ n) × (n < m + 2 ^ 32) × IsCounting (l, n) rest

wrapping_sub-mod :
    (a b : ℕ) → a ≤ b → b < a + 2 ^ 32 → wrapping_sub (b % 2 ^ 32) (a % 2 ^ 32) ≡ b - a
unfolding wrapping_sub
wrapping_sub-mod a b h k = omega arith

deltas-after :
    (c : ℕ × ℕ) (cs : List (ℕ × ℕ))
    → IsCounting c cs
    → deltas (some (reading c)) (map reading cs) ≡ differences c cs
unfolding deltas advance
deltas-after (k, m) [] h = refl
deltas-after (k, m) ((l, n) ∷ rest) (kl, ll, mn, nn, h) = λ i.
    record { keys = wrapping_sub-mod k l kl ll i; mouse = wrapping_sub-mod m n mn nn i }
    ∷ deltas-after (l, n) rest h i

-- The first sample reports nothing, and each later one reports exactly the events since the sample
-- before it, although the counters wrap around, as long as those are fewer than 2 ^ 32.
pub deltas-reading :
    (c : ℕ × ℕ) (cs : List (ℕ × ℕ))
    → IsCounting c cs
    → deltas none (map reading (c ∷ cs)) ≡ record { keys = 0; mouse = 0 } ∷ differences c cs
unfolding deltas advance
deltas-reading c cs h = ap (◌∷◌ (record { keys = 0; mouse = 0 })) (deltas-after c cs h)

-- ===== src/Prelude/Options.antt =====
-- Chains of options, and the parts of a list that satisfy a test.
use mathlib.Core.Option.{Option, none, some}

module _ {ℓ κ} {A : Type ℓ} {B : Type κ} where
  -- `Option::and_then`, and `?` and `let Some(a) = value else { return None }`
  abbrev pub and_then : Option A → (A → Option B) → Option B
  and_then none next = none
  and_then (some a) next = next a

module _ {ℓ} {A : Type ℓ} where
  -- `Option::unwrap_or`
  abbrev pub unwrap_or : Option A → A → A
  unwrap_or none a = a
  unwrap_or (some a) _ = a

  -- `Option::or`
  abbrev pub or_else : Option A → Option A → Option A
  or_else none b = b
  or_else (some a) b = some a

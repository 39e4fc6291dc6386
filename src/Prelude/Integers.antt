-- ===== src/Prelude/Integers.antt =====
-- Signed integers over the native numbers, under the library's names.
use Prim.Native.Nat.{ℕ, suc, ◌+◌, ◌-◌, ◌/◌, ◌^◌, ◌≤◌, ◌<◌}
use mathlib.Core.Path.{◌≡◌, refl, sym, ap, subst}
use mathlib.Core.Logic.{◌≢◌}
use mathlib.Core.Bool.{Bool}
use mathlib.Core.List.{◌∷◌}
use native.Mathlib.Omega.{arith}
use nikki.Prelude.Tests.{ltb, leb, if◌then◌else◌}
use nikki.Prelude.Texts.{Text, decimal, decimal-injective, decimal-IsDigits}
use nikki.Prelude.Lists.{All, All-mono}

-- `negsuc n` is -(n + 1).
pub data ℤ : Type 0 where
  pos : ℕ → ℤ
  negsuc : ℕ → ℤ

abbrev pub pos_part : ℤ → ℕ
pos_part (pos n) = n
pos_part (negsuc n) = 0

abbrev pub neg_part : ℤ → ℕ
neg_part (pos n) = 0
neg_part (negsuc n) = suc n

-- a - b, as an integer.
abbrev pub sub_ℕ : ℕ → ℕ → ℤ
sub_ℕ a b = if leb b a then pos (a - b) else negsuc (b - a - 1)

infixl 65 ◌+ℤ◌ ◌-ℤ◌
infix 50 ◌≤ℤ◌ ◌<ℤ◌
unfoldable pub ◌+ℤ◌ : ℤ → ℤ → ℤ
a +ℤ b = sub_ℕ (pos_part a + pos_part b) (neg_part a + neg_part b)

unfoldable pub ◌-ℤ◌ : ℤ → ℤ → ℤ
a -ℤ b = sub_ℕ (pos_part a + neg_part b) (neg_part a + pos_part b)

abbrev pub ◌≤ℤ◌ : ℤ → ℤ → Type 0
a ≤ℤ b = pos_part a + neg_part b ≤ pos_part b + neg_part a

abbrev pub ◌<ℤ◌ : ℤ → ℤ → Type 0
a <ℤ b = pos_part a + neg_part b < pos_part b + neg_part a

abbrev pub ltb_ℤ : ℤ → ℤ → Bool
ltb_ℤ a b = ltb (pos_part a + neg_part b) (pos_part b + neg_part a)

-- `i64::max`.
abbrev pub max_ℤ : ℤ → ℤ → ℤ
max_ℤ a b = if ltb_ℤ a b then b else a

-- Rust's `/` by a positive constant truncates towards zero.
unfoldable pub div_ℤ : ℤ → ℕ → ℤ
div_ℤ (pos n) d = pos (n / d)
div_ℤ (negsuc n) d = sub_ℕ 0 (suc n / d)

pub +ℤ_parts :
    (a b : ℤ)
    → pos_part (a +ℤ b) + neg_part a + neg_part b ≡ neg_part (a +ℤ b) + pos_part a + pos_part b
unfolding ◌+ℤ◌
+ℤ_parts a b = ground arith

pub -ℤ_parts :
    (a b : ℤ)
    → pos_part (a -ℤ b) + neg_part a + pos_part b ≡ neg_part (a -ℤ b) + pos_part a + neg_part b
unfolding ◌-ℤ◌
-ℤ_parts a b = ground arith

pub eq_of_parts : (a b : ℤ) → pos_part a + neg_part b ≡ pos_part b + neg_part a → a ≡ b
eq_of_parts a b h = ground arith

pub ruleset int_laws = (arith, +ℤ_parts, -ℤ_parts, eq_of_parts)

-- `to_string` on a signed integer.
unfoldable pub decimal_ℤ : ℤ → Text
decimal_ℤ (pos n) = decimal n
decimal_ℤ (negsuc n) = b'-' ∷ decimal (suc n)

-- The integers of an `i64`.
abbrev pub IsI64 : ℤ → Type 0
IsI64 a = (pos_part a < 2 ^ 63) × (neg_part a ≤ 2 ^ 63)

minus-decimal : (n : ℕ) (s : Text) → b'-' ∷ s ≢ decimal n
minus-decimal n s e =
    (omega (arith, (subst (All (λ c. (48 ≤ c) × (c ≤ 57))) (sym e) (decimal-IsDigits n)).0))

pub decimal_ℤ-injective : (a b : ℤ) → IsI64 a → IsI64 b → decimal_ℤ a ≡ decimal_ℤ b → a ≡ b
unfolding decimal_ℤ
decimal_ℤ-injective (pos n) (pos m) ha hb e =
    ap pos (decimal-injective n m (omega arith) (omega arith) e)
decimal_ℤ-injective (pos n) (negsuc m) ha hb e = absurd (minus-decimal n _ (sym e))
decimal_ℤ-injective (negsuc n) (pos m) ha hb e = absurd (minus-decimal m _ e)
decimal_ℤ-injective (negsuc n) (negsuc m) ha hb e =
    ground (arith, decimal-injective (suc n) (suc m))

-- Every byte of a decimal is a digit or the sign, so none is a control character.
pub decimal_ℤ-printable : (a : ℤ) → All (λ c. (45 ≤ c) × (c ≤ 57)) (decimal_ℤ a)
unfolding decimal_ℤ
decimal_ℤ-printable (pos n) =
    All-mono _ _ (λ c h. (omega arith, omega arith)) (decimal n) (decimal-IsDigits n)
decimal_ℤ-printable (negsuc n) = (
  (omega arith, omega arith),
  All-mono _ _ (λ c h. (omega arith, omega arith)) (decimal (suc n)) (decimal-IsDigits (suc n)),
)

truncates : div_ℤ (negsuc 1499) 1000 ≡ negsuc 0
unfolding div_ℤ
truncates = refl

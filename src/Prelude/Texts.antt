-- ===== src/Prelude/Texts.antt =====
-- Text as its UTF-8 bytes, which is what the source measures, joins and hashes.
use Prim.Native.Nat.{ℕ, zero, suc, ◌+◌, ◌-◌, ◌*◌, ◌/◌, ◌%◌, ◌^◌, ◌≤◌, ◌<◌}
use Prim.Native.Char.{code}
use Prim.Native.String.{String}
use mathlib.Core.Path.{◌≡◌, refl, ◌∙◌}
use mathlib.Core.Logic.{◌↔◌, ◌≢◌, inl, inr}
use mathlib.Core.Option.{Option, none, some}
use mathlib.Core.Bool.{Bool, true, false, ◌&&◌}
use mathlib.Core.List.{List, [], ◌∷◌, ◌++◌}
use native.Mathlib.Omega.{arith}
use nikki.Prelude.Tests.{◌==◌, ltb, leb, if◌then◌else◌, Bool-cases}
use nikki.Prelude.Lists.{All, length}

abbrev pub Text : Type 0
Text = List ℕ

-- The bytes of an ASCII literal.
abbrev pub codes : String → Text
codes String.[] = []
codes (String.◌∷◌ c s) = code c ∷ codes s

-- `==` on strings.
unfoldable pub text_eq : Text → Text → Bool
text_eq [] [] = true
text_eq (a ∷ s) (b ∷ t) = (a == b) && text_eq s t
text_eq _ _ = false

text_eq_sound : (s t : Text) → text_eq s t ≡ true → s ≡ t
unfolding text_eq
text_eq_sound [] [] h = refl
text_eq_sound [] (b ∷ t) h = cc
text_eq_sound (a ∷ s) [] h = cc
text_eq_sound (a ∷ s) (b ∷ t) h = ground (arith, text_eq_sound s t)

pub text_eq_refl : (s : Text) → text_eq s s ≡ true
unfolding text_eq
text_eq_refl [] = refl
text_eq_refl (a ∷ s) = ground (arith, text_eq_refl s)

pub text_eq_iff : (s t : Text) → (text_eq s t ≡ true) ↔ (s ≡ t)
text_eq_iff s t = (text_eq_sound s t, λ e. rw e (text_eq_refl t))

-- Decimal digits, most significant first; a number below `fuel` has its digits written.
digits : ℕ → ℕ → Text → Text
digits zero n out = out
digits (suc fuel) n out =
    let rest = digits fuel (n / 10) ((48 + n % 10) ∷ out) in
    if ltb n 10 then (48 + n) ∷ out else rest

-- `to_string` on an unsigned integer.
unfoldable pub decimal : ℕ → Text
unfolding digits
decimal n = digits (suc n) n []

-- `parse::<u64>`: an optional plus sign and digits, refused at 2 ^ 64.
scan : ℕ → Text → Option ℕ
scan n [] = some n
scan n (c ∷ s) =
    let rest = scan (n * 10 + (c - 48)) s in
    if leb 48 c && leb c 57 && ltb (n * 10 + (c - 48)) (2 ^ 64) then rest else none

unfoldable pub parse_u64 : Text → Option ℕ
unfolding scan
parse_u64 [] = none
parse_u64 (c ∷ []) = if c == 43 then none else scan 0 (c ∷ [])
parse_u64 (c ∷ d ∷ s) = if c == 43 then scan 0 (d ∷ s) else scan 0 (c ∷ d ∷ s)

-- A separator that a text lacks.
abbrev pub Lacks : ℕ → Text → Type 0
Lacks b = All (λ c. c ≢ b)

-- The first separator tells where the first text ends.
pub split_at_byte :
    (b : ℕ) (s t u v : Text) → Lacks b s → Lacks b t → s ++ b ∷ u ≡ t ++ b ∷ v → (s ≡ t) × (u ≡ v)
split_at_byte b [] [] u v hs ht e = (refl, cc)
split_at_byte b [] (c ∷ t) u v hs ht e = absurd (ground arith)
split_at_byte b (a ∷ s) [] u v hs ht e = absurd (ground arith)
split_at_byte b (a ∷ s) (c ∷ t) u v hs ht e =
    let (p, q) = split_at_byte b s t u v hs.1 ht.1 (cc) in (cc, q)

-- Two texts of the same length tell where they end, whatever follows.
pub split_at_length : (s t u v : Text) → length s ≡ length t → s ++ u ≡ t ++ v → (s ≡ t) × (u ≡ v)
split_at_length [] [] u v h e = (refl, e)
split_at_length [] (c ∷ t) u v h e = absurd (omega (arith, h))
split_at_length (a ∷ s) [] u v h e = absurd (omega (arith, h))
split_at_length (a ∷ s) (c ∷ t) u v h e =
    let (p, q) = split_at_length s t u v (omega (arith, h)) (cc) in (cc, q)

-- Scanning what is written before `out` multiplies the accumulator and adds the number.
scan-digits :
    (fuel n : ℕ) (out : Text) → n < fuel → n < 2 ^ 64 → scan 0 (digits fuel n out) ≡ scan n out
unfolding scan digits
scan-digits zero n out h b = elim h [ ]
scan-digits (suc fuel) n out h b = elim (Bool-cases (ltb n 10)) [
  | inl small ↦ rw small (ground arith)
  | inr big ↦ rw big (scan-digits fuel (n / 10) _ (ground arith) (omega arith) ∙ (ground arith))
]

-- Every byte that is written is a digit.
abbrev IsDigits : Text → Type 0
IsDigits = All (λ c. (48 ≤ c) × (c ≤ 57))

digits-IsDigits : (fuel n : ℕ) (out : Text) → IsDigits out → IsDigits (digits fuel n out)
unfolding digits
digits-IsDigits zero n out h = h
digits-IsDigits (suc fuel) n out h = elim (Bool-cases (ltb n 10)) [
  | inl small ↦ rw small ((ground arith), h)
  | inr big ↦ rw big (digits-IsDigits fuel (n / 10) _ ((omega arith), h))
]

digits-nonempty : (fuel n : ℕ) (c : ℕ) (s : Text) → digits fuel n (c ∷ s) ≢ []
unfolding digits
digits-nonempty zero n c s e = cc
digits-nonempty (suc fuel) n c s e = elim (Bool-cases (ltb n 10)) [
  | inl small ↦ ground arith
  | inr big ↦ digits-nonempty fuel (n / 10) (48 + n % 10) (c ∷ s) (rw big at e)
]

decimal-nonempty : (n : ℕ) → decimal n ≢ []
unfolding decimal
decimal-nonempty n e = elim (Bool-cases (ltb n 10)) [
  | inl small ↦ ground arith
  | inr big ↦ digits-nonempty n (n / 10) (48 + n % 10) [] (rw big at e)
]

pub decimal-IsDigits : (n : ℕ) → All (λ c. (48 ≤ c) × (c ≤ 57)) (decimal n)
unfolding decimal
decimal-IsDigits n = digits-IsDigits (suc n) n [] tt

parse_u64-eq-scan : (s : Text) → s ≢ [] → IsDigits s → parse_u64 s ≡ scan 0 s
unfolding parse_u64
parse_u64-eq-scan [] h d = absurd (h refl)
parse_u64-eq-scan (c ∷ []) h d = ground arith
parse_u64-eq-scan (c ∷ e ∷ s) h d = ground arith

-- What `to_string` writes, `parse::<u64>` reads back.
pub parse_u64-decimal : (n : ℕ) → n < 2 ^ 64 → parse_u64 (decimal n) ≡ some n
unfolding scan
parse_u64-decimal n h =
    parse_u64-eq-scan (decimal n) (decimal-nonempty n) (decimal-IsDigits n)
    ∙ (unfold decimal in scan-digits (suc n) n [] (omega arith) h)

pub decimal-injective : (n m : ℕ) → n < 2 ^ 64 → m < 2 ^ 64 → decimal n ≡ decimal m → n ≡ m
decimal-injective n m hn hm e = ground (arith, parse_u64-decimal n, parse_u64-decimal m)

decimal_2026 : decimal 2026 ≡ codes "2026"
unfolding decimal
decimal_2026 = refl

decimal_zero : decimal 0 ≡ codes "0"
unfolding decimal
decimal_zero = refl

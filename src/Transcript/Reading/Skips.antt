-- ===== src/Transcript/Reading/Skips.antt =====
-- src/providers/claude_code.rs: skipping by chunks finds what reading by bytes finds, however the reader
-- cuts the file into chunks.
use nikki.Prelude.{
  ℕ, zero, suc, ◌+◌, ◌-◌, ◌≤◌, ◌≡◌, ◌≢◌, refl, sym, ap, ◌∙◌, inl, inr, true, false, none, some,
  List, [], ◌∷◌, ◌++◌, Text, arith, All, length, take, min, ltb, ◌==◌, Bool-cases, Option-cases,
  Lacks, length-append, length-take,
}
use native.Mathlib.Numerals.{unary_clauses}
use nikki.Transcript.Reading.{
  ends_line, read_until, position, Skipped, skip_chunks, skip_through_newline, newline,
}

-- What is read through the newline, or up to the limit.
abbrev pub skipped_in : ℕ → Text → Skipped
skipped_in limit s = record {
  bytes = length (read_until limit s);
  reached_newline = ends_line (read_until limit s);
}

abbrev pub concat : List Text → Text
concat [] = []
concat (s ∷ ss) = s ++ concat ss

take-min : (m : ℕ) (s : Text) → take (min (length s) m) s ≡ take m s
take-min zero s = simp unary_clauses refl
take-min (suc m) [] = simp unary_clauses refl
take-min (suc m) (c ∷ s) = simp unary_clauses (ap (◌∷◌ c) (take-min m s))

position-none : (s : Text) → position s ≡ none → Lacks newline s
unfolding position
position-none [] h = tt
position-none (c ∷ s) h = elim (Bool-cases (c == newline)) [
  | inl same ↦ absurd (ground (arith, h))
  | inr other ↦ (ground (arith, other), position-none s (ground (arith, h, other)))
]

ends_line-append : (s t : Text) → Lacks newline s → ends_line (s ++ t) ≡ ends_line t
unfolding ends_line
ends_line-append [] t h = refl
ends_line-append (c ∷ []) [] h = ground (arith, h.0)
ends_line-append (c ∷ []) (d ∷ t) h = refl
ends_line-append (c ∷ d ∷ s) t h = ends_line-append (d ∷ s) t h.1

-- No newline in what is taken: the reading goes on behind it.
read_until-none :
    (m : ℕ) (s t : Text)
    → Lacks newline (take m s)
    → read_until m (s ++ t) ≡ take m s ++ read_until (m - length (take m s)) t
unfolding read_until
read_until-none zero s t h = refl
read_until-none (suc m) [] t h = simp unary_clauses refl
read_until-none (suc m) (c ∷ s) t h =
    simp unary_clauses (ground (arith, h.0, read_until-none m s t h.1))

ends_line-cons : (c : ℕ) (s : Text) → ends_line s ≡ true → ends_line (c ∷ s) ≡ true
unfolding ends_line
ends_line-cons c [] h = absurd (cc)
ends_line-cons c (d ∷ s) h = h

read_until-some :
    (m n : ℕ) (s t : Text)
    → position (take m s) ≡ some n
    → (length (read_until m (s ++ t)) ≡ n + 1) × (ends_line (read_until m (s ++ t)) ≡ true)
unfolding read_until position ends_line
read_until-some zero n s t h = absurd (cc)
read_until-some (suc m) n [] t h = absurd (cc)
read_until-some (suc m) n (c ∷ s) t h = elim (Bool-cases (c == newline)) [
  | inl same ↦ ground (arith, same, h)
  | inr other ↦ elim (Option-cases (position (take m s))) [
    | inl nowhere ↦ absurd (ground (arith, other, nowhere, h))
    | inr (k, there) ↦
        let found = read_until-some m k s t there in
        ground (arith, other, there, h, found.0, ends_line-cons c (read_until m (s ++ t)) found.1)
  ]
]

read_until_nil : (m : ℕ) → read_until m [] ≡ []
unfolding read_until
read_until_nil zero = refl
read_until_nil (suc m) = refl

-- Skipping from a number of bytes on, as reading through the newline within what the limit leaves.
abbrev skipped_from : ℕ → ℕ → Text → Skipped
skipped_from limit bytes s = record {
  bytes = bytes + length (read_until (limit - bytes) s);
  reached_newline = ends_line (read_until (limit - bytes) s);
}

-- The chunk holds no newline that the limit leaves in reach.
skipped_from-none :
    (limit bytes : ℕ) (chunk t : Text)
    → bytes ≤ limit
    → position (take (limit - bytes) chunk) ≡ none
    → skipped_from limit (bytes + min (length chunk) (limit - bytes)) t
      ≡ skipped_from limit bytes (chunk ++ t)
skipped_from-none limit bytes chunk t h nowhere =
    let m = limit - bytes in
    let lacks = position-none (take m chunk) nowhere in
    let whole = read_until-none m chunk t lacks in
    let left : limit - (bytes + min (length chunk) m) ≡ m - length (take m chunk) =
      omega (arith, h, length-take m chunk) in
    λ i. record {
      bytes = counts left whole i;
      reached_newline =
          (ap (λ n. ends_line (read_until n t)) left
              ∙ sym (ap ends_line whole ∙ ends_line-append (take m chunk) _ lacks))
            i;
    }
  where
    counts :
        limit - (bytes + min (length chunk) (limit - bytes))
          ≡ limit - bytes - length (take (limit - bytes) chunk)
        → read_until (limit - bytes) (chunk ++ t)
          ≡ take (limit - bytes) chunk
            ++ read_until (limit - bytes - length (take (limit - bytes) chunk)) t
        → bytes
            + min (length chunk) (limit - bytes)
            + length (read_until (limit - (bytes + min (length chunk) (limit - bytes))) t)
          ≡ bytes + length (read_until (limit - bytes) (chunk ++ t))
    counts left whole = rw left (
        omega (
          arith,
          length-take (limit - bytes) chunk,
          ap length whole,
          length-append (take (limit - bytes) chunk)
              (read_until (limit - bytes - length (take (limit - bytes) chunk)) t),
        ))

skip_chunks_lem :
    (limit bytes : ℕ) (chunks : List Text)
    → All (λ c. c ≢ []) chunks
    → bytes ≤ limit
    → skip_chunks limit bytes chunks ≡ skipped_from limit bytes (concat chunks)
unfolding skip_chunks ends_line read_until
skip_chunks_lem limit bytes [] full h =
    rw (read_until_nil (limit - bytes)) (λ i. record { bytes = plus i; reached_newline = false })
  where
    plus : bytes ≡ bytes + 0
    plus = omega arith
skip_chunks_lem limit bytes ([] ∷ chunks) full h = absurd (full.0 refl)
skip_chunks_lem limit bytes ((c ∷ cs) ∷ chunks) full h = elim (Bool-cases (ltb bytes limit)) [
  | inr out ↦ rw (out, limit_reached out) (λ i. record { bytes = plus i; reached_newline = false })
  | inl inside ↦ elim (Option-cases (position (take (limit - bytes) (c ∷ cs)))) [
    | inl nowhere ↦
        rw (inside, nonzero (length cs), take-min (limit - bytes) (c ∷ cs), nowhere)
          (skip_chunks_lem limit (bytes + min (length (c ∷ cs)) (limit - bytes)) chunks full.1
              (omega (arith, h))
            ∙ skipped_from-none limit bytes (c ∷ cs) (concat chunks) h nowhere)
    | inr (n, there) ↦
        let found = read_until-some (limit - bytes) n (c ∷ cs) (concat chunks) there in
        rw (inside, nonzero (length cs), take-min (limit - bytes) (c ∷ cs), there)
          (λ i. record { bytes = moved n found.0 i; reached_newline = sym found.1 i })
  ]
]
  where
    limit_reached : ltb bytes limit ≡ false → limit - bytes ≡ 0
    limit_reached out = ground (arith, out, h)

    nonzero : (n : ℕ) → (suc n == 0) ≡ false
    nonzero n = ground arith

    plus : bytes ≡ bytes + 0
    plus = omega arith

    moved :
        (n : ℕ)
        → length (read_until (limit - bytes) ((c ∷ cs) ++ concat chunks)) ≡ n + 1
        → bytes + n + 1 ≡ bytes + length (read_until (limit - bytes) ((c ∷ cs) ++ concat chunks))
    moved n e = omega (arith, e)

-- Skipping through the newline finds what reading byte by byte up to the limit finds: as many bytes,
-- and whether the last of them is a newline. This holds however the reader cuts what is left of the
-- file into chunks, as long as none of these is empty.
pub skip_through_newline_lem :
    (limit : ℕ) (chunks : List Text)
    → All (λ c. c ≢ []) chunks
    → skip_through_newline limit chunks ≡ skipped_in limit (concat chunks)
unfolding skip_through_newline
skip_through_newline_lem limit chunks full =
    skip_chunks_lem limit 0 chunks full (omega arith) ∙ λ i. record {
      bytes = zero_add i;
      reached_newline = ends_line (read_until (zero_sub i) (concat chunks));
    }
  where
    zero_sub : limit - 0 ≡ limit
    zero_sub = omega arith

    zero_add :
        0 + length (read_until (limit - 0) (concat chunks))
        ≡ length (read_until limit (concat chunks))
    zero_add = rw zero_sub (omega arith)

-- ===== src/Transcript/Shipping/Cursors.antt =====
-- src/providers/claude_code.rs: the keys of cursors, when a pull is due, and what is kept of its output.
use nikki.Prelude.{
  inl, inr, not, ltb_ℤ, ◌-ℤ◌, pos_part, ℕ, zero, suc, ◌+◌, ◌-◌, ◌*◌, ◌^◌, ◌≤◌, ◌<◌, ◌≡◌, ◌↔◌, refl,
  sym, ap, ◌∙◌, true, false, Option, none, some, List, [], ◌∷◌, ◌++◌, Text, codes, pos, arith,
  length, drop, drop-drop, drop-append, length-append, length-drop, ltb, ◌==◌, Bool-cases,
  if◌then◌else◌, decimal, decimal-injective, decimal-IsDigits, All-mono, Lacks, split_at_byte,
  split_at_length,
}
use mathlib.Core.List.{append_assoc, append-nil}
use nikki.Transcript.Shipping.{
  Outside, cursor_key, pull_due, wrap_i64, every_millis, i64_max, read_tail,
}

-- An absolute path, which starts with a slash.
abbrev pub IsAbsolute : Text → Type 0
IsAbsolute p = (q : Text) × (p ≡ 47 ∷ q)

-- A text that fits in memory.
abbrev pub Fits : Option Text → Type 0
Fits none = Unit
Fits (some device) = length device < 2 ^ 64

decimal-Lacks : (n : ℕ) → Lacks 58 (decimal n)
decimal-Lacks n =
    All-mono _ _ (λ c h e. omega (arith, h.0, h.1, e)) (decimal n) (decimal-IsDigits n)

append_cancel : (p s t : Text) → p ++ s ≡ p ++ t → s ≡ t
append_cancel [] s t h = h
append_cancel (c ∷ p) s t h = append_cancel p s t (cc)

device_path :
    (d e p q : Text)
    → length d < 2 ^ 64
    → length e < 2 ^ 64
    → codes "import-file:" ++ (decimal (length d) ++ (codes ":" ++ (d ++ (codes ":" ++ p))))
      ≡ codes "import-file:" ++ (decimal (length e) ++ (codes ":" ++ (e ++ (codes ":" ++ q))))
    → (p ≡ q) × (some d ≡ some e)
device_path d e p q hd he same =
    let (digits, rest) =
      split_at_byte 58 (decimal (length d)) (decimal (length e)) (d ++ (codes ":" ++ p))
        (e ++ (codes ":" ++ q)) (decimal-Lacks (length d)) (decimal-Lacks (length e))
        (append_cancel (codes "import-file:") _ _ same) in
    let (devices, rest') =
      split_at_length d e (codes ":" ++ p) (codes ":" ++ q)
        (decimal-injective (length d) (length e) hd he digits) rest in
    (append_cancel (codes ":") p q rest', ap some devices)

-- Two absolute paths have the same cursor key only if they are the same as far as UTF-8 can tell and belong
-- to the same device, or both to none.
pub cursor_key-injective :
    (o : Outside) (p q : Text) (d e : Option Text)
    → IsAbsolute (o.to_string_lossy p)
    → IsAbsolute (o.to_string_lossy q)
    → Fits d
    → Fits e
    → cursor_key o p d ≡ cursor_key o q e
    → (o.to_string_lossy p ≡ o.to_string_lossy q) × (d ≡ e)
unfolding cursor_key
cursor_key-injective o p q none none hp hq hd he same = (same, refl)
cursor_key-injective o p q none (some e) (p', hp) hq hd he same =
    absurd (starts p' _ (sym hp ∙ same))
  where
    starts : (s t : Text) → 47 ∷ s ≡ 105 ∷ t → ⊥
    starts s t h = ground arith
cursor_key-injective o p q (some d) none hp (q', hq) hd he same =
    absurd (starts q' _ (sym hq ∙ sym same))
  where
    starts : (s t : Text) → 47 ∷ s ≡ 105 ∷ t → ⊥
    starts s t h = ground arith
cursor_key-injective o p q (some d) (some e) hp hq hd he same =
    device_path d e (o.to_string_lossy p) (o.to_string_lossy q) hd he same

gap_of : (a b : ℕ) → b ≤ a → pos_part (pos a -ℤ pos b) ≡ a - b
unfolding ◌-ℤ◌
gap_of a b h = ground (arith, h)

wrap_small : (n : ℕ) → n ≤ i64_max → wrap_i64 n ≡ pos n
unfolding wrap_i64
wrap_small n h = ground (arith, h)

due_after :
    (gap every : ℕ)
    → gap < i64_max
    → (not (ltb_ℤ (pos gap) (pos (every_millis every))) ≡ true) ↔ (every * 1000 ≤ gap)
unfolding every_millis
due_after gap every h = (λ e. grind (arith, h, e), λ e. grind (arith, h, e))

-- With the clock and the last attempt at or after the epoch, and before the last moment that a timestamp can
-- name, a pull is due if and only if as many seconds as its period have passed since the last attempt.
pub pull_due_lem :
    (last_attempt now every : ℕ)
    → last_attempt < i64_max
    → now < i64_max
    → (pull_due (some (pos last_attempt)) (pos now) every ≡ true)
      ↔ (last_attempt + every * 1000 ≤ now)
unfolding pull_due
pull_due_lem last_attempt now every hl hn = elim (Bool-cases (ltb_ℤ (pos now) (pos last_attempt))) [
  | inl earlier ↦
      rw (pull_due, earlier) (λ h. absurd (cc), λ h. absurd (ground (arith, earlier, h)))
  | inr later ↦
      let ordered : last_attempt ≤ now = ground (arith, later) in
      let (there, back) = due_after (now - last_attempt) every (omega (arith, hn)) in
      rw
        (
          pull_due,
          later,
          gap_of now last_attempt ordered,
          wrap_small (now - last_attempt) (omega (arith, hn)),
        )
        (λ h. let k = there h in omega (arith, k, ordered), λ h. back (omega (arith, h)))
]

-- What a text of at most so many bytes keeps of a longer one: its end.
abbrev pub end_of : ℕ → Text → Text
end_of max_bytes s = drop (length s - max_bytes) s

drop_none : (n : ℕ) → [] ≡ drop {A = ℕ} n []
drop_none zero = refl
drop_none (suc n) = refl

-- What is read before the first chunk that is empty.
abbrev pub all_read : List Text → Text
all_read [] = []
all_read ([] ∷ chunks) = []
all_read ((c ∷ chunk) ∷ chunks) = (c ∷ chunk) ++ all_read chunks

end_of-append : (n : ℕ) (s t : Text) → end_of n (end_of n s ++ t) ≡ end_of n (s ++ t)
end_of-append n s t =
    ap (λ l. end_of n l) (sym (drop-append (length s - n) s t (omega arith)))
    ∙ drop-drop (length s - n) (length (drop (length s - n) (s ++ t)) - n) (s ++ t)
    ∙ ap (λ k. drop k (s ++ t))
        (omega (arith, length-drop (length s - n) (s ++ t), length-append s t))

cut : (n : ℕ) (s : Text) → (if ltb n (length s) then drop (length s - n) s else s) ≡ end_of n s
cut n s = elim (Bool-cases (ltb n (length s))) [
  | inl longer ↦ rw longer refl
  | inr short ↦ rw short (ap (λ k. drop k s) (none_cut (ground (arith, short))))
]
  where
    none_cut : length s ≤ n → 0 ≡ length s - n
    none_cut h = omega (arith, h)

read_tail-step :
    (n : ℕ) (t : Text) (c : ℕ) (chunk : Text) (chunks : List Text)
    → read_tail n t ((c ∷ chunk) ∷ chunks) ≡ read_tail n (end_of n (t ++ c ∷ chunk)) chunks
unfolding read_tail
read_tail-step n t c chunk chunks =
    rw (read_tail, some_bytes) (ap (λ s. read_tail n s chunks) (cut n (t ++ c ∷ chunk)))
  where
    some_bytes : (length (c ∷ chunk) == 0) ≡ false
    some_bytes = ground arith

read_tail-from :
    (n : ℕ) (s : Text) (chunks : List Text)
    → read_tail n (end_of n s) chunks ≡ end_of n (s ++ all_read chunks)
unfolding read_tail
read_tail-from n s [] = ap (end_of n) (sym (append-nil s))
read_tail-from n s ([] ∷ chunks) = ap (end_of n) (sym (append-nil s))
read_tail-from n s ((c ∷ chunk) ∷ chunks) =
    read_tail-step n (end_of n s) c chunk chunks
    ∙ ap (λ t. read_tail n t chunks) (end_of-append n s (c ∷ chunk))
    ∙ read_tail-from n (s ++ c ∷ chunk) chunks
    ∙ ap (end_of n) (append_assoc s (c ∷ chunk) (all_read chunks))

-- Of everything that the command writes, up to the first read that gives nothing, the last bytes are kept, and
-- no more than the limit.
pub read_tail_lem :
    (max_bytes : ℕ) (chunks : List Text)
    → (read_tail max_bytes [] chunks ≡ end_of max_bytes (all_read chunks))
      × (length (read_tail max_bytes [] chunks) ≤ max_bytes)
read_tail_lem max_bytes chunks =
    let kept : read_tail max_bytes [] chunks ≡ end_of max_bytes (all_read chunks) =
      ap (λ t. read_tail max_bytes t chunks) (none_of max_bytes)
      ∙ read_tail-from max_bytes [] chunks in
    (
      kept,
      omega (
        arith,
        ap length kept,
        length-drop (length (all_read chunks) - max_bytes) (all_read chunks),
      ),
    )
  where
    none_of : (n : ℕ) → [] ≡ end_of n []
    none_of n = drop_none (0 - n)

-- ===== src/Transcript/Shipping/Known.antt =====
-- src/providers/claude_code.rs: `cursor_for`, and what the provider knows of a cursor after it.
use nikki.Prelude.{
  ◌≡◌, ◌⊎◌, refl, ap, ◌∙◌, inl, inr, Option, none, some, List, ◌∷◌, Text, text_eq_refl,
  Option-cases,
}
use nikki.Transcript.{Externals, FileCursor}
use nikki.Transcript.Shipping.{
  Lookup, found, refused, Outside, ClaudeCodeProvider, Shipped, lookup, cursor_key, decode,
}
use nikki.Transcript.Shipping.Ticks.{asked_for, cursor_for}

module _ (x : Externals) (o : Outside) (path : Text) (reading : Shipped) where
  -- What `cursor_for` finds is known afterwards, and nothing is sent for it.
  pub record IsFound (cursor : Option FileCursor ⊎ Text) (s s' : ClaudeCodeProvider) : Type 0 where
    pub knows :
        (c : Option FileCursor)
        → cursor ≡ inl c
        → lookup (cursor_key o path reading.device) s'.known ≡ some c
    pub sent : s'.sent ≡ s.sent

  inl-injective :
      (c d : Option FileCursor) → ◌≡◌ {A = Option FileCursor ⊎ Text} (inl c) (inl d) → c ≡ d
  inl-injective c d h = cc

  inserted :
      (c d : Option FileCursor) (known : List (Text × Option FileCursor))
      → c ≡ d
      → lookup (cursor_key o path reading.device) ((cursor_key o path reading.device, c) ∷ known)
        ≡ some d
  unfolding lookup
  inserted c d known h = rw (text_eq_refl (cursor_key o path reading.device)) (ap some h)

  asked_for-IsFound :
      (answer : Lookup) (s : ClaudeCodeProvider)
      → IsFound
          (asked_for x o (cursor_key o path reading.device) answer s).0
          s
          (asked_for x o (cursor_key o path reading.device) answer s).1
  unfolding asked_for
  asked_for-IsFound (refused error) s = record { knows = λ c h. absurd (cc); sent = refl }
  asked_for-IsFound (found none) s = record {
    knows = λ c h. inserted none c s.known (inl-injective none c h);
    sent = refl;
  }
  asked_for-IsFound (found (some value)) s = record {
    knows = λ c h. inserted (decode o value) c s.known (inl-injective (decode o value) c h);
    sent = refl;
  }

  pub cursor_for-IsFound :
      (s : ClaudeCodeProvider)
      → IsFound (cursor_for x o path reading.device s).0 s (cursor_for x o path reading.device s).1
  unfolding cursor_for
  cursor_for-IsFound s = elim (Option-cases (lookup (cursor_key o path reading.device) s.known)) [
    | inl h ↦
        rw (cursor_for, h)
          (asked_for-IsFound (o.stored s.asked (cursor_key o path reading.device)) s)
    | inr (c, h) ↦
        rw (cursor_for, h)
          (record { knows = λ d k. h ∙ ap some (inl-injective c d k); sent = refl })
  ]

  pub cursor_for-known :
      (c : Option FileCursor) (s : ClaudeCodeProvider)
      → lookup (cursor_key o path reading.device) s.known ≡ some c
      → cursor_for x o path reading.device s ≡ (inl c, s)
  unfolding cursor_for
  cursor_for-known c s h = rw (cursor_for, h) refl

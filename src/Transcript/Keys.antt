-- ===== src/Transcript/Keys.antt =====
-- src/providers/claude_code.rs: drafts that no two of have the same key.
use nikki.Prelude.{ℕ, ◌≡◌, ◌≢◌, List, [], ◌∷◌, ◌++◌, Text, All, All-append, ◌≤◌}
use nikki.Record.{RecordDraft, claude_message, claude_touch}

-- A list no element of which is related to a later one.
abbrev pub HasDistinctKeys : List RecordDraft → Type 0
HasDistinctKeys [] = Unit
HasDistinctKeys (d ∷ ds) = All (λ e. d.key ≢ e.key) ds × HasDistinctKeys ds

-- A message of at least this block, and a touch.
abbrev pub IsMessage : Text → Text → ℕ → RecordDraft → Type 0
IsMessage sid uuid n d = (k : ℕ) × (n ≤ k) × (d.key ≡ claude_message sid uuid k)

abbrev pub IsTouch : RecordDraft → Type 0
IsTouch d =
    (sid : Text) × (uuid : Text) × (repo : Text) × (action : Text) × (d.key
      ≡ claude_touch sid uuid repo action)

pub HasDistinctKeys-append :
    (ds es : List RecordDraft)
    → HasDistinctKeys ds
    → HasDistinctKeys es
    → All (λ d. All (λ e. d.key ≢ e.key) es) ds
    → HasDistinctKeys (ds ++ es)
HasDistinctKeys-append [] es hd he apart = he
HasDistinctKeys-append (d ∷ ds) es hd he apart =
    (All-append _ ds es hd.0 apart.0, HasDistinctKeys-append ds es hd.1 he apart.1)

-- ===== src/Transcript/Values.antt =====
-- src/providers/claude_code.rs: what a line of a transcript holds.
use nikki.Prelude.{
  Bool, true, false, Option, none, some, List, [], ◌∷◌, Text, codes, text_eq, ℤ, ◌==◌, ◌&&◌,
  and_then, unwrap_or, if◌then◌else◌,
}
use nikki.Json.{Value, Items, Fields, object, string, array, bool, nil, item, get}
use nikki.Transcript.{Externals, LineContext, LineOutcome}

-- `str::starts_with`
unfoldable pub starts_with : Text → Text → Bool
starts_with s [] = true
starts_with [] (c ∷ cs) = false
starts_with (b ∷ s) (c ∷ cs) = b == c && starts_with s cs

-- `Value::get` with a key, and the views of a value.
unfoldable pub get_value : Text → Value → Option Value
get_value k (object f) = get k f
get_value k _ = none

unfoldable pub as_str : Value → Option Text
as_str (string s) = some s
as_str _ = none

unfoldable pub as_array : Value → Option Items
as_array (array items) = some items
as_array _ = none

unfoldable pub as_object : Value → Option Fields
as_object (object f) = some f
as_object _ = none

unfoldable pub as_bool : Value → Option Bool
as_bool (bool b) = some b
as_bool _ = none

unfoldable pub get_str : Text → Value → Option Text
get_str k v = and_then (get_value k v) as_str

-- `line.pointer("/message/content")`
unfoldable pub content_of : Value → Option Value
content_of line = and_then (get_value (codes "message") line) (get_value (codes "content"))

unfoldable pub flag : Value → Text → Bool
flag line key = unwrap_or (and_then (get_value key line) as_bool) false

abbrev pub nothing : LineOutcome
nothing = record { drafts = []; message_ts = none }

unfoldable pub session_id : Value → LineContext → Text
session_id line context = elim (get_str (codes "sessionId") line) [
  | none ↦ context.fallback_session_id
  | some [] ↦ context.fallback_session_id
  | some (c ∷ cs) ↦ c ∷ cs
]

text_items : Items → List Text
text_items nil = []
text_items (item block blocks) =
    let rest = text_items blocks in
    if text_eq (unwrap_or (get_str (codes "type") block) []) (codes "text")
    then elim (get_str (codes "text") block) [ none ↦ rest | some s ↦ s ∷ rest ]
    else rest

unfoldable pub text_blocks : Option Value → List Text
unfolding text_items
text_blocks (some (string s)) = s ∷ []
text_blocks (some (array blocks)) = text_items blocks
text_blocks (some _) = []
text_blocks none = []

module _ (x : Externals) where
  unfoldable pub line_timestamp : Value → Option ℤ
  line_timestamp line = and_then (get_str (codes "timestamp") line) x.parse_rfc3339

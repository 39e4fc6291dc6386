-- ===== src/Json.antt =====
-- The JSON values that the daemon builds and redacts (`serde_json::Value`), with the map operations
-- that the source calls. Numbers are the integers that the daemon writes. A map is its entries; the
-- order in which they are printed belongs to the serialiser.
use nikki.Prelude.{
  ◌≡◌, refl, Bool, true, false, Option, none, some, arith, Text, ℤ, text_eq, text_eq_iff,
  if◌then◌else◌,
}

mutual
  pub data Value : Type 0 where
    null : Value
    bool : Bool → Value
    number : ℤ → Value
    string : Text → Value
    array : Items → Value
    object : Fields → Value

  pub data Items : Type 0 where
    nil : Items
    item : Value → Items → Items

  pub data Fields : Type 0 where
    empty : Fields
    field : Text → Value → Fields → Fields

-- `Map::get`
unfoldable pub get : Text → Fields → Option Value
get k empty = none
get k (field j v m) = if text_eq j k then some v else get k m

-- `Map::insert`: the value replaces the one at the key.
unfoldable pub insert : Text → Value → Fields → Fields
insert k v empty = field k v empty
insert k v (field j w m) = if text_eq j k then field j v m else field j w (insert k v m)

-- A write through `Map::get_mut`: nothing happens at a missing key.
unfoldable pub modify : Text → (Value → Value) → Fields → Fields
modify k f empty = empty
modify k f (field j w m) = if text_eq j k then field j (f w) m else field j w (modify k f m)

-- `Map::is_empty`
unfoldable pub is_empty : Fields → Bool
is_empty empty = true
is_empty (field k v m) = false

-- `json!` on an option: a missing text is null.
abbrev pub optional : Option Text → Value
optional none = null
optional (some s) = string s

abbrev pub map_option : (Value → Value) → Option Value → Option Value
map_option f none = none
map_option f (some v) = some (f v)

pub get-insert :
    (k j : Text) (v : Value) (m : Fields)
    → get j (insert k v m) ≡ (if text_eq k j then some v else get j m)
unfolding get insert
get-insert k j v empty = refl
get-insert k j v (field i w m) =
    ground (arith, text_eq_iff k j, text_eq_iff i k, text_eq_iff i j, get-insert k j v m)

pub get-modify :
    (k j : Text) (f : Value → Value) (m : Fields)
    → get j (modify k f m) ≡ (if text_eq k j then map_option f (get j m) else get j m)
unfolding get modify
get-modify k j f empty = ground arith
get-modify k j f (field i w m) =
    ground (arith, text_eq_iff k j, text_eq_iff i k, text_eq_iff i j, get-modify k j f m)

-- An entry that is written only when there is something to write.
abbrev pub optional_field : Text → Option Text → Fields → Fields
optional_field key none payload = payload
optional_field key (some s) payload = insert key (string s) payload

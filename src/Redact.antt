-- ===== src/Redact.antt =====
-- src/runtime/redact.rs and the redaction rules of src/config.rs: what is removed from a payload
-- before it is sealed. The hash map and the hash set are lists.
pub mod Privacy
mod Tests
use nikki.Prelude.{
  ℕ, Bool, true, false, Option, none, some, List, [], ◌∷◌, ◌++◌, Text, codes, text_eq, decimal,
  if◌then◌else◌, ◌||◌,
}
use nikki.Json.{
  Value, Items, Fields, null, bool, number, string, array, object, nil, item, empty, field, get,
  insert, modify,
}
use nikki.World.{World, Url}

pub data Keep : Type 0 where
  host full : Keep

pub data RedactField : Type 0 where
  title : RedactField

pub record RedactRule : Type 0 where
  pub url_host : Option Text
  pub keep : Option Keep
  pub bundle_id : Option Text
  pub drop : List RedactField

pub record Redactor : Type 0 where
  pub fallback : Keep
  pub hosts : List (Text × Keep)
  pub titleless_bundles : List Text

unfoldable pub contains : Text → List Text → Bool
contains s [] = false
contains s (t ∷ ts) = text_eq s t || contains s ts

unfoldable pub lookup_host : Text → List (Text × Keep) → Option Keep
lookup_host s [] = none
lookup_host s ((t, k) ∷ hosts) = if text_eq s t then some k else lookup_host s hosts

abbrev pub keep_or : Option Keep → Keep → Keep
keep_or none k = k
keep_or (some k) _ = k

-- A field of `drop` that stands in a rule for a bundle.
add_drops : Text → List RedactField → Redactor → Redactor
add_drops bundle_id [] r = r
add_drops bundle_id (title ∷ fields) r =
    add_drops bundle_id fields (record r { titleless_bundles = bundle_id ∷ r.titleless_bundles })

add_bundle : Option Text → List RedactField → Redactor → Redactor
unfolding add_drops
add_bundle none fields r = r
add_bundle (some bundle_id) fields r = add_drops bundle_id fields r

-- `*slot = Value::Null`
abbrev pub erase : Value → Value
erase v = null

module _ (w : World) where
  -- A later rule for a host comes first in the list, as an insertion replaces the earlier one.
  add_host : Option Text → Option Keep → Redactor → Redactor
  add_host none keep r = r
  add_host (some url_host) keep r =
      if text_eq url_host (codes "*")
      then record r { fallback = keep_or keep host }
      else record r { hosts = (w.to_lowercase url_host, keep_or keep host) ∷ r.hosts }

  add_rules : List RedactRule → Redactor → Redactor
  unfolding add_host add_bundle
  add_rules [] r = r
  add_rules (rule ∷ rules) r =
      add_rules rules (add_bundle rule.bundle_id rule.drop (add_host rule.url_host rule.keep r))

  unfoldable pub new : List RedactRule → Redactor
  unfolding add_rules
  new rules = add_rules rules (record { fallback = host; hosts = []; titleless_bundles = [] })

  module _ (r : Redactor) where
    unfoldable pub drops_title : Option Value → Bool
    drops_title (some (string bundle_id)) = contains bundle_id r.titleless_bundles
    drops_title none = false
    drops_title (some _) = false

    unfoldable pub authority : Url → Text → Text
    authority url name =
        url.scheme
        ++ (codes "://"
            ++ (name ++ (elim url.port [
              | none ↦ codes "/"
              | some port ↦ codes ":" ++ (decimal port ++ codes "/")
            ])))

    unfoldable pub reduce_host : Url → Text → Text → Text
    reduce_host url value [] =
        url.scheme ++ (if url.cannot_be_a_base then codes ":" else codes ":///")
    reduce_host url value (c ∷ cs) =
        elim (keep_or (lookup_host (w.to_lowercase (c ∷ cs)) r.hosts) r.fallback) [
          | host ↦ authority url (c ∷ cs)
          | full ↦ value
        ]

    abbrev pub text_or_empty : Option Text → Text
    text_or_empty none = []
    text_or_empty (some s) = s

    unfoldable pub reduce : Text → Text
    reduce value = elim (w.parse_url value) [
      | none ↦ []
      | some url ↦ reduce_host url value (text_or_empty url.host)
    ]

    unfoldable pub redact_url : Value → Value
    redact_url (string value) = string (reduce value)
    redact_url v = v

    unfoldable pub redact_details : Bool → Value → Value
    redact_details true (object details) = object (
        modify (codes "command") erase
          (modify (codes "tab") erase (modify (codes "url") redact_url details)))
    redact_details false (object details) = object (modify (codes "url") redact_url details)
    redact_details drops v = v

    unfoldable pub redact_entry : Value → Value
    redact_entry (object entry) =
        if drops_title (get (codes "bundle_id") entry)
        then object (insert (codes "title") null entry)
        else object entry
    redact_entry v = v

    unfoldable pub redact_entries : Items → Items
    redact_entries nil = nil
    redact_entries (item v vs) = item (redact_entry v) (redact_entries vs)

    unfoldable pub redact_visible : Value → Value
    redact_visible (array entries) = array (redact_entries entries)
    redact_visible v = v

    unfoldable pub redact_fields : Fields → Fields
    redact_fields payload =
        let drops = drops_title (get (codes "bundle_id") payload) in
        let reduced =
          modify (codes "details") (redact_details drops)
            (modify (codes "url") redact_url payload) in
        modify (codes "visible") redact_visible
          (if drops then insert (codes "title") null reduced else reduced)

    -- `Redactor::apply`
    unfoldable pub apply : Value → Value
    apply (object payload) = object (redact_fields payload)
    apply v = v

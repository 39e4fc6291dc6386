-- ===== src/Redact/Tests.antt =====
-- Rules that drop the titles of one bundle, and the theorems about payloads that they meet.
use nikki.Prelude.{◌≡◌, ◌≢◌, refl, true, false, none, some, [], ◌∷◌, Text, codes, text_eq}
use nikki.Json.{Fields, null, string, object, empty, field, get, map_option}
use nikki.World.{World, Url}
use nikki.Redact.{
  Redactor, host, erase, contains, drops_title, redact_url, redact_fields, lookup_host,
}
use nikki.Redact.Privacy.{drops, kept_of, redact_fields-titleless, redact_fields-hides}

abbrev site : Url
site = record {
  scheme = codes "https";
  host = some (codes "a.test");
  port = none;
  cannot_be_a_base = false;
}

-- Every text is an address of the same site.
abbrev one_site : World
one_site = record {
  sha256 = λ s. [];
  to_rfc3339 = λ t. [];
  to_json = λ e. none;
  parse_url = λ s. some site;
  to_lowercase = λ s. s;
  fault = λ n. none;
}

abbrev private : Redactor
private = record { fallback = host; hosts = []; titleless_bundles = codes "term" ∷ [] }

abbrev details : Fields
details =
    field (codes "tab") (string (codes "zsh")) (field (codes "cwd") (string (codes "/x")) empty)

abbrev payload : Fields
payload = field (codes "bundle_id") (string (codes "term")) (
    field (codes "title") (string (codes "secret"))
      (field (codes "details") (object details) empty))

payload-drops : drops one_site private payload ≡ true
unfolding drops_title contains text_eq get
payload-drops = refl

payload-details : get (codes "details") payload ≡ some (object details)
unfolding text_eq get
payload-details = refl

redact_fields-titleless_example :
    (get (codes "title") (redact_fields one_site private payload) ≡ some null)
    × ((d' : Fields) × (get (codes "details") (redact_fields one_site private payload)
          ≡ some (object d'))
        × (get (codes "tab") d' ≡ map_option erase (get (codes "tab") details))
        × (get (codes "command") d' ≡ map_option erase (get (codes "command") details))
        × (get (codes "url") d'
            ≡ map_option (redact_url one_site private) (get (codes "url") details))
        × ((k : Text)
            → k ≢ codes "url"
            → k ≢ codes "tab"
            → k ≢ codes "command"
            → get k d' ≡ get k details))
    × ((k : Text)
        → k ≢ codes "url"
        → k ≢ codes "details"
        → k ≢ codes "title"
        → k ≢ codes "visible"
        → get k (redact_fields one_site private payload) ≡ get k payload)
redact_fields-titleless_example =
    redact_fields-titleless one_site private payload details payload-drops payload-details

abbrev page : Text → Fields
page address = field (codes "url") (string address) empty

page-url : (s : Text) → get (codes "url") (page s) ≡ some (string s)
unfolding text_eq get
page-url s = refl

kept : kept_of one_site private (codes "a.test") ≡ host
unfolding lookup_host
kept = refl

redact_fields-hides_example :
    get (codes "url") (redact_fields one_site private (page (codes "https://a.test/one")))
    ≡ get (codes "url") (redact_fields one_site private (page (codes "https://a.test/two")))
redact_fields-hides_example =
    redact_fields-hides one_site private (page (codes "https://a.test/one"))
      (page (codes "https://a.test/two")) (codes "https://a.test/one") (codes "https://a.test/two")
      site site (page-url (codes "https://a.test/one")) (page-url (codes "https://a.test/two")) refl
      refl (record { scheme = refl; host = refl; port = refl; base = λ none_there. refl }) kept

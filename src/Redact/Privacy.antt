-- ===== src/Redact/Privacy.antt =====
-- src/runtime/redact.rs: what a redacted payload no longer tells, and what it still does.
use nikki.Prelude.{
  ◌≡◌, ◌≢◌, refl, sym, ap, ◌∙◌, true, false, none, some, [], ◌∷◌, ◌++◌, decimal, Text, arith, codes,
  text_eq, text_eq_iff, text_eq_refl, Bool-cases, Bool, if◌then◌else◌, inl, inr,
}
use nikki.Json.{
  Value, Fields, null, string, object, get, insert, modify, map_option, get-insert, get-modify,
}
use nikki.World.{World, Url}
use nikki.Redact.{
  Keep, host, Redactor, lookup_host, keep_or, erase, drops_title, authority, text_or_empty, reduce,
  reduce_host, redact_url, redact_details, redact_fields,
}

-- Two texts that the test tells apart.
differ : (s t : Text) → s ≢ t → text_eq s t ≡ false
differ s t h = ground (arith, h, text_eq_iff s t)

get-modify_other :
    (k j : Text) (f : Value → Value) (m : Fields)
    → text_eq k j ≡ false
    → get j (modify k f m) ≡ get j m
get-modify_other k j f m h = get-modify k j f m ∙ rw h refl

get-insert_other :
    (k j : Text) (v : Value) (m : Fields) → text_eq k j ≡ false → get j (insert k v m) ≡ get j m
get-insert_other k j v m h = get-insert k j v m ∙ rw h refl

get-modify_same :
    (k : Text) (f : Value → Value) (m : Fields) → get k (modify k f m) ≡ map_option f (get k m)
get-modify_same k f m = get-modify k k f m ∙ rw (text_eq_refl k) refl

get-insert_same : (k : Text) (v : Value) (m : Fields) → get k (insert k v m) ≡ some v
get-insert_same k v m = get-insert k k v m ∙ rw (text_eq_refl k) refl

module _ (w : World) (r : Redactor) where
  abbrev pub drops : Fields → Bool
  drops f = drops_title w r (get (codes "bundle_id") f)

  -- The payload before `visible` is gone through.
  abbrev reduced : Fields → Fields
  reduced f =
      modify (codes "details") (redact_details w r (drops f))
        (modify (codes "url") (redact_url w r) f)

  abbrev titled : Fields → Fields
  titled f = if drops f then insert (codes "title") null (reduced f) else reduced f

  get-titled :
      (k : Text) (f : Fields)
      → text_eq (codes "title") k ≡ false
      → get k (titled f) ≡ get k (reduced f)
  get-titled k f h = elim (Bool-cases (drops f)) [
    | inl dropped ↦ rw dropped (get-insert_other (codes "title") k null _ h)
    | inr kept ↦ rw kept refl
  ]

  pub get-redact_fields_url :
      (f : Fields)
      → get (codes "url") (redact_fields w r f) ≡ map_option (redact_url w r) (get (codes "url") f)
  unfolding redact_fields text_eq
  get-redact_fields_url f =
      get-modify_other (codes "visible") (codes "url") _ _ refl
      ∙ get-titled (codes "url") f refl
      ∙ get-modify_other (codes "details") (codes "url") _ _ refl
      ∙ get-modify_same (codes "url") _ f

  pub get-redact_fields_details :
      (f : Fields)
      → get (codes "details") (redact_fields w r f)
        ≡ map_option (redact_details w r (drops f)) (get (codes "details") f)
  unfolding redact_fields text_eq
  get-redact_fields_details f =
      get-modify_other (codes "visible") (codes "details") _ _ refl
      ∙ get-titled (codes "details") f refl
      ∙ get-modify_same (codes "details") _ _
      ∙ ap (map_option (redact_details w r (drops f)))
          (get-modify_other (codes "url") (codes "details") _ f refl)

  pub get-redact_fields_title :
      (f : Fields) → drops f ≡ true → get (codes "title") (redact_fields w r f) ≡ some null
  unfolding redact_fields text_eq
  get-redact_fields_title f h =
      get-modify_other (codes "visible") (codes "title") _ _ refl
      ∙ rw h (get-insert_same (codes "title") null _)

  pub get-redact_fields_other :
      (k : Text) (f : Fields)
      → k ≢ codes "url"
      → k ≢ codes "details"
      → k ≢ codes "title"
      → k ≢ codes "visible"
      → get k (redact_fields w r f) ≡ get k f
  unfolding redact_fields
  get-redact_fields_other k f u d t v =
      get-modify_other (codes "visible") k _ _ (differ _ k (λ e. v (sym e)))
      ∙ get-titled k f (differ _ k (λ e. t (sym e)))
      ∙ get-modify_other (codes "details") k _ _ (differ _ k (λ e. d (sym e)))
      ∙ get-modify_other (codes "url") k _ f (differ _ k (λ e. u (sym e)))

  get-details :
      (d : Fields) (k : Text)
      → text_eq (codes "url") k ≡ false
      → text_eq (codes "command") k ≡ false
      → text_eq (codes "tab") k ≡ false
      → get k (
          modify
            (codes "command")
            erase
            (modify (codes "tab") erase (modify (codes "url") (redact_url w r) d)))
        ≡ get k d
  get-details d k u c t =
      get-modify_other (codes "command") k _ _ c
      ∙ get-modify_other (codes "tab") k _ _ t
      ∙ get-modify_other (codes "url") k _ d u

  -- A payload whose bundle is one of the titleless, and which has details, comes out with a title of
  -- null; in its details the tab and the command are null where they were, the address is reduced,
  -- and nothing else has changed; and nothing has changed at any key of the payload but `url`,
  -- `details`, `title` and `visible`.
  pub redact_fields-titleless :
      (f d : Fields)
      → drops f ≡ true
      → get (codes "details") f ≡ some (object d)
      → (get (codes "title") (redact_fields w r f) ≡ some null)
        × ((d' : Fields) × (get (codes "details") (redact_fields w r f) ≡ some (object d'))
            × (get (codes "tab") d' ≡ map_option erase (get (codes "tab") d))
            × (get (codes "command") d' ≡ map_option erase (get (codes "command") d))
            × (get (codes "url") d' ≡ map_option (redact_url w r) (get (codes "url") d))
            × ((k : Text)
                → k ≢ codes "url"
                → k ≢ codes "tab"
                → k ≢ codes "command"
                → get k d' ≡ get k d))
        × ((k : Text)
            → k ≢ codes "url"
            → k ≢ codes "details"
            → k ≢ codes "title"
            → k ≢ codes "visible"
            → get k (redact_fields w r f) ≡ get k f)
  unfolding redact_details text_eq
  redact_fields-titleless f d h e = (
    get-redact_fields_title f h,
    (
      _,
      get-redact_fields_details f ∙ (λ i. map_option (redact_details w r (h i)) (e i)),
      get-modify_other (codes "command") (codes "tab") _ _ refl
          ∙ get-modify_same (codes "tab") erase _
          ∙ ap (map_option erase) (get-modify_other (codes "url") (codes "tab") _ d refl),
      get-modify_same (codes "command") erase _
          ∙ ap (map_option erase) (
              get-modify_other (codes "tab") (codes "command") _ _ refl
              ∙ get-modify_other (codes "url") (codes "command") _ d refl),
      get-modify_other (codes "command") (codes "url") _ _ refl
          ∙ get-modify_other (codes "tab") (codes "url") _ _ refl
          ∙ get-modify_same (codes "url") _ d,
      λ k u t c.
          get-details d k (differ _ k (λ q. u (sym q))) (differ _ k (λ q. c (sym q)))
            (differ _ k (λ q. t (sym q))),
    ),
    λ k u x t v. get-redact_fields_other k f u x t v,
  )

  -- How much of an address is kept: by its host, or the fallback.
  abbrev pub kept_of : Text → Keep
  kept_of name = keep_or (lookup_host (w.to_lowercase name) r.hosts) r.fallback

  -- Two addresses agree in scheme, host and port, and, where there is no host, in whether they can be a base.
  pub record AgreesIn (u v : Url) : Type 0 where
    pub scheme : u.scheme ≡ v.scheme
    pub host : text_or_empty w r u.host ≡ text_or_empty w r v.host
    pub port : u.port ≡ v.port
    pub base : text_or_empty w r u.host ≡ [] → u.cannot_be_a_base ≡ v.cannot_be_a_base

  authority-AgreesIn :
      (u v : Url) (name : Text)
      → u.scheme ≡ v.scheme
      → u.port ≡ v.port
      → authority w r u name ≡ authority w r v name
  unfolding authority
  authority-AgreesIn u v name scheme port i =
      scheme i
      ++ (codes "://"
          ++ (name ++ (elim (port i) [
            | none ↦ codes "/"
            | some p ↦ codes ":" ++ (decimal p ++ codes "/")
          ])))

  reduce_host-hides :
      (u v : Url) (a b name : Text)
      → u.scheme ≡ v.scheme
      → u.port ≡ v.port
      → (name ≡ [] → u.cannot_be_a_base ≡ v.cannot_be_a_base)
      → kept_of name ≡ host
      → reduce_host w r u a name ≡ reduce_host w r v b name
  unfolding reduce_host
  reduce_host-hides u v a b [] scheme port base h =
      λ i. scheme i ++ (if base refl i then codes ":" else codes ":///")
  reduce_host-hides u v a b (c ∷ cs) scheme port base h =
      rw (reduce_host, h) (authority-AgreesIn u v (c ∷ cs) scheme port)

  reduce-hides :
      (a b : Text) (u v : Url)
      → w.parse_url a ≡ some u
      → w.parse_url b ≡ some v
      → AgreesIn u v
      → kept_of (text_or_empty w r u.host) ≡ host
      → reduce w r a ≡ reduce w r b
  unfolding reduce
  reduce-hides a b u v e e' agrees h =
      rw (reduce, e)
        (rw (reduce, e')
          (reduce_host-hides u v a b (text_or_empty w r u.host) agrees.scheme agrees.port
              agrees.base h
            ∙ ap (reduce_host w r v b) agrees.host))

  -- When the rules keep only the host of an address, the redacted address tells nothing more than
  -- the scheme, the host, the port and, where there is no host, whether the address can be a base: two
  -- payloads whose addresses agree in those have the same redacted address.
  pub redact_fields-hides :
      (f g : Fields) (a b : Text) (u v : Url)
      → get (codes "url") f ≡ some (string a)
      → get (codes "url") g ≡ some (string b)
      → w.parse_url a ≡ some u
      → w.parse_url b ≡ some v
      → AgreesIn u v
      → kept_of (text_or_empty w r u.host) ≡ host
      → get (codes "url") (redact_fields w r f) ≡ get (codes "url") (redact_fields w r g)
  unfolding redact_url
  redact_fields-hides f g a b u v ef eg ea eb agrees h =
      get-redact_fields_url f
      ∙ ap (map_option (redact_url w r)) ef
      ∙ ap (λ x. some (string x)) (reduce-hides a b u v ea eb agrees h)
      ∙ sym (ap (map_option (redact_url w r)) eg)
      ∙ sym (get-redact_fields_url g)

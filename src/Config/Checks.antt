-- ===== src/Config/Checks.antt =====
-- src/config.rs: what holds of a configuration that passed every check.
use nikki.Prelude.{
  ℕ, ◌≤◌, ◌<◌, ◌≡◌, ◌≢◌, ◌⊎◌, refl, subst, inl, inr, Bool, true, false, not, Option, none, some,
  List, [], ◌∷◌, ◌++◌, Text, codes, text_eq, text_eq_iff, arith, All, All-append, ℤ, pos, pos_part,
  ltb_ℤ, length, ◌||◌, ◌&&◌, Bool-cases,
}
use nikki.Config.{
  Checked, valid, refused, ConfigError, ◌>>=◌, ◌>>◌, refuse_if, some_or, ServiceUrl, Platform, Pull,
  ClaudeImport, ClaudeRoot, ClaudeCode, Config, FileClaudeImport, FileClaudeCode, FileConfig,
  is_some, holds_name, pull_from, pull_of, claude_import_from, resolve_roots, resolve_imports,
  claude_code_from, service_url_from, parse,
}

valid-injective : {A : Type 0} (a b : A) → valid a ≡ valid b → a ≡ b
valid-injective a b h = cc

-- A chain that is valid was valid at its first step.
bind-valid :
    {A B : Type 0} (m : Checked A) (next : A → Checked B) (b : B)
    → (m >>= next) ≡ valid b
    → (a : A) × (m ≡ valid a) × (next a ≡ valid b)
unfolding ◌>>=◌
bind-valid (valid a) next b h = (a, refl, h)
bind-valid (refused e) next b h = absurd (cc)

guard-valid :
    {B : Type 0} (test : Bool) (e : ConfigError) (rest : Checked B) (b : B)
    → (refuse_if test e >> rest) ≡ valid b
    → (test ≡ false) × (rest ≡ valid b)
unfolding ◌>>=◌ refuse_if
guard-valid true e rest b h = absurd (cc)
guard-valid false e rest b h = (refl, h)

some-valid :
    {A B : Type 0} (o : Option A) (e : ConfigError) (next : A → Checked B) (b : B)
    → (some_or o e >>= next) ≡ valid b
    → (a : A) × (o ≡ some a) × (next a ≡ valid b)
unfolding ◌>>=◌ some_or
some-valid (some a) e next b h = (a, refl, h)
some-valid none e next b h = absurd (cc)

-- No two elements have the same name.
abbrev pub HasDistinct : {A : Type 0} → (A → Text) → List A → Type 0
HasDistinct name [] = Unit
HasDistinct name (x ∷ xs) = All (λ y. name x ≢ name y) xs × HasDistinct name xs

holds_name-false :
    {A : Type 0} (name : A → Text) (n : Text) (xs : List A)
    → holds_name name n xs ≡ false
    → All (λ x. name x ≢ n) xs
unfolding holds_name
holds_name-false name n [] h = tt
holds_name-false name n (x ∷ xs) h =
    (ground (arith, text_eq_iff (name x) n), holds_name-false name n xs (ground arith))

HasDistinct-append :
    {A : Type 0} (name : A → Text) (xs : List A) (a : A)
    → HasDistinct name xs
    → All (λ x. name x ≢ name a) xs
    → HasDistinct name (xs ++ a ∷ [])
HasDistinct-append name [] a d h = (tt, tt)
HasDistinct-append name (x ∷ xs) a d h = (
  All-append (λ y. name x ≢ name y) xs (a ∷ []) d.0 (h.0, tt),
  HasDistinct-append name xs a d.1 h.1,
)

-- The command runs at most once a second.
abbrev pub IsPaced : Option Pull → Type 0
IsPaced none = Unit
IsPaced (some pull) = 1 ≤ pull.every

-- Nothing in the address would leak into the log or bend the path that is appended to it.
pub record IsPlain (url : ServiceUrl) : Type 0 where
  pub scheme : (url.scheme ≡ codes "http") ⊎ (url.scheme ≡ codes "https")
  pub username : length url.username ≡ 0
  pub password : url.password ≡ none
  pub host : (name : Text) × (url.host ≡ some name) × (1 ≤ length name)
  pub query : url.query ≡ none
  pub fragment : url.fragment ≡ none

pub record IsSound (c : Config) : Type 0 where
  pub service_url : IsPlain c.service_url
  pub tick_interval : (1 ≤ c.tick_interval) × (c.tick_interval ≤ 3600)
  pub history_poll_interval : 1 ≤ c.history_poll_interval
  pub max_rows : 1 ≤ c.max_rows
  pub max_bytes : 512 < c.max_bytes
  pub poll_interval : 1 ≤ c.claude_code.poll_interval
  pub profiles : HasDistinct (λ r. r.profile) c.claude_code.roots
  pub devices : HasDistinct (λ i. i.device) c.claude_code.imports
  pub imported : All (λ i. (i.device ≢ c.device) × IsPaced i.pull) c.claude_code.imports

is_some-false : {A : Type 0} (o : Option A) → is_some o ≡ false → o ≡ none
unfolding is_some
is_some-false none h = refl
is_some-false (some a) h = absurd (cc)

http_or_https :
    (scheme : Text)
    → (not (text_eq scheme (codes "http")) && not (text_eq scheme (codes "https"))) ≡ false
    → (scheme ≡ codes "http") ⊎ (scheme ≡ codes "https")
http_or_https scheme h = elim (Bool-cases (text_eq scheme (codes "http"))) [
  | inl same ↦ inl ((text_eq_iff scheme (codes "http")).0 same)
  | inr other ↦ inr ((text_eq_iff scheme (codes "https")).0 (ground (arith, other, h)))
]

module _ (p : Platform) where
  service_url_from-IsPlain :
      (value : Text) (url : ServiceUrl) → service_url_from p value ≡ valid url → IsPlain url
  unfolding service_url_from
  service_url_from-IsPlain value url h =
      let (u, parsed, h1) = some-valid _ _ _ url h in
      let (scheme, h2) = guard-valid _ _ _ url h1 in
      let (user, h3) = guard-valid _ _ _ url h2 in
      let (name, hosted, h4) = some-valid _ _ _ url h3 in
      let (long, h5) = guard-valid _ _ _ url h4 in
      let (tail, h6) = guard-valid _ _ _ url h5 in
      subst IsPlain (valid-injective u url h6) (record {
        scheme = http_or_https u.scheme scheme;
        username = ground (arith, user);
        password = is_some-false u.password (ground (arith, user));
        host = (name, hosted, ground (arith, long));
        query = is_some-false u.query (ground (arith, tail));
        fragment = is_some-false u.fragment (ground (arith, tail));
      })

  pull_of-IsPaced :
      (command : Option (List Text)) (every : Option ℕ) (home : Option Text) (pull : Option Pull)
      → pull_of p command every home ≡ valid pull
      → IsPaced pull
  unfolding pull_of pull_from
  pull_of-IsPaced none none home pull h = subst IsPaced (valid-injective none pull h) tt
  pull_of-IsPaced (some command) none home pull h = absurd (cc)
  pull_of-IsPaced none (some every) home pull h = absurd (cc)
  pull_of-IsPaced (some []) (some every) home pull h =
      let (found, made, h1) = bind-valid _ _ pull h in absurd (cc)
  pull_of-IsPaced (some (program ∷ args)) (some every) home pull h =
      let (found, made, h1) = bind-valid _ _ pull h in
      let (slow, h2) = guard-valid _ _ _ found made in
      let (path, placed, h3) = bind-valid _ _ found h2 in
      subst IsPaced (valid-injective (some found) pull h1)
        (subst (λ f. 1 ≤ f.every) (valid-injective _ found h3) (ground (arith, slow)))

  claude_import_from-checked :
      (entry : FileClaudeImport) (daemon_device : Text) (home : Option Text) (i : ClaudeImport)
      → claude_import_from p entry daemon_device home ≡ valid i
      → (i.device ≢ daemon_device) × IsPaced i.pull
  unfolding claude_import_from
  claude_import_from-checked entry daemon_device home i h =
      let (device, named, h1) = bind-valid _ _ i h in
      let (foreign, h2) = guard-valid _ _ _ i h1 in
      let (dir, given, h3) = bind-valid _ _ i h2 in
      let (projects, placed, h4) = bind-valid _ _ i h3 in
      let (text, timed, h5) = bind-valid _ _ i h4 in
      let (since, read, h6) = some-valid _ _ _ i h5 in
      let (pull, paced, h7) = bind-valid _ _ i h6 in
      subst (λ j. (j.device ≢ daemon_device) × IsPaced j.pull) (valid-injective _ i h7)
        (
          ground (arith, foreign, text_eq_iff device daemon_device),
          pull_of-IsPaced entry.command entry.every home pull paced,
        )

  resolve_roots-HasDistinct :
      (texts : List Text) (home : Option Text) (resolved roots : List ClaudeRoot)
      → HasDistinct (λ r. r.profile) resolved
      → resolve_roots p texts home resolved ≡ valid roots
      → HasDistinct (λ r. r.profile) roots
  unfolding resolve_roots
  resolve_roots-HasDistinct [] home resolved roots d h =
      subst (HasDistinct (λ r. r.profile)) (valid-injective resolved roots h) d
  resolve_roots-HasDistinct (text ∷ texts) home resolved roots d h =
      let (root, found, h1) = bind-valid _ _ roots h in
      let (other, h2) = guard-valid _ _ _ roots h1 in
      resolve_roots-HasDistinct texts home (resolved ++ root ∷ []) roots
        (HasDistinct-append (λ r. r.profile) resolved root d
          (holds_name-false (λ r. r.profile) root.profile resolved other))
        h2

  abbrev AreImports : Text → List ClaudeImport → Type 0
  AreImports daemon_device imports =
      HasDistinct (λ i. i.device) imports
      × All (λ i. (i.device ≢ daemon_device) × IsPaced i.pull) imports

  resolve_imports-checked :
      (entries : List FileClaudeImport) (daemon_device : Text) (home : Option Text)
      (before imports : List ClaudeImport)
      → AreImports daemon_device before
      → resolve_imports p entries daemon_device home before ≡ valid imports
      → AreImports daemon_device imports
  unfolding resolve_imports
  resolve_imports-checked [] daemon_device home before imports d h =
      subst (AreImports daemon_device) (valid-injective before imports h) d
  resolve_imports-checked (entry ∷ entries) daemon_device home before imports d h =
      let (found, made, h1) = bind-valid _ _ imports h in
      let (other, h2) = guard-valid _ _ _ imports h1 in
      resolve_imports-checked entries daemon_device home (before ++ found ∷ []) imports
        (
          HasDistinct-append (λ i. i.device) before found d.0
              (holds_name-false (λ i. i.device) found.device before other),
          All-append (λ i. (i.device ≢ daemon_device) × IsPaced i.pull) before (found ∷ []) d.1
              (claude_import_from-checked entry daemon_device home found made, tt),
        )
        h2

  abbrev IsSoundSection : Text → ClaudeCode → Type 0
  IsSoundSection daemon_device c =
      (1 ≤ c.poll_interval)
      × HasDistinct (λ r. r.profile) c.roots
      × AreImports daemon_device c.imports

  claude_code_from-IsSoundSection :
      (section : FileClaudeCode) (daemon_device : Text) (home : Option Text) (c : ClaudeCode)
      → claude_code_from p section daemon_device home ≡ valid c
      → IsSoundSection daemon_device c
  unfolding claude_code_from
  claude_code_from-IsSoundSection section daemon_device home c h =
      let (slow, h1) = guard-valid _ _ _ c h in
      let (roots, found, h2) = bind-valid _ _ c h1 in
      let (imports, made, h3) = bind-valid _ _ c h2 in
      subst (IsSoundSection daemon_device) (valid-injective _ c h3) (
        ground (arith, slow),
        resolve_roots-HasDistinct section.roots home [] roots tt found,
        resolve_imports-checked section.imports daemon_device home [] imports (tt, tt) made,
      )

  tick_in_range :
      (t : ℤ)
      → (ltb_ℤ t (pos 1) || ltb_ℤ (pos 3600) t) ≡ false
      → (1 ≤ pos_part t) × (pos_part t ≤ 3600)
  tick_in_range t h = ground arith

  -- A file that passes every check gives a configuration whose address is http or https, with a
  -- host and no credentials, query or fragment; whose intervals are at least a second, and the ticks
  -- at most an hour apart; whose caps keep at least one row and more bytes than the overflow record
  -- is given; whose roots have different profiles; and whose imports have different devices, none of
  -- them its own, and run their commands at most once a second.
  pub parse-IsSound :
      (file : FileConfig) (state_dir : Text) (home : Option Text) (c : Config)
      → parse p file state_dir home ≡ valid c
      → IsSound c
  unfolding parse
  parse-IsSound file state_dir home c h =
      let (address, given, h1) = bind-valid _ _ c h in
      let (url, reached, h2) = bind-valid _ _ c h1 in
      let (device, named, h3) = bind-valid _ _ c h2 in
      let (profile, titled, h4) = bind-valid _ _ c h3 in
      let (tick, h5) = guard-valid _ _ _ c h4 in
      let (poll, h6) = guard-valid _ _ _ c h5 in
      let (rows, h7) = guard-valid _ _ _ c h6 in
      let (bytes, h8) = guard-valid _ _ _ c h7 in
      let (section, made, h9) = bind-valid _ _ c h8 in
      let (paced, profiles, (devices, imported)) =
        claude_code_from-IsSoundSection file.claude_code device home section made in
      subst IsSound (valid-injective _ c h9) (record {
        service_url = service_url_from-IsPlain address url reached;
        tick_interval = tick_in_range file.tick_interval tick;
        history_poll_interval = ground (arith, poll);
        max_rows = ground (arith, rows);
        max_bytes = ground (arith, bytes);
        poll_interval = paced;
        profiles = profiles;
        devices = devices;
        imported = imported;
      })

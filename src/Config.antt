-- ===== src/Config.antt =====
-- src/config.rs: from the parsed file to the configuration, and every check on the way. An error keeps
-- its kind and its field; the wording of its reason is left out. What `url`, `chrono`, `str::trim` and
-- `std::path` do is a parameter.
pub mod Checks
mod Tests
use nikki.Prelude.{
  ℕ, ◌+◌, Bool, true, false, not, Option, none, some, List, [], ◌∷◌, ◌++◌, Text, codes, text_eq, ℤ,
  pos, pos_part, ltb_ℤ, ltb, leb, ◌==◌, ◌||◌, ◌&&◌, length, if◌then◌else◌,
}
use nikki.Redact.{RedactRule, Keep, host}
use nikki.Buffer.Evict.{overflow_headroom_bytes}

abbrev pub tick_interval_min : ℕ
tick_interval_min = 1

abbrev pub tick_interval_max : ℕ
tick_interval_max = 3600

abbrev pub history_poll_interval_min : ℕ
history_poll_interval_min = 1

abbrev pub claude_code_poll_interval_min : ℕ
claude_code_poll_interval_min = 1

abbrev pub claude_code_pull_every_min : ℕ
claude_code_pull_every_min = 1

pub data ConfigError : Type 0 where
  missing : Text → ConfigError
  invalid : Text → ConfigError

pub data Checked (A : Type 0) : Type 0 where
  valid : A → Checked A
  refused : ConfigError → Checked A

infixl 5 ◌>>=◌ ◌>>◌
unfoldable pub ◌>>=◌ : {A B : Type 0} → Checked A → (A → Checked B) → Checked B
valid a >>= next = next a
refused e >>= next = refused e

abbrev pub ◌>>◌ : {B : Type 0} → Checked (Unit {0}) → Checked B → Checked B
first >> second = first >>= λ _. second

-- `if test { return Err(error) }`
unfoldable pub refuse_if : Bool → ConfigError → Checked (Unit {0})
refuse_if true e = refused e
refuse_if false e = valid tt

-- `let Some(a) = value else { return Err(error) }`
unfoldable pub some_or : {A : Type 0} → Option A → ConfigError → Checked A
some_or none e = refused e
some_or (some a) e = valid a

-- What the checks read off a parsed `url::Url`.
pub record ServiceUrl : Type 0 where
  pub scheme : Text
  pub username : Text
  pub password : Option Text
  pub host : Option Text
  pub query : Option Text
  pub fragment : Option Text

-- Paths are texts.
pub record Platform : Type 0 where
  -- `Url::parse`
  pub parse_url : Text → Option ServiceUrl
  -- `value.trim().is_empty()`
  pub is_blank : Text → Bool
  -- `DateTime::parse_from_rfc3339`, in milliseconds
  pub parse_rfc3339 : Text → Option ℤ
  -- `Path::join`
  pub join : Text → Text → Text
  -- `Path::is_absolute`
  pub is_absolute : Text → Bool
  -- `path.file_name().and_then(|name| name.to_str())`
  pub file_name : Text → Option Text

pub record Pull : Type 0 where
  pub program : Text
  pub args : List Text
  pub every : ℕ

pub record ClaudeImport : Type 0 where
  pub device : Text
  pub projects : Text
  pub since : ℤ
  pub pull : Option Pull

pub record ClaudeRoot : Type 0 where
  pub profile : Text
  pub projects : Text

pub record ClaudeCode : Type 0 where
  pub roots : List ClaudeRoot
  pub imports : List ClaudeImport
  pub poll_interval : ℕ

pub record Config : Type 0 where
  pub service_url : ServiceUrl
  pub device : Text
  pub tick_interval : ℕ
  pub history_poll_interval : ℕ
  pub revisit_window : ℕ
  pub profile : Text
  pub max_rows : ℕ
  pub max_bytes : ℕ
  pub redact : List RedactRule
  pub state_dir : Text
  pub claude_code : ClaudeCode

pub record FileClaudeImport : Type 0 where
  pub device : Option Text
  pub dir : Option Text
  pub since : Option Text
  pub command : Option (List Text)
  pub every : Option ℕ

pub record FileClaudeCode : Type 0 where
  pub roots : List Text
  pub imports : List FileClaudeImport
  pub poll_interval : ℕ

-- The file after `serde` has filled in the defaults.
pub record FileConfig : Type 0 where
  pub service_url : Option Text
  pub device : Option Text
  pub tick_interval : ℤ
  pub history_poll_interval : ℕ
  pub revisit_window : ℕ
  pub profile : Option Text
  pub max_rows : ℕ
  pub max_bytes : ℕ
  pub redact : List RedactRule
  pub claude_code : FileClaudeCode

abbrev pub default_redact : List RedactRule
default_redact =
    record { url_host = some (codes "*"); keep = some host; bundle_id = none; drop = [] } ∷ []

abbrev pub default_claude_code : FileClaudeCode
default_claude_code = record {
  roots = codes "~/.claude" ∷ codes "~/.claude-work" ∷ [];
  imports = [];
  poll_interval = 60;
}

-- A file that names only what is required.
abbrev pub minimal : Text → Text → Text → FileConfig
minimal service_url device profile = record {
  service_url = some service_url;
  device = some device;
  tick_interval = pos 30;
  history_poll_interval = 300;
  revisit_window = 500;
  profile = some profile;
  max_rows = 200000;
  max_bytes = 536870912;
  redact = default_redact;
  claude_code = default_claude_code;
}

unfoldable pub is_some : {A : Type 0} → Option A → Bool
is_some none = false
is_some (some a) = true

-- Whether an element with this name is there.
unfoldable pub holds_name : {A : Type 0} → (A → Text) → Text → List A → Bool
holds_name name n [] = false
holds_name name n (x ∷ xs) = text_eq (name x) n || holds_name name n xs

-- `strip_prefix("~/")`
unfoldable pub strip_home : Text → Option Text
strip_home (c ∷ d ∷ rest) = if c == b'~' && d == b'/' then some rest else none
strip_home (c ∷ []) = none
strip_home [] = none

-- `name.strip_prefix('.').unwrap_or(name)`
unfoldable pub without_dot : Text → Text
without_dot [] = []
without_dot (c ∷ rest) = if c == b'.' then rest else c ∷ rest

module _ (p : Platform) where
  unfoldable pub required : Option Text → Text → Checked Text
  unfolding some_or refuse_if ◌>>=◌
  required value field = do
    text ← some_or value (missing field)
    refuse_if (p.is_blank text) (invalid field)
    valid text

  home_path : Option Text → Text → Text → Option Text → Checked Text
  home_path none value field home = valid value
  home_path (some rest) value field none = refused (invalid field)
  home_path (some rest) value field (some home) = valid (p.join home rest)

  unfoldable pub expand_home : Text → Option Text → Text → Checked Text
  unfolding home_path
  expand_home value home field = do
    path ← home_path (strip_home value) value field home
    refuse_if (not (p.is_absolute path)) (invalid field)
    valid path

  unfoldable pub claude_root_from : Text → Option Text → Checked ClaudeRoot
  claude_root_from root home = do
    path ← expand_home root home (codes "claude_code.roots")
    name ← some_or (p.file_name path) (invalid (codes "claude_code.roots"))
    refuse_if (length (without_dot name) == 0) (invalid (codes "claude_code.roots"))
    valid (record { profile = without_dot name; projects = p.join path (codes "projects") })

  unfoldable pub pull_from : List Text → ℕ → Option Text → Checked Pull
  pull_from [] every home = refused (invalid (codes "claude_code.import.command"))
  pull_from (program ∷ args) every home = do
    refuse_if (ltb every claude_code_pull_every_min) (invalid (codes "claude_code.import.every"))
    path ← expand_home program home (codes "claude_code.import.command")
    valid (record { program = path; args = args; every = every })

  unfoldable pub pull_of : Option (List Text) → Option ℕ → Option Text → Checked (Option Pull)
  pull_of none none home = valid none
  pull_of (some command) none home = refused (invalid (codes "claude_code.import.every"))
  pull_of none (some every) home = refused (invalid (codes "claude_code.import.command"))
  pull_of (some command) (some every) home = do
    pull ← pull_from command every home
    valid (some pull)

  unfoldable pub claude_import_from : FileClaudeImport → Text → Option Text → Checked ClaudeImport
  claude_import_from entry daemon_device home = do
    device ← required entry.device (codes "claude_code.import.device")
    refuse_if (text_eq device daemon_device) (invalid (codes "claude_code.import.device"))
    dir ← required entry.dir (codes "claude_code.import.dir")
    projects ← expand_home dir home (codes "claude_code.import.dir")
    text ← required entry.since (codes "claude_code.import.since")
    since ← some_or (p.parse_rfc3339 text) (invalid (codes "claude_code.import.since"))
    pull ← pull_of entry.command entry.every home
    valid (record { device = device; projects = projects; since = since; pull = pull })

  -- The two loops of `claude_code_from`.
  unfoldable pub resolve_roots :
      List Text → Option Text → List ClaudeRoot → Checked (List ClaudeRoot)
  resolve_roots [] home resolved = valid resolved
  resolve_roots (text ∷ texts) home resolved = do
    root ← claude_root_from text home
    refuse_if (holds_name (λ r. r.profile) root.profile resolved)
        (invalid (codes "claude_code.roots"))
    resolve_roots texts home (resolved ++ root ∷ [])

  unfoldable pub resolve_imports :
      List FileClaudeImport → Text → Option Text → List ClaudeImport → Checked (List ClaudeImport)
  resolve_imports [] daemon_device home imports = valid imports
  resolve_imports (entry ∷ entries) daemon_device home imports = do
    found ← claude_import_from entry daemon_device home
    refuse_if (holds_name (λ i. i.device) found.device imports)
        (invalid (codes "claude_code.import.device"))
    resolve_imports entries daemon_device home (imports ++ found ∷ [])

  unfoldable pub claude_code_from : FileClaudeCode → Text → Option Text → Checked ClaudeCode
  claude_code_from section daemon_device home = do
    refuse_if (ltb section.poll_interval claude_code_poll_interval_min)
        (invalid (codes "claude_code.poll_interval"))
    roots ← resolve_roots section.roots home []
    imports ← resolve_imports section.imports daemon_device home []
    valid (record { roots = roots; imports = imports; poll_interval = section.poll_interval })

  unfoldable pub service_url_from : Text → Checked ServiceUrl
  service_url_from value = do
    url ← some_or (p.parse_url value) (invalid (codes "service_url"))
    refuse_if (not (text_eq url.scheme (codes "http")) && not (text_eq url.scheme (codes "https")))
        (invalid (codes "service_url"))
    refuse_if (not (length url.username == 0) || is_some url.password)
        (invalid (codes "service_url"))
    name ← some_or url.host (invalid (codes "service_url"))
    refuse_if (length name == 0) (invalid (codes "service_url"))
    refuse_if (is_some url.query || is_some url.fragment) (invalid (codes "service_url"))
    valid url

  -- `parse`, after the file has been read as TOML.
  unfoldable pub parse : FileConfig → Text → Option Text → Checked Config
  parse file state_dir home = do
    address ← required file.service_url (codes "service_url")
    service_url ← service_url_from address
    device ← required file.device (codes "device")
    profile ← required file.profile (codes "browser.profile")
    refuse_if
        (ltb_ℤ file.tick_interval (pos tick_interval_min)
          || ltb_ℤ (pos tick_interval_max) file.tick_interval)
        (invalid (codes "tick_interval"))
    refuse_if (ltb file.history_poll_interval history_poll_interval_min)
        (invalid (codes "history_poll_interval"))
    refuse_if (ltb file.max_rows 1) (invalid (codes "buffer.max_rows"))
    refuse_if (leb file.max_bytes overflow_headroom_bytes) (invalid (codes "buffer.max_bytes"))
    claude_code ← claude_code_from file.claude_code device home
    valid (record {
      service_url = service_url;
      device = device;
      tick_interval = pos_part file.tick_interval;
      history_poll_interval = file.history_poll_interval;
      revisit_window = file.revisit_window;
      profile = profile;
      max_rows = file.max_rows;
      max_bytes = file.max_bytes;
      redact = file.redact;
      state_dir = state_dir;
      claude_code = claude_code;
    })

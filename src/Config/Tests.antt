-- ===== src/Config/Tests.antt =====
-- The smallest file, on a platform that takes it, and the theorem about it.
use nikki.Prelude.{◌≡◌, refl, true, false, none, some, [], ◌∷◌, Text, codes, text_eq}
use nikki.Config.{
  valid, ServiceUrl, Platform, Config, ClaudeRoot, minimal, parse, ◌>>=◌, required,
  service_url_from, claude_code_from, resolve_roots, resolve_imports, claude_root_from, expand_home,
  refuse_if, some_or, strip_home, without_dot, holds_name, is_some,
}
use nikki.Config.Checks.{IsSound, parse-IsSound}

abbrev plain : ServiceUrl
plain = record {
  scheme = codes "https";
  username = [];
  password = none;
  host = some (codes "nikki.test");
  query = none;
  fragment = none;
}

-- The root whose path is the rest of the text after the home is named by that rest.
abbrev tolerant : Platform
tolerant = record {
  parse_url = λ s. some plain;
  is_blank = λ s. false;
  parse_rfc3339 = λ s. none;
  join = λ a b. b;
  is_absolute = λ s. true;
  file_name = λ s. some s;
}

abbrev root : Text → Text → ClaudeRoot
root profile projects = record { profile = profile; projects = projects }

abbrev config : Config
config = record {
  service_url = plain;
  device = codes "m";
  tick_interval = 30;
  history_poll_interval = 300;
  revisit_window = 500;
  profile = codes "me";
  max_rows = 200000;
  max_bytes = 536870912;
  redact = (minimal (codes "u") (codes "m") (codes "me")).redact;
  state_dir = codes "/s";
  claude_code = record {
    roots =
        root (codes "claude") (codes "projects")
        ∷ root (codes "claude-work") (codes "projects")
        ∷ [];
    imports = [];
    poll_interval = 60;
  };
}

parse-minimal :
    parse tolerant (minimal (codes "u") (codes "m") (codes "me")) (codes "/s") (some (codes "/h"))
    ≡ valid config
unfolding parse ◌>>=◌ required service_url_from claude_code_from resolve_roots resolve_imports
    claude_root_from expand_home refuse_if some_or strip_home without_dot holds_name is_some text_eq
parse-minimal = refl

parse-IsSound_example : IsSound config
parse-IsSound_example =
    parse-IsSound tolerant (minimal (codes "u") (codes "m") (codes "me")) (codes "/s")
      (some (codes "/h")) config parse-minimal

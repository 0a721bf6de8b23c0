-- ===== src/Config/Summary.antt =====
-- `_safe_url` and `effective_summary` of src/nixadmin/config.py: the diagnostics that are shown of
-- a configuration, and what two environments must share for the same diagnostics.
use nixadmin.Prelude.{
  ℕ, ◌≡◌, refl, sym, ap, ◌∙◌, String, ◌<>◌, Bool, true, false, not, Option, none, some, List, [],
  ◌∷◌, ◌==◌, string_eq, if◌then◌else◌, contains, some_of, arith,
}
use nixadmin.Prelude.Text.{decimal}
use nixadmin.Prelude.Dict.{Dict, lookup}
use nixadmin.Routing.{Chain}
use nixadmin.Config.{
  Port, no_port, bad_port, port, Process, Config, is_given, has_local, remote_usable, get, values,
  or_none, default_state_dir, default_socket, remote_keys,
}

-- The host with its port, or none if `SplitResult.port` raises.
abbrev host_port : String → Port → Option String
host_port host no_port = some host
host_port host bad_port = none
host_port host (port n) = some (host <> ":" <> decimal n)

-- `_safe_url`
unfoldable pub safe_url : Process → String → String
safe_url P value = elim (P.urlsplit value) [
  | none ↦ "(invalid URL)"
  | some u ↦ elim (host_port u.hostname u.port) [
    | none ↦ "(invalid URL)"
    | some host ↦ P.urlunsplit u.scheme host u.path
  ]
]

pub record Summary : Type 0 where
  pub flake_dir : String
  pub hostname : String
  pub local_configured : Bool
  pub local_model : String
  pub local_url : String
  pub remote_configured : Bool
  pub remote_model : String
  pub remote_base : Option String
  pub credential_configured : Bool
  pub default_chain : Chain
  pub history : String
  pub events : String
  pub event_retention_days : ℕ
  pub state_dir : String
  pub socket_path : String
  pub autofix : Bool
  pub autofix_system : Bool
  pub autofix_max_attempts : ℕ
  pub log_format : String
  pub log_level : String

abbrev safe_base : Process → Option String → Option String
safe_base P none = none
safe_base P (some value) = if value == "" then none else some (safe_url P value)

-- `effective_summary`
unfoldable pub effective_summary : Process → Config → Summary
effective_summary P c = record {
  flake_dir = c.flake_dir;
  hostname = c.hostname;
  local_configured = has_local c;
  local_model = c.local_model;
  local_url = safe_url P c.local_url;
  remote_configured = not (c.remote_model == "");
  remote_model = c.remote_model;
  remote_base = safe_base P c.remote_base;
  credential_configured = remote_usable P c;
  default_chain = c.default_chain;
  history = c.history;
  events = c.events;
  event_retention_days = c.event_retention_days;
  state_dir = c.state_dir;
  socket_path = c.socket_path;
  autofix = c.autofix;
  autofix_system = c.autofix_system;
  autofix_max_attempts = c.autofix_max_attempts;
  log_format = c.log_format;
  log_level = c.log_level;
}

-- The part of a URL that is shown.
unfoldable pub shown : Process → String → Option (String × String × Port × String)
shown P value = elim (P.urlsplit value) [
  | none ↦ none
  | some u ↦ some (u.scheme, u.hostname, u.port, u.path)
]

abbrev pub shown_base : Process → Option String → Option (Option (String × String × Port × String))
shown_base P none = none
shown_base P (some value) = some (shown P value)

-- The variables that hold a secret, or may hold one.
unfoldable pub secret : String → Bool
secret key = contains ("NIXADMIN_LOCAL_URL" ∷ "NIXADMIN_REMOTE_BASE" ∷ remote_keys) key

-- Two environments that differ in their secrets at most: the values of the provider's keys, and
-- the user, password, query and fragment of the URLs.
pub record SamePublic (P : Process) (e f : Dict String String) : Type 0 where
  pub others : (key : String) → secret key ≡ false → lookup key e ≡ lookup key f
  pub given : (key : String) → is_given (lookup key e) ≡ is_given (lookup key f)
  pub local_url :
      shown P (get "LOCAL_URL" "http://localhost:11434" e)
      ≡ shown P (get "LOCAL_URL" "http://localhost:11434" f)
  pub remote_base :
      shown_base P (or_none (lookup "NIXADMIN_REMOTE_BASE" e))
      ≡ shown_base P (or_none (lookup "NIXADMIN_REMOTE_BASE" f))

abbrev safe_of : Process → Option (String × String × Port × String) → String
safe_of P none = "(invalid URL)"
safe_of P (some (scheme, hostname, number, path)) = elim (host_port hostname number) [
  | none ↦ "(invalid URL)"
  | some host ↦ P.urlunsplit scheme host path
]

abbrev safe_shown : Process → Option (Option (String × String × Port × String)) → Option String
safe_shown P none = none
safe_shown P (some part) = some (safe_of P part)

safe_url-shown : (P : Process) (v : String) → safe_url P v ≡ safe_of P (shown P v)
unfolding safe_url shown
safe_url-shown P v = ground (arith)

safe_base-or_none :
    (P : Process) (o : Option String)
    → safe_base P (or_none o) ≡ safe_shown P (shown_base P (or_none o))
safe_base-or_none P none = refl
safe_base-or_none P (some v) = ground (arith, safe_url-shown P v)

is_given-or_none : (o : Option String) → is_given (or_none o) ≡ is_given o
is_given-or_none none = refl
is_given-or_none (some v) = ground (arith)

get-same :
    {P : Process} {e f : Dict String String}
    → SamePublic P e f
    → (key default : String) → secret ("NIXADMIN_" <> key) ≡ false
    → get key default e ≡ get key default f
unfolding get
get-same same key default h = rw (same.others ("NIXADMIN_" <> key) h) refl

some_of-same :
    {A : Type 0} (f g : A → Bool)
    → ((x : A) → f x ≡ g x)
    → (xs : List A) → some_of f xs ≡ some_of g xs
some_of-same f g h [] = refl
some_of-same f g h (x ∷ xs) =
    ap (λ b. elim b [ true ↦ true | false ↦ some_of f xs ]) (h x)
    ∙ ap (λ r. elim (g x) [ true ↦ true | false ↦ r ]) (some_of-same f g h xs)

-- What is shown of a configuration does not depend on a secret: two environments that differ at
-- most in the values of the provider's keys, and in the user, password, query and fragment of the
-- URLs, give the same summary.
pub effective_summary-same :
    (P : Process) (e f : Dict String String)
    → SamePublic P e f
    → effective_summary P (values P e) ≡ effective_summary P (values P f)
unfolding effective_summary values remote_usable secret string_eq
effective_summary-same P e f same =
    let flake_dir = get-same same "FLAKE_DIR" "" refl in
    let hostname = get-same same "HOSTNAME" "" refl in
    let local_model = get-same same "LOCAL_MODEL" "" refl in
    let remote_model = get-same same "REMOTE_MODEL" "claude-sonnet-4-5" refl in
    let chain = get-same same "CHAIN" "remote" refl in
    let history = get-same same "HISTORY" "null" refl in
    let events = get-same same "EVENTS" "sqlite" refl in
    let retention = get-same same "EVENT_RETENTION_DAYS" "90" refl in
    let state_dir = get-same same "STATE_DIR" (default_state_dir P) refl in
    let socket = get-same same "SOCKET" (default_socket P) refl in
    let autofix = get-same same "AUTOFIX" "1" refl in
    let autofix_system = get-same same "AUTOFIX_SYSTEM" "1" refl in
    let attempts = get-same same "AUTOFIX_MAX_ATTEMPTS" "1" refl in
    let log_format = get-same same "LOG_FORMAT" "json" refl in
    let log_level = get-same same "LOG_LEVEL" "INFO" refl in
    let url : String = "http://localhost:11434" in
    let local_url =
      safe_url-shown P (get "LOCAL_URL" url e)
      ∙ ap (safe_of P) same.local_url
      ∙ sym (safe_url-shown P (get "LOCAL_URL" url f)) in
    let base : String = "NIXADMIN_REMOTE_BASE" in
    let remote_base =
      safe_base-or_none P (lookup base e)
      ∙ ap (safe_shown P) same.remote_base
      ∙ sym (safe_base-or_none P (lookup base f)) in
    let base_given =
      is_given-or_none (lookup base e) ∙ same.given base ∙ sym (is_given-or_none (lookup base f)) in
    let keys =
      some_of-same (λ key. is_given (lookup key e)) (λ key. is_given (lookup key f)) same.given
        remote_keys in
    cc

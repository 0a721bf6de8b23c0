-- ===== src/Config.antt =====
-- src/nixadmin/config.py: the configuration that is read from the environment. What Python's
-- libraries say of URLs and paths is a parameter.
pub mod Validity
pub mod Summary
use Prim.Native.Char.{code}
use nixadmin.Prelude.{
  ℕ, max, String, ◌<>◌, Bool, true, false, not, ◌&&◌, ◌||◌, Option, none, some, List, [], ◌∷◌, ◌++◌,
  ◌==◌, contains, string_eq, eqb, if◌then◌else◌, some_of,
}
use nixadmin.Prelude.Dict.{Dict, lookup}
use nixadmin.Prelude.Int.{ℤ, pos, negsuc}
use nixadmin.Prelude.Text.{strip, decimal}
use nixadmin.Prelude.Case.{lower, upper}
use nixadmin.Prelude.Number.{parse_int}
use nixadmin.Prelude.Result.{Result, ok, err}
use nixadmin.Routing.{Chain, local, remote}

-- `SplitResult.port`: none if there is no port, or a `ValueError`
pub data Port : Type 0 where
  no_port bad_port : Port
  port : ℕ → Port

-- The parts of a URL that `urlsplit` gives; no hostname is the empty text.
pub record Url : Type 0 where
  pub scheme : String
  pub userinfo : String
  pub hostname : String
  pub port : Port
  pub path : String
  pub query : String
  pub fragment : String

-- The process: its environment, and the libraries. `urlsplit` gives none if it raises.
pub record Process : Type 0 where
  pub environ : Dict String String
  pub home : String
  pub urlsplit : String → Option Url
  pub urlunsplit : String → String → String → String
  pub join_path : String → String → String

pub record Config : Type 0 where
  pub flake_dir : String
  pub hostname : String
  pub local_model : String
  pub local_url : String
  pub remote_model : String
  pub remote_base : Option String
  pub default_chain : Chain
  pub history : String
  pub events : String
  pub event_retention_days : ℕ
  pub state_dir : String
  pub socket_path : String
  pub autofix : Bool
  pub autofix_system : Bool
  pub autofix_max_attempts : ℕ
  pub log_format : String
  pub log_level : String
  pub remote_credential_configured : Bool

-- A message of the `ConfigError`: the variable, with its value.
pub data Issue : Type 0 where
  bad_value : String → String → Issue
  no_local_model : Issue

abbrev Env : Type 0
Env = Dict String String

-- d.get(key, default)
abbrev pub or_else : String → Option String → String
or_else default none = default
or_else default (some v) = v

-- `get` of `from_env`
unfoldable pub get : String → String → Env → String
get key default e = or_else default (lookup ("NIXADMIN_" <> key) e)

-- d.get(key) or None
abbrev pub or_none : Option String → Option String
or_none none = none
or_none (some v) = if v == "" then none else some v

-- bool(d.get(key))
abbrev pub is_given : Option String → Bool
is_given none = false
is_given (some v) = not (v == "")

-- `_http_url`
unfoldable pub http_url : Process → String → Bool
http_url P value = elim (P.urlsplit value) [
  | none ↦ false
  | some u ↦ elim u.port [
    | bad_port ↦ false
    | _ ↦ (u.scheme == "http" || u.scheme == "https") && not (u.hostname == "")
  ]
]

-- Path(value).is_absolute()
unfoldable pub is_absolute : String → Bool
is_absolute String.[] = false
is_absolute (String.◌∷◌ c s) = eqb (code c) b'/'

-- `_default_socket`: an empty variable counts as unset
unfoldable pub default_socket : Process → String
default_socket P =
    P.join_path (or_else "/tmp" (or_none (lookup "XDG_RUNTIME_DIR" P.environ))) "nixadmin.sock"

-- `_default_state_dir`
unfoldable pub default_state_dir : Process → String
default_state_dir P =
    P.join_path
      (or_else (P.join_path (P.join_path P.home ".local") "state")
        (or_none (lookup "XDG_STATE_HOME" P.environ)))
      "nixadmin"

-- The messages of the tests that fail, in the order of the tests.
unfoldable pub complaints : List (Bool × Issue) → List Issue
complaints [] = []
complaints ((good, issue) ∷ checks) =
    let rest = complaints checks in if good then rest else issue ∷ rest

abbrev pub chain_of : String → Chain
chain_of raw = if raw == "local" then local else remote

-- `flag`: the value, and whether the text is a Boolean
unfoldable pub flag : String → Bool × Bool
flag raw =
    let word = lower (strip raw) in
    if contains ("1" ∷ "true" ∷ "yes" ∷ "on" ∷ []) word
    then (true, true)
    else (false, contains ("0" ∷ "false" ∷ "no" ∷ "off" ∷ "" ∷ []) word)

-- max(1, int(raw)), or 1
abbrev pub attempts_of : Option ℤ → ℕ
attempts_of (some (pos n)) = max 1 n
attempts_of other = 1

-- int(raw) if it is not negative, or 90
abbrev pub retention_of : Option ℤ → ℕ
retention_of (some (pos n)) = n
retention_of other = 90

abbrev pub is_integer : Option ℤ → Bool
is_integer none = false
is_integer (some z) = true

abbrev pub is_natural : Option ℤ → Bool
is_natural (some (pos n)) = true
is_natural other = false

abbrev pub remote_keys : List String
remote_keys =
    "ANTHROPIC_API_KEY" ∷ "ANTHROPIC_AUTH_TOKEN" ∷ "OPENAI_API_KEY" ∷ "OPENROUTER_API_KEY"
    ∷ "GEMINI_API_KEY" ∷ "GROQ_API_KEY" ∷ []

abbrev pub log_levels : List String
log_levels = "DEBUG" ∷ "INFO" ∷ "WARNING" ∷ "ERROR" ∷ "CRITICAL" ∷ []

-- The values that `from_env` passes to the class, with its fallbacks.
unfoldable pub values : Process → Env → Config
values P e = record {
  flake_dir = get "FLAKE_DIR" "" e;
  hostname = get "HOSTNAME" "" e;
  local_model = get "LOCAL_MODEL" "" e;
  local_url = get "LOCAL_URL" "http://localhost:11434" e;
  remote_model = get "REMOTE_MODEL" "claude-sonnet-4-5" e;
  remote_base = or_none (lookup "NIXADMIN_REMOTE_BASE" e);
  default_chain = chain_of (get "CHAIN" "remote" e);
  history = get "HISTORY" "null" e;
  events = get "EVENTS" "sqlite" e;
  event_retention_days = retention_of (parse_int (get "EVENT_RETENTION_DAYS" "90" e));
  state_dir = get "STATE_DIR" (default_state_dir P) e;
  socket_path = get "SOCKET" (default_socket P) e;
  autofix = (flag (get "AUTOFIX" "1" e)).0;
  autofix_system = (flag (get "AUTOFIX_SYSTEM" "1" e)).0;
  autofix_max_attempts = attempts_of (parse_int (get "AUTOFIX_MAX_ATTEMPTS" "1" e));
  log_format = get "LOG_FORMAT" "json" e;
  log_level = upper (get "LOG_LEVEL" "INFO" e);
  remote_credential_configured = some_of (λ key. is_given (lookup key e)) remote_keys;
}

abbrev pub url_fits : Process → String → Bool
url_fits P value = value == "" || http_url P value

abbrev pub path_fits : String → Bool
path_fits value = value == "" || is_absolute value

abbrev pub base_fits : Process → Option String → Bool
base_fits P none = true
base_fits P (some value) = url_fits P value

-- The tests of `from_env`, each with the message for a value that fails it.
unfoldable pub tests : Process → Env → List (Bool × Issue)
tests P e =
    let c = values P e in
    let chain = get "CHAIN" "remote" e in
    let attempts = get "AUTOFIX_MAX_ATTEMPTS" "1" e in
    let retention = get "EVENT_RETENTION_DAYS" "90" e in
    let autofix = get "AUTOFIX" "1" e in
    let autofix_system = get "AUTOFIX_SYSTEM" "1" e in
    (contains ("local" ∷ "remote" ∷ []) chain, bad_value "CHAIN" chain)
    ∷ (is_integer (parse_int attempts), bad_value "AUTOFIX_MAX_ATTEMPTS" attempts)
    ∷ (is_natural (parse_int retention), bad_value "EVENT_RETENTION_DAYS" retention)
    ∷ (contains ("null" ∷ []) c.history, bad_value "HISTORY" c.history)
    ∷ (contains ("sqlite" ∷ "null" ∷ []) c.events, bad_value "EVENTS" c.events)
    ∷ (contains ("json" ∷ "console" ∷ []) c.log_format, bad_value "LOG_FORMAT" c.log_format)
    ∷ (contains log_levels c.log_level, bad_value "LOG_LEVEL" c.log_level)
    ∷ (url_fits P c.local_url, bad_value "LOCAL_URL" c.local_url)
    ∷ (base_fits P c.remote_base, bad_value "REMOTE_BASE" (or_else "" c.remote_base))
    ∷ (path_fits c.state_dir, bad_value "STATE_DIR" c.state_dir)
    ∷ (path_fits c.socket_path, bad_value "SOCKET" c.socket_path)
    ∷ (path_fits c.flake_dir, bad_value "FLAKE_DIR" c.flake_dir)
    ∷ (not (chain == "local" && c.local_model == ""), no_local_model)
    ∷ ((flag autofix).1, bad_value "AUTOFIX" autofix)
    ∷ ((flag autofix_system).1, bad_value "AUTOFIX_SYSTEM" autofix_system)
    ∷ []

-- The list `errors` of `from_env`.
unfoldable pub issues : Process → Env → List Issue
issues P e = complaints (tests P e)

abbrev pub raise_any : List Issue → Config → Result (List Issue) Config
raise_any [] c = ok c
raise_any (i ∷ is) c = err (i ∷ is)

-- `Config.from_env`
unfoldable pub from_env : Process → Env → Result (List Issue) Config
from_env P e = raise_any (issues P e) (values P e)

abbrev pub has_local : Config → Bool
has_local c = not (c.local_model == "")

abbrev is_present : {A : Type 0} → Option A → Bool
is_present none = false
is_present (some v) = true

-- `remote_usable`: a key of the process counts even if it is empty
unfoldable pub remote_usable : Process → Config → Bool
remote_usable P c =
    not (c.remote_model == "")
    && (is_given c.remote_base
        || (c.remote_credential_configured
            || some_of (λ key. is_present (lookup key P.environ)) remote_keys))

-- ===== src/Web/Security.antt =====
-- src/nixadmin/web/security.py: which requests the local web view lets in. `hmac` is a parameter.
pub mod Origin
use nixadmin.Prelude.{
  ℕ, String, ◌<>◌, Bool, true, false, not, ◌&&◌, ◌||◌, Option, none, some, List, [], ◌∷◌, ◌==◌,
  contains, string_eq, eqb, if◌then◌else◌,
}
use nixadmin.Prelude.Text.{decimal}
use nixadmin.Prelude.Split.{partition, rpartition}

-- `_LOOPBACK_HOSTS`
abbrev pub loopback_hosts : List String
loopback_hosts = "127.0.0.1" ∷ "localhost" ∷ "[::1]" ∷ "::1" ∷ []

-- A header's value, where none and the empty text are the same.
abbrev pub value_of : Option String → String
value_of none = ""
value_of (some s) = s

-- `token_ok`, with `hmac.compare_digest`, which is none if it raises
unfoldable pub token_ok : (String → String → Option Bool) → Option String → String → Option Bool
token_ok compare_digest provided expected =
    if value_of provided == ""
    then some false
    else if expected == ""
    then some false
    else compare_digest (value_of provided) expected

-- `host_ok`
unfoldable pub host_ok : Option String → ℕ → Bool
host_ok header port =
    let parts = rpartition ":" (value_of header) in
    let name = if parts.before == "" then parts.after else parts.before in
    let port_part = if parts.before == "" then "" else parts.after in
    not (value_of header == "")
    && ((port_part == "" || port_part == decimal port) && contains loopback_hosts name)

-- `origin_ok`
unfoldable pub origin_ok : Option String → ℕ → Bool → Bool
origin_ok origin port require =
    let url = partition "://" (value_of origin) in
    let authority = partition ":" url.after in
    if value_of origin == ""
    then not require
    else contains ("http" ∷ "https" ∷ []) url.before
      && ((authority.after == "" || authority.after == decimal port)
          && contains loopback_hosts authority.before)

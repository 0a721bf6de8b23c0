-- ===== src/Web/Requests.antt =====
-- src/nixadmin/web/requests.py: what the local view accepts of a request. Python's `str` of a JSON
-- value and the fresh id of `uuid4` are parameters.
pub mod Bounds
use nixadmin.Prelude.{
  ℕ, ◌+◌, ◌*◌, String, Bool, true, false, not, Option, none, some, List, [], ◌∷◌, ◌==◌, contains,
  string_eq, ltb, if◌then◌else◌,
}
use nixadmin.Prelude.Dict.{Dict, lookup}
use nixadmin.Prelude.Int.{ℤ, pos, negsuc}
use nixadmin.Prelude.Number.{parse_int}
use nixadmin.Prelude.Result.{Result, ok, err}
use nixadmin.Prelude.Text.{strip}
use nixadmin.Json.{Json, str, obj, Fields, get, JsonText, dumps, malformed}

-- `MAX_REQUEST_BODY_BYTES` and `MAX_QUERY_CHARS`
abbrev pub max_request_body_bytes : ℕ
max_request_body_bytes = 65536

abbrev pub max_query_chars : ℕ
max_query_chars = 4000

pub record RequestError : Type 0 where
  pub status : ℕ
  pub message : String

abbrev problem : {A : Type 0} → ℕ → String → Result RequestError A
problem status message = err (record { status = status; message = message })

abbrev pub Query : Type 0
Query = Dict String (List String)

pub record QuerySpec : Type 0 where
  pub qid : String
  pub text : String
  pub session_id : String

-- len(s)
unfoldable pub size : String → ℕ
size String.[] = 0
size (String.◌∷◌ c s) = size s + 1

abbrev pub head_or : String → Option (List String) → String
head_or default (some (v ∷ vs)) = v
head_or default other = default

-- (query.get(key) or [default])[0]
unfoldable pub first : String → String → Query → String
first key default query = head_or default (lookup key query)

-- s or default
abbrev pub or : String → String → String
or s default = if s == "" then default else s

-- `QuerySpec.from_query`
unfoldable pub from_query : String → Query → Result RequestError QuerySpec
from_query fresh query =
    let text = strip (first "text" "" query) in
    if text == ""
    then problem 400 "empty query"
    else if ltb max_query_chars (size text)
    then problem 413 "query too large"
    else ok (record {
      qid = or (strip (first "qid" "" query)) fresh;
      text = text;
      session_id = or (strip (first "session" "web" query)) "web";
    })

pub record UnitSpec : Type 0 where
  pub unit : String
  pub scope : String

-- str(body.get(key, default))
abbrev pub text_of : (Json → String) → String → Option Json → String
text_of show default none = default
text_of show default (some (str s)) = s
text_of show default (some v) = show v

-- `UnitSpec.from_body`
unfoldable pub from_body : (Json → String) → Fields → Result RequestError UnitSpec
from_body show body =
    let unit = strip (text_of show "" (get "unit" body)) in
    let scope = text_of show "system" (get "scope" body) in
    if unit == ""
    then problem 400 "unit is required"
    else if contains ("system" ∷ "user" ∷ []) scope
    then ok (record { unit = unit; scope = scope })
    else problem 400 "scope must be 'system' or 'user'"

abbrev pub bounded_length : Option ℤ → Result RequestError ℕ
bounded_length none = problem 400 "invalid content length"
bounded_length (some (negsuc n)) = problem 400 "invalid content length"
bounded_length (some (pos n)) =
    if ltb max_request_body_bytes n then problem 413 "request body too large" else ok n

abbrev pub or_zero : Option String → String
or_zero none = "0"
or_zero (some s) = or s "0"

-- `content_length`
unfoldable pub content_length : Option String → Result RequestError ℕ
content_length value = bounded_length (parse_int (or_zero value))

-- `json_object`
unfoldable pub json_object : JsonText → Result RequestError Fields
json_object malformed = problem 400 "invalid JSON body"
json_object (dumps (obj body)) = ok body
json_object (dumps other) = problem 400 "JSON body must be an object"

-- ===== src/Protocol.antt =====
-- src/nixadmin/protocol.py: the messages between the daemon and its clients, as the dataclasses
-- declare them. A message's values are JSON values, as `decode` checks no types.
pub mod Decode
pub mod RoundTrip
pub mod Transport
use nixadmin.Prelude.{
  ℕ, String, ◌<>◌, Bool, true, false, ◌||◌, ◌&&◌, not, Option, none, some, List, [], ◌∷◌, ◌==◌,
  string_eq, map, leb, ltb, if◌then◌else◌,
}
use nixadmin.Prelude.Int.{ℤ, pos, negsuc}
use nixadmin.Prelude.Result.{Result, ok, err}
use nixadmin.Json.{
  Json, null, bool, int, real, str, arr, obj, nil, Fields, field, end, get, JsonText, dumps,
  malformed,
}

-- `VERSION` and `MIN_VERSION`
abbrev pub version : ℤ
version = pos 4

abbrev pub min_version : ℤ
min_version = pos 4

pub data Class : Type 0 where
  query cancel respond hello delta status done error confirm input ready event list_failures : Class
  failures restart_unit explain_unit unit_journal journal get_timeline timeline get_ledger : Class
  ledger get_health health : Class

-- A field of a dataclass; the default is none if it is required.
pub record Field : Type 0 where
  pub name : String
  pub default : Option Json

abbrev required : String → Field
required name = record { name = name; default = none }

-- `… | None = None`
abbrev optional : String → Field
optional name = record { name = name; default = some null }

abbrev defaulted : String → Json → Field
defaulted name value = record { name = name; default = some value }

-- `TYPE`
unfoldable pub type_of : Class → String
type_of query = "query"
type_of cancel = "cancel"
type_of respond = "respond"
type_of hello = "hello"
type_of delta = "delta"
type_of status = "status"
type_of done = "done"
type_of error = "error"
type_of confirm = "confirm"
type_of input = "input"
type_of ready = "ready"
type_of event = "event"
type_of list_failures = "list_failures"
type_of failures = "failures"
type_of restart_unit = "restart_unit"
type_of explain_unit = "explain_unit"
type_of unit_journal = "unit_journal"
type_of journal = "journal"
type_of get_timeline = "get_timeline"
type_of timeline = "timeline"
type_of get_ledger = "get_ledger"
type_of ledger = "ledger"
type_of get_health = "get_health"
type_of health = "health"

-- fields(cls), in the order of their declaration
unfoldable pub fields_of : Class → List Field
fields_of query =
    required "id" ∷ required "text" ∷ defaulted "session" (str "default") ∷ optional "chain" ∷ []
fields_of cancel = required "id" ∷ []
fields_of respond = required "id" ∷ optional "confirmed" ∷ optional "value" ∷ []
fields_of hello =
    required "chains"
    ∷ required "ready"
    ∷ required "default_chain"
    ∷ required "modules"
    ∷ defaulted "version" (int version)
    ∷ defaulted "min_version" (int min_version)
    ∷ []
fields_of delta = required "id" ∷ required "text" ∷ []
fields_of status = required "id" ∷ required "text" ∷ []
fields_of done = required "id" ∷ optional "chain" ∷ optional "model" ∷ []
fields_of error = required "id" ∷ required "text" ∷ []
fields_of confirm = required "id" ∷ required "text" ∷ []
fields_of input = required "id" ∷ required "prompt" ∷ []
fields_of ready = required "chain" ∷ []
fields_of event = required "source" ∷ required "severity" ∷ required "text" ∷ []
fields_of list_failures = required "id" ∷ []
fields_of failures = required "id" ∷ required "units" ∷ []
fields_of restart_unit = required "id" ∷ required "unit" ∷ required "scope" ∷ []
fields_of explain_unit = required "id" ∷ required "unit" ∷ required "scope" ∷ []
fields_of unit_journal = required "id" ∷ required "unit" ∷ required "scope" ∷ []
fields_of journal = required "id" ∷ required "unit" ∷ required "text" ∷ []
fields_of get_timeline =
    required "id" ∷ defaulted "limit" (int (pos 100)) ∷ optional "unit" ∷ optional "before_id" ∷ []
fields_of timeline = required "id" ∷ required "events" ∷ optional "next_cursor" ∷ []
fields_of get_ledger = required "id" ∷ []
fields_of ledger = required "id" ∷ required "data" ∷ []
fields_of get_health = required "id" ∷ []
fields_of health = required "id" ∷ required "data" ∷ []

-- A message: its class, and a value for each field.
pub record Message : Type 0 where
  pub cls : Class
  pub values : List Json

-- value is None
abbrev pub is_null : Json → Bool
is_null null = true
is_null other = false

-- The loop of `encode`.
unfoldable pub pack : List Field → List Json → Fields
pack [] vs = end
pack (f ∷ fs) [] = end
pack (f ∷ fs) (v ∷ vs) = let rest = pack fs vs in if is_null v then rest else field f.name v rest

-- `encode`
unfoldable pub encode : Message → JsonText
encode m = dumps (obj (field "type" (str (type_of m.cls)) (pack (fields_of m.cls) m.values)))

-- A `ProtocolError`, or the `TypeError` of a dict's lookup by a key that has no hash.
pub data Refusal : Type 0 where
  invalid_json not_an_object unknown_type missing_field : Refusal
  unhashable : Refusal

-- `_REGISTRY`
abbrev pub classes : List Class
classes =
    query ∷ cancel ∷ respond ∷ hello ∷ delta ∷ status ∷ done ∷ error ∷ confirm ∷ input ∷ ready
    ∷ event ∷ list_failures ∷ failures ∷ restart_unit ∷ explain_unit ∷ unit_journal ∷ journal
    ∷ get_timeline ∷ timeline ∷ get_ledger ∷ ledger ∷ get_health ∷ health ∷ []

unfoldable pub class_named : String → List Class → Option Class
class_named name [] = none
class_named name (c ∷ cs) =
    let rest = class_named name cs in if name == type_of c then some c else rest

-- _REGISTRY.get(type_)
unfoldable pub class_of : Option Json → Result Refusal Class
class_of none = err unknown_type
class_of (some (str name)) = elim (class_named name classes) [
  | none ↦ err unknown_type
  | some c ↦ ok c
]
class_of (some (arr items)) = err unhashable
class_of (some (obj fields)) = err unhashable
class_of (some other) = err unknown_type

-- raw.pop("type", None), as to what is left
unfoldable pub pop : String → Fields → Fields
pop k end = end
pop k (field j v d) = let rest = pop k d in if k == j then rest else field j v rest

-- The value of a field that was not given.
abbrev pub or_default : Option Json → Option Json → Option Json
or_default (some v) default = some v
or_default none default = default

abbrev pub prepend : Option Json → Option (List Json) → Option (List Json)
prepend (some v) (some vs) = some (v ∷ vs)
prepend given vs = none

-- cls(**…), of the known fields; none if a required one is missing
unfoldable pub build : List Field → Fields → Option (List Json)
build [] raw = some []
build (f ∷ fs) raw = let rest = build fs raw in prepend (or_default (get f.name raw) f.default) rest

abbrev pub construct : Class → Option (List Json) → Result Refusal Message
construct c none = err missing_field
construct c (some vs) = ok (record { cls = c; values = vs })

abbrev pub of_class : Fields → Result Refusal Class → Result Refusal Message
of_class raw (err e) = err e
of_class raw (ok c) = construct c (build (fields_of c) (pop "type" raw))

-- `decode`
unfoldable pub decode : JsonText → Result Refusal Message
decode malformed = err invalid_json
decode (dumps (obj raw)) = of_class raw (class_of (get "type" raw))
decode (dumps other) = err not_an_object

-- a <= b, of integers
unfoldable pub leq : ℤ → ℤ → Bool
leq (pos a) (pos b) = leb a b
leq (pos a) (negsuc b) = false
leq (negsuc a) (pos b) = true
leq (negsuc a) (negsuc b) = leb b a

pub data Incompatible : Type 0 where
  invalid_range out_of_range : Incompatible

-- `require_compatible`, on the hello's `min_version` and `version`: a Boolean is no integer here
unfoldable pub require_compatible : Json → Json → ℤ → Result Incompatible (Unit {0})
require_compatible (int low) (int high) client =
    if not (leq low high)
    then err invalid_range
    else if leq low client && leq client high
    then ok tt
    else err out_of_range
require_compatible low high client = err invalid_range

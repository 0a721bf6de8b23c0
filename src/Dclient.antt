-- ===== src/Dclient.antt =====
-- src/nixadmin/web/dclient.py: the client through which the local view talks to the daemon, one
-- connection to a request. The socket is a parameter: the lines that it gives, and how it ends.
pub mod Answered
pub mod Told
use nixadmin.Prelude.{
  ℕ, String, ◌<>◌, Bool, true, false, not, ◌&&◌, Option, none, some, List, [], ◌∷◌, ◌++◌, ◌==◌,
  string_eq, if◌then◌else◌,
}
use nixadmin.Prelude.Int.{ℤ}
use nixadmin.Prelude.Result.{Result, ok, err}
use nixadmin.Prelude.Text.{join}
use nixadmin.Json.{Json, null, int, str, arr, obj, nil, Fields, field, end, JsonText, dumps}
use nixadmin.Protocol.{
  Class, delta, done, error, failures, journal, timeline, ledger, health, Message, Refusal,
  unhashable, decode,
}
use nixadmin.Protocol.Transport.{Line, Failure, not_utf8, refused, negotiate, attribute}

-- An item of `for line in f`, after its strip.
pub data Item : Type 0 where
  blank : Item
  printed : JsonText → Item

-- How the items end: at the end of the file, by an `OSError` (a timeout is one), or by an exception
-- of another kind, as for bytes that are no UTF-8.
pub data Finish : Type 0 where
  eof os_error strange : Finish

-- What a connection gives: whether it can be opened and written to, the daemon's first line, and
-- the items after it.
pub record Connection : Type 0 where
  pub opens : Bool
  pub hello : Line
  pub items : List Item
  pub finish : Finish

-- An exception that is neither an `OSError` nor a `ProtocolError`.
pub data Escape : Type 0 where
  escape : Escape

-- `result` and `deltas`; the deltas are JSON values, which `"".join` wants to be texts.
pub record Reply : Type 0 where
  pub result : Option Message
  pub deltas : List Json

abbrev pub nothing : Reply
nothing = record { result = none; deltas = [] }

-- isinstance(msg, wire.Delta)
abbrev pub is_delta : Class → Bool
is_delta delta = true
is_delta other = false

-- What a message adds to the deltas.
abbrev pub collected : Bool → Message → List Json
collected collect m = if collect && is_delta m.cls then attribute "text" m ∷ [] else []

-- What an item is: to be passed over, a message, or an exception that leaves the loop.
pub data Reading : Type 0 where
  passed broken : Reading
  read : Message → Reading

abbrev pub reading_of : Result Refusal Message → Reading
reading_of (ok m) = read m
reading_of (err unhashable) = broken
reading_of (err other) = passed

unfoldable pub read_item : Item → Reading
read_item blank = passed
read_item (printed t) = reading_of (decode t)

-- How the call of `_roundtrip` goes on after its items: it has a reply, an `OSError` loses all that
-- was read, or another exception leaves it.
pub data Outcome : Type 0 where
  replied : Reply → Outcome
  lost escaped : Outcome

abbrev pub with_deltas : List Json → Outcome → Outcome
with_deltas ds (replied r) = replied (record r { deltas = ds ++ r.deltas })
with_deltas ds other = other

-- The end of the items without a terminal message.
abbrev pub ending : Finish → Outcome
ending eof = replied nothing
ending os_error = lost
ending strange = escaped

-- The body of the loop, before the rest of the items: `isinstance(msg, terminal)` breaks.
abbrev pub on_item : (Class → Bool) → Bool → Outcome → Reading → Outcome
on_item terminal collect rest passed = rest
on_item terminal collect rest broken = escaped
on_item terminal collect rest (read m) =
    let ds = collected collect m in
    if terminal m.cls
    then replied (record { result = some m; deltas = ds })
    else with_deltas ds rest

-- The loop.
unfoldable pub read_items : (Class → Bool) → Bool → List Item → Finish → Outcome
read_items terminal collect [] finish = ending finish
read_items terminal collect (i ∷ is) finish =
    let rest = read_items terminal collect is finish in on_item terminal collect rest (read_item i)

-- `negotiate_sync` on a text stream, which decodes UTF-8 on its own
abbrev pub on_hello : Result Failure Message → Outcome → Outcome
on_hello (ok m) rest = rest
on_hello (err not_utf8) rest = escaped
on_hello (err (refused unhashable)) rest = escaped
on_hello (err other) rest = lost

unfoldable pub converse : (Class → Bool) → Bool → Connection → Outcome
converse terminal collect c =
    if c.opens
    then on_hello (negotiate c.hello) (read_items terminal collect c.items c.finish)
    else lost

abbrev pub glue : String → Option String → Option String
glue s none = none
glue s (some t) = some (s <> t)

-- "".join(deltas), which raises on a value that is no text
unfoldable pub join_texts : List Json → Option String
join_texts [] = some ""
join_texts (str s ∷ vs) = glue s (join_texts vs)
join_texts (other ∷ vs) = none

abbrev pub joined : Option Message → Option String → Result Escape (Option Message × String)
joined m none = err escape
joined m (some t) = ok (m, t)

abbrev pub result_of : Outcome → Result Escape (Option Message × String)
result_of (replied r) = joined r.result (join_texts r.deltas)
result_of lost = ok (none, "")
result_of escaped = err escape

-- The socket: what it gives for a request.
abbrev pub Socket : Type 0
Socket = JsonText → Connection

-- `_roundtrip`
unfoldable pub roundtrip :
    Socket → Fields → (Class → Bool) → Bool → Result Escape (Option Message × String)
roundtrip socket req terminal collect =
    result_of (converse terminal collect (socket (dumps (obj req))))

-- A request without arguments.
abbrev pub plain_request : String → String → Fields
plain_request type id = field "type" (str type) (field "id" (str id) end)

-- A request about a unit.
abbrev pub unit_request : String → String → String → String → Fields
unit_request type id unit scope =
    field "type" (str type)
      (field "id" (str id) (field "unit" (str unit) (field "scope" (str scope) end)))

-- wire.Done, wire.Error
abbrev pub ends : Class → Bool
ends done = true
ends error = true
ends other = false

-- What a text is shown as: an attribute is any JSON value.
abbrev pub or_else : String → String → String
or_else default t = if t == "" then default else t

-- The end of `restart` and of `explain`, by the class of the result.
abbrev pub answer_of : String → Option Message → String → Json × Bool
answer_of default none deltas = (str "daemon unreachable", false)
answer_of default (some m) deltas = elim m.cls [
  | error ↦ (attribute "text" m, false)
  | done ↦ (str (or_else default deltas), true)
  | _ ↦ (str "daemon unreachable", false)
]

abbrev pub map_answer :
    String → Result Escape (Option Message × String) → Result Escape (Json × Bool)
map_answer default (ok (m, deltas)) = ok (answer_of default m deltas)
map_answer default (err e) = err e

-- `restart`
unfoldable pub restart : Socket → String → String → String → Result Escape (Json × Bool)
restart socket id unit scope =
    map_answer "done" (roundtrip socket (unit_request "restart_unit" id unit scope) ends true)

-- `explain`
unfoldable pub explain : Socket → String → String → String → Result Escape (Json × Bool)
explain socket id unit scope =
    map_answer "(no explanation available)"
      (roundtrip socket (unit_request "explain_unit" id unit scope) ends true)

abbrev pub is_failures : Class → Bool
is_failures failures = true
is_failures other = false

abbrev pub is_journal : Class → Bool
is_journal journal = true
is_journal other = false

abbrev pub is_timeline : Class → Bool
is_timeline timeline = true
is_timeline other = false

abbrev pub is_ledger : Class → Bool
is_ledger ledger = true
is_ledger other = false

abbrev pub is_health : Class → Bool
is_health health = true
is_health other = false

-- An attribute of the result, if there is one.
abbrev pub attribute_of :
    String → Result Escape (Option Message × String) → Result Escape (Option Json)
attribute_of name (ok (none, t)) = ok none
attribute_of name (ok (some m, t)) = ok (some (attribute name m))
attribute_of name (err e) = err e

-- `list_failures`
unfoldable pub list_failures : Socket → String → Result Escape (Option Json)
list_failures socket id =
    attribute_of "units" (roundtrip socket (plain_request "list_failures" id) is_failures false)

-- `journal`
unfoldable pub journal_text : Socket → String → String → String → Result Escape (Option Json)
journal_text socket id unit scope =
    attribute_of "text"
      (roundtrip socket (unit_request "unit_journal" id unit scope) is_journal false)

-- `ledger`
unfoldable pub ledger_data : Socket → String → Result Escape (Option Json)
ledger_data socket id =
    attribute_of "data" (roundtrip socket (plain_request "get_ledger" id) is_ledger false)

-- `health`
unfoldable pub health_data : Socket → String → Result Escape (Option Json)
health_data socket id =
    attribute_of "data" (roundtrip socket (plain_request "get_health" id) is_health false)

abbrev pub with_before : Option ℤ → Fields
with_before none = end
with_before (some z) = field "before_id" (int z) end

-- `if unit`, and `if before_id is not None`
abbrev pub with_filters : Option String → Option ℤ → Fields
with_filters none before_id = with_before before_id
with_filters (some unit) before_id =
    if unit == "" then with_before before_id else field "unit" (str unit) (with_before before_id)

abbrev pub page_request : String → ℤ → Option String → Option ℤ → Fields
page_request id limit unit before_id =
    field "type" (str "get_timeline")
      (field "id" (str id) (field "limit" (int limit) (with_filters unit before_id)))

abbrev pub page_of : Result Escape (Option Message × String) → Result Escape (Json × Json)
page_of (ok (none, t)) = ok (arr nil, null)
page_of (ok (some m, t)) = ok (attribute "events" m, attribute "next_cursor" m)
page_of (err e) = err e

-- `timeline`
unfoldable pub timeline_page :
    Socket → String → ℤ → Option String → Option ℤ → Result Escape (Json × Json)
timeline_page socket id limit unit before_id =
    page_of (roundtrip socket (page_request id limit unit before_id) is_timeline false)

-- ===== src/Protocol/Transport.antt =====
-- src/nixadmin/transport.py: the bounded lines and the hello with which each client starts.
use nixadmin.Prelude.{ℕ, String, Bool, true, false, none, some, ltb, if◌then◌else◌}
use nixadmin.Prelude.Result.{Result, ok, err}
use nixadmin.Json.{Json, null, get, JsonText}
use nixadmin.Protocol.{
  Class, hello, Message, fields_of, pack, Refusal, decode, Incompatible, require_compatible,
  version,
}

-- A line that was read: its size in bytes, whether it is UTF-8, whether it is blank, and the JSON
-- it holds.
pub record Line : Type 0 where
  pub size : ℕ
  pub is_utf8 : Bool
  pub is_blank : Bool
  pub json : JsonText

-- A `ProtocolError`, or what `decode` raises.
pub data Failure : Type 0 where
  too_large not_utf8 disconnected not_hello : Failure
  refused : Refusal → Failure
  incompatible : Incompatible → Failure

-- `MAX_LINE_BYTES`
abbrev pub max_line_bytes : ℕ
max_line_bytes = 65536

abbrev decoded : Result Refusal Message → Result Failure Message
decoded (err e) = err (refused e)
decoded (ok m) = ok m

-- `decode_line`
unfoldable pub decode_line : Line → Result Failure Message
decode_line l =
    if ltb max_line_bytes l.size
    then err too_large
    else if l.is_utf8
    then (if l.is_blank then err disconnected else decoded (decode l.json))
    else err not_utf8

-- An attribute of a message.
unfoldable pub attribute : String → Message → Json
attribute name m = elim (get name (pack (fields_of m.cls) m.values)) [ none ↦ null | some v ↦ v ]

abbrev is_hello : Class → Bool
is_hello hello = true
is_hello other = false

abbrev checked : Message → Result Incompatible (Unit {0}) → Result Failure Message
checked m (ok _) = ok m
checked m (err e) = err (incompatible e)

-- `_validate_hello`
unfoldable pub validate_hello : Message → Result Failure Message
validate_hello m =
    if is_hello m.cls
    then checked m (require_compatible (attribute "min_version" m) (attribute "version" m) version)
    else err not_hello

abbrev validated : Result Failure Message → Result Failure Message
validated (err e) = err e
validated (ok m) = validate_hello m

-- `negotiate_sync`
unfoldable pub negotiate : Line → Result Failure Message
negotiate l = validated (decode_line l)

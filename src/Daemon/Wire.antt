-- ===== src/Daemon/Wire.antt =====
-- The messages of src/nixadmin/server.py as they go over the wire.
use nixadmin.Prelude.{ℕ, String, ◌≡◌, Option, none, some, List, [], ◌∷◌, arith}
use nixadmin.Prelude.Int.{pos}
use nixadmin.Prelude.Result.{ok}
use nixadmin.Json.{Json, null, bool, int, real, str, arr, obj, Items, nil, cons, field, end}
use nixadmin.Store.{Event}
use nixadmin.Timeline.{FailedUnit}
use nixadmin.Ledger.{Ledger}
use nixadmin.Protocol
use nixadmin.Protocol.{Message, fields_of, encode, decode}
use nixadmin.Protocol.RoundTrip.{decode-encode, IsFilled}
use nixadmin.Daemon.{Sent, delta, status, error, done, failures, journal, timeline, ledger}

-- None is null.
abbrev pub or_null : Option String → Json
or_null none = null
or_null (some s) = str s

abbrev pub number_or_null : Option ℕ → Json
number_or_null none = null
number_or_null (some n) = int (pos n)

-- A time is a number of seconds, which Python prints as a float.
abbrev pub time_or_null : Option ℕ → Json
time_or_null none = null
time_or_null (some n) = real n

abbrev pub texts : List String → Items
texts [] = nil
texts (s ∷ ss) = cons (str s) (texts ss)

-- The dicts of `failed_units`
abbrev pub units_json : List FailedUnit → Items
units_json [] = nil
units_json (u ∷ us) =
    cons
      (obj (
        field "unit" (str u.unit)
          (field "scope" (str u.scope) (field "description" (str u.description) end))))
      (units_json us)

-- The dicts of `recent`
abbrev pub events_json : List Event → Items
events_json [] = nil
events_json (e ∷ es) =
    cons
      (obj (
        field "id" (int (pos e.id)) (
          field "ts" (real e.ts) (
            field "kind" (str e.kind) (
              field "unit" (or_null e.unit) (
                field "scope" (or_null e.scope) (
                  field "severity" (or_null e.severity)
                    (field "text" (str e.text) (field "meta" (obj e.meta) end)))))))))
      (events_json es)

-- asdict(ledger)
abbrev pub ledger_json : Ledger → Json
ledger_json l = obj (
    field "streak_days" (int (pos l.streak_days)) (
      field "healthy_now" (bool l.healthy_now) (
        field "since_ts" (time_or_null l.since_ts) (
          field "auto_restarts" (int (pos l.auto_restarts)) (
            field "recoveries" (int (pos l.recoveries)) (
              field "attention" (int (pos l.attention))
                (field "headline" (str l.headline) (field "tally" (arr (texts l.tally)) end))))))))

unfoldable pub wire_of : Sent → Message
wire_of (delta id text) = record { cls = Protocol.delta; values = str id ∷ str text ∷ [] }
wire_of (status id text) = record { cls = Protocol.status; values = str id ∷ str text ∷ [] }
wire_of (error id text) = record { cls = Protocol.error; values = str id ∷ str text ∷ [] }
wire_of (done id chain model) = record {
  cls = Protocol.done;
  values = str id ∷ or_null chain ∷ or_null model ∷ [];
}
wire_of (failures id units) = record {
  cls = Protocol.failures;
  values = str id ∷ arr (units_json units) ∷ [];
}
wire_of (journal id unit text) = record {
  cls = Protocol.journal;
  values = str id ∷ str unit ∷ str text ∷ [];
}
wire_of (timeline id (events, cursor)) = record {
  cls = Protocol.timeline;
  values = str id ∷ arr (events_json events) ∷ number_or_null cursor ∷ [];
}
wire_of (ledger id well) = record { cls = Protocol.ledger; values = str id ∷ ledger_json well ∷ [] }

wire_of-IsFilled : (m : Sent) → IsFilled (fields_of (wire_of m).cls) (wire_of m).values
unfolding wire_of fields_of
wire_of-IsFilled (delta id text) = ground arith
wire_of-IsFilled (status id text) = ground arith
wire_of-IsFilled (error id text) = ground arith
wire_of-IsFilled (done id none none) = ground arith
wire_of-IsFilled (done id none (some m)) = ground arith
wire_of-IsFilled (done id (some c) none) = ground arith
wire_of-IsFilled (done id (some c) (some m)) = ground arith
wire_of-IsFilled (failures id units) = ground arith
wire_of-IsFilled (journal id unit text) = ground arith
wire_of-IsFilled (timeline id (events, none)) = ground arith
wire_of-IsFilled (timeline id (events, some n)) = ground arith
wire_of-IsFilled (ledger id well) = ground arith

pub decode-wire_of : (m : Sent) → decode (encode (wire_of m)) ≡ ok (wire_of m)
decode-wire_of m = decode-encode (wire_of m) (wire_of-IsFilled m)

-- ===== src/Tray.antt =====
-- src/nixadmin/tray/client.py: the tray's connection to the daemon and its requests, as events of the
-- event loop. The socket is what the events say of it; an identifier is new for each request, so
-- that a future stands under it.
pub mod Settled
pub mod Sound
pub mod Replies
use nixadmin.Prelude.{
  String, Bool, true, false, not, ◌&&◌, Option, none, some, List, [], ◌∷◌, ◌++◌, ◌==◌, contains,
  string_eq, if◌then◌else◌, keep,
}
use nixadmin.Prelude.Dict.{Dict, lookup, insert, remove}
use nixadmin.Prelude.Result.{Result, ok, err}
use nixadmin.Json.{Json, null, bool, str, arr, obj, JsonText}
use nixadmin.Protocol.{
  Class, event, confirm, delta, failures, done, error, respond, Message, decode,
}
use nixadmin.Protocol.Transport.{attribute}
use nixadmin.Dclient.{join_texts}

-- A future of `_request`: it has a reply, or an exception, the second for the time that has passed.
pub data Future : Type 0 where
  waiting disconnected timed_out : Future
  replied : Message → Future

pub record DaemonClient : Type 0 where
  -- `connected`; with it comes and goes `_writer`
  pub connected : Bool
  -- the keys of `_pending`
  pub pending : List String
  -- the futures, also those that `_pending` has no longer
  pub futures : Dict String Future
  -- `_collect`
  pub collect : Dict String (List Json)
  -- what was given to the daemon, the newest first
  pub written : List Message
  -- the calls of `on_state` and of `on_event`, the newest first
  pub states : List Bool
  pub events : List Message
  -- whether `run` goes on
  pub running : Bool

abbrev pub at_start : DaemonClient
at_start = record {
  connected = false;
  pending = [];
  futures = [];
  collect = [];
  written = [];
  states = [];
  events = [];
  running = true;
}

-- value != self.connected
abbrev pub differs : Bool → Bool → Bool
differs true b = not b
differs false b = b

-- `_set_connected`
unfoldable pub set_connected : Bool → DaemonClient → DaemonClient
set_connected value c =
    if differs value c.connected
    then record c { connected = value; states = value ∷ c.states }
    else c

-- A future that is not done gets an exception or a reply.
abbrev pub settle : Future → Option Future → Option Future
settle outcome (some waiting) = some outcome
settle outcome other = other

abbrev pub put_future : String → Option Future → Dict String Future → Dict String Future
put_future id none futures = futures
put_future id (some f) futures = insert id f futures

unfoldable pub settle_at : String → Future → Dict String Future → Dict String Future
settle_at id outcome futures = put_future id (settle outcome (lookup id futures)) futures

unfoldable pub fail_each : List String → Dict String Future → Dict String Future
fail_each [] futures = futures
fail_each (id ∷ ids) futures = settle_at id disconnected (fail_each ids futures)

-- `_fail_pending`
unfoldable pub fail_pending : DaemonClient → DaemonClient
fail_pending c = record c { futures = fail_each c.pending c.futures; pending = [] }

-- The `finally` of `run`
unfoldable pub disconnect : DaemonClient → DaemonClient
disconnect c = fail_pending (set_connected false c)

-- `_send`, if there is a writer: whether it can be written to
abbrev pub send : Bool → Message → DaemonClient → DaemonClient
send writes m c = if writes then record c { written = m ∷ c.written } else c

abbrev pub without : String → List String → List String
without id ids = keep (λ i. not (id == i)) ids

-- self._pending.pop(msg.id, None), and the future's reply
abbrev pub reply_to : String → Message → DaemonClient → DaemonClient
reply_to id m c =
    if contains c.pending id
    then record c { pending = without id c.pending; futures = settle_at id (replied m) c.futures }
    else c

abbrev pub append_to : String → Json → Option (List Json) → DaemonClient → DaemonClient
append_to id text none c = c
append_to id text (some buf) c = record c { collect = insert id (buf ++ (text ∷ [])) c.collect }

-- A key that a message has: one of the texts, another value, or one that has no hash.
pub data Key : Type 0 where
  named : String → Key
  foreign unhashable : Key

abbrev pub key_of : Json → Key
key_of (str id) = named id
key_of (arr items) = unhashable
key_of (obj fields) = unhashable
key_of other = foreign

-- An exception that is no `OSError` leaves `run`, after its `finally`.
abbrev pub leave : DaemonClient → DaemonClient
leave c = record (disconnect c) { running = false }

abbrev pub on_delta : Key → Message → DaemonClient → DaemonClient
on_delta (named id) m c = append_to id (attribute "text" m) (lookup id c.collect) c
on_delta foreign m c = c
on_delta unhashable m c = leave c

abbrev pub is_empty : List String → Bool
is_empty [] = true
is_empty (id ∷ ids) = false

-- `{}.pop` looks at no key
abbrev pub on_reply : Key → Message → DaemonClient → DaemonClient
on_reply (named id) m c = reply_to id m c
on_reply foreign m c = c
on_reply unhashable m c = if is_empty c.pending then c else leave c

-- wire.Respond(id=msg.id, confirmed=True)
abbrev pub consent : Message → Message
consent m = record { cls = respond; values = attribute "id" m ∷ bool true ∷ null ∷ [] }

-- `_dispatch`, by the message's class
abbrev pub dispatch_class : Class → Bool → Message → DaemonClient → DaemonClient
dispatch_class event writes m c = record c { events = m ∷ c.events }
dispatch_class confirm writes m c = send writes (consent m) c
dispatch_class delta writes m c = on_delta (key_of (attribute "id" m)) m c
dispatch_class failures writes m c = on_reply (key_of (attribute "id" m)) m c
dispatch_class done writes m c = on_reply (key_of (attribute "id" m)) m c
dispatch_class error writes m c = on_reply (key_of (attribute "id" m)) m c
dispatch_class other writes m c = c

abbrev pub dispatch_decoded : {R : Type 0} → Bool → Result R Message → DaemonClient → DaemonClient
dispatch_decoded writes (ok m) c = dispatch_class m.cls writes m c
dispatch_decoded writes (err e) c = c

-- `_dispatch`
unfoldable pub dispatch : Bool → JsonText → DaemonClient → DaemonClient
dispatch writes line c = dispatch_decoded writes (decode line) c

-- `_request`, until it waits; it does not wait if nothing was sent
unfoldable pub request : Bool → Bool → String → Message → DaemonClient → DaemonClient
request collect writes id m c =
    if c.connected && writes
    then record c {
      pending = id ∷ without id c.pending;
      futures = insert id waiting c.futures;
      collect = if collect then insert id [] c.collect else c.collect;
      written = m ∷ c.written;
    }
    else c

abbrev pub waits : Option Future → Bool
waits (some waiting) = true
waits other = false

-- The time of a request has passed.
unfoldable pub time_out : String → DaemonClient → DaemonClient
time_out id c =
    if waits (lookup id c.futures)
    then record c { pending = without id c.pending; futures = settle_at id timed_out c.futures }
    else c

-- What happens: a connection with a hello that fits, or an attempt without; a line of the daemon, and
-- the end of its lines; a request, which may want its deltas, and the end of its time; the end of
-- an explanation. The Booleans say whether the daemon can be written to.
pub data Event : Type 0 where
  greeted missed lost : Event
  received : Bool → JsonText → Event
  asked : Bool → Bool → String → Message → Event
  expired told : String → Event

abbrev pub while_connected : (DaemonClient → DaemonClient) → DaemonClient → DaemonClient
while_connected f c = if c.connected then f c else c

unfoldable pub step : Event → DaemonClient → DaemonClient
step greeted c = if c.running then set_connected true c else c
step missed c = if c.connected then c else set_connected false c
step lost c = while_connected disconnect c
step (received writes line) c = while_connected (dispatch writes line) c
step (asked collect writes id m) c = request collect writes id m c
step (expired id) c = time_out id c
step (told id) c = record c { collect = remove id c.collect }

-- The state after some events, the newest first.
unfoldable pub after : List Event → DaemonClient
after [] = at_start
after (e ∷ es) = step e (after es)

-- What `_request` returns when its future is done; it returns None at once without a future.
abbrev pub reply_of : Option Future → Option Message
reply_of (some (replied m)) = some m
reply_of other = none

-- `list_failures`, by the reply
abbrev pub listed : Option Message → Option Json
listed none = none
listed (some m) = elim m.cls [ failures ↦ some (attribute "units" m) | _ ↦ none ]

-- `restart_unit`, by the reply
abbrev pub restarted : Option Message → Option Json
restarted none = none
restarted (some m) = elim m.cls [ error ↦ some (attribute "text" m) | _ ↦ none ]

-- A text, if it is not empty.
abbrev pub non_empty : String → Option Json
non_empty s = if s == "" then none else some (str s)

-- An exception, or what an explanation returns.
pub data Explanation : Type 0 where
  raised : Explanation
  returned : Option Json → Explanation

abbrev pub explained_text : Option Message → String → Option Json
explained_text none text = non_empty text
explained_text (some m) text = elim m.cls [ error ↦ some (attribute "text" m) | _ ↦ non_empty text ]

abbrev pub explained_joined : Option Message → Option String → Explanation
explained_joined reply none = raised
explained_joined reply (some text) = returned (explained_text reply text)

abbrev pub buffer_of : Option (List Json) → List Json
buffer_of none = []
buffer_of (some buf) = buf

-- `explain_unit`, when its request has returned
unfoldable pub explained : String → DaemonClient → Explanation
explained id c =
    explained_joined (reply_of (lookup id c.futures)) (join_texts (buffer_of (lookup id c.collect)))

-- ===== src/Web/Session.antt =====
-- src/nixadmin/web/session.py: a query of the local view on a socket of its own. The handler's
-- thread drives `messages`, other threads answer and cancel: an event is one step of a thread.
-- The socket takes what is written to it, as long as it is open.
pub mod Tracks
pub mod Answers
pub mod Prompts
use nixadmin.Prelude.{
  ℕ, String, Bool, true, false, not, ◌&&◌, Option, none, some, List, [], ◌∷◌, ◌++◌, if◌then◌else◌,
}
use nixadmin.Prelude.Result.{Result, ok, err}
use nixadmin.Json.{Json, null, bool, str, JsonText}
use nixadmin.Protocol.{
  Class, query, cancel, respond, done, error, confirm, input, Message, Refusal, unhashable, decode,
}
use nixadmin.Protocol.Transport.{Line, Failure, negotiate}
use nixadmin.Web.Requests.{QuerySpec}

-- Where the generator `messages` stands: it reads the next line, it waits for an answer, or it has
-- ended.
pub data Phase : Type 0 where
  reading waiting ended : Phase

-- `wire.Respond`
pub record Respond : Type 0 where
  pub id : String
  pub confirmed : Option Bool
  pub value : Option String

-- `QuerySession` with its generator; `sent` is what its socket was given, and `shown` what the
-- generator yielded, both with the newest last.
pub record Session : Type 0 where
  pub qid : String
  pub answers : List (Option Respond)
  pub is_open : Bool
  pub phase : Phase
  pub sent : List Message
  pub shown : List Message

abbrev json_of : {A : Type 0} → (A → Json) → Option A → Json
json_of f none = null
json_of f (some a) = f a

unfoldable pub message_of : Respond → Message
message_of r = record {
  cls = respond;
  values = str r.id ∷ json_of bool r.confirmed ∷ json_of str r.value ∷ [];
}

unfoldable pub cancel_of : String → Message
cancel_of qid = record { cls = cancel; values = str qid ∷ [] }

-- `_write`: nothing if the session is closed
unfoldable pub write : Message → Session → Session
write m s = record s { sent = if s.is_open then s.sent ++ (m ∷ []) else s.sent }

-- `close`
unfoldable pub close : Session → Session
close s = record s { is_open = false }

-- The generator's end: `break` or a raise, and then `finally`.
unfoldable pub end : Session → Session
end s = record (close s) { phase = ended }

-- The end of `open`: the daemon's hello was right, and the query is sent.
unfoldable pub opened : QuerySpec → Session
opened q = record {
  qid = q.qid;
  answers = [];
  is_open = true;
  phase = reading;
  sent =
      record { cls = query; values = str q.qid ∷ str q.text ∷ str q.session_id ∷ null ∷ [] } ∷ [];
  shown = [];
}

abbrev opened_by : QuerySpec → Result Failure Message → Result Failure Session
opened_by q (err e) = err e
opened_by q (ok m) = ok (opened q)

-- `open`, on the daemon's first line
unfoldable pub open_session : Line → QuerySpec → Result Failure Session
open_session hello q = opened_by q (negotiate hello)

-- The phase behind a message that was shown.
unfoldable pub after : Class → Phase
after confirm = waiting
after input = waiting
after done = ended
after error = ended
after other = reading

unfoldable pub settle : Phase → Session → Session
settle ended s = end s
settle phase s = record s { phase = phase }

unfoldable pub show : Message → Session → Session
show m s = settle (after m.cls) (record s { shown = s.shown ++ (m ∷ []) })

abbrev pub read_decoded : Result Refusal Message → Session → Session
read_decoded (ok m) s = show m s
read_decoded (err unhashable) s = end s
read_decoded (err other) s = s

-- The loop's body on a line; a file that is closed cannot be read.
unfoldable pub read : JsonText → Session → Session
read line s = if s.is_open then read_decoded (decode line) s else end s

-- What the generator does with the answer that it took from the queue.
unfoldable pub resume : Option Respond → Session → Session
resume none s = end (write (cancel_of s.qid) s)
resume (some r) s = write (message_of r) (record s { phase = reading })

pub data Event : Type 0 where
  -- a line of the daemon
  line : JsonText → Event
  -- the end of the lines, or an error of the socket
  eof : Event
  -- `_answers.get` returns
  take : Event
  -- `_answers.get` raises `queue.Empty`
  timeout : Event
  -- `answer`, from another thread
  answer : Option Bool → Option String → Event
  -- `cancel`, from another thread
  cancelled : Event
  -- `close`, from another thread
  closed : Event

-- `answer`
unfoldable pub put : Option Respond → Session → Session
put a s = record s { answers = s.answers ++ (a ∷ []) }

abbrev pub on_take : List (Option Respond) → Session → Session
on_take [] s = s
on_take (a ∷ rest) s = resume a (record s { answers = rest })

abbrev pub on_timeout : List (Option Respond) → Session → Session
on_timeout [] s = resume none s
on_timeout (a ∷ rest) s = s

abbrev pub generator : Event → Phase → Session → Session
generator (line l) reading s = read l s
generator eof reading s = end s
generator take waiting s = on_take s.answers s
generator timeout waiting s = on_timeout s.answers s
generator other phase s = s

-- One step of a thread; one that is not due changes nothing.
unfoldable pub step : Event → Session → Session
step (answer confirmed value) s =
    put (some (record { id = s.qid; confirmed = confirmed; value = value })) s
step cancelled s = put none (write (cancel_of s.qid) s)
step closed s = close s
step event s = generator event s.phase s

unfoldable pub run : List Event → Session → Session
run [] s = s
run (e ∷ es) s = run es (step e s)

-- ===== src/Connections.antt =====
-- The confirmations of src/nixadmin/connections.py: what a client's connection keeps of the
-- questions that wait for an answer. Each operation is one turn of the event loop; the transport's
-- writes are not modelled, and the tasks that a connection owns are in Tasks.
pub mod Confirmation
use nixadmin.Prelude.{
  String, Bool, true, false, Option, none, some, List, [], ◌∷◌, ◌==◌, string_eq, if◌then◌else◌,
}
use nixadmin.Prelude.Dict.{Dict, lookup, insert, remove}

-- A future of `_await_response`.
pub data Answer : Type 0 where
  waiting cancelled : Answer
  answered : Bool → Answer

pub record ClientConn : Type 0 where
  pub pending : Dict String Answer
  pub closed : Bool

abbrev pub connected : ClientConn
connected = record { pending = []; closed = false }

-- `confirm`, once its message is sent: `_await_response` files a new future
unfoldable pub ask : String → ClientConn → ClientConn
ask qid c = record c { pending = insert qid waiting c.pending }

-- future.set_result, if it is not done
abbrev pub settle : Bool → Answer → Answer
settle confirmed waiting = answered confirmed
settle confirmed done = done

-- future.cancel()
abbrev pub cancel : Answer → Answer
cancel waiting = cancelled
cancel done = done

abbrev pub deliver : String → Bool → Option Answer → ClientConn → ClientConn
deliver qid confirmed none c = c
deliver qid confirmed (some future) c = record c {
  pending = insert qid (settle confirmed future) c.pending;
}

-- `deliver_response`
unfoldable pub deliver_response : String → Bool → ClientConn → ClientConn
deliver_response qid confirmed c = deliver qid confirmed (lookup qid c.pending) c

unfoldable pub cancel_all : Dict String Answer → Dict String Answer
cancel_all [] = []
cancel_all ((qid, future) ∷ d) = (qid, cancel future) ∷ cancel_all d

-- `ConnectionManager.close`, on the connection's futures
unfoldable pub close : ClientConn → ClientConn
close c = if c.closed then c else record { pending = cancel_all c.pending; closed = true }

-- The end of `_await_response`, in its `finally`.
unfoldable pub forget : String → ClientConn → ClientConn
forget qid c = record c { pending = remove qid c.pending }

-- bool(response and response.confirmed), of a future that is done
unfoldable pub verdict : Option Answer → Bool
verdict (some (answered confirmed)) = confirmed
verdict other = false

-- What happens on a connection.
pub data Event : Type 0 where
  asked : String → Event
  responded : String → Bool → Event
  ended : String → Event
  disconnected : Event

unfoldable pub step : Event → ClientConn → ClientConn
step (asked qid) = ask qid
step (responded qid confirmed) = deliver_response qid confirmed
step (ended qid) = forget qid
step disconnected = close

-- The connection after some events, the newest first.
unfoldable pub after : List Event → ClientConn
after [] = connected
after (e ∷ es) = step e (after es)

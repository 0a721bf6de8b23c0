-- ===== src/Tasks.antt =====
-- The tasks that the daemon runs for one client: `_spawn` and the branches of `_on_message` in
-- src/nixadmin/server.py that start, stop and forget a query, `ConnectionManager.close` in
-- src/nixadmin/connections.py as to tasks, and the TaskSet of src/nixadmin/tasks.py. Each operation
-- is one turn of the event loop; a task is the number of its creation.
pub mod Orderly
pub mod Current
use nixadmin.Prelude.{
  ℕ, ◌+◌, String, Bool, true, false, not, Option, none, some, List, [], ◌∷◌, ◌++◌, ◌==◌, contains,
  string_eq, nat_eq, option_eq, if◌then◌else◌, keep,
}
use nixadmin.Prelude.Dict.{Dict, lookup, insert, remove}

-- A client's connection, with what the daemon's task set knows of it.
pub record Work : Type 0 where
  -- the number of the next task of the daemon
  pub next : ℕ
  -- `conn.tasks`
  pub tasks : Dict String ℕ
  -- `conn.owned_tasks`, which are also in the task set
  pub owned : List ℕ
  -- the callbacks `forget_query`: the identifier of each query that was begun, the newest first
  pub begun : Dict String ℕ
  -- the tasks whose cancellation was asked for, the newest first
  pub cancelled : List ℕ
  pub closed : Bool
  -- `TaskSet._closing`
  pub closing : Bool

abbrev pub at_first : Work
at_first = record {
  next = 0;
  tasks = [];
  owned = [];
  begun = [];
  cancelled = [];
  closed = false;
  closing = false;
}

-- `_spawn`, of a task of the client's own: the `RuntimeError` of a task set that is closing leaves
-- all as it was
abbrev pub spawned : Work → Work
spawned w = record w { next = w.next + 1; owned = w.next ∷ w.owned }

unfoldable pub spawn : Work → Work
spawn w = if w.closing then w else spawned w

-- `_on_message` of a `Query`
unfoldable pub on_query : String → Work → Work
on_query id w =
    if w.closing
    then w
    else record (spawned w) { tasks = insert id w.next w.tasks; begun = (id, w.next) ∷ w.begun }

abbrev pub cancel_found : Option ℕ → Work → Work
cancel_found none w = w
cancel_found (some n) w = record w { cancelled = n ∷ w.cancelled }

-- `_on_message` of a `Cancel`
unfoldable pub on_cancel : String → Work → Work
on_cancel id w = cancel_found (lookup id w.tasks) w

-- The query that a task answers.
unfoldable pub query_of : ℕ → Dict String ℕ → Option String
query_of n [] = none
query_of n ((id, m) ∷ begun) = let rest = query_of n begun in if n == m then some id else rest

-- `forget_query`, if the task has this callback
abbrev pub forget_query : ℕ → Option String → Dict String ℕ → Dict String ℕ
forget_query n none tasks = tasks
forget_query n (some id) tasks = if lookup id tasks == some n then remove id tasks else tasks

-- conn.tasks.pop(query.id, None)
abbrev pub pop_query : Option String → Dict String ℕ → Dict String ℕ
pop_query none tasks = tasks
pop_query (some id) tasks = remove id tasks

-- The `finally` of `_dispatch`: a query that got its session's lock comes to its end, before its
-- callbacks are called
unfoldable pub leave : ℕ → Work → Work
leave n w =
    if contains w.owned n then record w { tasks = pop_query (query_of n w.begun) w.tasks } else w

-- owned_tasks.discard(task)
abbrev pub discard : ℕ → List ℕ → List ℕ
discard n ms = keep (λ m. not (n == m)) ms

-- The callbacks of a task that is done, of those that the client owns.
unfoldable pub finished : ℕ → Work → Work
finished n w =
    if contains w.owned n
    then record w { owned = discard n w.owned; tasks = forget_query n (query_of n w.begun) w.tasks }
    else w

-- `ConnectionManager.close`, which cancels the tasks that the client owns
unfoldable pub close : Work → Work
close w = if w.closed then w else record w { closed = true; cancelled = w.owned ++ w.cancelled }

-- `TaskSet.aclose`
unfoldable pub aclose : Work → Work
aclose w = record w { closing = true; cancelled = w.owned ++ w.cancelled }

-- What happens: a message of the client, the end of a query's work, the callbacks of a task that is
-- done, the end of the connection or of the daemon, or a task that is created for something else.
pub data Event : Type 0 where
  query cancel : String → Event
  request lost stopped elsewhere : Event
  left done : ℕ → Event

unfoldable pub step : Event → Work → Work
step (query id) w = on_query id w
step (cancel id) w = on_cancel id w
step request w = spawn w
step lost w = close w
step stopped w = aclose w
step elsewhere w = record w { next = w.next + 1 }
step (left n) w = leave n w
step (done n) w = finished n w

-- The state after some events, the newest first.
unfoldable pub after : List Event → Work
after [] = at_first
after (e ∷ es) = step e (after es)

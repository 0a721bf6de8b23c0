-- ===== src/Web/Handlers/Reach.antt =====
-- The states that the server of src/nixadmin/web/server.py can reach, and the number of its queries.
use nixadmin.Prelude.{ℕ, ◌+◌, ◌≤◌, ◌≡◌, refl, String, [], ◌∷◌, string_eq, length, arith}
use nixadmin.Prelude.Dict.{Dict, insert, remove}
use nixadmin.Web.Session.{Session, Event}
use nixadmin.Web.Server.{
  Request, Platform, Server, update, register_session, drop_session, on_session, server_close,
}
use nixadmin.Web.Handlers.{do_get, do_post}

-- At most sixteen queries are registered.
abbrev pub IsBounded : (P : Platform) → Server P → Type 0
IsBounded P s = length s.sessions ≤ 16

-- The states of a server: it starts with no query, and a step is a request, a step of one of a
-- query's threads, the end of a stream, or the close. A stream's request is also two steps, between
-- which other threads may come: the connection is opened, which changes the world outside, and the
-- session is registered.
pub data Reachable (P : Platform) : Server P → Type 0 where
  started :
      (port : ℕ) (token : String) (w : P.World)
      → Reachable P (record { port = port; token = token; sessions = []; world = w })
  got : (r : Request) (s : Server P) → Reachable P s → Reachable P (do_get P r s).1
  connected : (w : P.World) (s : Server P) → Reachable P s → Reachable P (record s { world = w })
  registered : (q : Session) (s : Server P) → Reachable P s → Reachable P (register_session P q s).1
  posted : (r : Request) (s : Server P) → Reachable P s → Reachable P (do_post P r s).1
  thread :
      (qid : String) (e : Event) (s : Server P) → Reachable P s → Reachable P (on_session P qid e s)
  dropped : (qid : String) (s : Server P) → Reachable P s → Reachable P (drop_session P qid s)
  closed : (s : Server P) → Reachable P s → Reachable P (server_close P s).1

pub length-update :
    (k : String) (f : Session → Session) (d : Dict String Session)
    → length (update k f d) ≡ length d
unfolding update
length-update k f [] = refl
length-update k f ((j, s) ∷ d) = ground (arith, length-update k f d)

pub length-remove : (k : String) (d : Dict String Session) → length (remove k d) ≤ length d
unfolding remove
length-remove k [] = omega arith
length-remove k ((j, s) ∷ d) = ground (arith, length-remove k d)

pub length-insert :
    (k : String) (s : Session) (d : Dict String Session) → length (insert k s d) ≤ length d + 1
unfolding insert
length-insert k s [] = omega arith
length-insert k s ((j, t) ∷ d) = ground (arith, length-insert k s d)

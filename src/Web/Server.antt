-- ===== src/Web/Server.antt =====
-- src/nixadmin/web/server.py: the requests that the local view handles, and its open queries. The
-- libraries, the assets and the client of the daemon are parameters.
use nixadmin.Prelude.{
  ℕ, String, Bool, false, not, Option, none, some, List, [], ◌∷◌, ◌==◌, string_eq, map, length, leb,
  if◌then◌else◌,
}
use nixadmin.Prelude.Dict.{Dict, lookup, insert, remove}
use nixadmin.Prelude.Int.{ℤ}
use nixadmin.Prelude.Result.{Result, ok, err}
use nixadmin.Json.{Json, JsonText}
use nixadmin.Protocol.Transport.{Line}
use nixadmin.Web.Security.{host_ok, origin_ok, token_ok}
use nixadmin.Web.Requests.{Query, QuerySpec, RequestError}
use nixadmin.Web.Session.{Session, Event, cancelled, closed, step}

-- `MAX_ACTIVE_SESSIONS`
abbrev pub max_active_sessions : ℕ
max_active_sessions = 16

pub record Headers : Type 0 where
  pub host : Option String
  pub origin : Option String
  pub token : Option String
  pub content_length : Option String

-- A request; `body` is what reading so many bytes of it gives.
pub record Request : Type 0 where
  pub path : String
  pub query : Query
  pub headers : Headers
  pub body : ℕ → JsonText

-- What the handler sends as the body of its reply.
pub data Payload : Type 0 where
  problem : String → Payload
  page : String → Payload
  asset : String → Payload
  state : Option Json → Payload
  text : String → Payload
  timeline : Json × Option Json → Payload
  ledger : Option Json → Payload
  health : Option Json → Payload
  outcome : String × Bool → Payload
  acknowledged : Payload
  stream : Payload

-- A reply with its status, or a raise that no handler catches.
pub data Response : Type 0 where
  reply : ℕ → Payload → Response
  raised : Response

-- The libraries, and `dclient.Daemon`, whose calls change the world.
pub record Platform : Type 1 where
  pub World : Type 0
  pub compare_digest : String → String → Option Bool
  pub str_of : Json → String
  pub truth : Json → Bool
  pub asset_of : String → Option String
  pub fresh_id : World → String
  pub list_failures : World → Option Json × World
  pub journal : String → String → World → Option String × World
  pub timeline_page : ℤ → Option String → Option ℤ → World → (Json × Option Json) × World
  pub ledger_data : World → Option Json × World
  pub health_data : World → Option Json × World
  pub restart : String → String → World → (String × Bool) × World
  pub explain : String → String → World → (String × Bool) × World
  -- the daemon's first line on a new socket, or none if it cannot be reached
  pub connect : QuerySpec → World → Option Line × World

-- `_WebServer`
pub record Server (P : Platform) : Type 0 where
  pub port : ℕ
  pub token : String
  pub sessions : Dict String Session
  pub world : P.World

pub data Verdict : Type 0 where
  passed : Verdict
  refused : ℕ → String → Verdict
  failed : Verdict

abbrev pub given : Option String → Bool
given none = false
given (some s) = not (s == "")

abbrev pub head? : Option (List String) → Option String
head? (some (v ∷ vs)) = some v
head? other = none

-- `_token`
unfoldable pub token_of : Request → Option String
token_of r = if given r.headers.token then r.headers.token else head? (lookup "token" r.query)

abbrev pub judge : Bool → Bool → Option Bool → Verdict
judge host origin token =
    if not host
    then refused 403 "bad host"
    else if not origin
    then refused 403 "bad origin"
    else elim token [
      | none ↦ failed
      | some good ↦ if good then passed else refused 401 "unauthorized"
    ]

-- d with f done to the value at a key
unfoldable pub update : String → (Session → Session) → Dict String Session → Dict String Session
update k f [] = []
update k f ((j, s) ∷ d) = let rest = update k f d in (j, if k == j then f s else s) ∷ rest

module _ (P : Platform) where
  abbrev pub Handler : Type 0
  Handler = Server P → Response × Server P

  abbrev pub say : ℕ → Payload → Handler
  say status payload s = (reply status payload, s)

  -- `_guard`
  unfoldable pub guard : Bool → Request → Server P → Verdict
  guard mutation r s =
      judge (host_ok r.headers.host s.port) (origin_ok r.headers.origin s.port mutation)
        (token_ok P.compare_digest (token_of r) s.token)

  abbrev pub on_verdict : Verdict → Handler → Handler
  on_verdict passed handler s = handler s
  on_verdict (refused status message) handler s = say status (problem message) s
  on_verdict failed handler s = (raised, s)

  -- `if not self._guard(...): return`, and then the rest
  unfoldable pub guarded : Bool → Request → Handler → Handler
  guarded mutation r handler s = on_verdict (guard mutation r s) handler s

  -- A call of the client.
  abbrev pub call : {A : Type 0} → (P.World → A × P.World) → (A → Response) → Handler
  call f respond s = let (a, w) = f s.world in (respond a, record s { world = w })

  abbrev pub on_request : {A : Type 0} → Result RequestError A → (A → Handler) → Handler
  on_request (ok a) handler s = handler a s
  on_request (err e) handler s = say e.status (problem e.message) s

  abbrev pub register_found : Option Session → Session → Handler
  register_found (some other) q s = say 409 (problem "query already exists") s
  register_found none q s =
      if leb max_active_sessions (length s.sessions)
      then say 503 (problem "busy") s
      else (reply 200 stream, record s { sessions = insert q.qid q s.sessions })

  -- `register_session`, and what `_stream` replies
  unfoldable pub register_session : Session → Handler
  register_session q s = register_found (lookup q.qid s.sessions) q s

  -- `drop_session`
  unfoldable pub drop_session : String → Server P → Server P
  drop_session qid s = record s { sessions = remove qid s.sessions }

  -- A step of one of a session's threads.
  unfoldable pub on_session : String → Event → Server P → Server P
  on_session qid e s = record s { sessions = update qid (step e) s.sessions }

  -- `server_close`: each session is cancelled and closed
  unfoldable pub server_close : Server P → Dict String Session × Server P
  server_close s =
      (map (λ (k, q). (k, step closed (step cancelled q))) s.sessions, record s { sessions = [] })

-- ===== src/Web/Handlers/Bounded.antt =====
-- The open queries of src/nixadmin/web/server.py, over all that the threads of the server may do.
use nixadmin.Prelude.{
  ◌≤◌, ◌≡◌, refl, String, Bool, true, false, Option, none, some, [], ◌∷◌, ◌==◌, string_eq, length,
  leb, contains, if◌then◌else◌, arith,
}
use nixadmin.Prelude.Dict.{Dict, lookup, insert}
use nixadmin.Prelude.Result.{Result, ok, err}
use nixadmin.Prelude.Split.{behind}
use nixadmin.Json.{Fields, get}
use nixadmin.Protocol.Transport.{Line, Failure}
use nixadmin.Web.Requests.{
  RequestError, QuerySpec, UnitSpec, from_query, from_body, content_length, text_of,
}
use nixadmin.Web.Security.{host_ok}
use nixadmin.Web.Session.{Session, Event, step, open_session}
use nixadmin.Web.Server.{
  Request, Response, Platform, Server, Verdict, passed, refused, failed, Handler, guard, on_verdict,
  guarded, register_session, drop_session, on_session, on_request, server_close,
  max_active_sessions, say, call, page, outcome, register_found, reply, problem, stream,
}
use nixadmin.Web.Handlers.{
  on_opened, on_connect, stream_query, get_route, get_routes, get_other, do_get, asset_reply,
  invoke_control, control, on_unit, on_body, on_length, post_handler, do_post, routes,
  control_found,
}
use nixadmin.Web.Handlers.Reach.{
  IsBounded, Reachable, started, got, connected, registered, posted, thread, dropped, closed,
  length-update, length-remove, length-insert,
}

module _ (P : Platform) where
  -- A handler keeps the bound.
  abbrev Keeps : Handler P → Type 0
  Keeps handler = (s : Server P) → IsBounded P s → IsBounded P (handler s).1

  verdict-Keeps :
      (v : Verdict) (handler : Handler P) → Keeps handler → Keeps (on_verdict P v handler)
  verdict-Keeps passed handler k s b = k s b
  verdict-Keeps (refused status message) handler k s b = b
  verdict-Keeps failed handler k s b = b

  guarded-Keeps :
      (mutation : Bool) (r : Request) (handler : Handler P)
      → Keeps handler
      → Keeps (guarded P mutation r handler)
  unfolding guarded
  guarded-Keeps mutation r handler k s b = verdict-Keeps (guard P mutation r s) handler k s b

  on_request-Keeps :
      {A : Type 0} (a : Result RequestError A) (handler : A → Handler P)
      → ((x : A) → Keeps (handler x))
      → Keeps (on_request P a handler)
  on_request-Keeps (ok a) handler k s b = k a s b
  on_request-Keeps (err e) handler k s b = b

  insert-Keeps :
      (full : Bool) (q : Session) (s : Server P)
      → full ≡ leb max_active_sessions (length s.sessions)
      → IsBounded P s
      → IsBounded P
          (if full
            then say P 503 (problem "busy") s
            else (reply 200 stream, record s { sessions = insert q.qid q s.sessions })).1
  insert-Keeps true q s h b = b
  insert-Keeps false q s h b = ground (arith, length-insert q.qid q s.sessions)

  found-Keeps : (found : Option Session) (q : Session) → Keeps (λ s. register_found P found q s)
  found-Keeps (some other) q s b = b
  found-Keeps none q s b = insert-Keeps (leb max_active_sessions (length s.sessions)) q s refl b

  register-Keeps : (q : Session) → Keeps (register_session P q)
  unfolding register_session
  register-Keeps q s b = found-Keeps (lookup q.qid s.sessions) q s b

  opened-Keeps : (o : Result Failure Session) → Keeps (on_opened P o)
  opened-Keeps (ok q) s b = register-Keeps q s b
  opened-Keeps (err e) s b = b

  connect-Keeps : (q : QuerySpec) (hello : Option Line) → Keeps (on_connect P q hello)
  connect-Keeps q none s b = b
  connect-Keeps q (some hello) s b = opened-Keeps (open_session hello q) s b

  stream-Keeps : (r : Request) → Keeps (stream_query P r)
  unfolding stream_query
  stream-Keeps r s b =
      on_request-Keeps (from_query (P.fresh_id s.world) r.query) _
        (λ q s b.
          connect-Keeps q (P.connect q s.world).0 (record s { world = (P.connect q s.world).1 }) b)
        s b

  control_found-Keeps :
      (found : Option Session) (qid : String) (e : Event) → Keeps (control_found P found qid e)
  unfolding on_session
  control_found-Keeps none qid e s b = b
  control_found-Keeps (some q) qid e s b = rw (length-update qid (step e) s.sessions) b

  control-Keeps : (path : String) (body : Fields) → Keeps (invoke_control P path body)
  unfolding invoke_control
  control-Keeps path body s b =
      let qid = text_of P.str_of "" (get "qid" body) in
      control_found-Keeps (lookup qid s.sessions) qid (control P path body) s b

  call-Keeps :
      {A : Type 0} (f : P.World → A × P.World) (respond : A → Response) → Keeps (call P f respond)
  call-Keeps f respond s b = b

  Kept : Option (Handler P) → Type 0
  Kept none = Unit
  Kept (some handler) = Keeps handler

  AllKeep : Dict String (Handler P) → Type 0
  AllKeep [] = Unit
  AllKeep ((k, handler) ∷ d) = Keeps handler × AllKeep d

  lookup-Keeps : (k : String) (d : Dict String (Handler P)) → AllKeep d → Kept (lookup k d)
  unfolding lookup Kept AllKeep
  lookup-Keeps k [] all = tt
  lookup-Keeps k ((j, handler) ∷ d) (keeps, all) =
      elim (k == j) as (λ t. Kept (if t then some handler else lookup k d)) [
        | true ↦ keeps
        | false ↦ lookup-Keeps k d all
      ]

  routes-Keep : (r : Request) → AllKeep (get_routes P r)
  unfolding get_routes AllKeep
  routes-Keep r = (λ s b. b, (λ s b. b, (λ s b. b, (λ s b. b, (λ s b. b, (stream-Keeps r, tt))))))

  route-Keeps :
      (r : Request) (route : Option (Handler P)) → Kept route → Keeps (get_route P r route)
  unfolding Kept
  route-Keeps r none kept s b = b
  route-Keeps r (some handler) kept s b = guarded-Keeps false r handler kept s b

  reply-Keeps : (body : Option String) → Keeps (asset_reply P body)
  reply-Keeps none s b = b
  reply-Keeps (some body) s b = b

  if-Keeps : (t : Bool) (f g : Handler P) → Keeps f → Keeps g → Keeps (λ s. if t then f s else g s)
  if-Keeps true f g kf kg s b = kf s b
  if-Keeps false f g kf kg s b = kg s b

  other-Keeps : (r : Request) (name : Option String) → Keeps (get_other P r name)
  other-Keeps r none s b =
      route-Keeps r (lookup r.path (get_routes P r))
        (lookup-Keeps r.path (get_routes P r) (routes-Keep r)) s b
  other-Keeps r (some name) s b =
      if-Keeps (host_ok r.headers.host s.port) (asset_reply P (P.asset_of name))
        (say P 403 (problem "bad host")) (reply-Keeps (P.asset_of name)) (λ s b. b) s b

  get-Keeps : (r : Request) → Keeps (do_get P r)
  unfolding do_get
  get-Keeps r s b =
      if-Keeps (r.path == "/") (guarded P false r (λ s. say P 200 (page s.token) s))
        (get_other P r (behind "/assets/" r.path)) (guarded-Keeps false r _ (λ s b. b))
        (other-Keeps r (behind "/assets/" r.path)) s b

  unit-Keeps : (path : String) (u : UnitSpec) → Keeps (on_unit P path u)
  unit-Keeps path u s b =
      elim (path == "/api/restart")
        as (λ t.
          IsBounded P
            ((if t
                then call P (P.restart u.unit u.scope) (λ r. reply 200 (outcome r))
                else call P (P.explain u.unit u.scope) (λ r. reply 200 (outcome r)))
              s).1) [ true ↦ b | false ↦ b ]

  body-Keeps : (path : String) (body : Fields) → Keeps (on_body P path body)
  unfolding on_body
  body-Keeps path body s b =
      let on_spec = on_request P (from_body P.str_of body) (on_unit P path) in
      elim (contains ("/api/respond" ∷ "/api/cancel" ∷ []) path)
        as (λ t. IsBounded P ((if t then invoke_control P path body else on_spec) s).1) [
          | true ↦ control-Keeps path body s b
          | false ↦
              on_request-Keeps (from_body P.str_of body) (on_unit P path) (unit-Keeps path) s b
        ]

  post-Keeps : (r : Request) → Keeps (do_post P r)
  unfolding do_post
  post-Keeps r s b =
      if-Keeps (contains routes r.path) (guarded P true r (post_handler P r))
        (say P 404 (problem "not found"))
        (guarded-Keeps true r (post_handler P r) (
          on_request-Keeps (on_length P r (content_length r.headers.content_length))
            (on_body P r.path) (body-Keeps r.path)))
        (λ s b. b) s b

  -- At most sixteen queries are registered with the local view, which are those that a browser can
  -- answer or cancel, whatever requests arrive and however the threads of its requests and of its
  -- queries interleave, also between the opening of a query's connection and its registration.
  pub Reachable-IsBounded : (s : Server P) → Reachable P s → length s.sessions ≤ 16
  unfolding drop_session on_session server_close
  Reachable-IsBounded s (started port token w) = omega arith
  Reachable-IsBounded s (got r t reached) = get-Keeps r t (Reachable-IsBounded t reached)
  Reachable-IsBounded s (connected w t reached) = Reachable-IsBounded t reached
  Reachable-IsBounded s (registered q t reached) =
      register-Keeps q t (Reachable-IsBounded t reached)
  Reachable-IsBounded s (posted r t reached) = post-Keeps r t (Reachable-IsBounded t reached)
  Reachable-IsBounded s (thread qid e t reached) =
      rw (length-update qid (step e) t.sessions) (Reachable-IsBounded t reached)
  Reachable-IsBounded s (dropped qid t reached) =
      let before = Reachable-IsBounded t reached in
      let fewer = length-remove qid t.sessions in omega arith
  Reachable-IsBounded s (closed t reached) = omega arith

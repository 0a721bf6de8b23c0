-- ===== src/Web/Handlers.antt =====
-- The handlers of GET and POST of src/nixadmin/web/server.py, over the server and its guard.
pub mod Gate
pub mod Reach
pub mod Bounded
use nixadmin.Prelude.{
  ℕ, String, ◌<>◌, Bool, true, false, not, ◌&&◌, Option, none, some, List, [], ◌∷◌, ◌==◌, contains,
  string_eq, map, length, leb, if◌then◌else◌,
}
use nixadmin.Prelude.Dict.{Dict, lookup, insert, remove}
use nixadmin.Prelude.Int.{ℤ, pos}
use nixadmin.Prelude.Number.{parse_int}
use nixadmin.Prelude.Result.{Result, ok, err}
use nixadmin.Prelude.Split.{behind}
use nixadmin.Json.{Json, null, end, Fields, get, JsonText, dumps, obj}
use nixadmin.Protocol.Transport.{Line, Failure}
use nixadmin.Web.Security.{host_ok, origin_ok, token_ok}
use nixadmin.Web.Requests.{
  Query, first, QuerySpec, from_query, UnitSpec, from_body, RequestError, content_length,
  json_object, text_of,
}
use nixadmin.Web.Session
use nixadmin.Web.Session.{Session, Event, answer, cancelled, closed, open_session, step}
use nixadmin.Web.Server.{
  Handler, Headers, Payload, Platform, Request, Response, Server, Verdict, acknowledged, asset,
  call, drop_session, failed, given, guard, guarded, head?, health, judge, ledger,
  max_active_sessions, on_request, on_session, on_verdict, outcome, page, passed, problem, raised,
  refused, register_found, register_session, reply, say, server_close, state, stream, text,
  timeline, token_of, update,
}

-- The routes of `do_POST`.
abbrev pub routes : List String
routes = "/api/restart" ∷ "/api/explain" ∷ "/api/respond" ∷ "/api/cancel" ∷ []

module _ (P : Platform) where
  abbrev pub on_opened : Result Failure Session → Handler P
  on_opened (ok q) s = register_session P q s
  on_opened (err e) s = (raised, s)

  abbrev pub on_connect : QuerySpec → Option Line → Handler P
  on_connect q none s = say P 503 (problem "daemon unreachable") s
  on_connect q (some hello) s = on_opened (open_session hello q) s

  -- `_stream`, up to its loop, if no other thread comes between its steps; Reach has them apart
  unfoldable pub stream_query : Request → Handler P
  stream_query r s =
      on_request P (from_query (P.fresh_id s.world) r.query)
        (λ q s. let (hello, w) = P.connect q s.world in on_connect q hello (record s { world = w }))
        s

  -- int(text), or 10
  abbrev limit_of : Option ℤ → ℤ
  limit_of none = pos 10
  limit_of (some z) = z

  abbrev unit_filter : String → Option String
  unit_filter unit = if unit == "" then none else some unit

  abbrev health_reply : Option Json → Response
  health_reply none = reply 503 (health none)
  health_reply (some counts) = reply 200 (health (some counts))

  abbrev pub asset_reply : Option String → Handler P
  asset_reply none = say P 404 (problem "not found")
  asset_reply (some body) = say P 200 (asset body)

  abbrev pub serve_asset : Request → String → Handler P
  serve_asset r name s =
      if host_ok r.headers.host s.port
      then asset_reply (P.asset_of name) s
      else say P 403 (problem "bad host") s

  -- What `do_GET` does for a route, behind its guard.
  unfoldable pub get_routes : Request → Dict String (Handler P)
  get_routes r =
      ("/api/state", call P P.list_failures (λ units. reply 200 (state units)))
      ∷ (
        "/api/journal",
        call P (P.journal (first "unit" "" r.query) (first "scope" "system" r.query))
            (λ lines. reply 200 (text (elim lines [ none ↦ "" | some t ↦ t ]))),
      )
      ∷ (
        "/api/timeline",
        call P
            (P.timeline_page (limit_of (parse_int (first "limit" "10" r.query)))
              (unit_filter (first "unit" "" r.query)) (parse_int (first "before" "" r.query)))
            (λ events. reply 200 (timeline events)),
      )
      ∷ ("/api/ledger", call P P.ledger_data (λ well. reply 200 (ledger well)))
      ∷ ("/api/health", call P P.health_data health_reply)
      ∷ ("/api/stream", stream_query r)
      ∷ []

  abbrev pub get_route : Request → Option (Handler P) → Handler P
  get_route r none = say P 404 (problem "not found")
  get_route r (some handler) = guarded P false r handler

  abbrev pub get_other : Request → Option String → Handler P
  get_other r none = get_route r (lookup r.path (get_routes r))
  get_other r (some name) = serve_asset r name

  -- `do_GET`
  unfoldable pub do_get : Request → Handler P
  do_get r s =
      if r.path == "/"
      then guarded P false r (λ s. say P 200 (page s.token) s) s
      else get_other r (behind "/assets/" r.path) s

  -- None, as Python's `is not None` reads a JSON value.
  abbrev present : Option Json → Option Json
  present (some null) = none
  present other = other

  abbrev option_map : {A B : Type 0} → (A → B) → Option A → Option B
  option_map f none = none
  option_map f (some a) = some (f a)

  abbrev pub control : String → Fields → Event
  control path body =
      if path == "/api/cancel"
      then cancelled
      else answer (option_map P.truth (present (get "confirmed" body)))
          (option_map (λ v. text_of P.str_of "" (some v)) (present (get "value" body)))

  abbrev pub control_found : Option Session → String → Event → Handler P
  control_found none qid event s = say P 404 (problem "no such query") s
  control_found (some q) qid event s = (reply 200 acknowledged, on_session P qid event s)

  -- `_invoke_control`
  unfoldable pub invoke_control : String → Fields → Handler P
  invoke_control path body s =
      let qid = text_of P.str_of "" (get "qid" body) in
      control_found (lookup qid s.sessions) qid (control path body) s

  abbrev pub on_unit : String → UnitSpec → Handler P
  on_unit path u =
      if path == "/api/restart"
      then call P (P.restart u.unit u.scope) (λ r. reply 200 (outcome r))
      else call P (P.explain u.unit u.scope) (λ r. reply 200 (outcome r))

  -- `_body`, of a length that was accepted
  abbrev pub read_body : Request → ℕ → Result RequestError Fields
  read_body r n = if leb 1 n then json_object (r.body n) else ok end

  abbrev pub on_length : Request → Result RequestError ℕ → Result RequestError Fields
  on_length r (err e) = err e
  on_length r (ok n) = read_body r n

  -- The end of `do_POST`, on a body.
  unfoldable pub on_body : String → Fields → Handler P
  on_body path body =
      if contains ("/api/respond" ∷ "/api/cancel" ∷ []) path
      then invoke_control path body
      else on_request P (from_body P.str_of body) (on_unit path)

  -- `do_POST`, once it is let in
  abbrev pub post_handler : Request → Handler P
  post_handler r =
      on_request P (on_length r (content_length r.headers.content_length)) (on_body r.path)

  -- `do_POST`
  unfoldable pub do_post : Request → Handler P
  do_post r s =
      if contains routes r.path
      then guarded P true r (post_handler r) s
      else say P 404 (problem "not found") s

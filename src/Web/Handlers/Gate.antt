-- ===== src/Web/Handlers/Gate.antt =====
-- Which requests the handlers of src/nixadmin/web/server.py act on.
use nixadmin.Prelude.{
  eq-false, ◌≡◌, ◌≢◌, refl, ◌⊎◌, inl, inr, String, ◌<>◌, Bool, true, false, Option, none, some,
  ◌==◌, contains, string_eq, if◌then◌else◌,
}
use nixadmin.Prelude.Dict.{lookup}
use nixadmin.Prelude.Split.{behind}
use nixadmin.Web.Security.{loopback_hosts, value_of, host_ok, origin_ok, token_ok}
use nixadmin.Web.Security.Origin.{
  IsLoopback, IsOwnOrigin, host_ok-IsLoopback, origin_ok-IsOwnOrigin,
}
use nixadmin.Web.Server.{
  Request, problem, asset, Response, reply, raised, Platform, Server, Verdict, passed, refused,
  failed, judge, Handler, token_of, guard, on_verdict, guarded, say, page,
}
use nixadmin.Web.Handlers.{
  get_route, get_routes, do_get, do_post, routes, post_handler, serve_asset, asset_reply, get_other,
}

-- A request of a client on this machine that knows the token.
pub record IsReader (P : Platform) (r : Request) (s : Server P) : Type 0 where
  pub host :
      IsLoopback s.port (value_of r.headers.host)
      ⊎ ((host : String) × (contains loopback_hosts host ≡ true)
          × (value_of r.headers.host ≡ ":" <> host))
  pub knows : value_of (token_of r) ≡ s.token
  pub nonempty : ◌≢◌ {A = String} s.token ""

-- Such a request whose origin is http or https at a loopback host, with no port, an empty one or this
-- server's.
pub record IsAuthorized (P : Platform) (r : Request) (s : Server P) : Type 0 where
  pub reader : IsReader P r s
  pub origin : IsOwnOrigin s.port (value_of r.headers.origin)

judge-passed :
    (host origin : Bool) (token : Option Bool)
    → judge host origin token ≡ passed
    → (host ≡ true) × (origin ≡ true) × (token ≡ some true)
judge-passed true true (some true) h = (refl, refl, refl)
judge-passed true true (some false) h = absurd cc
judge-passed true true none h = absurd cc
judge-passed true false token h = absurd cc
judge-passed false origin token h = absurd cc

token_if :
    (compare : Option Bool) (given expected : Bool)
    → (if given then some false else if expected then some false else compare) ≡ some true
    → (expected ≡ false) × (compare ≡ some true)
token_if compare true expected h = absurd cc
token_if compare false true h = absurd cc
token_if compare false false h = (refl, h)

-- A reply that shows no state and no token.
abbrev pub IsPublic : Response → Type 0
IsPublic raised = Unit
IsPublic (reply status (problem message)) = Unit
IsPublic (reply status (asset body)) = Unit
IsPublic (reply status other) = ⊥

-- What a handler may do for a request: nothing but a public reply, unless a reader made it.
pub data IsShielded (P : Platform) (r : Request) (s : Server P) : Response × Server P → Type 0 where
  unread : (a : Response) → IsPublic a → IsShielded P r s (a, s)
  read : (t : Response × Server P) → IsReader P r s → IsShielded P r s t

shielded-if :
    {P : Platform} {r : Request} {s : Server P} (b : Bool) {x y : Response × Server P}
    → IsShielded P r s x
    → IsShielded P r s y
    → IsShielded P r s (if b then x else y)
shielded-if true p q = p
shielded-if false p q = q

-- What `hmac.compare_digest` says of two texts that are equal.
module _ (P : Platform) (equal : (a b : String) → P.compare_digest a b ≡ some true → a ≡ b) where
  guard-passed :
      (mutation : Bool) (r : Request) (s : Server P)
      → guard P mutation r s ≡ passed
      → IsReader P r s × (origin_ok r.headers.origin s.port mutation ≡ true)
  unfolding guard token_ok
  guard-passed mutation r s h =
      let provided = value_of (token_of r) in
      let (host, origin, token) =
        judge-passed (host_ok r.headers.host s.port) (origin_ok r.headers.origin s.port mutation)
          (token_ok P.compare_digest (token_of r) s.token) h in
      let (nonempty, same) =
        token_if (P.compare_digest provided s.token) (provided == "") (s.token == "") token in
      (
        record {
          host = host_ok-IsLoopback r.headers.host s.port host;
          knows = equal provided s.token same;
          nonempty = eq-false s.token "" nonempty;
        },
        origin,
      )

  unchanged :
      (v : Verdict) (r : Request) (handler : Handler P) (s : Server P)
      → ((on_verdict P v handler s).1 ≡ s) ⊎ (v ≡ passed)
  unchanged passed r handler s = inr refl
  unchanged (refused status message) r handler s = inl refl
  unchanged failed r handler s = inl refl

  authorized :
      (r : Request) (s : Server P)
      → ((guarded P true r (post_handler P r) s).1 ≡ s) ⊎ IsAuthorized P r s
  unfolding guarded
  authorized r s = elim (unchanged (guard P true r s) r (post_handler P r) s) [
    | inl same ↦ inl same
    | inr through ↦
        let (reader, origin) = guard-passed true r s through in
        inr (record {
          reader = reader;
          origin = origin_ok-IsOwnOrigin r.headers.origin s.port origin;
        })
  ]

  -- A `POST` that changes anything, here or through the daemon, is authorized: it names a loopback
  -- host, its origin is http or https at a loopback host with no port, an empty port or this
  -- server's, and it carries the server's token, which is not empty. So it is if `compare_digest`
  -- tells only equal texts the same.
  pub do_post-IsGated : (r : Request) (s : Server P) → ((do_post P r s).1 ≡ s) ⊎ IsAuthorized P r s
  unfolding do_post guarded
  do_post-IsGated r s =
      elim (contains routes r.path)
        as (λ known.
          ((if known
              then guarded P true r (post_handler P r) s
              else say P 404 (problem "not found") s).1
            ≡ s)
          ⊎ IsAuthorized P r s) [ true ↦ authorized r s | false ↦ inl refl ]

  verdict-IsShielded :
      (v : Verdict) (r : Request) (handler : Handler P) (s : Server P)
      → guard P false r s ≡ v
      → IsShielded P r s (on_verdict P v handler s)
  verdict-IsShielded passed r handler s h = read (handler s) (guard-passed false r s h).0
  verdict-IsShielded (refused status message) r handler s h = unread _ tt
  verdict-IsShielded failed r handler s h = unread raised tt

  guarded-IsShielded :
      (r : Request) (handler : Handler P) (s : Server P)
      → IsShielded P r s (guarded P false r handler s)
  unfolding guarded
  guarded-IsShielded r handler s = verdict-IsShielded (guard P false r s) r handler s refl

  reply-IsShielded :
      (r : Request) (body : Option String) (s : Server P) → IsShielded P r s (asset_reply P body s)
  reply-IsShielded r none s = unread (reply 404 (problem "not found")) tt
  reply-IsShielded r (some body) s = unread (reply 200 (asset body)) tt

  asset-IsShielded :
      (r : Request) (name : String) (s : Server P) → IsShielded P r s (serve_asset P r name s)
  asset-IsShielded r name s =
      shielded-if (host_ok r.headers.host s.port) (reply-IsShielded r (P.asset_of name) s)
        (unread (reply 403 (problem "bad host")) tt)

  route-IsShielded :
      (r : Request) (route : Option (Handler P)) (s : Server P)
      → IsShielded P r s (get_route P r route s)
  route-IsShielded r none s = unread (reply 404 (problem "not found")) tt
  route-IsShielded r (some handler) s = guarded-IsShielded r handler s

  other-IsShielded :
      (r : Request) (name : Option String) (s : Server P) → IsShielded P r s (get_other P r name s)
  other-IsShielded r none s = route-IsShielded r (lookup r.path (get_routes P r)) s
  other-IsShielded r (some name) s = asset-IsShielded r name s

  -- A `GET` that is not authorized learns nothing but an asset and the problem, and changes nothing:
  -- whatever else is replied goes to a client that names a loopback host and carries the token.
  pub do_get-IsGated : (r : Request) (s : Server P) → IsShielded P r s (do_get P r s)
  unfolding do_get
  do_get-IsGated r s =
      shielded-if (r.path == "/") (guarded-IsShielded r (λ s. say P 200 (page s.token) s) s)
        (other-IsShielded r (behind "/assets/" r.path) s)

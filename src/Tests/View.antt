-- ===== src/Tests/View.antt =====
-- The theorems about the local view at a small server.
use nixadmin.Prelude.{
  ℕ, ◌+◌, ◌≤◌, ◌≡◌, ◌⊎◌, refl, String, Bool, true, false, Option, none, some, List, [], ◌∷◌, ◌++◌,
  map, length, ◌==◌, string_eq, arith,
}
use nixadmin.Prelude.Split.{partition, behind}
use nixadmin.Prelude.Text.{decimal}
use nixadmin.Json.{str, obj, arr, nil, field, end, JsonText, dumps}
use nixadmin.Protocol.{confirm, Message, encode}
use nixadmin.Web.Security.{origin_ok}
use nixadmin.Web.Security.Origin.{IsOwnOrigin, origin_ok-IsOwnOrigin}
use nixadmin.Web.Requests.{QuerySpec}
use nixadmin.Web.Session.{Event, line, take, answer, cancelled, opened, run}
use nixadmin.Web.Session.Answers.{run-IsFaithful}
use nixadmin.Web.Session.Prompts.{prompts, pending, run-one_answer}
use nixadmin.Web.Session.Tracks.{responses, log_of}
use nixadmin.Web.Server.{Headers, Request, Platform, Server}
use nixadmin.Web.Handlers.{do_get, do_post}
use nixadmin.Web.Handlers.Gate.{IsAuthorized, IsShielded, do_post-IsGated, do_get-IsGated}
use nixadmin.Web.Handlers.Reach.{started, posted}
use nixadmin.Web.Handlers.Bounded.{Reachable-IsBounded}

origin_ok-IsOwnOrigin_example : IsOwnOrigin 7677 "http://127.0.0.1:7677"
unfolding origin_ok partition behind decimal string_eq
origin_ok-IsOwnOrigin_example = origin_ok-IsOwnOrigin (some "http://127.0.0.1:7677") 7677 refl

abbrev spec : QuerySpec
spec = record { qid = "q1"; text = "install htop"; session_id = "web" }

abbrev prompt : JsonText
prompt = encode (record { cls = confirm; values = str "q1" ∷ str "Proceed?" ∷ [] })

abbrev events : List Event
events = line prompt ∷ answer (some true) none ∷ take ∷ cancelled ∷ answer (some false) none ∷ []

run-IsFaithful_example :
    (rest : List (Option Message)) × (map some (responses (run events (opened spec))) ++ rest
      ≡ log_of spec.qid events [])
run-IsFaithful_example = run-IsFaithful spec events

run-one_answer_example :
    length (responses (run events (opened spec))) + pending (run events (opened spec)).phase
    ≤ prompts (run events (opened spec))
run-one_answer_example = run-one_answer spec events

-- The world counts the restarts.
abbrev platform : Platform
platform = record {
  World = ℕ;
  compare_digest = λ a b. some (a == b);
  str_of = λ v. "";
  truth = λ v. true;
  asset_of = λ name. none;
  fresh_id = λ w. "q0";
  list_failures = λ w. (some (arr nil), w);
  journal = λ unit scope w. (some "exit 1", w);
  timeline_page = λ limit unit before w. ((arr nil, none), w);
  ledger_data = λ w. (none, w);
  health_data = λ w. (none, w);
  restart = λ unit scope w. (("Restarted.", true), w + 1);
  explain = λ unit scope w. (("It crashed.", true), w);
  connect = λ q w. (none, w);
}

abbrev server : Server platform
server = record { port = 7677; token = "secret"; sessions = []; world = 0 }

abbrev headers : Headers
headers = record {
  host = some "127.0.0.1:7677";
  origin = some "http://127.0.0.1:7677";
  token = some "secret";
  content_length = some "50";
}

abbrev restart_request : Request
restart_request = record {
  path = "/api/restart";
  query = [];
  headers = headers;
  body = λ n. dumps (obj (field "unit" (str "backup.service") (field "scope" (str "user") end)));
}

equal : (a b : String) → ◌≡◌ {A = Option Bool} (some (a == b)) (some true) → a ≡ b
equal a b h = ground arith

do_post-IsGated_example :
    ((do_post platform restart_request server).1 ≡ server)
    ⊎ IsAuthorized platform restart_request server
do_post-IsGated_example = do_post-IsGated platform equal restart_request server

do_get-IsGated_example :
    IsShielded platform
      (record restart_request { path = "/api/state" })
      server
      (do_get platform (record restart_request { path = "/api/state" }) server)
do_get-IsGated_example =
    do_get-IsGated platform equal (record restart_request { path = "/api/state" }) server

abbrev later : Server platform
later = (do_post platform restart_request server).1

Reachable-IsBounded_example : length later.sessions ≤ 16
Reachable-IsBounded_example =
    Reachable-IsBounded platform later (posted restart_request server (started 7677 "secret" 0))

-- ===== src/Tests/Queries.antt =====
-- The theorems about queries at a machine whose remote chain is configured.
use nixadmin.Prelude.{◌<>◌, true, false, none, some, [], ◌∷◌, string_eq}
use nixadmin.Prelude.Result.{ok, err}
use nixadmin.Routing.{local}
use nixadmin.Dispatch.{dispatch}
use nixadmin.Effects.{failure, Query, Env}
use nixadmin.Dispatch.Terminal.{IsClosed, terminals-dispatch}

-- The local model matches no module and is unsure of itself, and the person agrees to everything.
abbrev env : Env
env = record {
  has_local = true;
  default_chain = local;
  remote_ready = true;
  local_ready = λ tr. true;
  is_remediation = λ text. false;
  detect_mutation = λ text. false;
  parse_action = λ text. none;
  remediate = λ tr. (err (failure "no unit"), []);
  change_app = λ tr. (err (failure "no app"), []);
  classify = λ tr. ok [];
  assess_escalation = λ tr. ok true;
  confirm = λ tr text. ok true;
  lock = λ tr. none;
  wait = λ tr. none;
  redacting = λ tr. none;
  scrub = λ text. (text <> " <host>", "host" ∷ []);
  rewrite = λ text. none;
  prefetch = λ matched tr. ok "";
  augment = λ text context. text;
  history = λ tr. [];
  context = λ tr. "";
  summarize = λ tr message. ("fine" ∷ [], none);
  run_model = λ tr payload. ("all " ∷ "well" ∷ [], some (failure "cut off"));
}

abbrev query : Query
query = record { text = "why is it slow?"; chain = none }

terminals-dispatch_example : IsClosed (env.lock []) [] (dispatch env query [])
terminals-dispatch_example = terminals-dispatch env query []

-- ===== src/Effects.antt =====
-- What a query of src/nixadmin/server.py does is the list of its effects, the newest first; the
-- models, the person, and the tiers that a query may enter are parameters that see this list. And
-- src/nixadmin/redact.py: what is taken out of a text.
use nixadmin.Prelude.{
  String, ◌<>◌, Bool, Option, none, some, List, [], ◌∷◌, ◌==◌, string_eq, if◌then◌else◌,
}
use nixadmin.Prelude.Result.{Result, ok, err}
use nixadmin.Prelude.Exec.{Exec, modify}
use nixadmin.Routing.{Chain, local, remote, Module}

-- What is handed to the remote chain: the text, the turns before it, the grounding, and whether the
-- results of its tools are scrubbed.
pub record Payload : Type 0 where
  pub text : String
  pub history : List String
  pub system_extra : String
  pub escalated : Bool

pub data Effect : Type 0 where
  status : String → Effect
  delta : String → Effect
  done : Option Chain → Effect
  error : String → Effect
  asked : String → Bool → Effect
  to_remote : Payload → Effect
  to_local : String → Effect
  stored : String → String → Effect
  remembered : String → String → Effect
  waited : Effect

abbrev pub Trace : Type 0
Trace = List Effect

-- What stops a query: a cancellation, a `NixadminError`, or any other exception.
pub data Fault : Type 0 where
  cancelled : Fault
  failure : String → Fault
  crash : String → Fault

-- What the remediation and the action tier show a person while they run.
pub data Note : Type 0 where
  progress : String → Note
  prompt : String → Bool → Note

pub data Known : Type 0 where
  app_change toggle : Known

pub record Query : Type 0 where
  pub text : String
  pub chain : Option String

pub record Env : Type 0 where
  pub has_local : Bool
  pub default_chain : Chain
  pub remote_ready : Bool
  pub local_ready : Trace → Bool
  -- remediation.parse(text) is not None, detect_mutation(text) and actions.parse_action(text)
  pub is_remediation : String → Bool
  pub detect_mutation : String → Bool
  pub parse_action : String → Option Known
  pub remediate : Trace → Result Fault String × List Note
  pub change_app : Trace → Result Fault String × List Note
  pub classify : Trace → Result Fault (List Module)
  pub assess_escalation : Trace → Result Fault Bool
  -- the answer to a prompt
  pub confirm : Trace → String → Result Fault Bool
  -- what stops the wait for the session's lock, for the local model and for the redaction, if
  -- anything does
  pub lock : Trace → Option Fault
  pub wait : Trace → Option Fault
  pub redacting : Trace → Option Fault
  -- the deterministic pass of redact.py, and the local model's rewrite; none if it raises
  pub scrub : String → String × List String
  pub rewrite : String → Option String
  pub prefetch : List Module → Trace → Result Fault String
  pub augment : String → String → String
  pub history : Trace → List String
  pub context : Trace → String
  -- the chunks that a model streams, and what it raised after them, if it did
  pub summarize : Trace → String → List String × Option Fault
  pub run_model : Trace → Payload → List String × Option Fault

-- `Redaction`
pub record Redaction : Type 0 where
  pub original : String
  pub redacted : String
  pub removed : List String

-- `redact`: a failing model degrades to the scrubbed text
unfoldable pub redact : Env → String → Redaction
redact E text =
    let (scrubbed, removed) = E.scrub text in
    record {
      original = text;
      redacted = elim (E.rewrite scrubbed) [ none ↦ scrubbed | some t ↦ t ];
      removed = removed;
    }

-- `scrub_only`
unfoldable pub scrub_only : Env → String → Redaction
scrub_only E text =
    let (scrubbed, removed) = E.scrub text in
    record { original = text; redacted = scrubbed; removed = removed }

-- `_redact_query`
unfoldable pub redact_query : Env → String → Redaction
redact_query E text = if E.has_local then redact E text else scrub_only E text

-- What `run_tool` of `_run_remote` gives back of a tool's result.
unfoldable pub tool_result : Env → Payload → String → String
tool_result E p result = if p.escalated then (E.scrub result).0 else result

abbrev pub Run : Type 0 → Type 0
Run A = Exec Trace Fault A

abbrev pub emit : Effect → Run (Unit {0})
emit e = modify (λ tr. e ∷ tr)

abbrev note_effect : Note → Effect
note_effect (progress text) = status text
note_effect (prompt text answer) = asked text answer

abbrev pub add_notes : List Note → Trace → Trace
add_notes [] tr = tr
add_notes (n ∷ ns) tr = add_notes ns (note_effect n ∷ tr)

abbrev pub add_deltas : List String → Trace → Trace
add_deltas [] tr = tr
add_deltas (d ∷ ds) tr = add_deltas ds (delta d ∷ tr)

abbrev pub joined : List String → String
joined [] = ""
joined (d ∷ ds) = d <> joined ds

abbrev pub fault_or : {A : Type 0} → A → Option Fault → Result Fault A
fault_or a none = ok a
fault_or a (some f) = err f

-- `query.chain in ("local", "remote")`
unfoldable pub explicit_chain : Option String → Option Chain
explicit_chain none = none
explicit_chain (some c) =
    if c == "local" then some local else if c == "remote" then some remote else none

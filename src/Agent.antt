-- ===== src/Agent.antt =====
-- The remote chain: the loop of src/nixadmin/llm/remote.py, in which the model calls tools, with
-- `run_tool` and `_call_tool` of src/nixadmin/server.py, which run them on this machine. The model,
-- the parser of JSON, the scrub and the commands are parameters.
pub mod Guarded
pub mod Answers
pub mod Paired
pub mod Ended
use nixadmin.Prelude.{
  ℕ, zero, suc, String, ◌<>◌, Bool, true, false, Option, none, some, List, [], ◌∷◌, ◌++◌, ◌==◌,
  string_eq, nat_eq, if◌then◌else◌, map,
}
use nixadmin.Prelude.Dict.{Dict, lookup, insert}
use nixadmin.Prelude.Result.{Result, ok, err}
use nixadmin.Prelude.Exec.{Exec, pure, raise, gets, modify, ◌>>=◌, ◌>>◌}
use nixadmin.Json.{Json, str, obj, Fields, end, get}
use nixadmin.Safety.{SafetyError, Outside, Gate, rebuild}
use nixadmin.Sdk.{Module, tool_cmds}

-- A fragment of a tool call in a chunk; an absent index is 0.
pub record Fragment : Type 0 where
  pub index : ℕ
  pub id : Option String
  -- the name and the arguments of its function, if it has one
  pub function : Option (Option String × Option String)

pub record Chunk : Type 0 where
  pub content : Option String
  pub tool_calls : List Fragment

-- A tool call as it is put together.
pub record ToolCall : Type 0 where
  pub id : String
  pub name : String
  pub args : String

-- What is added for an attribute that may be missing.
abbrev pub or_nothing : Option String → String
or_nothing none = ""
or_nothing (some s) = s

abbrev pub set_id : Option String → String → String
set_id none old = old
set_id (some new) old = if new == "" then old else new

abbrev pub add_function : Option (Option String × Option String) → ToolCall → ToolCall
add_function none c = c
add_function (some (name, arguments)) c = record c {
  name = c.name <> or_nothing name;
  args = c.args <> or_nothing arguments;
}

-- acc.setdefault(idx, …)
abbrev pub or_empty : Option ToolCall → ToolCall
or_empty none = record { id = ""; name = ""; args = "" }
or_empty (some c) = c

abbrev pub merge : Fragment → ToolCall → ToolCall
merge f c = add_function f.function (record c { id = set_id f.id c.id })

-- `_accumulate_tool_call`
unfoldable pub accumulate : List Fragment → Dict ℕ ToolCall → Dict ℕ ToolCall
accumulate [] acc = acc
accumulate (f ∷ fs) acc =
    accumulate fs (insert f.index (merge f (or_empty (lookup f.index acc))) acc)

-- The variables of one round, and what it yielded, the newest first.
pub record Reading : Type 0 where
  pub text_acc : String
  pub tool_calls : Dict ℕ ToolCall
  pub yielded : List String

abbrev pub nothing_read : Reading
nothing_read = record { text_acc = ""; tool_calls = []; yielded = [] }

abbrev pub add_content : Option String → Reading → Reading
add_content none r = r
add_content (some t) r =
    if t == "" then r else record r { text_acc = r.text_acc <> t; yielded = t ∷ r.yielded }

-- The loop over the stream.
unfoldable pub read_chunks : List Chunk → Reading → Reading
read_chunks [] r = r
read_chunks (c ∷ cs) r =
    let r' = add_content c.content r in
    read_chunks cs (record r' { tool_calls = accumulate c.tool_calls r'.tool_calls })

-- The messages of the conversation.
pub data Message : Type 0 where
  system user : String → Message
  earlier : String → String → Message
  assistant : Option String → List ToolCall → Message
  tool : String → String → Message

pub data Fault : Type 0 where
  -- a `BackendError`
  backend : Fault
  safety : SafetyError → Fault
  -- `unknown rebuild action`, of a value that is no text
  strange_action : Json → Fault
  -- the arguments are no object
  attribute_error : Fault
  -- a command could not be started
  command_error : Fault

pub record Platform : Type 1 where
  pub outside : Outside
  -- `litellm.acompletion`: its chunks, and whether an exception follows them
  pub complete : List Message → outside.World → (List Chunk × Bool) × outside.World
  -- `json.loads`, or none for a `JSONDecodeError`
  pub loads : String → Option Json
  -- `_run_blocking`, or none if it raises
  pub run_blocking : String → outside.World → Option String × outside.World
  -- `redact.scrub(result).text`
  pub scrub : String → String

-- The agent: the gate with the machine, the conversation in its order, and, the newest first, what
-- was yielded, the commands that were run and the conversations that were sent to the model.
pub record Talk (P : Platform) : Type 0 where
  pub gate : Gate P.outside
  pub messages : List Message
  pub said : List String
  pub ran : List String
  pub requests : List (List Message)

-- `REMOTE_SYSTEM_PROMPT`
abbrev pub system_prompt : String
system_prompt =
    "You are an AI system administrator for a NixOS laptop. The user is non-technical.\n"
    <> "Questions: run tools to gather data, then give ONE short, plain-language summary.\n"
    <> "Changes: only when explicitly asked. Never act on a question.\n"
    <> "Run tools silently; do not narrate what you are about to do."

abbrev pub opening : String → List (String × String) → String → List Message
opening prompt history query =
    system prompt
    ∷ (map (λ (h : String × String). earlier (h.0) (h.1)) history ++ (user query ∷ []))

module _ (P : Platform) (modules : List Module) (escalated : Bool) where
  abbrev pub Run : Type 0 → Type 0
  Run A = Exec (Talk P) Fault A

  abbrev pub with_world : P.outside.World → Talk P → Talk P
  with_world w t = record t { gate = record t.gate { world = w } }

  abbrev pub heard : (List Chunk × Bool) × P.outside.World → Talk P → Talk P
  heard ((chunks, fails), w) t = record (with_world w t) {
    said = (read_chunks chunks nothing_read).yielded ++ t.said;
    requests = t.messages ∷ t.requests;
  }

  abbrev pub reading_of : (List Chunk × Bool) × P.outside.World → Result Fault Reading
  reading_of ((chunks, true), w) = err backend
  reading_of ((chunks, false), w) = ok (read_chunks chunks nothing_read)

  -- The request of one round.
  unfoldable pub ask_model : Run Reading
  ask_model t =
      let answer = P.complete t.messages t.gate.world in (reading_of answer, heard answer t)

  abbrev pub lift_safety : Result SafetyError String → Result Fault String
  lift_safety (ok s) = ok s
  lift_safety (err e) = err (safety e)

  unfoldable pub gate_rebuild : String → Run String
  gate_rebuild action t =
      let (r, g) = rebuild P.outside action t.gate in (lift_safety r, record t { gate = g })

  -- args.get("action", "")
  abbrev pub rebuild_action : Option Json → Run String
  rebuild_action none = gate_rebuild ""
  rebuild_action (some (str action)) = gate_rebuild action
  rebuild_action (some other) = raise (strange_action other)

  abbrev pub on_arguments : Json → Run String
  on_arguments (obj args) = rebuild_action (get "action" args)
  on_arguments other = raise attribute_error

  abbrev pub output_of : Option String → Result Fault String
  output_of none = err command_error
  output_of (some out) = ok out

  unfoldable pub run_cmd : String → Option String → Run String
  run_cmd name none t = (ok ("(unknown tool: " <> name <> ")"), t)
  run_cmd name (some cmd) t =
      let (out, w) = P.run_blocking cmd t.gate.world in
      (output_of out, record (with_world w t) { ran = cmd ∷ t.ran })

  -- `_call_tool`
  unfoldable pub call_tool : String → Json → Run String
  call_tool name args =
      if name == "nixadmin_rebuild"
      then on_arguments args
      else run_cmd name (lookup name (tool_cmds modules))

  -- `run_tool`
  unfoldable pub run_tool : String → Json → Run String
  run_tool name args = do
    result ← call_tool name args
    pure (if escalated then P.scrub result else result)

  abbrev pub run_parsed : String → Option Json → Run String
  run_parsed name none = pure "(error: malformed tool arguments)"
  run_parsed name (some args) = run_tool name args

  -- `_execute`
  unfoldable pub execute : ToolCall → Run String
  execute c = if c.args == "" then run_tool c.name (obj end) else run_parsed c.name (P.loads c.args)

  abbrev pub add_message : Message → Talk P → Talk P
  add_message m t = record t { messages = t.messages ++ (m ∷ []) }

  -- One tool message for each call.
  unfoldable pub execute_all : List ToolCall → Run (Unit {0})
  execute_all [] = pure tt
  execute_all (c ∷ cs) =
      execute c >>= λ result. modify (add_message (tool c.id result)) >> execute_all cs

  abbrev pub calls_of : Reading → List ToolCall
  calls_of r = map (λ (e : ℕ × ToolCall). e.1) r.tool_calls

  -- text or None
  abbrev pub content_of : String → Option String
  content_of text = if text == "" then none else some text

  -- The end of a round: whether it is the last one.
  unfoldable pub finish_round : Reading → List ToolCall → Run Bool
  finish_round r [] = pure true
  finish_round r (c ∷ cs) = do
    modify (add_message (assistant (content_of r.text_acc) (c ∷ cs)))
    execute_all (c ∷ cs)
    pure false

  unfoldable pub round : Run Bool
  round = ask_model >>= λ r. finish_round r (calls_of r)

  abbrev pub go_on : Run Bool → Bool → Run Bool
  go_on more true = pure true
  go_on more false = more

  -- The `while True` of `run`, for so many rounds: whether it has returned.
  unfoldable pub rounds : ℕ → Run Bool
  rounds zero = pure false
  rounds (suc n) = round >>= go_on (rounds n)

  -- The conversation at the start of `run`, as `_run_remote` calls it: on an escalated query neither
  -- the context nor the earlier turns go along.
  unfoldable pub start : String → List (String × String) → String → Gate P.outside → Talk P
  start context history query g = record {
    gate = g;
    messages =
        if escalated
        then opening system_prompt [] query
        else opening (system_prompt <> "\n\n" <> context) history query;
    said = [];
    ran = [];
    requests = [];
  }

-- ===== src/Agent/Guarded.antt =====
-- What the remote model of src/nixadmin/llm/remote.py can make this machine do.
use nixadmin.Prelude.{
  ℕ, zero, suc, ◌≡◌, refl, String, Bool, true, false, Option, none, some, List, [], ◌∷◌, ◌==◌,
  contains, string_eq, if◌then◌else◌, All,
}
use nixadmin.Prelude.Dict.{lookup}
use nixadmin.Prelude.Result.{Result, ok, err}
use nixadmin.Prelude.Exec.{continue, pure, raise, modify, ◌>>=◌}
use nixadmin.Json.{Json, str, obj, end, get}
use nixadmin.Safety.Gated.{IsGated, rebuild-IsGated}
use nixadmin.Sdk.{Module, tool_cmds}
use nixadmin.Sdk.Tools.{exposed, tool_cmds-exposed}
use nixadmin.Agent.{
  ToolCall, Reading, Message, tool, Fault, attribute_error, strange_action, Platform, Talk, Run,
  ask_model, gate_rebuild, rebuild_action, on_arguments, run_cmd, call_tool, run_tool, run_parsed,
  execute, add_message, execute_all, finish_round, round, rounds, go_on,
}

module _ (P : Platform) (modules : List Module) (escalated : Bool) where
  -- The gate has kept its promise, and each command that was run is one that a module exposes.
  pub record IsGuarded (t : Talk P) : Type 0 where
    pub gated : IsGated P.outside t.gate
    pub exposed_only : All (λ c. contains (exposed modules) c ≡ true) t.ran

  Keeps : {A : Type 0} → Run P modules escalated A → Type 0
  Keeps m = (t : Talk P) → IsGuarded t → IsGuarded (m t).1

  continue-Keeps :
      {A B : Type 0} (r : Result Fault A) (f : A → Run P modules escalated B) (t : Talk P)
      → ((a : A) → Keeps (f a))
      → IsGuarded t
      → IsGuarded (continue r f t).1
  unfolding Keeps
  continue-Keeps (ok a) f t k h = k a t h
  continue-Keeps (err e) f t k h = h

  bind-Keeps :
      {A B : Type 0} (m : Run P modules escalated A) (f : A → Run P modules escalated B)
      → Keeps m
      → ((a : A) → Keeps (f a))
      → Keeps (m >>= f)
  unfolding Keeps
  bind-Keeps m f km kf t h = continue-Keeps (m t).0 f (m t).1 kf (km t h)

  if-Keeps :
      {A : Type 0} (b : Bool) (m n : Run P modules escalated A)
      → Keeps m
      → Keeps n
      → Keeps (if b then m else n)
  if-Keeps true m n km kn = km
  if-Keeps false m n km kn = kn

  pure-Keeps : {A : Type 0} (a : A) → Keeps (pure a)
  unfolding Keeps
  pure-Keeps a t h = h

  raise-Keeps : (e : Fault) → Keeps {A = String} (raise e)
  unfolding Keeps
  raise-Keeps e t h = h

  add_message-Keeps : (m : Message) → Keeps (modify (add_message P modules escalated m))
  unfolding Keeps
  add_message-Keeps m t h = record {
    gated = record { remembers = h.gated.remembers; gated = h.gated.gated };
    exposed_only = h.exposed_only;
  }

  ask_model-Keeps : Keeps (ask_model P modules escalated)
  unfolding Keeps ask_model
  ask_model-Keeps t h = record {
    gated = record { remembers = h.gated.remembers; gated = h.gated.gated };
    exposed_only = h.exposed_only;
  }

  gate_rebuild-Keeps : (action : String) → Keeps (gate_rebuild P modules escalated action)
  unfolding Keeps gate_rebuild
  gate_rebuild-Keeps action t h = record {
    gated = rebuild-IsGated P.outside action t.gate h.gated;
    exposed_only = h.exposed_only;
  }

  rebuild_action-Keeps : (o : Option Json) → Keeps (rebuild_action P modules escalated o)
  rebuild_action-Keeps none = gate_rebuild-Keeps ""
  rebuild_action-Keeps (some (str action)) = gate_rebuild-Keeps action
  rebuild_action-Keeps (some other) = raise-Keeps (strange_action other)

  on_arguments-Keeps : (args : Json) → Keeps (on_arguments P modules escalated args)
  on_arguments-Keeps (obj args) = rebuild_action-Keeps (get "action" args)
  on_arguments-Keeps other = raise-Keeps attribute_error

  run_cmd-Keeps :
      (name : String) (o : Option String)
      → lookup name (tool_cmds modules) ≡ o
      → Keeps (run_cmd P modules escalated name o)
  unfolding Keeps run_cmd
  run_cmd-Keeps name none e t h = h
  run_cmd-Keeps name (some cmd) e t h = record {
    gated = record { remembers = h.gated.remembers; gated = h.gated.gated };
    exposed_only = (tool_cmds-exposed modules name cmd e, h.exposed_only);
  }

  run_tool-Keeps : (name : String) (args : Json) → Keeps (run_tool P modules escalated name args)
  unfolding run_tool call_tool
  run_tool-Keeps name args =
      bind-Keeps _ _
        (if-Keeps (name == "nixadmin_rebuild") _ _ (on_arguments-Keeps args)
          (run_cmd-Keeps name _ refl))
        (λ result. pure-Keeps _)

  run_parsed-Keeps :
      (name : String) (o : Option Json) → Keeps (run_parsed P modules escalated name o)
  run_parsed-Keeps name none = pure-Keeps _
  run_parsed-Keeps name (some args) = run_tool-Keeps name args

  execute_all-Keeps : (cs : List ToolCall) → Keeps (execute_all P modules escalated cs)
  unfolding execute_all execute
  execute_all-Keeps [] = pure-Keeps tt
  execute_all-Keeps (c ∷ cs) =
      bind-Keeps _ _
        (if-Keeps (c.args == "") _ _ (run_tool-Keeps c.name (obj end))
          (run_parsed-Keeps c.name (P.loads c.args)))
        (λ result.
          bind-Keeps _ _ (add_message-Keeps (tool c.id result)) (λ _. execute_all-Keeps cs))

  finish_round-Keeps :
      (r : Reading) (cs : List ToolCall) → Keeps (finish_round P modules escalated r cs)
  unfolding finish_round
  finish_round-Keeps r [] = pure-Keeps true
  finish_round-Keeps r (c ∷ cs) =
      bind-Keeps _ _ (add_message-Keeps _)
        (λ _. bind-Keeps _ _ (execute_all-Keeps (c ∷ cs)) (λ _. pure-Keeps false))

  go_on-Keeps :
      (more : Run P modules escalated Bool)
      → Keeps more
      → (last : Bool) → Keeps (go_on P modules escalated more last)
  go_on-Keeps more k true = pure-Keeps true
  go_on-Keeps more k false = k

  rounds-Keeps : (n : ℕ) → Keeps (rounds P modules escalated n)
  unfolding rounds round
  rounds-Keeps zero = pure-Keeps false
  rounds-Keeps (suc n) =
      bind-Keeps _ _ (bind-Keeps _ _ ask_model-Keeps (λ r. finish_round-Keeps r _))
        (go_on-Keeps _ (rounds-Keeps n))

  -- Whatever the model answers and asks for, in however many rounds, and whatever the commands, the
  -- helper and the person do: the gate keeps its promise, and only commands that a module exposes
  -- are run; if this held before.
  pub rounds-IsGuarded :
      (n : ℕ) (t : Talk P) → IsGuarded t → IsGuarded (rounds P modules escalated n t).1
  unfolding Keeps
  rounds-IsGuarded n t h = rounds-Keeps n t h

-- ===== src/Agent/Answers.antt =====
-- The conversation of src/nixadmin/llm/remote.py: what has to be answered, and what answers may hold.
use nixadmin.Prelude.{
  ◌≡◌, refl, String, Bool, true, false, Option, none, some, List, [], ◌∷◌, ◌++◌, ◌==◌, string_eq,
  if◌then◌else◌, All, map, ◌⊎◌, inl, inr,
}
use nixadmin.Prelude.Result.{Result, ok, err}
use nixadmin.Prelude.Exec.{continue, pure}
use nixadmin.Json.{Json, str, obj, end, get}
use nixadmin.Sdk.{Module}
use nixadmin.Agent.{
  ToolCall, Message, system, earlier, assistant, tool, Fault, Platform, Talk, Run, gate_rebuild,
  rebuild_action, on_arguments, run_cmd, call_tool, run_tool, run_parsed, execute, system_prompt,
}

-- The identifiers of the calls that wait for their answers after one more message; none if the
-- message may not stand there: an answer has to be the next one that is waited for, and anything
-- else has to wait for the answers.
abbrev pub take_message : Option (List String) → Message → Option (List String)
take_message none m = none
take_message (some []) (assistant content calls) = some (map (λ (c : ToolCall). c.id) calls)
take_message (some []) (tool id content) = none
take_message (some []) other = some []
take_message (some (i ∷ is)) (tool id content) = if i == id then some is else none
take_message (some (i ∷ is)) other = none

unfoldable pub waiting : Option (List String) → List Message → Option (List String)
waiting o [] = o
waiting o (m ∷ ms) = waiting (take_message o m) ms

pub waiting-append :
    (o : Option (List String)) (ms ns : List Message)
    → waiting o (ms ++ ns) ≡ waiting (waiting o ms) ns
unfolding waiting
waiting-append o [] ns = refl
waiting-append o (m ∷ ms) ns = waiting-append (take_message o m) ms ns

pub All-append :
    (P : Message → Type 0) (ms : List Message) (m : Message)
    → All P ms
    → P m
    → All P (ms ++ (m ∷ []))
All-append P [] m h p = (p, tt)
All-append P (x ∷ ms) m h p = (h.0, All-append P ms m h.1 p)

module _ (P : Platform) (modules : List Module) (escalated : Bool) where
  -- A text that was scrubbed, or that says that the arguments were malformed, if the query is
  -- escalated.
  abbrev pub Cleared : Bool → String → Type 0
  Cleared false s = Unit
  Cleared true s = ((raw : String) × (s ≡ P.scrub raw)) ⊎ (s ≡ "(error: malformed tool arguments)")

  -- An escalated query goes with the system prompt alone, and with no earlier turn.
  abbrev pub IsBare : Bool → String → Type 0
  IsBare false s = Unit
  IsBare true s = s ≡ system_prompt

  abbrev pub ClearMessage : Message → Type 0
  ClearMessage (tool id content) = Cleared escalated content
  ClearMessage (system prompt) = IsBare escalated prompt
  ClearMessage (earlier role content) = escalated ≡ false
  ClearMessage other = Unit

  -- A conversation in which each call of a tool was answered, in the order of the calls and before
  -- anything else, and each answer is cleared.
  pub record IsProper (ms : List Message) : Type 0 where
    pub answered : waiting (some []) ms ≡ some []
    pub clear : All ClearMessage ms

  abbrev pub AllProper : Talk P → Type 0
  AllProper t = All IsProper t.requests

  pub record Owes (ids : List String) (t : Talk P) : Type 0 where
    pub waits : waiting (some []) t.messages ≡ some ids
    pub clear : All ClearMessage t.messages
    pub sent : AllProper t

  -- The conversation is as it was, and a text that is given is cleared.
  abbrev pub Answers : Talk P → Result Fault String → Talk P → Type 0
  Answers t (ok s) t' =
      (t'.messages ≡ t.messages) × (t'.requests ≡ t.requests) × Cleared escalated s
  Answers t (err e) t' = t'.requests ≡ t.requests

  -- The same, of a text that is still raw.
  abbrev pub Silent : Talk P → Talk P → Type 0
  Silent t t' = (t'.messages ≡ t.messages) × (t'.requests ≡ t.requests)

  pub rebuild_action-Silent :
      (o : Option Json) (t : Talk P) → Silent t (rebuild_action P modules escalated o t).1
  unfolding gate_rebuild
  rebuild_action-Silent none t = (refl, refl)
  rebuild_action-Silent (some (str action)) t = (refl, refl)
  rebuild_action-Silent (some other) t = (refl, refl)

  pub on_arguments-Silent :
      (args : Json) (t : Talk P) → Silent t (on_arguments P modules escalated args t).1
  on_arguments-Silent (obj args) t = rebuild_action-Silent (get "action" args) t
  on_arguments-Silent other t = (refl, refl)

  pub run_cmd-Silent :
      (name : String) (o : Option String) (t : Talk P)
      → Silent t (run_cmd P modules escalated name o t).1
  unfolding run_cmd
  run_cmd-Silent name none t = (refl, refl)
  run_cmd-Silent name (some cmd) t = (refl, refl)

  pub if-Silent :
      (b : Bool) (m n : Run P modules escalated String) (t : Talk P)
      → Silent t (m t).1
      → Silent t (n t).1
      → Silent t ((if b then m else n) t).1
  if-Silent true m n t hm hn = hm
  if-Silent false m n t hm hn = hn

  pub scrubbed-Cleared : (b : Bool) (s : String) → Cleared b (if b then P.scrub s else s)
  scrubbed-Cleared true s = inl (s, refl)
  scrubbed-Cleared false s = tt

  pub given-Cleared : (b : Bool) → Cleared b "(error: malformed tool arguments)"
  given-Cleared true = inr refl
  given-Cleared false = tt

  pub passed_on :
      (r : Result Fault String) (t t' : Talk P)
      → Silent t t'
      → (let (r', t'') =
            continue {B = String} r (λ s. pure (if escalated then P.scrub s else s)) t' in
          Answers t r' t'')
  passed_on (ok s) t t' h = (h.0, h.1, scrubbed-Cleared escalated s)
  passed_on (err e) t t' h = h.1

  abbrev pub Given : Run P modules escalated String → Type 0
  Given m = (t : Talk P) → Answers t (m t).0 (m t).1

  pub run_tool-Given :
      (name : String) (args : Json) → Given (run_tool P modules escalated name args)
  unfolding run_tool call_tool
  run_tool-Given name args t = passed_on _ t _ (
      if-Silent (name == "nixadmin_rebuild") _ _ t (on_arguments-Silent args t)
        (run_cmd-Silent name _ t))

  pub run_parsed-Given :
      (name : String) (o : Option Json) → Given (run_parsed P modules escalated name o)
  run_parsed-Given name none t = (refl, refl, given-Cleared escalated)
  run_parsed-Given name (some args) t = run_tool-Given name args t

  pub if-Given :
      (b : Bool) (m n : Run P modules escalated String)
      → Given m
      → Given n
      → Given (if b then m else n)
  if-Given true m n gm gn = gm
  if-Given false m n gm gn = gn

  pub execute-Given : (c : ToolCall) → Given (execute P modules escalated c)
  unfolding execute
  execute-Given c =
      if-Given (c.args == "") _ _ (run_tool-Given c.name (obj end))
        (run_parsed-Given c.name (P.loads c.args))

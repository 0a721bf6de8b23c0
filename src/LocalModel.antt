-- ===== src/LocalModel.antt =====
-- src/nixadmin/llm/local.py: the prompts for the local model, and what is made of its replies, with
-- `_suggest_package` of src/nixadmin/server.py. Ollama behind HTTP is a parameter.
pub mod Choices
pub mod Stream
use nixadmin.Prelude.{
  ℕ, String, ◌<>◌, Bool, true, false, not, ◌&&◌, Option, none, some, List, [], ◌∷◌, ◌==◌, contains,
  eqb, string_eq, if◌then◌else◌, map, keep,
}
use nixadmin.Prelude.Case.{lower}
use nixadmin.Prelude.Text.{join, strip}
use nixadmin.Prelude.Words.{is_in}
use nixadmin.Prelude.Dict.{Dict, lookup, insert}
use nixadmin.Prelude.Int.{pos, negsuc}
use nixadmin.Json.{
  Json, null, bool, int, real, field, str, arr, obj, Items, nil, cons, Fields, end, get, JsonText,
  dumps, malformed,
}
use nixadmin.Sdk.{Module}

-- `LOCAL_SYSTEM_PROMPT`
abbrev pub local_system_prompt : String
local_system_prompt =
    "You are a sysadmin assistant for a non-technical user. Use ONLY the inline "
    <> "system data to answer; never mention where it came from; never invent details.\n"
    <> "If everything is fine: answer in ONE short sentence "
    <> "(e.g. 'Yes, your WiFi is connected and the internet is working.').\n"
    <> "If something is wrong: in at most THREE short sentences say (1) what is wrong, "
    <> "(2) why — quote the specific error or cause from the data, and (3) the most "
    <> "likely fix in plain words. No lists, no jargon.\n"
    <> "Never make changes unless explicitly asked."

-- `build_classify_prompt`
unfoldable pub build_classify_prompt : String → List Module → String
build_classify_prompt query modules =
    "Which categories match this question? Reply with ONLY a comma-separated "
    <> "list of matching names, or the word 'none'.\n\n"
    <> "Categories:\n"
    <> join "\n" (map (λ (m : Module). "- " <> m.name <> ": " <> m.description) modules)
    <> "\n\nQuestion: "
    <> query

-- `parse_classify_response`
unfoldable pub parse_classify_response : String → List Module → List Module
parse_classify_response reply modules =
    let text = lower (strip reply) in keep (λ (m : Module). is_in (lower m.name) text) modules

-- `build_escalate_prompt`
unfoldable pub build_escalate_prompt : String → String
build_escalate_prompt query =
    "You are an on-device assistant with tools to inspect and change THIS "
    <> "NixOS laptop (system state, installed apps, services). Decide if you can "
    <> "handle the user's request confidently on your own, or whether it needs a "
    <> "more capable cloud assistant (e.g. broad general knowledge, web lookups, "
    <> "or reasoning beyond this machine's own state).\n"
    <> "Reply with ONLY one word: LOCAL (you can handle it) or ESCALATE (it needs "
    <> "the cloud assistant).\n\nRequest: " <> query

-- `parse_escalate_response`
unfoldable pub parse_escalate_response : String → Bool
parse_escalate_response reply = is_in "escalate" (lower (strip reply))

-- `build_redact_prompt`
unfoldable pub build_redact_prompt : String → String
build_redact_prompt text =
    "Rewrite the following request so it contains NO personal or sensitive "
    <> "information (names, people, locations, identifiers, file contents, "
    <> "credentials), while preserving the technical intent so another assistant "
    <> "could still act on it. Output ONLY the rewritten request, nothing else.\n\n" <> "Request: "
    <> text

-- The prompt of `judge_package`
unfoldable pub build_judge_prompt : String → List String → String
build_judge_prompt query candidates =
    "A user typed '"
    <> query
    <> "' to install an app. Which of these real nixpkgs "
    <> "packages did they most likely mean? Reply with ONLY the exact package name "
    <> "from the list, or 'none'.\nOptions: "
    <> join ", " candidates

-- Ollama: the body of a reply to a prompt, or of the list of loaded models; none if the request
-- fails or its body is no JSON. `nearest` is difflib.get_close_matches.
pub record Ollama : Type 1 where
  pub World : Type 0
  pub generate : String → World → Option Json × World
  pub loaded : World → Option Json × World
  pub nearest : String → List String → List String

-- r.json().get("response", ""), which is then used as a text; none if that raises
abbrev pub response_text : Option Json → Option String
response_text none = none
response_text (some (str s)) = some s
response_text (some other) = none

abbrev pub response_in : Option Json → Option String
response_in (some (obj body)) = elim (get "response" body) [
  | none ↦ some ""
  | some v ↦ response_text (some v)
]
response_in other = none

-- The names of the loaded models; none if a model is no object, or its name has no hash.
abbrev pub name_of : Option Json → Option Json
name_of none = some (str "")
name_of (some (arr items)) = none
name_of (some (obj fields)) = none
name_of (some v) = some v

abbrev pub both : Option Bool → Option Bool → Option Bool
both (some a) (some b) = some (if a then true else b)
both (some a) none = none
both none b = none

abbrev pub is_model : String → Option Json → Option Bool
is_model model none = none
is_model model (some (str s)) = some (s == model)
is_model model (some other) = some false

unfoldable pub among : String → Items → Option Bool
among model nil = some false
among model (cons (obj m) ms) = both (is_model model (name_of (get "name" m))) (among model ms)
among model (cons other ms) = none

-- r.json().get("models", []), of which the loop walks the items
abbrev pub models_in : String → Option Json → Option Bool
models_in model none = some false
models_in model (some (arr items)) = among model items
models_in model (some other) = none

abbrev pub ready_in : String → Option Json → Option Bool
ready_in model (some (obj body)) = models_in model (get "models" body)
ready_in model other = none

abbrev pub or_false : Option Bool → Bool
or_false none = false
or_false (some b) = b

-- The first candidate whose name is the reply.
unfoldable pub find_exact : String → List String → Option String
find_exact reply [] = none
find_exact reply (c ∷ cs) =
    let rest = find_exact reply cs in if lower c == reply then some c else rest

-- The first candidate whose name is in the reply.
unfoldable pub find_within : String → List String → Option String
find_within reply [] = none
find_within reply (c ∷ cs) =
    let rest = find_within reply cs in if is_in (lower c) reply then some c else rest

abbrev pub or_within : Option String → Option String → String
or_within (some c) within = c
or_within none (some c) = c
or_within none none = ""

-- The choice of `judge_package`, by the reply
unfoldable pub choose : List String → String → String
choose candidates reply = or_within (find_exact reply candidates) (find_within reply candidates)

module _ (O : Ollama) where
  -- The text of a reply to a prompt, if all goes well.
  abbrev pub reply_to : String → O.World → Option String × O.World
  reply_to prompt w = let (body, w') = O.generate prompt w in (response_in body, w')

  -- `is_ready`
  unfoldable pub is_ready : String → O.World → Bool × O.World
  is_ready model w = let (body, w') = O.loaded w in (or_false (ready_in model body), w')

  abbrev pub matched : List Module → Option String → List Module
  matched modules none = []
  matched modules (some reply) = parse_classify_response reply modules

  -- `classify`
  unfoldable pub classify : String → List Module → O.World → List Module × O.World
  classify query modules w =
      let (reply, w') = reply_to (build_classify_prompt query modules) w in
      (matched modules reply, w')

  abbrev pub judged : List String → Option String → String
  judged candidates none = ""
  judged candidates (some reply) = choose candidates (lower (strip reply))

  -- `judge_package`
  unfoldable pub judge_package : String → List String → O.World → String × O.World
  judge_package query [] w = ("", w)
  judge_package query (c ∷ cs) w =
      let (reply, w') = reply_to (build_judge_prompt query (c ∷ cs)) w in
      (judged (c ∷ cs) reply, w')

  abbrev pub assessed : Option String → Bool
  assessed none = false
  assessed (some reply) = parse_escalate_response reply

  -- `assess_escalation`
  unfoldable pub assess_escalation : String → O.World → Bool × O.World
  assess_escalation query w =
      let (reply, w') = reply_to (build_escalate_prompt query) w in (assessed reply, w')

  abbrev pub rewritten : String → Option String → String
  rewritten text none = text
  rewritten text (some reply) = let out = strip reply in if out == "" then text else out

  -- `redact_rewrite`
  unfoldable pub redact_rewrite : String → O.World → String × O.World
  redact_rewrite text w =
      let (reply, w') = reply_to (build_redact_prompt text) w in (rewritten text reply, w')

  -- `fuzzy_candidates` of src/nixadmin/actions.py
  unfoldable pub fuzzy_candidates : String → List String → List String
  fuzzy_candidates query names = O.nearest (lower query) names

  -- `_suggest_package`, on the names that `load_package_names` gives
  unfoldable pub suggest_package : String → List String → O.World → String × O.World
  suggest_package phrase names w = judge_package phrase (fuzzy_candidates phrase names) w

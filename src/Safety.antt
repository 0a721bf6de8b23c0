-- ===== src/Safety.antt =====
-- src/nixadmin/safety.py (the gate to privileged actions) and the SessionState of
-- src/nixadmin/session.py. The helper behind its socket and the person who confirms are parameters.
pub mod Gated
use nixadmin.Prelude.{
  ℕ, String, ◌<>◌, Bool, true, false, not, ◌&&◌, ◌||◌, Option, none, some, List, [], ◌∷◌, ◌==◌,
  contains, string_eq, if◌then◌else◌, eqb,
}
use nixadmin.Prelude.Int.{ℤ, pos, negsuc}
use nixadmin.Prelude.Text.{strip, show_int}
use nixadmin.Prelude.Result.{Result, ok, err}
use nixadmin.Prelude.Exec.{Exec, pure, raise, modify, ◌>>=◌, ◌>>◌}
use nixadmin.Json.{Json, str, obj, int, null, Fields, JsonText, dumps, malformed, get}

pub record SessionState : Type 0 where
  pub last_test_ok : Bool
  pub last_test_at : Option ℕ

abbrev pub fresh : SessionState
fresh = record { last_test_ok = false; last_test_at = none }

-- `record_test`, at the time `now`
unfoldable pub record_test : Bool → ℕ → SessionState → SessionState
record_test passed now s = record { last_test_ok = passed; last_test_at = some now }

pub data SafetyError : Type 0 where
  unknown_action : String → SafetyError
  malformed_response : SafetyError
  refused : Json → SafetyError
  malformed_stream : SafetyError
  invalid_exit_code : SafetyError
  timed_out : SafetyError
  unreachable : SafetyError
  malformed_json : SafetyError
  no_exit_status : SafetyError
  failed : String → ℤ → String → SafetyError

-- A line that the helper sends, after `raw.decode().strip()`.
pub data Line : Type 0 where
  blank : Line
  undecodable : Line
  line : JsonText → Line

-- How the stream of lines ends.
pub data End : Type 0 where
  eof : End
  timeout : End
  os_error : End

-- The variables of the loop of `_run_helper`; `output` is "".join(chunks).
pub record Reading : Type 0 where
  pub output : String
  pub exit_code : Option ℤ

-- msg.get("stream")
unfoldable pub read_stream : Option Json → Reading → Result SafetyError Reading
read_stream none r = ok r
read_stream (some null) r = ok r
read_stream (some (str s)) r = ok (record r { output = r.output <> s })
read_stream (some other) r = err malformed_stream

-- if "exit" in msg
unfoldable pub read_exit : Option Json → Reading → Result SafetyError Reading
read_exit none r = ok r
read_exit (some (int z)) r = ok (record r { exit_code = some z })
read_exit (some other) r = err invalid_exit_code

-- A message that is a JSON object.
unfoldable pub read_message : Fields → Reading → Result SafetyError Reading
read_message msg r = elim (get "error" msg) [
  | some reason ↦ err (refused reason)
  | none ↦ elim (read_stream (get "stream" msg) r) [
    | ok r' ↦ read_exit (get "exit" msg) r'
    | err e ↦ err e
  ]
]

unfoldable pub read_line : Line → Reading → Result SafetyError Reading
read_line blank r = ok r
read_line undecodable r = err malformed_json
read_line (line malformed) r = err malformed_json
read_line (line (dumps (obj msg))) r = read_message msg r
read_line (line (dumps other)) r = err malformed_response

-- After the loop, by the way it ended.
unfoldable pub read_end : End → Reading → Result SafetyError (String × ℤ)
read_end timeout r = err timed_out
read_end os_error r = err unreachable
read_end eof r = elim r.exit_code [ none ↦ err no_exit_status | some z ↦ ok (strip r.output, z) ]

unfoldable pub read_lines : List Line → End → Reading → Result SafetyError (String × ℤ)
read_lines [] finish r = read_end finish r
read_lines (l ∷ ls) finish r = elim (read_line l r) [
  | ok r' ↦ read_lines ls finish r'
  | err e ↦ err e
]

abbrev pub nothing_read : Reading
nothing_read = record { output = ""; exit_code = none }

pub record Request : Type 0 where
  pub action : String
  pub unit : Option String

-- What the gate talks to: the helper, by the lines of its answer, and the person.
pub record Outside : Type 1 where
  pub World : Type 0
  pub converse : Request → World → (List Line × End) × World
  pub confirm : String → World → Bool × World
  pub monotonic : World → ℕ

-- The gate's journal, the newest first: what was asked with the answer, and what was sent to the
-- helper with its exit code, if one came back.
pub data Entry : Type 0 where
  asked : String → Bool → Entry
  dispatched : String → Option ℤ → Entry

abbrev pub actions : List String
actions = "test" ∷ "switch" ∷ "boot" ∷ "revert" ∷ []

abbrev pub is_zero : ℤ → Bool
is_zero (pos n) = eqb n 0
is_zero (negsuc n) = false

-- output or "(done)"
abbrev pub or_done : String → String
or_done output = if output == "" then "(done)" else output

module _ (O : Outside) where
  open O use {World, converse, confirm, monotonic}

  pub record Gate : Type 0 where
    pub session : SessionState
    pub journal : List Entry
    pub world : World

  -- `_run_helper`
  unfoldable pub run_helper : Request → Exec World SafetyError (String × ℤ)
  run_helper request w =
      let ((lines, finish), w') = converse request w in (read_lines lines finish nothing_read, w')

  unfoldable pub ask : String → Exec Gate SafetyError Bool
  ask prompt g =
      let (answer, w) = confirm prompt g.world in
      (ok answer, record g { world = w; journal = asked prompt answer ∷ g.journal })

  abbrev pub code_of : Result SafetyError (String × ℤ) → Option ℤ
  code_of (ok (output, code)) = some code
  code_of (err e) = none

  -- A request for a rebuild, entered in the journal.
  unfoldable pub dispatch : String → Exec Gate SafetyError (String × ℤ)
  dispatch action g =
      let (r, w) = run_helper (record { action = action; unit = none }) g.world in
      (r, record g { world = w; journal = dispatched action (code_of r) ∷ g.journal })

  -- if action == "test": state.record_test(code == 0)
  unfoldable pub note_test : String → ℤ → Gate → Gate
  note_test action code g =
      if action == "test"
      then record g { session = record_test (is_zero code) (monotonic g.world) g.session }
      else g

  failure_text : String → ℤ → String
  failure_text output code = strip (output <> "\n(rebuild failed, exit " <> show_int code <> ")")

  -- What `rebuild` makes of the helper's answer.
  unfoldable pub conclude : String → String × ℤ → Exec Gate SafetyError String
  unfolding failure_text
  conclude action (output, code) g = (
    ok (if is_zero code then or_done output else failure_text output code),
    note_test action code g,
  )

  -- The part of `rebuild` after the guards.
  unfoldable pub execute : String → Exec Gate SafetyError String
  execute action = do answer ← dispatch action; conclude action answer

  -- `rebuild`
  unfoldable pub rebuild : String → Exec Gate SafetyError String
  rebuild action g =
      if not (contains actions action)
      then (err (unknown_action action), g)
      else if action == "switch" && not g.session.last_test_ok
      then (
        ok (
            "Refused: run a configuration `test` first and confirm it "
            <> "succeeds before switching."),
        g,
      )
      else if action == "switch" || action == "boot"
      then (do
        agreed ← ask (
            "Confirm: "
            <> (if action == "switch" then "apply" else "stage for next boot")
            <> " the NixOS configuration change?")
        if agreed then execute action else pure "Cancelled — no changes were made.")
          g
      else execute action g

  -- `apply_switch`, `apply_revert` and `apply_restart`: a nonzero exit code is an error
  unfoldable pub checked : String → Request → Exec World SafetyError String
  checked what request = do
    (output, code) ← run_helper request
    if is_zero code then pure (or_done output) else raise (failed what code output)

  unfoldable pub apply_switch : Exec World SafetyError String
  apply_switch = checked "rebuild" (record { action = "switch"; unit = none })

  unfoldable pub apply_revert : Exec World SafetyError String
  apply_revert = checked "rollback" (record { action = "revert"; unit = none })

  unfoldable pub apply_restart : String → Exec World SafetyError String
  apply_restart unit =
      checked ("restart " <> unit) (record { action = "restart"; unit = some unit })

-- ===== src/Helper.antt =====
-- nix/nixadmin-helper.py: the privileged helper. What systemd and the commands answer is a
-- parameter; a client that goes away has read a part of the messages.
pub mod UnitName
pub mod Requests
pub mod Answers
use nixadmin.Prelude.{
  ℕ, String, ◌<>◌, Bool, true, false, not, ◌&&◌, ◌||◌, Option, none, some, List, [], ◌∷◌, ◌++◌, map,
  ◌==◌, contains, string_eq, if◌then◌else◌, eqb, leb, some_of,
}
use nixadmin.Prelude.Int.{ℤ, pos, negsuc}
use nixadmin.Prelude.Text.{strip, show_int}
use nixadmin.Json.{
  Json, null, bool, int, real, str, arr, obj, Fields, field, end, JsonText, dumps, malformed, get,
}
use nixadmin.Helper.UnitName.{matches_unit}

abbrev pub allowed_actions : List String
allowed_actions = "test" ∷ "switch" ∷ "revert" ∷ "boot" ∷ []

abbrev pub restart_deny : List String
restart_deny = "nixadmin-helper.service" ∷ []

abbrev nixos_rebuild : String
nixos_rebuild = "/run/current-system/sw/bin/nixos-rebuild"

-- `build_cmd`
unfoldable pub build_cmd : String → String → String → List String
build_cmd action flake_dir hostname =
    if action == "revert"
    then nixos_rebuild ∷ "switch" ∷ "--rollback" ∷ []
    else nixos_rebuild ∷ action ∷ "--flake" ∷ ("path:" <> flake_dir <> "#" <> hostname) ∷ []

-- `unit_is_finished`
unfoldable pub unit_is_finished : String → Bool
unit_is_finished active_state = contains ("active" ∷ "failed" ∷ []) active_state

abbrev pub is_zero : ℤ → Bool
is_zero (pos n) = eqb n 0
is_zero (negsuc n) = false

-- code or 1
abbrev pub or_one : ℤ → ℤ
or_one code = if is_zero code then pos 1 else code

-- `exit_code_from`; the second argument is what `int(exec_main_status)` gives, none if it raises
unfoldable pub exit_code_from : String → Option ℤ → ℤ
exit_code_from active_state parsed =
    if active_state == "active"
    then pos 0
    else elim parsed [ none ↦ or_one (pos 1) | some code ↦ or_one code ]

-- `is_reapable`
unfoldable pub is_reapable : String → Bool
is_reapable active_state = contains ("active" ∷ "failed" ∷ "inactive" ∷ []) active_state

-- `valid_unit`
unfoldable pub valid_unit : String → Bool
valid_unit unit = matches_unit unit && not (contains restart_deny unit)

-- The messages of the protocol.
pub data Message : Type 0 where
  stream : String → Message
  error : String → Message
  exit : ℤ → Message

-- The object that `_send` prints.
unfoldable pub to_json : Message → Fields
to_json (stream s) = field "stream" (str s) end
to_json (error s) = field "error" (str s) end
to_json (exit z) = field "exit" (int z) end

-- What happened to a command that was started: its lines, and how it ended.
pub record Ran : Type 0 where
  pub lines : List String
  pub code : ℤ

-- How `systemd-run` and the detached unit behaved: the launch failed, or the unit ran and its state
-- and status were read at the end.
pub data Rebuild : Type 0 where
  not_started : String → ℤ → Rebuild
  started : List String → String → Option ℤ → Rebuild

abbrev pub streams : List String → List Message
streams = map stream

-- `_run_restart`
unfoldable pub run_restart : Ran → List Message
run_restart ran = streams ran.lines ++ (exit ran.code ∷ [])

-- `_run_rebuild`
unfoldable pub run_rebuild : Rebuild → List Message
run_rebuild (not_started output code) =
    stream ("could not start rebuild unit: " <> strip output <> "\n") ∷ exit (or_one code) ∷ []
run_rebuild (started lines active_state parsed) =
    let code = exit_code_from active_state parsed in
    streams lines
    ++ (if is_zero code
        then exit code ∷ []
        else stream ("(rebuild exited " <> show_int code <> ")\n") ∷ exit code ∷ [])

-- The commands that the helper starts as root.
pub data Command : Type 0 where
  rebuild : List String → Command
  restart : String → Command

-- The machine: what the commands do when they are started, the environment, and whether another
-- rebuild holds the lock.
pub record Machine : Type 0 where
  pub flake_dir : String
  pub hostname : String
  pub busy : Bool
  pub on_rebuild : List String → Rebuild
  pub on_restart : String → Ran

-- The answer to a request: the commands that were started, and the messages.
pub record Answer : Type 0 where
  pub commands : List Command
  pub messages : List Message

abbrev pub silent : Answer
silent = record { commands = []; messages = [] }

abbrev refuse : String → Answer
refuse reason = record { commands = []; messages = error reason ∷ [] }

-- The requests to restart a unit; a unit that is no text raises in `re.match`, and the client gets
-- no answer.
unfoldable pub handle_restart : Machine → Option Json → Answer
handle_restart m none = refuse "invalid or disallowed unit: ''"
handle_restart m (some (str unit)) =
    if valid_unit unit
    then record { commands = restart unit ∷ []; messages = run_restart (m.on_restart unit) }
    else refuse ("invalid or disallowed unit: '" <> unit <> "'")
handle_restart m (some other) = silent

-- The rebuilds, one at a time.
unfoldable pub handle_rebuild : Machine → String → Answer
handle_rebuild m action =
    if contains allowed_actions action
    then (let cmd = build_cmd action m.flake_dir m.hostname in
        record {
          commands = rebuild cmd ∷ [];
          messages =
              (if m.busy then stream "another rebuild is in progress; waiting…\n" ∷ [] else [])
              ++ run_rebuild (m.on_rebuild cmd);
        })
    else refuse (
        "unknown action '" <> action
        <> "'; allowed: ['boot', 'revert', 'switch', 'test'] + restart")

-- The action of a request that is an object; an action that cannot be hashed raises.
unfoldable pub handle_action : Machine → Fields → Option Json → Answer
handle_action m req none = handle_rebuild m ""
handle_action m req (some (str action)) =
    if action == "restart" then handle_restart m (get "unit" req) else handle_rebuild m action
handle_action m req (some (arr items)) = silent
handle_action m req (some (obj fields)) = silent
handle_action m req (some other) = refuse "unknown action"

-- `handle_client`, on the line that was read: none if the client sent nothing, and a JSON value
-- other than an object raises at `req.get`.
unfoldable pub handle_client : Machine → Option JsonText → Answer
handle_client m none = silent
handle_client m (some malformed) = refuse "bad JSON"
handle_client m (some (dumps (obj req))) = handle_action m req (get "action" req)
handle_client m (some (dumps other)) = silent

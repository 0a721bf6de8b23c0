-- ===== src/Tests/Gate.antt =====
-- The theorems about the gate and the root helper at concrete requests.

use nixadmin.Prelude.{
  ◌<◌, ◌≡◌, ◌↔◌, refl, String, true, Option, some, List, [], ◌∷◌, take, length, arith, string_eq,
}
use nixadmin.Prelude.Text.{strip}
use nixadmin.Prelude.Int.{ℤ, pos}
use nixadmin.Prelude.Result.{ok, err}
use nixadmin.Json.{JsonText, dumps, obj, str, field, end}
use nixadmin.Safety.{
  line, blank, eof, timeout, read_lines, nothing_read, no_exit_status, Outside, fresh,
}
use nixadmin.Safety.Gated.{Gated, rebuilds, session-Gated}
use nixadmin.Helper.{
  exit, to_json, Rebuild, not_started, run_rebuild, Machine, handle_client, valid_unit, is_zero,
}
use nixadmin.Helper.UnitName.{matches_unit, matches_rest, is_safe, is_ending}
use nixadmin.Helper.Requests.{IsCareful, handle_client-IsCareful}
use nixadmin.Helper.Answers.{
  to_lines, behind, spoken, exit_of, IsClean, run_rebuild-read, run_rebuild-cut,
}

-- A helper that ends each action with the next of some exit codes, and a person who agrees.
abbrev outside : Outside
outside = record {
  World = List ℤ;
  converse = λ request codes. elim codes [
    | [] ↦ ((blank ∷ [], timeout), [])
    | code ∷ rest ↦ ((line (dumps (obj (to_json (exit code)))) ∷ [], eof), rest)
  ];
  confirm = λ prompt codes. (true, codes);
  monotonic = λ codes. 0;
}

abbrev requests : List String
requests = "switch" ∷ "test" ∷ "switch" ∷ "boot" ∷ "test" ∷ "switch" ∷ []

abbrev codes : List ℤ
codes = pos 0 ∷ pos 0 ∷ pos 0 ∷ pos 1 ∷ []

session-Gated_example :
    Gated
      (rebuilds outside requests (record { session = fresh; journal = []; world = codes })).journal
session-Gated_example = session-Gated outside requests codes

abbrev failed_launch : Rebuild
failed_launch = not_started "no such unit" (pos 5)

abbrev machine : Machine
machine = record {
  flake_dir = "/etc/nixos";
  hostname = "laptop";
  busy = true;
  on_rebuild = λ cmd. failed_launch;
  on_restart = λ unit. record { lines = []; code = pos 0 };
}

abbrev request : Option JsonText
request =
    some (dumps (obj (field "action" (str "restart") (field "unit" (str "nginx.service") end))))

handle_client-IsCareful_example : IsCareful machine (handle_client machine request)
handle_client-IsCareful_example = handle_client-IsCareful machine request

nginx_valid : valid_unit "nginx.service" ≡ true
unfolding valid_unit matches_unit matches_rest is_safe is_ending string_eq
nginx_valid = refl

run_rebuild-read_example :
    (read_lines (to_lines (run_rebuild failed_launch)) eof nothing_read
      ≡ ok (strip (behind "" (spoken failed_launch)), exit_of failed_launch))
    × ((is_zero (exit_of failed_launch) ≡ true) ↔ IsClean failed_launch)
run_rebuild-read_example = run_rebuild-read failed_launch

two_messages : 1 < length (run_rebuild failed_launch)
unfolding run_rebuild
two_messages = omega arith

run_rebuild-cut_example :
    read_lines (to_lines (take 1 (run_rebuild failed_launch))) eof nothing_read ≡ err no_exit_status
run_rebuild-cut_example = run_rebuild-cut failed_launch 1 two_messages

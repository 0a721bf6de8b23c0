-- ===== src/Tests/Actions.antt =====
-- The theorems about known actions on a machine whose switch fails after activating a generation.
use nixadmin.Prelude.{String, Bool, true, false, none, some}
use nixadmin.Prelude.Result.{ok, err}
use nixadmin.Actions.{failure, Host, run_app_action}
use nixadmin.Actions.Rollback.{untouched, run_app_action-IsSettled, run_app_action-IsCareful}
use nixadmin.Actions.Careful.{IsSettled, IsCareful}

abbrev config : String
config = "{\n  home.packages = with pkgs; [\n    htop\n  ];\n}\n"

-- The world tells whether a new generation is active.
abbrev host : Host
host = record {
  World = Bool;
  validate = λ edited w. (ok (true, "+    vim"), w);
  suggest = none;
  confirm = λ text w. (ok true, w);
  switch = λ w. (err (failure "a unit failed to start"), true);
  rollback = some (λ w. (ok "rolled back", false));
  generation = λ w. elim w [ true ↦ some "system-2-link" | false ↦ some "system-1-link" ];
}

run_app_action-IsSettled_example :
    IsSettled host config (run_app_action host true "vim" (untouched host config false))
run_app_action-IsSettled_example = run_app_action-IsSettled host config true "vim" false

run_app_action-IsCareful_example :
    IsCareful config (run_app_action host true "vim" (untouched host config false)).1.journal
run_app_action-IsCareful_example = run_app_action-IsCareful host config true "vim" false

-- ===== src/Tests/Fixing.antt =====
-- The theorems about restarts at a machine with one user unit.
use nixadmin.Prelude.{
  ◌≤◌, ◌≡◌, ◌↔◌, refl, String, Bool, true, false, List, [], ◌∷◌, take, keep, length, ◌==◌,
  string_eq, option_eq, pair_eq, if◌then◌else◌, arith,
}
use nixadmin.Prelude.Result.{ok, err}
use nixadmin.Json.{get, is_str, loads}
use nixadmin.Store.{Row, event_store, matches, to_event, decode_meta, meta_json}
use nixadmin.Store.Query.{new_row}
use nixadmin.Timeline.{FailedUnit}
use nixadmin.Timeline.Journal.{rows_of}
use nixadmin.Remediation.{Systemd, RestartOutcome, restart_resolved}
use nixadmin.Remediation.Verified.{Recovered, restart_resolved-Recovered}
use nixadmin.Autofix.{
  AutofixConfig, guard_scan, is_restart, inform_draft, restart_draft, Engine, handle_unit,
}
use nixadmin.Autofix.Window.{Guarded, prior_rows, restarts_since}
use nixadmin.Autofix.Guard.{handle_unit-Guarded}

-- One user unit, failing while the world is true; a restart heals it.
abbrev pub machine : Systemd
machine = record {
  World = Bool;
  list_units = λ scope failing. (
    ok (
        if scope == "user"
        then record {
          name = "backup.service";
          active = if failing then "failed" else "active";
          description = "Backup";
        }
          ∷ []
        else []),
    failing,
  );
  restart_user = λ unit failing. (ok tt, false);
  restart_system = λ unit failing. (err "not privileged", failing);
  settle = λ failing. failing;
  is_failed = λ unit scope failing. (ok failing, failing);
  unit_tail = λ unit scope failing. (ok "exit 1", failing);
  restart_count = λ unit scope failing. 0;
}

restart_resolved-Recovered_example :
    ((o : RestartOutcome) × ((restart_resolved machine (λ w. w) true "backup.service" "user" true).0
        ≡ ok o)
      × (o.succeeded ≡ true))
    ↔ Recovered machine true "backup.service" "user" true
restart_resolved-Recovered_example =
    restart_resolved-Recovered machine (λ w. w) true "backup.service" "user" true

abbrev policy : AutofixConfig
policy = record { enable = true; system = false; max_attempts = 2; window = 100 }

abbrev healed : RestartOutcome
healed = record { succeeded = true; message = "healthy" }

-- An engine whose store holds one row, of time 20.
abbrev holding : Row → Engine machine
holding r = record {
  store = event_store (record {
    db = record { rows = r ∷ []; next_id = 2; user_version = 1 };
    closed = false;
    healthy = true;
  });
  seen = [];
  emitted = [];
  world = true;
}

abbrev restarted : Row
restarted = new_row 1 20 (restart_draft "backup.service" "user" 0 healed)

one_row : length (prior_rows policy 30 "backup.service" (restarted ∷ [])) ≤ guard_scan
unfolding matches restart_draft string_eq option_eq
one_row = omega arith

first_restart : Guarded policy "backup.service" (restarted ∷ [])
unfolding restarts_since
first_restart = (λ e. omega arith, tt)

handle_unit-Guarded_example :
    Guarded policy "backup.service"
      (rows_of (handle_unit machine policy 30 "backup.service" "user" (holding restarted)).1.store)
unfolding restart_draft
handle_unit-Guarded_example =
    handle_unit-Guarded machine policy 30 "backup.service" "user" "backup.service"
      (holding restarted) (refl, refl) (omega arith, tt) (omega arith, tt) one_row first_restart

abbrev informed : Row
informed = new_row 1 20 (inform_draft "backup.service" "user" 2 0)

no_restart :
    keep
      (λ r. is_restart (to_event r))
      (take guard_scan (prior_rows policy 30 "backup.service" (informed ∷ [])))
    ≡ []
unfolding matches inform_draft string_eq option_eq to_event decode_meta meta_json loads get is_str
no_restart = refl

user_unit : ◌==◌ {A = String} "user" "system" ≡ false
unfolding string_eq
user_unit = refl

abbrev failures : List FailedUnit
failures = record { unit = "backup.service"; scope = "user"; description = "Backup" } ∷ []

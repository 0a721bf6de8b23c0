-- ===== src/Autofix/Guard.antt =====
-- The loop guard of src/nixadmin/autofix_engine.py: how often a unit is restarted within a window.
use nixadmin.Prelude.{
  length-keep-map, ℕ, ◌-◌, max, ◌≤◌, ◌<◌, ◌≡◌, refl, ap, String, true, false, [], ◌==◌, string_eq,
  option_eq, if◌then◌else◌, length, take, keep, leb, arith,
}
use nixadmin.Prelude.Result.{Result, ok, err}
use nixadmin.Prelude.Exec.{◌>>=◌}
use nixadmin.Store.{Store, null_store, event_store, query, recent, recent_events, clamp, to_event}
use nixadmin.Store.Sorted.{Chron}
use nixadmin.Store.Invariant.{IsSoundStore}
use nixadmin.Store.Query.{select-Chron}
use nixadmin.Timeline.Journal.{IsWorking, rows_of}
use nixadmin.Remediation.{Systemd, RestartOutcome, restart_resolved}
use nixadmin.Autofix.{
  AutofixConfig, Decision, restart, inform, skip, decide, guard_scan, prior_filter, is_restart,
  recorded_attempts, Engine, report_restart, inform_user, act, handle_unit,
}
use nixadmin.Autofix.Window.{
  restarts_since, Guarded, prior_rows, decide-restart, recorded_attempts-restarts_since,
  Guarded-inform, Guarded-restart,
}

module _ (S : Systemd) (cfg : AutofixConfig) (v unit scope : String)
    (now recorded systemd : ℕ) where
  Guarded-report :
      (o : RestartOutcome) (s : Engine S)
      → IsWorking s.store
      → restarts_since (now - cfg.window) unit (rows_of s.store) < cfg.max_attempts
      → Guarded cfg v (rows_of s.store)
      → Guarded cfg v (rows_of (report_restart S now unit scope (max recorded systemd) o s).1.store)
  unfolding report_restart
  Guarded-report o s w free g =
      Guarded-restart cfg v unit scope now (max recorded systemd) o s.store w free g

  Guarded-outcome :
      (r : Result String RestartOutcome) (s : Engine S)
      → IsWorking s.store
      → restarts_since (now - cfg.window) unit (rows_of s.store) < cfg.max_attempts
      → Guarded cfg v (rows_of s.store)
      → Guarded cfg v (
          rows_of
            (((λ _. (r, s)) >>= report_restart S now unit scope (max recorded systemd)) s).1.store)
  Guarded-outcome (ok o) s w free g = Guarded-report o s w free g
  Guarded-outcome (err e) s w free g = g

  Guarded-act :
      (d : Decision) (s : Engine S)
      → IsWorking s.store
      → (d ≡ restart → restarts_since (now - cfg.window) unit (rows_of s.store) < cfg.max_attempts)
      → Guarded cfg v (rows_of s.store)
      → Guarded cfg v (rows_of (act S now unit scope recorded systemd d s).1.store)
  unfolding act inform_user
  Guarded-act skip s w free g = g
  Guarded-act inform s w free g = Guarded-inform cfg v unit scope now recorded systemd s.store w g
  Guarded-act restart s w free g =
      let (r, world) = restart_resolved S (λ w'. w') true unit scope s.world in
      Guarded-outcome r (record s { world = world }) w (free refl) g

-- One failure handled, whatever systemd does and whichever unit `v` is looked at: if at each
-- restart on record fewer than `max_attempts` restarts of `v` stood in the window before it, this
-- is still so afterwards. The store works with identifiers in order,
-- its clock was not set back, and the window holds at
-- most 50 events of autofix about the unit.
pub handle_unit-Guarded :
    (S : Systemd) (cfg : AutofixConfig) (now : ℕ) (unit scope v : String) (s : Engine S)
    → IsWorking s.store
    → IsSoundStore s.store
    → Chron now (rows_of s.store)
    → length (prior_rows cfg now unit (rows_of s.store)) ≤ guard_scan
    → Guarded cfg v (rows_of s.store)
    → Guarded cfg v (rows_of (handle_unit S cfg now unit scope s).1.store)
unfolding handle_unit
handle_unit-Guarded S cfg now unit scope v s w h k few g =
    let recorded = recorded_attempts now unit cfg s.store in
    let systemd = S.restart_count unit scope s.world in
    Guarded-act S cfg v unit scope now recorded systemd (decide scope (max recorded systemd) cfg) s
      w
      (λ e. omega (
        arith,
        decide-restart scope (max recorded systemd) cfg e,
        recorded_attempts-restarts_since cfg now unit s.store w h k few,
      ))
      g

under_guard :
    (allowed systemd : ℕ)
    → systemd < allowed
    → (if leb allowed (max 0 systemd) then inform else restart) ≡ restart
under_guard allowed systemd h = ground arith

recorded_attempts-crowded :
    (cfg : AutofixConfig) (now : ℕ) (unit : String) (s : Store)
    → IsWorking s
    → IsSoundStore s
    → Chron now (rows_of s)
    → keep (λ r. is_restart (to_event r)) (take guard_scan (prior_rows cfg now unit (rows_of s)))
      ≡ []
    → recorded_attempts now unit cfg s ≡ 0
unfolding recorded_attempts recent recent_events query clamp
recorded_attempts-crowded cfg now unit null_store w h k crowd = absurd w
recorded_attempts-crowded cfg now unit (event_store s) (open_, works) h k crowd = rw (
  open_,
  works,
  select-Chron (prior_filter unit (now - cfg.window)) now s.db h k,
  length-keep-map,
  crowd,
)

-- The store works, its identifiers are in order and its clock was not set back, and autofix is on.
-- The guard counts in the newest 50 events of autofix about the unit: if none of these records a
-- restart, a user unit is restarted again, however many restarts stand behind them in the window
-- and whatever `max_attempts` allows, as long as systemd's own count is below it.
pub handle_unit-crowded :
    (S : Systemd) (cfg : AutofixConfig) (now : ℕ) (unit scope : String) (s : Engine S)
    → IsWorking s.store
    → IsSoundStore s.store
    → Chron now (rows_of s.store)
    → cfg.enable ≡ true
    → (scope == "system") ≡ false
    → S.restart_count unit scope s.world < cfg.max_attempts
    → keep
        (λ r. is_restart (to_event r))
        (take guard_scan (prior_rows cfg now unit (rows_of s.store)))
      ≡ []
    → handle_unit S cfg now unit scope s
      ≡ act S now unit scope 0 (S.restart_count unit scope s.world) restart s
unfolding handle_unit decide
handle_unit-crowded S cfg now unit scope s w h k on user few crowd =
    let none_seen = recorded_attempts-crowded cfg now unit s.store w h k crowd in
    rw (none_seen, on, user)
      (ap (λ d. act S now unit scope 0 (S.restart_count unit scope s.world) d s)
        (under_guard cfg.max_attempts (S.restart_count unit scope s.world) few))

-- ===== src/Daemon/Ends.antt =====
-- How the daemon's answers about a unit end, in src/nixadmin/server.py.
use nixadmin.Prelude.{ℕ, ◌+◌, ◌≡◌, refl, String, Option, none, some, string_eq, arith}
use nixadmin.Prelude.Exec.{handle}
use nixadmin.Prelude.Result.{Result, ok, err}
use nixadmin.Timeline.{FailedUnit}
use nixadmin.Remediation.{Systemd, failed_units}
use nixadmin.Daemon.{
  error, Daemon, UnitRequest, Handler, send, restarted, not_failing, restart_match, or_error,
  match_failed, restart_unit,
}
use nixadmin.Daemon.Quiet.{
  EndsBy, EndsWell, Settles, append-Quiet, bind-Settles, delta-Quiet, done-Settles, machine-Quiet,
  one, restart-Quiet, terminals,
}

module _ (S : Systemd) where
  not_failing-Settles :
      (chain model : Option String) (r : UnitRequest) → Settles S (not_failing S chain model r)
  not_failing-Settles chain model r =
      bind-Settles S _ _ (delta-Quiet S r.id _) (λ _. done-Settles S r.id chain model)

  restart-Settles :
      (now : ℕ) (model : String) (r : UnitRequest) (u : Option FailedUnit)
      → Settles S (restart_match S now model r u)
  unfolding restart_match
  restart-Settles now model r none = not_failing-Settles _ _ r
  restart-Settles now model r (some u) =
      bind-Settles S _ _ (restart-Quiet S r.id _ u.unit u.scope) (λ outcome.
        bind-Settles S _ _ (append-Quiet S now (restarted S r outcome)) (λ _.
          bind-Settles S _ _ (delta-Quiet S r.id outcome.message)
            (λ _. done-Settles S r.id (some "local") (some model))))

  handled-once :
      (id : String) (a : Result String (Unit {0})) (e d : Daemon S)
      → (terminals e.sent ≡ terminals d.sent + one S a) × EndsBy S a e
      → (terminals (handle a (λ t. send S (error id t)) e).1.sent ≡ terminals d.sent + 1)
        × EndsWell (handle a (λ t. send S (error id t)) e).1.sent
  unfolding terminals
  handled-once id (ok u) e d h = h
  handled-once id (err t) e d h = (omega arith, refl)

  end-once :
      (id : String) (m : Handler S (Unit {0}))
      → Settles S m
      → (d : Daemon S)
      → (terminals (or_error S id m d).1.sent ≡ terminals d.sent + 1)
        × EndsWell (or_error S id m d).1.sent
  unfolding Settles
  end-once id m settles d = handled-once id (m d).0 (m d).1 d (settles d)

  -- A request to restart a unit is always answered, and the answer ends once and with its last
  -- message: a `done`, or an `error` if a call to systemd raises.
  pub restart_unit-ends :
      (now : ℕ) (model : String) (r : UnitRequest) (d : Daemon S)
      → (terminals (restart_unit S now model r d).1.sent ≡ terminals d.sent + 1)
        × EndsWell (restart_unit S now model r d).1.sent
  unfolding restart_unit
  restart_unit-ends now model r d =
      end-once r.id _
        (bind-Settles S _ _ (machine-Quiet S (failed_units S))
          (λ units. restart-Settles now model r (match_failed S r units)))
        d

-- ===== src/Daemon/Live.antt =====
-- Which units a client's request to restart reaches, in src/nixadmin/server.py.
use nixadmin.Prelude.{
  ℕ, ◌≡◌, refl, String, ◌<>◌, false, none, some, List, [], ◌∷◌, map, contains, string_eq, pair_eq,
  arith,
}
use nixadmin.Prelude.Dict.{Dict, lookup, insert, lookup-insert}
use nixadmin.Prelude.Result.{ok}
use nixadmin.Timeline.{FailedUnit, Key, key_of, by_key}
use nixadmin.Remediation.{Systemd, failed_units}
use nixadmin.Daemon.{delta, done, Daemon, UnitRequest, on_machine, restart_match, restart_unit}

lookup-by_key :
    (k : Key) (units : List FailedUnit) (d : Dict Key FailedUnit)
    → contains (map key_of units) k ≡ false
    → lookup k d ≡ none
    → lookup k (by_key units d) ≡ none
unfolding by_key
lookup-by_key k [] d absent h = h
lookup-by_key k (u ∷ units) d absent h =
    lookup-by_key k units (insert (key_of u) u d) (ground arith)
      (ground (arith, lookup-insert (key_of u) k u d))

-- A request to restart a unit that systemd does not report as failed restarts nothing: if
-- `failed_units` gives units without it, the machine is as that call left it, no event is stored, and
-- the client is told so.
pub restart_unit_unlisted :
    (S : Systemd) (now : ℕ) (model : String) (r : UnitRequest) (d : Daemon S)
    (units : List FailedUnit) (w : S.World)
    → failed_units S d.machine ≡ (ok units, w)
    → contains (map key_of units) (r.unit, r.scope) ≡ false
    → restart_unit S now model r d ≡ (
      ok tt,
      record {
        broken = d.broken;
        machine = w;
        sent =
            done r.id (some "local") (some model)
            ∷ delta r.id (r.unit <> " isn't failing right now.")
            ∷ d.sent;
        service = d.service;
      },
    )
unfolding restart_unit on_machine restart_match lookup
restart_unit_unlisted S now model r d units w listed absent =
    rw (listed, lookup-by_key (r.unit, r.scope) units [] absent refl) refl

-- ===== src/Remediation.antt =====
-- src/nixadmin/remediation.py: restarts that are confirmed and verified. systemd, which the source
-- reaches by running systemctl and journalctl, is a parameter.
pub mod Verified
pub mod Matching
pub mod Candidates
pub mod Systemctl
use nixadmin.Prelude.{
  ℕ, String, ◌<>◌, Bool, true, false, not, ◌&&◌, Option, none, some, List, [], ◌∷◌, ◌++◌, map, ◌==◌,
  contains, string_eq, if◌then◌else◌, length, keep, some_of,
}
use nixadmin.Prelude.Dict.{Dict, lookup, insert}
use nixadmin.Prelude.Text.{join}
use nixadmin.Prelude.Result.{Result, ok, err}
use nixadmin.Prelude.Exec.{Exec, pure, raise, modify, ◌>>=◌, ◌>>◌, try◌except◌}
use nixadmin.Timeline.{FailedUnit}

-- A triple of `_list_units`.
pub record UnitRow : Type 0 where
  pub name : String
  pub active : String
  pub description : String

-- What the commands of the source do to the machine and read from it. Each may raise, with the
-- text of its `NixadminError`.
pub record Systemd : Type 1 where
  pub World : Type 0
  -- `_list_units(scope)`
  pub list_units : String → Exec World String (List UnitRow)
  -- `_run("systemctl", "--user", "restart", unit)`
  pub restart_user : String → Exec World String (Unit {0})
  -- the restart through the root helper
  pub restart_system : String → Exec World String (Unit {0})
  -- `asyncio.sleep(1.0)`
  pub settle : World → World
  -- `_is_failed(unit, scope)`
  pub is_failed : String → String → Exec World String Bool
  -- `_unit_tail(unit, scope)`
  pub unit_tail : String → String → Exec World String String
  -- `restart_count(unit, scope)`, which raises nothing
  pub restart_count : String → String → World → ℕ

pub record RestartOutcome : Type 0 where
  pub succeeded : Bool
  pub message : String

-- failed_matches or matches
abbrev pub preferred : List String → List String → List String
preferred hits [] = hits
preferred hits (u ∷ us) = u ∷ us

-- `_choose`: prefer failed units
unfoldable pub choose : List String → List UnitRow → List String
choose hits units =
    let failed = keep (λ hit. some_of (λ u. u.name == hit && u.active == "failed") units) hits in
    preferred hits failed

-- list(dict.fromkeys(names))
unfoldable pub distinct : List String → List String → List String
distinct seen [] = []
distinct seen (x ∷ xs) =
    let rest = distinct (x ∷ seen) xs in
    let skip = distinct seen xs in if contains seen x then skip else x ∷ rest

-- `{u: "user" for ...}`, updated with "system" for the units of the system
unfoldable pub scope_of : List UnitRow → String → String
scope_of system unit = if some_of (λ u. u.name == unit) system then "system" else "user"

abbrev failed_in : String → List UnitRow → List FailedUnit
failed_in scope rows =
    map (λ u. record { unit = u.name; scope = scope; description = u.description })
      (keep (λ u. u.active == "failed") rows)

abbrev pub still_failing : String → String → RestartOutcome
still_failing unit reason = record {
  succeeded = false;
  message =
      "I restarted " <> unit <> ", but it's still failing — this needs a real fix, "
      <> "not a restart:\n" <> reason;
}

abbrev pub healthy : String → RestartOutcome
healthy unit = record {
  succeeded = true;
  message = "Restarted " <> unit <> " — it's healthy again.";
}

module _ (S : Systemd) where
  open S use {World, list_units, restart_user, restart_system, settle, is_failed, unit_tail}

  -- `failed_units`
  unfoldable pub failed_units : Exec World String (List FailedUnit)
  failed_units = do
    system ← list_units "system"
    user ← list_units "user"
    pure (failed_in "system" system ++ failed_in "user" user)

  -- The end of `restart_resolved`: the state of the unit after the restart decides.
  unfoldable pub verify : String → String → Exec World String RestartOutcome
  verify unit scope = do
    modify settle
    failed ← is_failed unit scope
    if failed
        then (do reason ← unit_tail unit scope; pure (still_failing unit reason))
        else pure (healthy unit)

  -- The `try` block: an outcome if it returns early, none if the restart was carried out.
  unfoldable pub attempt : Bool → String → String → Exec World String (Option RestartOutcome)
  attempt privileged unit scope =
      if scope == "system"
      then (if privileged
          then restart_system unit >> pure none
          else pure (
              some (record {
                succeeded = false;
                message = "I can't restart a system service in this context.";
              })))
      else restart_user unit >> pure none

  unfoldable pub couldnt : String → String → Option RestartOutcome
  couldnt unit e =
      some
        (record { succeeded = false; message = "I couldn't restart " <> unit <> " (" <> e <> ")." })

  unfoldable pub finish : String → String → Option RestartOutcome → Exec World String RestartOutcome
  finish unit scope (some early) = pure early
  finish unit scope none = verify unit scope

  -- `restart_resolved`; `privileged` says that a `restart_system` was given, and `status` is what
  -- the caller's status callback does.
  unfoldable pub restart_resolved :
      (World → World) → Bool → String → String → Exec World String RestartOutcome
  unfolding couldnt finish
  restart_resolved status privileged unit scope = do
    modify status
    early ← try◌except◌ (attempt privileged unit scope) (λ e. pure (couldnt unit e))
    finish unit scope early

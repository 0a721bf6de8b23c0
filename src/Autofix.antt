-- ===== src/Autofix.antt =====
-- src/nixadmin/autofix.py (the policy) and src/nixadmin/autofix_engine.py (its execution). The
-- broadcasts of the engine are the list `emitted`, the newest first.
pub mod Window
pub mod Guard
pub mod Episodes
use nixadmin.Prelude.{
  ℕ, ◌+◌, ◌-◌, max, String, ◌<>◌, Bool, true, false, not, ◌&&◌, Option, none, some, List, [], ◌∷◌,
  map, ◌==◌, contains, string_eq, pair_eq, if◌then◌else◌, length, keep, leb, eqb,
}
use nixadmin.Prelude.Dict.{Dict, insert}
use nixadmin.Prelude.Int.{ℤ, pos}
use nixadmin.Prelude.Result.{Result, ok, err}
use nixadmin.Prelude.Exec.{Exec, pure, modify, gets, ◌>>=◌, ◌>>◌, try◌except◌}
use nixadmin.Json.{Fields, field, end, int, str, get, is_str}
use nixadmin.Store.{Event, Draft, Filter, any, Store, append, recent}
use nixadmin.Timeline.{FailedUnit, Key, current, keys}
use nixadmin.Remediation.{Systemd, RestartOutcome, failed_units, restart_resolved}

pub data Decision : Type 0 where
  restart inform skip : Decision

pub record AutofixConfig : Type 0 where
  pub enable : Bool
  pub system : Bool
  pub max_attempts : ℕ
  pub window : ℕ

unfoldable pub decide : String → ℕ → AutofixConfig → Decision
decide scope prior_attempts cfg =
    if not cfg.enable
    then skip
    else if scope == "system" && not cfg.system
    then inform
    else if leb cfg.max_attempts prior_attempts
    then inform
    else restart

-- How many events `handle_unit` reads back.
abbrev pub guard_scan : ℕ
guard_scan = 50

-- The events of autofix about a unit since a time.
abbrev pub prior_filter : String → ℕ → Filter
prior_filter unit since = record any { unit = some unit; kind = some "autofix"; since = some since }

abbrev pub is_restart : Event → Bool
is_restart ev = is_str "restart" (get "action" ev.meta)

-- recorded_attempts
unfoldable pub recorded_attempts : ℕ → String → AutofixConfig → Store → ℕ
recorded_attempts now unit cfg store =
    length (keep is_restart (recent (pos guard_scan) (prior_filter unit (now - cfg.window)) store))

inform_text : String → ℕ → String
inform_text unit attempts =
    if eqb attempts 0
    then unit <> " stopped and needs attention."
    else unit <> " keeps failing and needs a real fix."

unfoldable pub inform_draft : String → String → ℕ → ℕ → Draft
unfolding inform_text
inform_draft unit scope recorded systemd = record {
  kind = "autofix";
  unit = some unit;
  scope = some scope;
  severity = some "warning";
  text = inform_text unit (max recorded systemd);
  meta = field "action" (str "inform") (
      field "recorded_attempts" (int (pos recorded))
        (field "systemd_restarts" (int (pos systemd)) end));
}

unfoldable pub restart_draft : String → String → ℕ → RestartOutcome → Draft
restart_draft unit scope attempts outcome = record {
  kind = "autofix";
  unit = some unit;
  scope = some scope;
  severity = some (if outcome.succeeded then "info" else "warning");
  text = outcome.message;
  meta = field "action" (str "restart") (
      field "outcome" (str (if outcome.succeeded then "healthy" else "still_failing"))
        (field "attempt" (int (pos (attempts + 1))) end));
}

restart_text : String → RestartOutcome → String
restart_text unit outcome =
    if outcome.succeeded
    then unit <> " stopped, so I restarted it — it's healthy again."
    else unit <> " stopped and a restart didn't fix it — it needs attention."

-- self.seen &= set(failed)
abbrev pub still_failed : List Key → List Key → List Key
still_failed failed seen = keep (contains failed) seen

module _ (S : Systemd) where
  open S use {World, restart_count}

  pub record Engine : Type 0 where
    pub store : Store
    pub seen : List Key
    pub emitted : List String
    pub world : World

  -- A call of the remediation tier.
  abbrev on_world : {A : Type 0} → Exec World String A → Exec Engine String A
  on_world m s = let (r, w) = m s.world in (r, record s { world = w })

  record_event : ℕ → Draft → Engine → Engine
  record_event now e s = record s { store = (append now e s.store).1 }

  emit : String → Engine → Engine
  emit text s = record s { emitted = text ∷ s.emitted }

  -- The outcome of a restart is recorded and announced.
  unfoldable pub report_restart :
      ℕ → String → String → ℕ → RestartOutcome → Exec Engine String (Unit {0})
  unfolding restart_text record_event emit
  report_restart now unit scope attempts outcome = do
    modify (record_event now (restart_draft unit scope attempts outcome))
    modify (emit (restart_text unit outcome))

  unfoldable pub inform_user : ℕ → String → String → ℕ → ℕ → Exec Engine String (Unit {0})
  unfolding inform_text record_event emit
  inform_user now unit scope recorded systemd = do
    modify (record_event now (inform_draft unit scope recorded systemd))
    modify (emit (inform_text unit (max recorded systemd)))

  -- The decision of `handle_unit`, carried out.
  unfoldable pub act : ℕ → String → String → ℕ → ℕ → Decision → Exec Engine String (Unit {0})
  act now unit scope recorded systemd skip = pure tt
  act now unit scope recorded systemd inform = inform_user now unit scope recorded systemd
  act now unit scope recorded systemd restart = do
    outcome ← on_world (restart_resolved S (λ w. w) true unit scope)
    report_restart now unit scope (max recorded systemd) outcome

  unfoldable pub handle_unit : AutofixConfig → ℕ → String → String → Exec Engine String (Unit {0})
  handle_unit cfg now unit scope = do
    recorded ← gets (λ s. recorded_attempts now unit cfg s.store)
    systemd ← gets (λ s. restart_count unit scope s.world)
    act now unit scope recorded systemd (decide scope (max recorded systemd) cfg)

  -- The loop of `run_once` over the failed units; an error of one unit is logged and passed over.
  unfoldable pub handle_each : AutofixConfig → ℕ → List Key → Engine → Engine
  handle_each cfg now [] s = s
  handle_each cfg now ((unit, scope) ∷ ks) s =
      let marked : Engine = record s { seen = (unit, scope) ∷ s.seen } in
      handle_each cfg now ks
        (if contains s.seen (unit, scope) then s else (handle_unit cfg now unit scope marked).1)

  unfoldable pub run_once : AutofixConfig → ℕ → Exec Engine String (Unit {0})
  run_once cfg now = do
    units ← on_world (failed_units S)
    let failed = keys (current units)
    modify (λ s. handle_each cfg now failed (record s { seen = still_failed failed s.seen }))

  -- `seed`
  unfoldable pub seed : Exec Engine String (Unit {0})
  seed = do
    units ← on_world (failed_units S)
    modify (λ s. record s { seen = keys (current units) })

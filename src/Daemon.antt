-- ===== src/Daemon.antt =====
-- src/nixadmin/server.py: the daemon's answers to the structured requests of its clients. systemd
-- and the local model are parameters; the clock reads the same throughout one request.
pub mod Quiet
pub mod Ends
pub mod Live
pub mod Wire
pub mod Serve
use nixadmin.Prelude.{
  ℕ, String, ◌<>◌, Bool, true, false, not, Option, none, some, List, [], ◌∷◌, ◌==◌, contains,
  string_eq, pair_eq, length, if◌then◌else◌,
}
use nixadmin.Prelude.Dict.{Dict, lookup}
use nixadmin.Prelude.Exec.{Exec, pure, raise, modify, gets, ◌>>=◌, ◌>>◌, try◌except◌}
use nixadmin.Prelude.Int.{ℤ}
use nixadmin.Prelude.Result.{Result, ok, err}
use nixadmin.Prelude.Text.{join, strip}
use nixadmin.Json.{Json, bool, str, Fields, field, end}
use nixadmin.Store.{Event, Draft, append}
use nixadmin.Timeline
use nixadmin.Timeline.{
  FailedUnit, TimelineService, current, record_failure_transitions, page, kept_well,
}
use nixadmin.Ledger.{Ledger}
use nixadmin.Remediation.{Systemd, RestartOutcome, failed_units, restart_resolved}

-- The messages that these handlers send, with their values.
pub data Sent : Type 0 where
  delta status error : String → String → Sent
  done : String → Option String → Option String → Sent
  failures : String → List FailedUnit → Sent
  journal : String → String → String → Sent
  timeline : String → List Event × Option ℕ → Sent
  ledger : String → Ledger → Sent

-- The daemon as a handler sees it: the machine, what was sent on the connection, the newest first,
-- and the timeline with its store.
pub record Daemon (S : Systemd) : Type 0 where
  pub machine : S.World
  -- the handler's task has failed by an exception that no handler catches
  pub broken : Bool
  pub sent : List Sent
  pub service : TimelineService

-- How a summary ends: at its end, by a `NixadminError` with its text, or by an exception of another
-- kind, as for a line that is no JSON.
pub data Stop : Type 0 where
  complete escaped : Stop
  failing : String → Stop

-- What the handlers read of the configuration, and the local model: whether it is loaded, and the
-- chunks of a summary with its end.
pub record Local (S : Systemd) : Type 0 where
  pub model : String
  pub is_ready : S.World → Bool × S.World
  pub summarize : String → S.World → (List String × Stop) × S.World

-- A request about a unit.
pub record UnitRequest : Type 0 where
  pub id : String
  pub unit : String
  pub scope : String

-- `augment` of src/nixadmin/llm/local.py
unfoldable pub augment : String → String → String
augment query context =
    if context == ""
    then query
    else query <> "\n\n[Live system data — use this to answer directly, do not run these commands "
      <> "again:]\n" <> context

-- "".join(chunks)
unfoldable pub concat : List String → String
concat = join ""

module _ (S : Systemd) where
  abbrev pub Handler : Type 0 → Type 0
  Handler A = Exec (Daemon S) String A

  -- `conn.send`
  abbrev pub put : Sent → Daemon S → Daemon S
  put m d = record d { sent = m ∷ d.sent }

  abbrev pub send : Sent → Handler (Unit {0})
  send m = modify (put m)

  -- A call that changes the machine.
  unfoldable pub on_machine : {A : Type 0} → Exec S.World String A → Handler A
  on_machine m d = let (r, w) = m d.machine in (r, record d { machine = w })

  -- systemd, as the daemon reaches it: nothing is sent.
  abbrev pub systemd : Systemd
  systemd = record {
    World = Daemon S;
    list_units = λ scope. on_machine (S.list_units scope);
    restart_user = λ unit. on_machine (S.restart_user unit);
    restart_system = λ unit. on_machine (S.restart_system unit);
    settle = λ d. record d { machine = S.settle d.machine };
    is_failed = λ unit scope. on_machine (S.is_failed unit scope);
    unit_tail = λ unit scope. on_machine (S.unit_tail unit scope);
    restart_count = λ unit scope d. S.restart_count unit scope d.machine;
  }

  -- `store.append`
  unfoldable pub store_append : ℕ → Draft → Daemon S → Daemon S
  store_append now draft d = record d {
    service = record d.service { store = (append now draft d.service.store).1 };
  }

  -- `_list_failures`
  unfoldable pub list_failures : ℕ → String → Handler (Unit {0})
  list_failures now id = do
    units ← on_machine (failed_units S)
    modify (λ d. record d { service = record_failure_transitions now units d.service })
    send (failures id units)

  -- `_get_timeline`
  unfoldable pub get_timeline : String → ℤ → Option String → Option ℤ → Handler (Unit {0})
  get_timeline id limit unit before_id = do
    events ← gets (λ d. page limit unit before_id d.service)
    send (timeline id events)

  -- `_get_ledger`
  unfoldable pub get_ledger : ℕ → String → Handler (Unit {0})
  get_ledger now id = do
    units ← on_machine (failed_units S)
    well ← gets (λ d. kept_well now (length units) d.service)
    send (ledger id well)

  -- `_unit_journal`
  unfoldable pub unit_journal : ℕ → UnitRequest → Handler (Unit {0})
  unit_journal now r =
      let scope = if contains ("system" ∷ "user" ∷ []) r.scope then r.scope else "system" in
      do
        lines ← on_machine (S.unit_tail r.unit scope)
        modify (
            store_append now (record {
              kind = "journal_snapshot";
              unit = some r.unit;
              scope = some scope;
              severity = none;
              text = lines;
              meta = end;
            }))
        send (journal r.id r.unit lines)

  abbrev pub restarted : UnitRequest → RestartOutcome → Draft
  restarted r outcome = record {
    kind = "restart";
    unit = some r.unit;
    scope = some r.scope;
    severity = none;
    text = outcome.message;
    meta = field "source" (str "tray") (field "ok" (bool outcome.succeeded) end);
  }

  abbrev pub not_failing : Option String → Option String → UnitRequest → Handler (Unit {0})
  not_failing chain model r =
      send (delta r.id (r.unit <> " isn't failing right now.")) >> send (done r.id chain model)

  -- The rest of `_restart_unit`, on the unit's entry among those that are failing.
  unfoldable pub restart_match : ℕ → String → UnitRequest → Option FailedUnit → Handler (Unit {0})
  restart_match now model r none = not_failing (some "local") (some model) r
  restart_match now model r (some u) = do
    outcome ←
        restart_resolved systemd (put (status r.id ("Restarting " <> u.unit <> "…"))) true u.unit
          u.scope
    modify (store_append now (restarted r outcome))
    send (delta r.id outcome.message)
    send (done r.id (some "local") (some model))

  abbrev pub or_error : String → Handler (Unit {0}) → Handler (Unit {0})
  or_error id m = try◌except◌ m (λ e. send (error id e))

  -- The entry of a unit in the live view.
  abbrev pub match_failed : UnitRequest → List FailedUnit → Option FailedUnit
  match_failed r units = lookup (r.unit, r.scope) (current units)

  -- `_restart_unit`
  unfoldable pub restart_unit : ℕ → String → UnitRequest → Handler (Unit {0})
  restart_unit now model r =
      or_error r.id
        (do units ← on_machine (failed_units S); restart_match now model r (match_failed r units))

  -- One delta for each chunk.
  unfoldable pub stream : String → List String → Handler (Unit {0})
  stream id [] = pure tt
  stream id (chunk ∷ chunks) = send (delta id chunk) >> stream id chunks

  abbrev pub warm_up : String → Bool → Handler (Unit {0})
  warm_up id true = pure tt
  warm_up id false = send (status id "warming up the local model…")

  -- What follows a summary, by its end; nothing follows an exception that is not caught.
  abbrev pub after_summary : Stop → Handler (Unit {0}) → Handler (Unit {0})
  after_summary complete rest = rest
  after_summary (failing e) rest = raise e
  after_summary escaped rest = modify (λ d. record d { broken = true })

  abbrev pub explanation : String → FailedUnit → String → Draft
  explanation model u answer = record {
    kind = "explanation";
    unit = some u.unit;
    scope = some u.scope;
    severity = none;
    text = answer;
    meta = field "model" (str model) end;
  }

  abbrev pub keep_answer : ℕ → String → FailedUnit → String → Handler (Unit {0})
  keep_answer now model u answer =
      if strip answer == "" then pure tt else modify (store_append now (explanation model u answer))

  -- The rest of `_explain_unit`, on a unit that is failing.
  unfoldable pub explain_match : ℕ → Local S → UnitRequest → Option FailedUnit → Handler (Unit {0})
  explain_match now L r none = not_failing none none r
  explain_match now L r (some u) =
      if L.model == ""
      then send (delta r.id "I need a local model configured to explain this.")
        >> send (done r.id none none)
      else do
        lines ← on_machine (S.unit_tail u.unit u.scope)
        ready ← on_machine (λ w. let (b, w') = L.is_ready w in (ok b, w'))
        warm_up r.id ready
        (chunks, stop) ← on_machine (λ w.
            let question = "Why did " <> u.unit <> " fail, and will restarting it fix it?" in
            let (answer, w') = L.summarize (augment question lines) w in (ok answer, w'))
        stream r.id chunks
        after_summary stop (
            keep_answer now L.model u (concat chunks)
            >> send (done r.id (some "local") (some L.model)))

  -- `_explain_unit`
  unfoldable pub explain_unit : ℕ → Local S → UnitRequest → Handler (Unit {0})
  explain_unit now L r =
      or_error r.id
        (do units ← on_machine (failed_units S); explain_match now L r (match_failed r units))

-- ===== src/Autofix/Window.antt =====
-- The restarts on record within a window, and what one event of src/nixadmin/autofix_engine.py adds.
use mathlib.Core.Bool.{false≢true}
use nixadmin.Prelude.{
  take_all, length-keep-map, keep-&&, ℕ, ◌-◌, ◌≤◌, ◌<◌, ◌≡◌, sym, ◌∙◌, ap, fun_ext, String, Bool,
  true, false, ◌&&◌, some, List, [], ◌∷◌, ◌==◌, string_eq, option_eq, length, keep, leb, arith,
}
use nixadmin.Json.{get, is_str, loads}
use nixadmin.Store.{
  Row, Store, null_store, event_store, append, matches, query, recent, recent_events, clamp,
  to_event, decode_meta, meta_json,
}
use nixadmin.Store.Sorted.{Chron}
use nixadmin.Store.Invariant.{IsSoundStore}
use nixadmin.Store.Query.{new_row, select-Chron}
use nixadmin.Timeline.Journal.{IsWorking, rows_of, next_of, append-rows}
use nixadmin.Remediation.{RestartOutcome}
use nixadmin.Autofix.{
  AutofixConfig, restart, decide, guard_scan, prior_filter, is_restart, recorded_attempts,
  inform_draft, restart_draft,
}

-- A row that records a restart of a unit by autofix.
unfoldable pub is_restart_of : String → Row → Bool
is_restart_of unit r =
    r.unit == some unit
    && r.kind == "autofix"
    && is_str "restart" (get "action" (decode_meta r.meta))

-- The restarts of a unit since a time.
unfoldable pub restarts_since : ℕ → String → List Row → ℕ
restarts_since t unit rows = length (keep (λ r. is_restart_of unit r && leb t r.ts) rows)

-- At each recorded restart of the unit, fewer than the allowed number had been made before it
-- within the window that ends with it.
abbrev pub Guarded : AutofixConfig → String → List Row → Type 0
Guarded cfg unit [] = Unit
Guarded cfg unit (r ∷ rows) =
    (is_restart_of unit r ≡ true → restarts_since (r.ts - cfg.window) unit rows < cfg.max_attempts)
    × Guarded cfg unit rows

-- The rows that `handle_unit` counts in.
abbrev pub prior_rows : AutofixConfig → ℕ → String → List Row → List Row
prior_rows cfg now unit rows = keep (matches (prior_filter unit (now - cfg.window))) rows

pub inform-no_restart :
    (v unit scope : String) (id now recorded systemd : ℕ)
    → is_restart_of v (new_row id now (inform_draft unit scope recorded systemd)) ≡ false
unfolding is_restart_of inform_draft decode_meta meta_json loads get is_str string_eq
inform-no_restart v unit scope id now recorded systemd = ground arith

pub restart-of :
    (v unit scope : String) (id now attempts : ℕ) (o : RestartOutcome)
    → is_restart_of v (new_row id now (restart_draft unit scope attempts o)) ≡ true
    → unit ≡ v
unfolding is_restart_of restart_draft
restart-of v unit scope id now attempts o h = ground arith

pub decide-restart :
    (scope : String) (attempts : ℕ) (cfg : AutofixConfig)
    → decide scope attempts cfg ≡ restart
    → attempts < cfg.max_attempts
unfolding decide
decide-restart scope attempts cfg h = ground arith

pub counted-row :
    (t : ℕ) (unit : String) (r : Row)
    → (is_restart (to_event r) && matches (prior_filter unit t) r)
      ≡ (is_restart_of unit r && leb t r.ts)
unfolding matches is_restart_of to_event
counted-row t unit r = ground arith

-- With at most 50 events of autofix about the unit in the window, what is read back is the number
-- of the recorded restarts.
pub recorded_attempts-restarts_since :
    (cfg : AutofixConfig) (now : ℕ) (unit : String) (s : Store)
    → IsWorking s
    → IsSoundStore s
    → Chron now (rows_of s)
    → length (prior_rows cfg now unit (rows_of s)) ≤ guard_scan
    → recorded_attempts now unit cfg s ≡ restarts_since (now - cfg.window) unit (rows_of s)
unfolding recorded_attempts restarts_since recent recent_events query clamp
recorded_attempts-restarts_since cfg now unit null_store w h k few = absurd w
recorded_attempts-restarts_since cfg now unit (event_store s) (open_, works) h k few =
    let f = prior_filter unit (now - cfg.window) in
    let chosen = keep (matches f) s.db.rows in
    rw
      (
        open_,
        works,
        select-Chron f now s.db h k,
        take_all guard_scan chosen few,
        length-keep-map,
        keep-&&,
      )
      (ap (λ p. length (keep p s.db.rows)) (fun_ext (counted-row (now - cfg.window) unit)))

pub Guarded-inform :
    (cfg : AutofixConfig) (v unit scope : String) (now recorded systemd : ℕ) (s : Store)
    → IsWorking s
    → Guarded cfg v (rows_of s)
    → Guarded cfg v (rows_of (append now (inform_draft unit scope recorded systemd) s).1)
Guarded-inform cfg v unit scope now recorded systemd s w g =
    rw (append-rows now (inform_draft unit scope recorded systemd) s w) (
      λ e.
          absurd (
            false≢true (sym (inform-no_restart v unit scope (next_of s) now recorded systemd) ∙ e)),
      g,
    )

pub Guarded-restart :
    (cfg : AutofixConfig) (v unit scope : String) (now attempts : ℕ) (o : RestartOutcome)
    (s : Store)
    → IsWorking s
    → restarts_since (now - cfg.window) unit (rows_of s) < cfg.max_attempts
    → Guarded cfg v (rows_of s)
    → Guarded cfg v (rows_of (append now (restart_draft unit scope attempts o) s).1)
Guarded-restart cfg v unit scope now attempts o s w free g =
    rw (append-rows now (restart_draft unit scope attempts o) s w)
      (λ e. rw (sym (restart-of v unit scope (next_of s) now attempts o e)) free, g)

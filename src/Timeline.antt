-- ===== src/Timeline.antt =====
-- src/nixadmin/timeline.py: failure transitions, pages of events, and the ledger's queries. The
-- clock reads the same throughout one call.
pub mod Journal
pub mod Pages
use nixadmin.Prelude.{
  ℕ, ◌+◌, ◌-◌, ◌*◌, String, ◌<>◌, Bool, true, false, not, Option, none, some, List, [], ◌∷◌, ◌++◌,
  map, ltb, ◌==◌, contains, string_eq, pair_eq, if◌then◌else◌, length, take, last?, keep,
}
use nixadmin.Prelude.Dict.{Dict, lookup, insert}
use nixadmin.Prelude.Int.{ℤ, pos}
use nixadmin.Json.{end}
use nixadmin.Store.{Event, Draft, Filter, any, Store, append, recent, earliest, clamp}
use nixadmin.Ledger
use nixadmin.Ledger.{Ledger, summarize}

-- An entry of `failed_units()`.
pub record FailedUnit : Type 0 where
  pub unit : String
  pub scope : String
  pub description : String

abbrev pub Key : Type 0
Key = String × String

pub record TimelineService : Type 0 where
  pub store : Store
  pub seen_failures : List Key

abbrev pub key_of : FailedUnit → Key
key_of u = (u.unit, u.scope)

-- {(unit["unit"], unit["scope"]): unit for unit in units}
unfoldable pub by_key : List FailedUnit → Dict Key FailedUnit → Dict Key FailedUnit
by_key [] d = d
by_key (u ∷ units) d = by_key units (insert (key_of u) u d)

abbrev pub current : List FailedUnit → Dict Key FailedUnit
current units = by_key units []

abbrev pub keys : {V : Type 0} → Dict Key V → List Key
keys = map (λ (k, _). k)

-- xs - ys, of sets; the order in which Python walks a set is that of `xs` here
unfoldable pub difference : List Key → List Key → List Key
difference xs ys = keep (λ k. not (contains ys k)) xs

-- current[key].get("description") or f"{unit} failed"
describe : String → Option FailedUnit → String
describe unit none = unit <> " failed"
describe unit (some u) = if u.description == "" then unit <> " failed" else u.description

unfoldable pub observed : Dict Key FailedUnit → Key → Draft
unfolding describe
observed units (unit, scope) = record {
  kind = "failure_observed";
  unit = some unit;
  scope = some scope;
  severity = some "warning";
  text = describe unit (lookup (unit, scope) units);
  meta = end;
}

unfoldable pub cleared : Key → Draft
cleared (unit, scope) = record {
  kind = "failure_cleared";
  unit = some unit;
  scope = some scope;
  severity = some "info";
  text = unit <> " recovered";
  meta = end;
}

-- One append for each key of a set.
unfoldable pub append_each : ℕ → (Key → Draft) → List Key → Store → Store
append_each now draft [] s = s
append_each now draft (k ∷ ks) s = append_each now draft ks (append now (draft k) s).1

-- `record_failure_transitions`
unfoldable pub record_failure_transitions : ℕ → List FailedUnit → TimelineService → TimelineService
record_failure_transitions now units t =
    let ks = keys (current units) in
    let news = append_each now (observed (current units)) (difference ks t.seen_failures) t.store in
    record {
      store = append_each now cleared (difference t.seen_failures ks) news;
      seen_failures = ks;
    }

-- `page`: the events, and the cursor of the next older page
unfoldable pub page : ℤ → Option String → Option ℤ → TimelineService → List Event × Option ℕ
page limit unit before_id t =
    let bounded = clamp limit in
    let rows =
      recent (pos (bounded + 1)) (record any { unit = unit; before_id = before_id }) t.store in
    let events = take bounded rows in
    (
      events,
      if ltb bounded (length rows)
          then elim (last? events) [ none ↦ none | some ev ↦ some ev.id ]
          else none,
    )

abbrev of_kind : String → Filter
of_kind kind = record any { kind = some kind }

-- `kept_well`, with the number of the units that are failing now
unfoldable pub kept_well : ℕ → ℕ → TimelineService → Ledger
kept_well now failures t =
    let limit = pos Ledger.ledger_scan_limit in
    let window_start = now - Ledger.default_window_days * Ledger.day in
    summarize
      (recent limit (of_kind "autofix") t.store
        ++ (recent limit (of_kind "restart") t.store
            ++ recent limit
                (record any { kind = some "failure_cleared"; since = some window_start }) t.store))
      now failures (earliest t.store) Ledger.default_window_days

-- ===== src/Store.antt =====
-- src/nixadmin/store.py: the persistent timeline of system events. SQLite's table is the list of
-- its rows, the newest insertion first, and each SQL statement of the source is a function on it.
pub mod Sorted
pub mod Invariant
pub mod Answer
pub mod Query
pub mod Cursor
use nixadmin.Prelude.{
  ℕ, ◌+◌, min, max, String, Bool, true, false, not, ◌&&◌, ◌||◌, Option, none, some, List, [], ◌∷◌,
  map, ◌==◌, string_eq, option_eq, ltb, leb, eqb, if◌then◌else◌, length, take, keep,
}
use nixadmin.Prelude.Int.{ℤ, pos, negsuc}
use nixadmin.Prelude.Result.{Result, ok, err}
use nixadmin.Json.{JsonText, Fields, field, end, obj, dumps, loads}

-- A row of the table `events`; times are counted in ticks of the clock.
pub record Row : Type 0 where
  pub id : ℕ
  pub ts : ℕ
  pub kind : String
  pub unit : Option String
  pub scope : Option String
  pub severity : Option String
  pub text : String
  pub meta : Option JsonText

-- An event as it is handed back to callers.
pub record Event : Type 0 where
  pub id : ℕ
  pub ts : ℕ
  pub kind : String
  pub unit : Option String
  pub scope : Option String
  pub severity : Option String
  pub text : String
  pub meta : Fields

-- The arguments of `append`.
pub record Draft : Type 0 where
  pub kind : String
  pub unit : Option String
  pub scope : Option String
  pub severity : Option String
  pub text : String
  pub meta : Fields

-- The database file: the table, the AUTOINCREMENT sequence, and PRAGMA user_version.
pub record Db : Type 0 where
  pub rows : List Row
  pub next_id : ℕ
  pub user_version : ℕ

-- `healthy` is false while SQLite raises on each statement.
pub record EventStore : Type 0 where
  pub db : Db
  pub closed : Bool
  pub healthy : Bool

abbrev pub schema_version : ℕ
schema_version = 1

-- `__init__`; `none` stands for the `ConfigError` about a newer schema.
pub open_store : Db → Option EventStore
open_store db =
    if ltb schema_version db.user_version
    then none
    else some (record {
      db = record db {
        user_version =
            if ltb db.user_version schema_version then schema_version else db.user_version;
      };
      closed = false;
      healthy = true;
    })

-- json.dumps(meta) if meta else None
unfoldable pub meta_json : Fields → Option JsonText
meta_json end = none
meta_json (field k v d) = some (dumps (obj (field k v d)))

-- `_insert`
unfoldable pub insert : ℕ → Draft → Db → ℕ × Db
insert ts e db = (
  db.next_id,
  record db {
    rows =
        record {
          id = db.next_id;
          ts = ts;
          kind = e.kind;
          unit = e.unit;
          scope = e.scope;
          severity = e.severity;
          text = e.text;
          meta = meta_json e.meta;
        }
        ∷ db.rows;
    next_id = db.next_id + 1;
  },
)

-- `EventStore.append`, at the time `ts`
unfoldable pub append_event : ℕ → Draft → EventStore → ℕ × EventStore
append_event ts e s =
    if s.closed || not s.healthy
    then (0, s)
    else let (id, db) = insert ts e s.db in (id, record s { db = db })

-- The optional conditions of `_query`, with AND between them.
pub record Filter : Type 0 where
  pub unit : Option String
  pub kind : Option String
  pub since : Option ℕ
  pub before_id : Option ℤ

abbrev pub any : Filter
any = record { unit = none; kind = none; since = none; before_id = none }

unfoldable pub below : ℕ → ℤ → Bool
below id (pos n) = ltb id n
below id (negsuc n) = false

abbrev pub holds {ℓ} : {A : Type ℓ} → (A → Bool) → Option A → Bool
holds test none = true
holds test (some a) = test a

unfoldable pub matches : Filter → Row → Bool
unfolding below
matches f r =
    holds (λ u. r.unit == some u) f.unit
    && holds (λ k. r.kind == k) f.kind
    && holds (λ t. leb t r.ts) f.since
    && holds (below r.id) f.before_id

-- ORDER BY ts DESC, id DESC
unfoldable pub newer : Row → Row → Bool
newer a b = ltb b.ts a.ts || (eqb b.ts a.ts && ltb b.id a.id)

unfoldable pub place : Row → List Row → List Row
place r [] = r ∷ []
place r (x ∷ xs) = if newer r x then r ∷ x ∷ xs else x ∷ place r xs

unfoldable pub order_by : List Row → List Row
order_by [] = []
order_by (r ∷ rows) = place r (order_by rows)

-- max(1, min(limit, 1000))
unfoldable pub clamp : ℤ → ℕ
clamp (pos n) = max 1 (min n 1000)
clamp (negsuc n) = 1

-- `_row`: metadata that is not a JSON object reads as empty
unfoldable pub decode_meta : Option JsonText → Fields
decode_meta none = end
decode_meta (some t) = elim (loads t) [ some (obj d) ↦ d | _ ↦ end ]

unfoldable pub to_event : Row → Event
to_event r = record {
  id = r.id;
  ts = r.ts;
  kind = r.kind;
  unit = r.unit;
  scope = r.scope;
  severity = r.severity;
  text = r.text;
  meta = decode_meta r.meta;
}

-- The rows that a SELECT of `_query` would give with no LIMIT, in order.
unfoldable pub select : Filter → Db → List Row
select f db = order_by (keep (matches f) db.rows)

-- `_query`
unfoldable pub query : ℤ → Filter → Db → List Event
query limit f db = map to_event (take (clamp limit) (select f db))

-- `EventStore.recent`
unfoldable pub recent_events : ℤ → Filter → EventStore → List Event
recent_events limit f s = if s.closed || not s.healthy then [] else query limit f s.db

-- SELECT MIN(ts)
unfoldable pub min_ts : List Row → Option ℕ
min_ts [] = none
min_ts (r ∷ rows) = elim (min_ts rows) [ none ↦ some r.ts | some t ↦ some (min r.ts t) ]

-- `EventStore.earliest`
unfoldable pub earliest_event : EventStore → Option ℕ
earliest_event s = if s.closed || not s.healthy then none else min_ts s.db.rows

-- `_prune`: DELETE FROM events WHERE ts < before, and the number of the rows deleted
unfoldable pub delete_before : ℕ → Db → ℕ × Db
delete_before before db = (
  length (keep (λ r. ltb r.ts before) db.rows),
  record db { rows = keep (λ r. not (ltb r.ts before)) db.rows },
)

-- `EventStore.prune`
unfoldable pub prune_events : ℕ → EventStore → ℕ × EventStore
prune_events before s =
    if s.closed || not s.healthy
    then (0, s)
    else let (n, db) = delete_before before s.db in (n, record s { db = db })

-- `aclose`
unfoldable pub close_events : EventStore → EventStore
close_events s = record s { closed = true }

-- The two backends.
pub data Store : Type 0 where
  null_store : Store
  event_store : EventStore → Store

-- `make_store`, over the file under `state_dir`; the error is the text of the `ConfigError`
pub make_store : String → Db → Result String Store
unfolding open_store
make_store kind db =
    if kind == "null"
    then ok null_store
    else if kind == "sqlite"
    then elim (open_store db) [
      | none ↦ err "event store schema is newer than supported"
      | some s ↦ ok (event_store s)
    ]
    else err "unknown event store backend"

unfoldable pub append : ℕ → Draft → Store → ℕ × Store
append ts e null_store = (0, null_store)
append ts e (event_store s) = let (id, s') = append_event ts e s in (id, event_store s')

unfoldable pub recent : ℤ → Filter → Store → List Event
recent limit f null_store = []
recent limit f (event_store s) = recent_events limit f s

unfoldable pub earliest : Store → Option ℕ
earliest null_store = none
earliest (event_store s) = earliest_event s

unfoldable pub prune : ℕ → Store → ℕ × Store
prune before null_store = (0, null_store)
prune before (event_store s) = let (n, s') = prune_events before s in (n, event_store s')

unfoldable pub close_store : Store → Store
close_store null_store = null_store
close_store (event_store s) = event_store (close_events s)

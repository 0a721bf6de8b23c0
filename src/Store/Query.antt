-- ===== src/Store/Query.antt =====
-- What `recent` gives back: right after an append, below a cursor, and after a prune.
use mathlib.Core.List.{Perm}
use mathlib.Core.List.Perm
use nixadmin.Store.Answer.{
  Meets, IsOrdered, capacity, clamp-capacity, capacity-le, keep-not-Meets, keep-Perm, sorted-Meets,
  sorted-IsOrdered,
}
use nixadmin.Prelude.{
  All, map-take, take-drop, drop, ◌++◌, min, ℕ, ◌≤◌, ◌≡◌, refl, sym, ◌∙◌, ap, true, false, not,
  some, List, ◌∷◌, map, ltb, keep, take, length, length-take, length-map, arith,
}
use nixadmin.Prelude.Int.{ℤ, pos, negsuc}
use nixadmin.Json.{Fields, end, field, loads}
use nixadmin.Store.{
  Row, Event, Db, Draft, EventStore, Store, null_store, event_store, Filter, matches, meta_json,
  decode_meta, to_event, insert, append_event, append, order_by, clamp, select, query,
  recent_events, recent, delete_before, prune_events, prune,
}
use nixadmin.Store.Sorted.{
  Chron, keep-Desc, keep-Chron, order_by-Chron, order_by-IsSorted, order_by-Perm,
}
use nixadmin.Store.Invariant.{IsSound, keep-keep}

-- Metadata comes back as it was given.
decode_meta-meta_json : (d : Fields) → decode_meta (meta_json d) ≡ d
unfolding decode_meta meta_json loads
decode_meta-meta_json end = refl
decode_meta-meta_json (field k v d) = refl

-- The event that `recent` shows for the draft `e`, inserted at the time `ts` as number `id`.
abbrev pub recorded : ℕ → ℕ → Draft → Event
recorded id ts e = record {
  id = id;
  ts = ts;
  kind = e.kind;
  unit = e.unit;
  scope = e.scope;
  severity = e.severity;
  text = e.text;
  meta = e.meta;
}

-- The row that `insert` writes.
abbrev pub new_row : ℕ → ℕ → Draft → Row
new_row id ts e = record {
  id = id;
  ts = ts;
  kind = e.kind;
  unit = e.unit;
  scope = e.scope;
  severity = e.severity;
  text = e.text;
  meta = meta_json e.meta;
}

to_event-new_row : (id ts : ℕ) (e : Draft) → to_event (new_row id ts e) ≡ recorded id ts e
unfolding to_event
to_event-new_row id ts e = λ i. record {
  id = id;
  ts = ts;
  kind = e.kind;
  unit = e.unit;
  scope = e.scope;
  severity = e.severity;
  text = e.text;
  meta = decode_meta-meta_json e.meta i;
}

-- With the clock never set back, a SELECT with ORDER BY is the filtered table.
pub select-Chron :
    (f : Filter) (t : ℕ) (db : Db)
    → IsSound db
    → Chron t db.rows
    → select f db ≡ keep (matches f) db.rows
unfolding select
select-Chron f t db h k =
    order_by-Chron db.next_id t _ (keep-Desc _ db.next_id db.rows h) (keep-Chron _ t db.rows k)

select-insert :
    (ts : ℕ) (e : Draft) (f : Filter) (db : Db)
    → IsSound db
    → Chron ts db.rows
    → matches f (new_row db.next_id ts e) ≡ true
    → select f (insert ts e db).1 ≡ new_row db.next_id ts e ∷ select f db
unfolding insert
select-insert ts e f db h k m =
    select-Chron f ts (insert ts e db).1 (omega arith, h) (omega arith, k)
    ∙ (rw (m, keep) (ap (λ rows. new_row db.next_id ts e ∷ rows) (sym (select-Chron f ts db h k))))

-- Right after an append to a working store whose identifiers are in order and whose clock was not
-- set back, a query that the new
-- event meets shows it first, with its identifier, its time and its metadata as given, followed by
-- the events that the query showed before, up to the limit.
pub recent-append :
    (ts : ℕ) (e : Draft) (limit : ℤ) (f : Filter) (s : EventStore)
    → s.closed ≡ false
    → s.healthy ≡ true
    → IsSound s.db
    → Chron ts s.db.rows
    → matches f (new_row s.db.next_id ts e) ≡ true
    → recent limit f (append ts e (event_store s)).1
      ≡ take (clamp limit) (recorded s.db.next_id ts e ∷ map to_event (select f s.db))
unfolding append append_event recent recent_events query
recent-append ts e limit f s open_ works h k m =
    rw (open_, works)
      (map-take to_event (clamp limit) _
        ∙ ap (take (clamp limit)) (
            ap (map to_event) (select-insert ts e f s.db h k m)
            ∙ ap (λ ev. ev ∷ map to_event (select f s.db)) (to_event-new_row s.db.next_id ts e)))

pub clamp_bounds : (limit : ℤ) → (1 ≤ clamp limit) × (clamp limit ≤ 1000)
unfolding clamp
clamp_bounds (pos n) = (omega arith, omega arith)
clamp_bounds (negsuc n) = (omega arith, omega arith)

-- What a limit and some conditions promise of an answer from a table: it shows rows of the table
-- that meet the conditions, and leaves out others that do; the shown ones, then the left out, are in
-- the order of falling times and, among equal times, falling identifiers; the rest of the table does
-- not meet the conditions; and as many rows are shown as there are, up to the limit, which is at
-- least 1 and at most 1000.
abbrev pub IsAnswer : ℤ → Filter → Db → List Event → Type 0
IsAnswer limit f db evs =
    (shown : List Row) × (left_out : List Row) × (rest : List Row) × (evs ≡ map to_event shown)
    × Perm ((shown ++ left_out) ++ rest) db.rows
    × All (Meets f) (shown ++ left_out)
    × All (λ r. ¬ Meets f r) rest
    × IsOrdered (shown ++ left_out)
    × (length shown ≡ min (capacity limit) (length (shown ++ left_out)))

-- A query over any table, its identifiers and times in order or not, shows the rows that meet its
-- conditions, and no other, by falling times and, among equal times, falling identifiers; of these
-- it shows the first, as many as there are up to the limit, which is at least 1 and at most 1000.
pub query_lem : (limit : ℤ) (f : Filter) (db : Db) → IsAnswer limit f db (query limit f db)
unfolding query select
query_lem limit f db =
    let b = clamp limit in
    let sorted = order_by (keep (matches f) db.rows) in
    let rest = keep (λ r. not (matches f r)) db.rows in
    (
      take b sorted,
      drop b sorted,
      rest,
      refl,
      rw take-drop (
          Perm.trans (Perm.append_right rest (order_by-Perm (keep (matches f) db.rows)))
            (keep-Perm (matches f) db.rows)),
      rw take-drop (sorted-Meets f db.rows),
      keep-not-Meets f db.rows,
      rw take-drop (sorted-IsOrdered sorted (order_by-IsSorted (keep (matches f) db.rows))),
      rw take-drop (length-take b sorted ∙ ap (λ n. min n (length sorted)) (clamp-capacity limit)),
    )

length-query : (limit : ℤ) (f : Filter) (db : Db) → length (query limit f db) ≤ 1000
length-query limit f db =
    let (shown, left_out, rest, e, p, m, n, o, count) = query_lem limit f db in
    rw e (omega (arith, count, capacity-le limit, length-map to_event shown))

matches-since :
    (f : Filter) (t before : ℕ)
    → f.since ≡ some t
    → before ≤ t
    → (r : Row) → matches f r ≡ true
    → not (ltb r.ts before) ≡ true
unfolding matches
matches-since f t before e le r h = ground arith

-- Pruning a store, of either backend and in any state, does not change what a query with a lower
-- time bound at or after the limit of the prune gives.
recent-prune :
    (before t : ℕ) (limit : ℤ) (f : Filter) (s : Store)
    → f.since ≡ some t
    → before ≤ t
    → recent limit f (prune before s).1 ≡ recent limit f s
unfolding recent recent_events prune prune_events query select delete_before
recent-prune before t limit f null_store e le = refl
recent-prune before t limit f (event_store s) e le = ground (
  arith,
  keep-keep (matches f) (λ r. not (ltb r.ts before)) s.db.rows (matches-since f t before e le),
)

-- No answer has more than 1000 events.
pub length-recent : (limit : ℤ) (f : Filter) (s : Store) → length (recent limit f s) ≤ 1000
unfolding recent recent_events
length-recent limit f null_store = omega arith
length-recent limit f (event_store s) = ground (arith, length-query limit f s.db)

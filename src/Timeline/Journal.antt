-- ===== src/Timeline/Journal.antt =====
-- The events that src/nixadmin/timeline.py writes against the set of failures that it last saw.
use nixadmin.Prelude.{
  ℕ, ◌≡◌, refl, sym, ◌∙◌, String, Bool, true, false, not, ◌&&◌, some, List, [], ◌∷◌, ◌==◌, contains,
  string_eq, pair_eq, option_eq, if◌then◌else◌, arith,
}
use nixadmin.Prelude.Dict.{Dict}
use nixadmin.Store.{Row, Draft, Store, null_store, event_store, append, append_event, insert}
use nixadmin.Store.Query.{new_row}
use nixadmin.Timeline.{
  FailedUnit, Key, TimelineService, current, keys, difference, observed, cleared, append_each,
  record_failure_transitions,
}

-- What the rows say last of a unit: observed failing and not cleared since.
unfoldable pub is_open : List Row → Key → Bool
is_open [] k = false
is_open (r ∷ rows) (unit, scope) =
    let rest = is_open rows (unit, scope) in
    if r.unit == some unit && r.scope == some scope
    then (if r.kind == "failure_observed"
        then true
        else if r.kind == "failure_cleared"
        then false
        else rest)
    else rest

abbrev pub rows_of : Store → List Row
rows_of null_store = []
rows_of (event_store s) = s.db.rows

abbrev pub next_of : Store → ℕ
next_of null_store = 0
next_of (event_store s) = s.db.next_id

-- A store that persists what is appended.
abbrev pub IsWorking : Store → Type 0
IsWorking null_store = ⊥
IsWorking (event_store s) = (s.closed ≡ false) × (s.healthy ≡ true)

pub append-IsWorking :
    (now : ℕ) (e : Draft) (s : Store) → IsWorking s → IsWorking (append now e s).1
unfolding append append_event
append-IsWorking now e null_store w = w
append-IsWorking now e (event_store s) w = ground arith

pub append-rows :
    (now : ℕ) (e : Draft) (s : Store)
    → IsWorking s
    → rows_of (append now e s).1 ≡ new_row (next_of s) now e ∷ rows_of s
unfolding append append_event insert
append-rows now e null_store w = absurd w
append-rows now e (event_store s) w = ground arith

-- The events that a draft makes say `says` of their own key, and nothing of another.
abbrev Says : ℕ → (Key → Draft) → Bool → Type 0
Says now draft says =
    (id : ℕ) (rows : List Row) (k j : Key)
    → is_open (new_row id now (draft k) ∷ rows) j ≡ (if j == k then says else is_open rows j)

module _ (now : ℕ) (draft : Key → Draft) where
  pub append_each-IsWorking :
      (ks : List Key) (s : Store) → IsWorking s → IsWorking (append_each now draft ks s)
  unfolding append_each
  append_each-IsWorking [] s w = w
  append_each-IsWorking (k ∷ ks) s w =
      append_each-IsWorking ks (append now (draft k) s).1 (append-IsWorking now (draft k) s w)

  is_open-append_each :
      (says : Bool)
      → Says now draft says
      → (ks : List Key) (s : Store) (j : Key) → IsWorking s
      → is_open (rows_of (append_each now draft ks s)) j
        ≡ (if contains ks j then says else is_open (rows_of s) j)
  unfolding append_each
  is_open-append_each says h [] s j w = refl
  is_open-append_each says h (k ∷ ks) s j w = ground (
    arith,
    is_open-append_each says h ks (append now (draft k) s).1 j (append-IsWorking now (draft k) s w),
    append-rows now (draft k) s w,
    h (next_of s) (rows_of s) k j,
  )

observed-Says : (now : ℕ) (units : Dict Key FailedUnit) → Says now (observed units) true
unfolding is_open observed
observed-Says now units id rows (u, s) (v, t) = ground arith

cleared_ne_observed : ◌==◌ {A = String} "failure_cleared" "failure_observed" ≡ false
unfolding string_eq
cleared_ne_observed = refl

cleared-Says : (now : ℕ) → Says now cleared false
unfolding is_open cleared
cleared-Says now id rows (u, s) (v, t) = ground (arith, cleared_ne_observed)

contains-difference :
    (xs ys : List Key) (j : Key)
    → contains (difference xs ys) j ≡ (contains xs j && not (contains ys j))
unfolding difference
contains-difference [] ys j = refl
contains-difference (x ∷ xs) ys j = ground (arith, contains-difference xs ys j)

-- The service's set is what its journal says.
abbrev pub IsAccurate : TimelineService → Type 0
IsAccurate t = (k : Key) → is_open (rows_of t.store) k ≡ contains t.seen_failures k

-- While the store works, recording the failures of the moment, whatever they are, leaves a journal
-- whose last word on every unit and scope is whether it is among those failures, if the journal
-- was accurate before; and the service has then seen exactly these.
pub record-IsAccurate :
    (now : ℕ) (units : List FailedUnit) (t : TimelineService)
    → IsWorking t.store
    → IsAccurate t
    → IsAccurate (record_failure_transitions now units t)
      × ((record_failure_transitions now units t).seen_failures ≡ keys (current units))
      × IsWorking (record_failure_transitions now units t).store
unfolding record_failure_transitions
record-IsAccurate now units t w h =
    let ks = keys (current units) in
    let news = append_each now (observed (current units)) (difference ks t.seen_failures) t.store in
    let w' =
      append_each-IsWorking now (observed (current units)) (difference ks t.seen_failures) t.store
        w in
    (
      λ k. ground (
        arith,
        h k,
        is_open-append_each now (observed (current units)) true (observed-Says now (current units))
            (difference ks t.seen_failures) t.store k w,
        is_open-append_each now cleared false (cleared-Says now) (difference t.seen_failures ks)
            news k w',
        contains-difference ks t.seen_failures k,
        contains-difference t.seen_failures ks k,
      ),
      refl,
      append_each-IsWorking now cleared (difference t.seen_failures ks) news w',
    )

difference-nil :
    (xs ys : List Key)
    → ((k : Key) → contains xs k ≡ true → contains ys k ≡ true)
    → difference xs ys ≡ []
unfolding difference
difference-nil [] ys h = refl
difference-nil (x ∷ xs) ys h = ground (arith, h x, difference-nil xs ys (λ k e. h k (ground arith)))

-- A report whose units were all seen already, and that misses none of them, writes no event, to
-- any store.
record_unchanged :
    (now : ℕ) (units : List FailedUnit) (t : TimelineService)
    → ((k : Key) → contains (keys (current units)) k ≡ contains t.seen_failures k)
    → (record_failure_transitions now units t).store ≡ t.store
unfolding record_failure_transitions append_each
record_unchanged now units t h = rw (
  difference-nil (keys (current units)) t.seen_failures (λ k e. sym (h k) ∙ e),
  difference-nil t.seen_failures (keys (current units)) (λ k e. h k ∙ e),
)

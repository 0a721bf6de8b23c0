-- ===== src/Store/Invariant.antt =====
-- The order of the identifiers of src/nixadmin/store.py down the table, and the sequence.
use nixadmin.Prelude.{ℕ, ◌+◌, ◌≡◌, refl, Bool, true, not, List, [], ◌∷◌, arith, keep, length}
use nixadmin.Prelude.{All}
use nixadmin.Store.{
  Row, Db, Draft, Store, null_store, event_store, insert, append_event, delete_before, prune_events,
  append, prune,
}
use nixadmin.Store.Sorted.{Desc, keep-Desc}

-- A database whose identifiers are in order and below its sequence.
abbrev pub IsSound : Db → Type 0
IsSound db = Desc db.next_id db.rows

abbrev pub IsSoundStore : Store → Type 0
IsSoundStore null_store = Unit
IsSoundStore (event_store s) = IsSound s.db

pub insert-IsSound : (ts : ℕ) (e : Draft) (db : Db) → IsSound db → IsSound (insert ts e db).1
unfolding insert
insert-IsSound ts e db h = (omega arith, h)

pub delete_before-IsSound : (t : ℕ) (db : Db) → IsSound db → IsSound (delete_before t db).1
unfolding delete_before
delete_before-IsSound t db h = keep-Desc _ db.next_id db.rows h

-- Appending to a store of either backend, closed, failing or working, keeps identifiers distinct
-- and below the sequence, if they were in order before.
pub append-IsSoundStore :
    (ts : ℕ) (e : Draft) (s : Store) → IsSoundStore s → IsSoundStore (append ts e s).1
unfolding append append_event
append-IsSoundStore ts e null_store h = tt
append-IsSoundStore ts e (event_store s) h = ground (arith, insert-IsSound ts e s.db h)

-- Pruning a store of either backend, in any state, keeps identifiers distinct and below the
-- sequence, if they were in order before.
prune-IsSoundStore : (t : ℕ) (s : Store) → IsSoundStore s → IsSoundStore (prune t s).1
unfolding prune prune_events
prune-IsSoundStore t null_store h = tt
prune-IsSoundStore t (event_store s) h = ground (arith, delete_before-IsSound t s.db h)

pub length-keep-not :
    (p : Row → Bool) (rows : List Row)
    → length (keep p rows) + length (keep (λ r. not (p r)) rows) ≡ length rows
length-keep-not p [] = omega arith
length-keep-not p (r ∷ rows) = ground (arith, length-keep-not p rows)

pub keep-All : (p : Row → Bool) (rows : List Row) → All (λ r. p r ≡ true) (keep p rows)
keep-All p [] = tt
keep-All p (r ∷ rows) = ground (arith, keep-All p rows)

-- Filtering twice is filtering once, if the second test implies the first.
pub keep-keep :
    (p q : Row → Bool) (rows : List Row)
    → ((r : Row) → p r ≡ true → q r ≡ true)
    → keep p (keep q rows) ≡ keep p rows
keep-keep p q [] h = refl
keep-keep p q (r ∷ rows) h = ground (arith, h r, keep-keep p q rows h)

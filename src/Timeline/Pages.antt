-- ===== src/Timeline/Pages.antt =====
-- The pages of src/nixadmin/timeline.py, which a client walks by the cursor, against all events.
use nixadmin.Prelude.{
  take-drop, take_all, map-take, map-drop, ℕ, zero, suc, ◌+◌, ◌≤◌, ◌<◌, ◌≡◌, ◌≢◌, refl, sym, ◌∙◌,
  ap, String, true, false, Option, none, some, List, [], ◌∷◌, ◌++◌, map, ltb, if◌then◌else◌, length,
  length-take, take, last?, ltb→lt, arith, Bool-cases, Option-cases, inl, inr, string_eq, option_eq,
}
use nixadmin.Prelude.Int.{ℤ, pos}
use nixadmin.Store.{
  Row, Event, Db, EventStore, event_store, select, query, recent, recent_events, clamp, to_event,
}
use nixadmin.Store.Sorted.{Chron}
use nixadmin.Store.Query.{length-recent, clamp_bounds}
use nixadmin.Store.Invariant.{IsSound}
use nixadmin.Store.Cursor.{on_page, select-drop}
use nixadmin.Timeline.{TimelineService, page}

-- All events that stand below a cursor, newest first: the pages' reference.
unfoldable pub listing : Option String → Option ℤ → Db → List Event
listing unit before_id db = map to_event (select (on_page unit before_id) db)

take-take : (n : ℕ) (xs : List Event) → take n (take (suc n) xs) ≡ take n xs
take-take zero xs = refl
take-take (suc n) [] = refl
take-take (suc n) (x ∷ xs) = ap (λ ys. x ∷ ys) (take-take n xs)

clamp_next : (limit : ℤ) → clamp limit < 1000 → clamp (pos (clamp limit + 1)) ≡ suc (clamp limit)
clamp_next limit h = let b = clamp limit in unfold clamp in omega arith

ltb-take : (n : ℕ) (xs : List Event) → ltb n (length (take (suc n) xs)) ≡ ltb n (length xs)
ltb-take n xs = ground (arith, length-take (suc n) xs)

abbrev cursor_of : Option Event → Option ℕ
cursor_of ev = elim ev [ none ↦ none | some ev ↦ some ev.id ]

-- The cursor after a page of `b` events from a list.
abbrev next_cursor : ℕ → List Event → Option ℕ
next_cursor b xs = if ltb b (length xs) then cursor_of (last? (take b xs)) else none

-- The service over a given event store.
abbrev pub over : EventStore → List (String × String) → TimelineService
over s seen = record { store = event_store s; seen_failures = seen }

-- A page by its reference: the first rows of the listing, and a cursor if more are left.
page-listing :
    (limit : ℤ) (unit : Option String) (before_id : Option ℤ) (seen : List (String × String))
    (s : EventStore)
    → s.closed ≡ false
    → s.healthy ≡ true
    → clamp limit < 1000
    → page limit unit before_id (over s seen) ≡ (
      take (clamp limit) (listing unit before_id s.db),
      next_cursor (clamp limit) (listing unit before_id s.db),
    )
unfolding page recent recent_events query listing
page-listing limit unit before_id seen s open_ works small =
    rw (open_, works, clamp_next limit small, map-take, take-take, ltb-take)

-- A page of 1000 never has a cursor, however many events are left, as `recent` gives no more than
-- 1000 rows to tell it so.
pub page_of_1000-cursor :
    (limit : ℤ) (unit : Option String) (before_id : Option ℤ) (t : TimelineService)
    → clamp limit ≡ 1000
    → (page limit unit before_id t).1 ≡ none
unfolding page
page_of_1000-cursor limit unit before_id t e =
    ground (arith, length-recent (pos (clamp limit + 1)) (on_page unit before_id) t.store)

abbrev row_cursor : Option Row → Option ℕ
row_cursor o = elim o [ none ↦ none | some r ↦ some r.id ]

cursor-map : (rows : List Row) → cursor_of (last? (map to_event rows)) ≡ row_cursor (last? rows)
unfolding to_event
cursor-map [] = refl
cursor-map (r ∷ []) = refl
cursor-map (r ∷ x ∷ rows) = cursor-map (x ∷ rows)

-- A page with a cursor ends in a row with that identifier.
last-cursor :
    (b c : ℕ) (rows : List Row)
    → next_cursor b (map to_event rows) ≡ some c
    → (r : Row) × (last? (take b rows) ≡ some r) × (r.id ≡ c)
last-cursor b c rows e =
    let shown =
      ap cursor_of (ap last? (sym (map-take to_event b rows))) ∙ cursor-map (take b rows) in
    elim (Option-cases (last? (take b rows))) [
      | inl gone ↦ absurd (ground (arith, e, shown, gone))
      | inr (r, found) ↦ (r, found, ground (arith, e, shown, found))
    ]

-- A page that is cut short has a last event.
take-last : (b : ℕ) (xs : List Event) → 1 ≤ b → b < length xs → cursor_of (last? (take b xs)) ≢ none
take-last zero xs h k e = absurd (omega arith)
take-last (suc b) [] h k e = absurd (omega arith)
take-last (suc zero) (x ∷ xs) h k e = cc
take-last (suc (suc b)) (x ∷ []) h k e = absurd (omega arith)
take-last (suc (suc b)) (x ∷ y ∷ xs) h k e =
    take-last (suc b) (y ∷ xs) (omega arith) (omega arith) e

no_cursor-length : (b : ℕ) (xs : List Event) → 1 ≤ b → next_cursor b xs ≡ none → length xs ≤ b
no_cursor-length b xs h e = elim (Bool-cases (ltb b (length xs))) [
  | inl more ↦ absurd (take-last b xs h (ltb→lt b (length xs) more) (rw more at e))
  | inr done ↦ ground (arith, done)
]

module _ (limit : ℤ) (unit : Option String) (before_id : Option ℤ) (seen : List (String × String))
    (s : EventStore) where
  -- While the store works, its identifiers are in order and the clock was never set back, a page of fewer than 1000 events with a
  -- cursor is the listing down to the cursor: what is listed below the cursor continues it without
  -- a gap or a repetition.
  pub page_continues :
      (t c : ℕ)
      → s.closed ≡ false
      → s.healthy ≡ true
      → clamp limit < 1000
      → IsSound s.db
      → Chron t s.db.rows
      → (page limit unit before_id (over s seen)).1 ≡ some c
      → (page limit unit before_id (over s seen)).0 ++ listing unit (some (pos c)) s.db
        ≡ listing unit before_id s.db
  page_continues t c open_ works small h k e =
      let b = clamp limit in
      let rows = select (on_page unit before_id) s.db in
      let given = page-listing limit unit before_id seen s open_ works small in
      let (r, found, same) = last-cursor b c rows (unfold listing in (rw given at e)) in
      rw given (
        unfold listing in
        rw (← same, select-drop b t unit before_id s.db r h k found, map-drop)
          (take-drop b (map to_event rows)))

  -- While the store works, a page of fewer than 1000 events without a cursor is the whole listing.
  page_ends :
      s.closed ≡ false
      → s.healthy ≡ true
      → clamp limit < 1000
      → (page limit unit before_id (over s seen)).1 ≡ none
      → (page limit unit before_id (over s seen)).0 ≡ listing unit before_id s.db
  page_ends open_ works small e =
      let b = clamp limit in
      let given = page-listing limit unit before_id seen s open_ works small in
      rw given (
        take_all b (listing unit before_id s.db)
          (no_cursor-length b _ (clamp_bounds limit).0 (rw given at e)))

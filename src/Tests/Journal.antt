-- ===== src/Tests/Journal.antt =====
-- The theorems about the event store, the timeline and the ledger at a small database.

use nixadmin.Prelude.{
  ℕ, ◌*◌, ◌-◌, ◌⊎◌, ◌≤◌, ◌≡◌, refl, true, false, none, some, List, [], ◌∷◌, ◌++◌, map, take, keep,
  All, string_eq, option_eq, pair_eq, arith,
}
use nixadmin.Prelude.Int.{pos}
use nixadmin.Json.{str, field, end}
use nixadmin.Store.{
  Event, Draft, EventStore, event_store, Filter, any, matches, newer, place, order_by, clamp,
  select, query, recent, recent_events, to_event, decode_meta, append,
}
use nixadmin.Store.Sorted.{Chron}
use nixadmin.Store.Invariant.{IsSound}
use nixadmin.Store.Query.{new_row, recorded, recent-append, IsAnswer, query_lem}
use nixadmin.Timeline.{FailedUnit, current, keys, page, record_failure_transitions}
use nixadmin.Timeline.Journal.{is_open, IsAccurate, IsWorking, record-IsAccurate}
use nixadmin.Timeline.Pages.{listing, over, page_continues}
use nixadmin.Ledger.{summarize, is_attention_moment, start, scan_all}
use nixadmin.Ledger.Fold.{found, scan_all-found}
use nixadmin.Ledger.Streak.{streak_honest}

abbrev given_up : Draft
given_up = record {
  kind = "autofix";
  unit = some "backup.service";
  scope = some "user";
  severity = some "warning";
  text = "backup.service keeps failing and needs a real fix.";
  meta = field "action" (str "inform") end;
}

abbrev seen_failing : Draft
seen_failing = record {
  kind = "failure_observed";
  unit = some "backup.service";
  scope = some "user";
  severity = some "warning";
  text = "Backup";
  meta = end;
}

abbrev stored : EventStore
stored = record {
  db = record {
    rows = new_row 2 20 given_up ∷ new_row 1 10 seen_failing ∷ [];
    next_id = 3;
    user_version = 1;
  };
  closed = false;
  healthy = true;
}

stored-IsSound : IsSound stored.db
stored-IsSound = (omega arith, (omega arith, tt))

stored-Chron : Chron 30 stored.db.rows
stored-Chron = (omega arith, (omega arith, tt))

meets : matches any (new_row 3 30 given_up) ≡ true
unfolding matches
meets = refl

recent-append_example :
    recent (pos 2) any (append 30 given_up (event_store stored)).1
    ≡ take (clamp (pos 2)) (recorded 3 30 given_up ∷ map to_event (select any stored.db))
recent-append_example =
    recent-append 30 given_up (pos 2) any stored refl refl stored-IsSound stored-Chron meets

query_lem_example : IsAnswer (pos 1) any stored.db (query (pos 1) any stored.db)
query_lem_example = query_lem (pos 1) any stored.db

abbrev lately : Filter
lately = record any { since = some 20 }

small_page : clamp (pos 1) ≡ 1
unfolding clamp
small_page = refl

first_cursor : (page (pos 1) none none (over stored [])).1 ≡ some 2
unfolding page recent recent_events query select clamp order_by place newer matches to_event
    decode_meta
first_cursor = refl

page_continues_example :
    (page (pos 1) none none (over stored [])).0 ++ listing none (some (pos 2)) stored.db
    ≡ listing none none stored.db
page_continues_example =
    page_continues (pos 1) none none [] stored 30 2 refl refl (omega (arith, small_page))
      stored-IsSound stored-Chron first_cursor

whole_page : clamp (pos 2) ≡ 2
unfolding clamp
whole_page = refl

no_cursor : (page (pos 2) none none (over stored [])).1 ≡ none
unfolding page recent recent_events query select clamp order_by place newer matches to_event
    decode_meta
no_cursor = refl

full_page : clamp (pos 1000) ≡ 1000
unfolding clamp
full_page = refl

abbrev failing : List FailedUnit
failing = record { unit = "backup.service"; scope = "user"; description = "Backup" } ∷ []

abbrev empty : EventStore
empty = record {
  db = record { rows = []; next_id = 1; user_version = 1 };
  closed = false;
  healthy = true;
}

empty-IsAccurate : IsAccurate (over empty [])
unfolding is_open
empty-IsAccurate k = refl

record-IsAccurate_example :
    let t = record_failure_transitions 10 failing (over empty []) in
    IsAccurate t × (t.seen_failures ≡ keys (current failing)) × IsWorking t.store
record-IsAccurate_example =
    record-IsAccurate 10 failing (over empty []) (refl, refl) empty-IsAccurate

abbrev events : List Event
events = recorded 2 20 given_up ∷ recorded 1 10 seen_failing ∷ []

streak_honest_example :
    let days = (summarize events 90 0 none 30).streak_days in
    All (λ ev. days * 86_400_000_000 ≤ 90 - ev.ts) (keep is_attention_moment events)
    × ((◌≡◌ {A = ℕ} 0 0) ⊎ (days ≡ 0))
streak_honest_example = streak_honest events 90 0 none 30

scan_all-found_example : scan_all 15 start events ≡ found 15 events
scan_all-found_example = scan_all-found 15 events

-- ===== src/Tests/Operations.antt =====
-- The theorems about counters, warnings, confirmations and sessions at small states.
use nixadmin.Prelude.{
  none, if◌then◌else◌, String, Bool, ℕ, ◌≡◌, refl, true, false, [], ◌∷◌, string_eq, nat_eq,
  option_eq, List, some,
}
use nixadmin.Prelude.Dict.{lookup, insert, remove}
use nixadmin.Connections.{
  Event, asked, responded, disconnected, verdict, after, step, ask, deliver_response, close,
  cancel_all,
}
use nixadmin.Sessions.{state, after as after_tests}
use nixadmin.Sessions.Isolation.{newest, last_test_ok-newest}
use nixadmin.Connections.Confirmation.{response_to, confirmed_by-response}
use nixadmin.Observability.{OperationalState, should_log}
use nixadmin.Tasks.{
  Event as Turn, on_cancel, query, left, done, leave, request, step as step_task, on_query, spawn,
  finished, query_of, after as after_events,
}
use nixadmin.Tasks.Orderly.{if_runs}
use nixadmin.Tasks.Current.{is_listed, with_cancelled, on_cancel-newest}

abbrev running : OperationalState
running = record {
  counts = ("send_failures", 7) ∷ [];
  last_log = ("invalid_client_encoding", 10) ∷ [];
}

first : (should_log 30 "invalid_client_encoding" 50 running).0 ≡ true
unfolding should_log lookup string_eq
first = refl

-- A question that was asked again after a refusal, with a second response to it.
abbrev talk : List Event
talk =
    responded "q1" false
    ∷ responded "q1" true
    ∷ asked "q1"
    ∷ disconnected
    ∷ responded "q1" false
    ∷ asked "q1"
    ∷ []

agreed : verdict (lookup "q1" (after talk).pending) ≡ true
unfolding verdict lookup after step ask deliver_response insert close cancel_all string_eq
agreed = refl

confirmed_by-response_example : response_to "q1" talk ≡ some true
confirmed_by-response_example = confirmed_by-response "q1" talk agreed

-- A good test in one session, and a bad one in another.
abbrev tests : List (String × (Bool × ℕ))
tests = ("web", (false, 9)) ∷ ("tray", (true, 5)) ∷ []

last_test_ok-newest_example :
    (state "tray" (after_tests tests)).0.last_test_ok ≡ newest "tray" tests
last_test_ok-newest_example = last_test_ok-newest "tray" tests

-- A query whose identifier is used again before it ends: its end takes the newer one from the table,
-- so that a cancel reaches nothing.
abbrev turns : List Turn
turns = done 0 ∷ left 0 ∷ request ∷ query "q1" ∷ query "q1" ∷ []

unreached : (on_cancel "q1" (after_events turns)).cancelled ≡ []
unfolding on_cancel after_events step_task on_query spawn finished leave query_of lookup insert
    remove string_eq nat_eq option_eq
unreached = refl

-- The newer one runs.
runs : if_runs (after_events turns).owned (lookup "q1" (after_events turns).begun) ≡ some 1
unfolding after_events step_task on_query spawn finished leave query_of lookup insert remove
    string_eq nat_eq option_eq
runs = refl

-- With its own identifier a query is reached, also after the end of another.
abbrev others : List Turn
others = done 0 ∷ left 0 ∷ query "q2" ∷ query "q1" ∷ []

reached : (on_cancel "q2" (after_events others)).cancelled ≡ 1 ∷ []
unfolding on_cancel after_events step_task on_query spawn finished leave query_of lookup insert
    remove string_eq nat_eq option_eq
reached = refl

on_cancel-newest_example :
    (on_cancel "q2" (after_events others)).cancelled
    ≡ with_cancelled
        (if is_listed others "q2"
          then if_runs (after_events others).owned (lookup "q2" (after_events others).begun)
          else none)
        (after_events others).cancelled
on_cancel-newest_example = on_cancel-newest others "q2"

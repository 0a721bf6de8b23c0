-- ===== src/Sessions.antt =====
-- The registry of sessions of src/nixadmin/session.py. Its locks, which keep the queries of a
-- session apart, are not modelled.
pub mod Isolation
use nixadmin.Prelude.{ℕ, String, Bool, true, false, Option, none, some, List, [], ◌∷◌, string_eq}
use nixadmin.Prelude.Dict.{Dict, lookup, insert}
use nixadmin.Safety.{SessionState, fresh, record_test}

pub record SessionRegistry : Type 0 where
  pub states : Dict String SessionState

abbrev pub no_sessions : SessionRegistry
no_sessions = record { states = [] }

abbrev pub or_new : String → Option SessionState → SessionRegistry → SessionState × SessionRegistry
or_new session (some st) r = (st, r)
or_new session none r = (fresh, record { states = insert session fresh r.states })

-- `SessionRegistry.state`
unfoldable pub state : String → SessionRegistry → SessionState × SessionRegistry
state session r = or_new session (lookup session r.states) r

-- A test of a session that has come back: `record_test` on the object that `state` gives, which the
-- registry holds.
unfoldable pub note_test : String → Bool → ℕ → SessionRegistry → SessionRegistry
note_test session good now r =
    let (st, r') = state session r in
    record { states = insert session (record_test good now st) r'.states }

-- The registry after some tests, the newest first.
unfoldable pub after : List (String × (Bool × ℕ)) → SessionRegistry
after [] = no_sessions
after ((session, (good, now)) ∷ tests) = note_test session good now (after tests)

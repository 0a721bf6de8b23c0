-- ===== src/Sessions/Isolation.antt =====
-- What a session's state in src/nixadmin/session.py depends on.
use nixadmin.Prelude.{
  ℕ, ◌≡◌, refl, ◌∙◌, ap, String, Bool, false, Option, none, some, List, [], ◌∷◌, ◌==◌, string_eq,
  if◌then◌else◌, arith,
}
use nixadmin.Prelude.Dict.{lookup, insert, lookup-insert}
use nixadmin.Safety.{SessionState, fresh, record_test}
use nixadmin.Sessions.{SessionRegistry, or_new, state, note_test, after}

-- Whether the newest test of a session was good.
unfoldable pub newest : String → List (String × (Bool × ℕ)) → Bool
newest session [] = false
newest session ((s, (good, now)) ∷ tests) =
    let rest = newest session tests in if session == s then good else rest

-- A session's flag in the registry, the fresh session's if it has none.
abbrev flag_of : Option SessionState → Bool
flag_of none = false
flag_of (some st) = st.last_test_ok

state-flag :
    (session : String) (r : SessionRegistry)
    → (state session r).0.last_test_ok ≡ flag_of (lookup session r.states)
unfolding state
state-flag session r = known (lookup session r.states)
  where
    known : (o : Option SessionState) → (or_new session o r).0.last_test_ok ≡ flag_of o
    known none = refl
    known (some st) = refl

flag-note_test :
    (session s : String) (good : Bool) (now : ℕ) (r : SessionRegistry)
    → flag_of (lookup session (note_test s good now r).states)
      ≡ (if session == s then good else flag_of (lookup session r.states))
unfolding note_test state record_test
flag-note_test session s good now r = known (lookup s r.states)
  where
    known :
        (o : Option SessionState)
        → flag_of (
            lookup session
              (insert s (record_test good now (or_new s o r).0) (or_new s o r).1.states))
          ≡ (if session == s then good else flag_of (lookup session r.states))
    known none = ground (
      arith,
      lookup-insert s session (record_test good now fresh) (insert s fresh r.states),
      lookup-insert s session fresh r.states,
    )
    known (some st) = ground (arith, lookup-insert s session (record_test good now st) r.states)

flag-after :
    (session : String) (tests : List (String × (Bool × ℕ)))
    → flag_of (lookup session (after tests).states) ≡ newest session tests
unfolding after newest lookup
flag-after session [] = refl
flag-after session ((s, (good, now)) ∷ tests) =
    flag-note_test session s good now (after tests)
    ∙ ap (λ b. if session == s then good else b) (flag-after session tests)

-- After any tests, of any sessions in any order, the flag that allows a session's switch is that of
-- the session's own newest test, and is off if it had none.
pub last_test_ok-newest :
    (session : String) (tests : List (String × (Bool × ℕ)))
    → (state session (after tests)).0.last_test_ok ≡ newest session tests
last_test_ok-newest session tests = state-flag session (after tests) ∙ flag-after session tests

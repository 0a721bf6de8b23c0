-- ===== src/Observability/Suppression.antt =====
-- How src/nixadmin/observability.py holds repeated warnings back, and how much it remembers.
use nixadmin.Prelude.{
  ℕ, ◌+◌, ◌-◌, ◌<◌, ◌≤◌, ◌≡◌, min, String, true, false, none, some, [], ◌∷◌, ◌++◌, string_eq,
  length, arith, lt→ltb,
}
use nixadmin.Prelude.Dict.{Dict, lookup, remove, lookup-insert, lookup-remove}
use nixadmin.Observability.{
  OperationalState, max_counter, max_rate_keys, or_zero, increment, forget, touch, should_log,
}

length-forget : (d : Dict String ℕ) → length (forget d) ≤ max_rate_keys
unfolding forget
length-forget [] = omega arith
length-forget (e ∷ d) = ground (arith, length-forget d)

lookup-append :
    (key : String) (v : ℕ) (d : Dict String ℕ)
    → lookup key d ≡ none
    → lookup key (d ++ ((key, v) ∷ [])) ≡ some v
unfolding lookup
lookup-append key v [] h = ground arith
lookup-append key v ((k, w) ∷ d) h = ground (arith, h, lookup-append key v d)

lookup-forget :
    (key : String) (v : ℕ) (d : Dict String ℕ)
    → lookup key d ≡ none
    → lookup key (forget (d ++ ((key, v) ∷ []))) ≡ some v
unfolding forget lookup
lookup-forget key v [] h = ground arith
lookup-forget key v ((k, w) ∷ d) h = ground (arith, h, lookup-forget key v d, lookup-append key v d)

lookup-touch :
    (key : String) (now : ℕ) (d : Dict String ℕ) → lookup key (touch key now d) ≡ some now
unfolding touch
lookup-touch key now d =
    lookup-forget key now (remove key d) (ground (arith, lookup-remove key key d))

-- A warning that was let through is held back when it comes again before the interval is over,
-- however many other keys are remembered.
should_log_again :
    (interval : ℕ) (key : String) (now again : ℕ) (s : OperationalState)
    → (should_log interval key now s).0 ≡ true
    → again - now < interval
    → (should_log interval key again (should_log interval key now s).1).0 ≡ false
unfolding should_log
should_log_again interval key now again s yes_ soon =
    ground (arith, yes_, lookup-touch key now s.last_log, lt→ltb (again - now) interval soon)

-- Counters stay in 63 bits and at most 128 keys are remembered.
abbrev pub IsBounded : OperationalState → Type 0
IsBounded s =
    (length s.last_log ≤ max_rate_keys)
    × ((name : String) → or_zero (lookup name s.counts) ≤ max_counter)

-- Whatever is asked about and counted, the memory stays bounded: by no call of should_log or
-- increment do the keys exceed 128 or a counter 2 ^ 63 - 1.
pub operations-IsBounded :
    (interval : ℕ) (key name : String) (now : ℕ) (s : OperationalState)
    → IsBounded s
    → IsBounded (should_log interval key now s).1 × IsBounded (increment name s)
unfolding should_log increment touch
operations-IsBounded interval key name now s h = (
  (
    ground (arith, h.0, length-forget (remove key s.last_log ++ ((key, now) ∷ []))),
    λ n. ground (arith, h.1 n),
  ),
  (
    h.0,
    λ n. ground (
      arith,
      h.1 n,
      lookup-insert name n (min max_counter (or_zero (lookup name s.counts) + 1)) s.counts,
    ),
  ),
)

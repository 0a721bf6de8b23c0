-- ===== src/Observability.antt =====
-- src/nixadmin/observability.py: the counters, and the suppression of repeated warnings. The clock
-- counts microseconds; an ordered dict is the list of its entries, the oldest first.
pub mod Suppression
use nixadmin.Prelude.{
  ℕ, ◌+◌, ◌-◌, ◌^◌, min, String, Bool, true, false, Option, none, some, List, [], ◌∷◌, ◌++◌,
  string_eq, ltb, if◌then◌else◌, length,
}
use nixadmin.Prelude.Dict.{Dict, lookup, insert, remove}

abbrev pub max_counter : ℕ
max_counter = 2 ^ 63 - 1

abbrev pub max_rate_keys : ℕ
max_rate_keys = 128

pub record OperationalState : Type 0 where
  pub counts : Dict String ℕ
  pub last_log : Dict String ℕ

-- self._counters.get(name, 0)
abbrev pub or_zero : Option ℕ → ℕ
or_zero none = 0
or_zero (some n) = n

unfoldable pub increment : String → OperationalState → OperationalState
increment name s = record s {
  counts = insert name (min max_counter (or_zero (lookup name s.counts) + 1)) s.counts;
}

-- The loop that forgets the oldest keys.
unfoldable pub forget : Dict String ℕ → Dict String ℕ
forget [] = []
forget (e ∷ d) = let rest = forget d in if ltb max_rate_keys (length (e ∷ d)) then rest else e ∷ d

-- A key is written and moved to the end.
unfoldable pub touch : String → ℕ → Dict String ℕ → Dict String ℕ
touch key now d = forget (remove key d ++ ((key, now) ∷ []))

abbrev pub is_recent : ℕ → ℕ → Option ℕ → Bool
is_recent interval now none = false
is_recent interval now (some previous) = ltb (now - previous) interval

unfoldable pub should_log : ℕ → String → ℕ → OperationalState → Bool × OperationalState
should_log interval key now s =
    if is_recent interval now (lookup key s.last_log)
    then (false, s)
    else (true, record s { last_log = touch key now s.last_log })

-- ===== src/Remediation/Matching.antt =====
-- `match_unit` of src/nixadmin/remediation.py, and the units that `run` chooses among.
use nixadmin.Prelude.{
  ◌≡◌, String, ◌<>◌, Bool, true, ◌&&◌, ◌||◌, Option, none, some, List, [], ◌∷◌, ◌++◌, ◌==◌,
  string_eq, some_of, if◌then◌else◌,
}
use nixadmin.Prelude.Case.{lower}
use nixadmin.Prelude.Text.{strip, join}
use nixadmin.Prelude.Words.{words, is_in, before}
use nixadmin.Prelude.Exec.{Exec, pure, ◌>>=◌}
use nixadmin.Remediation.{UnitRow, Systemd, choose, distinct, scope_of, restart_resolved}

abbrev pub or_whole : String → Option String → String
or_whole s none = s
or_whole s (some stem) = stem

-- f"{stem} {desc}".lower()
unfoldable pub haystack : UnitRow → String
haystack u = lower (or_whole u.name (before ".service" u.name) <> " " <> u.description)

abbrev pub all_in : String → List String → Bool
all_in hay [] = true
all_in hay (word ∷ ws) = is_in word hay && all_in hay ws

-- The condition of the loop of `match_unit`, for a target in lower case.
unfoldable pub fits : String → UnitRow → Bool
fits t u = is_in t (haystack u) || all_in (haystack u) (words t)

-- The loop of `match_unit`.
unfoldable pub hits : String → List UnitRow → List String
hits t [] = []
hits t (u ∷ units) = let rest = hits t units in if fits t u then u.name ∷ rest else rest

-- `match_unit`
unfoldable pub match_unit : String → List UnitRow → List String
match_unit target units = let t = strip (lower target) in if t == "" then [] else hits t units

-- The list `cand` of `run`.
unfoldable pub candidates : String → List UnitRow → List String
candidates target units = distinct [] (choose (match_unit target units) units)

module _ (S : Systemd) where
  -- The end of `run`, on the candidates.
  unfoldable pub run_on :
      (S.World → S.World)
      → Bool
      → (String → Exec S.World String Bool)
      → String
      → List UnitRow
      → List String
      → Exec S.World String String
  run_on status privileged confirm target system [] =
      pure ("I couldn't find a service matching '" <> target <> "'.")
  run_on status privileged confirm target system (unit ∷ []) = do
    yes_ ← confirm ("Restart " <> unit <> "?")
    if yes_
        then (do
          outcome ← restart_resolved S status privileged unit (scope_of system unit)
          pure outcome.message)
        else pure "Cancelled — nothing changed."
  run_on status privileged confirm target system (u ∷ v ∷ us) =
      pure ("Several services match that — which one? " <> join ", " (u ∷ v ∷ us))

  -- `run`, over the caller's `confirm`
  unfoldable pub run :
      (S.World → S.World)
      → Bool
      → (String → Exec S.World String Bool)
      → String
      → Exec S.World String String
  run status privileged confirm target = do
    system ← S.list_units "system"
    user ← S.list_units "user"
    run_on status privileged confirm target system (candidates target (system ++ user))

abbrev pub has_failed : List UnitRow → String → Bool
has_failed units name = some_of (λ u. u.name == name && u.active == "failed") units

-- A unit of the system that fits the target.
abbrev pub IsMatch : String → List UnitRow → String → Type 0
IsMatch target units name =
    some_of (λ u. u.name == name && fits (strip (lower target)) u) units ≡ true

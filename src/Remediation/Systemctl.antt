-- ===== src/Remediation/Systemctl.antt =====
-- The calls of src/nixadmin/remediation.py to systemctl and journalctl, over what running a command
-- does: the record Systemd is filled by them.
use nixadmin.Prelude.{
  ℕ, String, ◌<>◌, Bool, true, false, ◌||◌, ◌&&◌, Option, none, some, List, [], ◌∷◌, ◌++◌, ◌==◌,
  string_eq, eqb, leb, if◌then◌else◌,
}
use Prim.Native.Char.{code}
use nixadmin.Prelude.Exec.{Exec, pure, ◌>>=◌}
use nixadmin.Prelude.Int.{ℤ, pos}
use nixadmin.Prelude.Number.{parse_int}
use nixadmin.Prelude.Result.{Result, ok, err}
use nixadmin.Prelude.Text.{strip}
use nixadmin.Prelude.Words.{split_max, before}
use nixadmin.Remediation.{UnitRow, Systemd}

-- `util.run`: the output of a command, or the text of a `NixadminError`; the exit code is not used.
pub record Shell : Type 1 where
  pub World : Type 0
  pub run : List String → Exec World String String
  pub restart_helper : String → Exec World String (Unit {0})
  pub sleep : World → World

-- `_scoped`
unfoldable pub scoped : String → String → List String → List String
scoped scope head tail = head ∷ ((if scope == "user" then "--user" ∷ [] else []) ++ tail)

-- The characters at which `str.splitlines` breaks.
abbrev is_line_break : ℕ → Bool
is_line_break c =
    (leb 10 c && leb c 13) || (leb 28 c && leb c 30) || (eqb c 133 || (eqb c 8232 || eqb c 8233))

abbrev on_line : String → List String → List String
on_line line [] = line ∷ []
on_line line (l ∷ ls) = line ∷ l ∷ ls

-- out.splitlines(), up to empty lines, which `_list_units` skips; `line` is the one that is read
read_lines : String → String → List String
read_lines line String.[] = line ∷ []
read_lines line (String.◌∷◌ c s) = elim (is_line_break (code c)) [
  | true ↦ line ∷ read_lines "" s
  | false ↦ read_lines (line <> String.◌∷◌ c String.[]) s
]

abbrev service_row : String → String → String → List UnitRow
service_row name active description = elim (before ".service" name) [
  | none ↦ []
  | some stem ↦ record { name = name; active = active; description = description } ∷ []
]

-- The row of a line of `systemctl list-units`, if it is one of a service.
unfoldable pub row_of : List String → List UnitRow
row_of (name ∷ load ∷ active ∷ sub ∷ []) = service_row name active ""
row_of (name ∷ load ∷ active ∷ sub ∷ description ∷ rest) = service_row name active description
row_of other = []

unfoldable pub rows_of : List String → List UnitRow
rows_of [] = []
rows_of (line ∷ lines) = row_of (split_max 4 line) ++ rows_of lines

-- The units in the output of `systemctl list-units`.
unfoldable pub parse_units : String → List UnitRow
unfolding read_lines
parse_units out = rows_of (read_lines "" out)

abbrev count_of : Option ℤ → ℕ
count_of (some (pos n)) = n
count_of other = 0

abbrev restarts : Result String String → ℕ
restarts (ok out) = count_of (parse_int (strip out))
restarts (err e) = 0

module _ (C : Shell) where
  -- `_list_units`
  unfoldable pub list_units : String → Exec C.World String (List UnitRow)
  list_units scope = do
    out ← C.run (
        scoped scope "systemctl"
          ("list-units" ∷ "--all" ∷ "--plain" ∷ "--no-legend" ∷ "--no-pager" ∷ []))
    pure (parse_units out)

  -- `_is_failed`
  unfoldable pub is_failed : String → String → Exec C.World String Bool
  is_failed unit scope = do
    out ← C.run (scoped scope "systemctl" ("is-failed" ∷ unit ∷ []))
    pure (strip out == "failed")

  -- `_unit_tail`
  unfoldable pub unit_tail : String → String → Exec C.World String String
  unit_tail unit scope = do
    out ← C.run (
        scoped scope "journalctl"
          ("-u" ∷ unit ∷ "-b" ∷ "--no-pager" ∷ "-n" ∷ "12" ∷ "-o" ∷ "cat" ∷ []))
    pure (strip out)

  -- `restart_count`
  unfoldable pub restart_count : String → String → C.World → ℕ
  restart_count unit scope w =
      restarts
        (C.run (scoped scope "systemctl" ("show" ∷ unit ∷ "--property=NRestarts" ∷ "--value" ∷ []))
          w).0

  abbrev pub systemctl : Systemd
  systemctl = record {
    World = C.World;
    list_units = list_units;
    restart_user =
        λ unit. C.run ("systemctl" ∷ "--user" ∷ "restart" ∷ unit ∷ []) >>= (λ out. pure tt);
    restart_system = C.restart_helper;
    settle = C.sleep;
    is_failed = is_failed;
    unit_tail = unit_tail;
    restart_count = restart_count;
  }

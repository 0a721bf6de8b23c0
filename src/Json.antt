-- ===== src/Json.antt =====
-- JSON as the program reads and writes it through Python's `json`: the values, and a text up to
-- what `json.loads` makes of it.
use nixadmin.Prelude.{ℕ, String, Bool, Option, none, some, ◌==◌, string_eq, if◌then◌else◌}
use nixadmin.Prelude.Int.{ℤ}

mutual
  pub data Json : Type 0 where
    null : Json
    bool : Bool → Json
    int : ℤ → Json
    real : ℕ → Json
    str : String → Json
    arr : Items → Json
    obj : Fields → Json

  pub data Items : Type 0 where
    nil : Items
    cons : Json → Items → Items

  pub data Fields : Type 0 where
    end : Fields
    field : String → Json → Fields → Fields

-- d.get(k)
unfoldable pub get : String → Fields → Option Json
get k end = none
get k (field j v d) = if k == j then some v else get k d

-- A line or a column that should hold JSON: the print of a value, or a text that does not parse.
pub data JsonText : Type 0 where
  dumps : Json → JsonText
  malformed : JsonText

unfoldable pub loads : JsonText → Option Json
loads (dumps v) = some v
loads malformed = none

-- isinstance(v, str) and v == s
unfoldable pub is_str : String → Option Json → Bool
is_str s (some (str t)) = t == s
is_str s _ = Bool.false

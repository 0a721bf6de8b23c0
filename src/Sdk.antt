-- ===== src/Sdk.antt =====
-- The declarations of src/nixadmin/sdk.py that carry behaviour, and the checks that Python makes
-- when one is built (`__post_init__`). Texts of errors are left out.
pub mod Tools
use nixadmin.Prelude.{
  ℕ, String, ◌<>◌, Bool, true, false, not, ◌&&◌, ◌||◌, Option, none, some, List, [], ◌∷◌, ◌++◌,
  ◌==◌, string_eq, if◌then◌else◌, length, keep, some_of, map, ltb,
}
use nixadmin.Prelude.Int.{ℤ}
use nixadmin.Prelude.Dict.{Dict, lookup, insert}
use nixadmin.Prelude.Result.{Result, ok, err}

pub record Fetcher : Type 0 where
  pub name : String
  pub cmd : String
  pub description : String
  pub timeout : ℕ
  pub expose_as_tool : Bool

pub data Source : Type 0 where
  poll dbus other : Source

pub record Monitor : Type 0 where
  pub name : String
  pub source : Source
  pub severity : String
  pub cmd : String
  pub interval : ℤ
  pub trigger : Option (String → Bool)
  pub interface : String
  pub signal : String

pub record Module : Type 0 where
  pub name : String
  pub description : String
  pub fetchers : List Fetcher
  pub monitors : List Monitor

-- The `ModuleError`s.
pub data ModuleError : Type 0 where
  nameless undescribed : ModuleError
  poll_without_cmd poll_without_trigger poll_with_signal : ModuleError
  dbus_without_signal dbus_with_cmd : ModuleError
  duplicate_fetchers : List String → ModuleError

-- `Fetcher`
unfoldable pub new_fetcher : Fetcher → Result ModuleError Fetcher
new_fetcher f =
    if f.name == ""
    then err nameless
    else if f.expose_as_tool && f.description == ""
    then err undescribed
    else ok f

abbrev pub is_given : {A : Type 0} → Option A → Bool
is_given none = false
is_given (some a) = true

-- `Monitor`, by its source
abbrev pub check_source : Source → Monitor → Result ModuleError Monitor
check_source poll m =
    if m.cmd == ""
    then err poll_without_cmd
    else if not (is_given m.trigger)
    then err poll_without_trigger
    else if not (m.interface == "") || not (m.signal == "")
    then err poll_with_signal
    else ok m
check_source dbus m =
    if m.interface == "" || m.signal == ""
    then err dbus_without_signal
    else if not (m.cmd == "")
    then err dbus_with_cmd
    else ok m
check_source other m = ok m

unfoldable pub new_monitor : Monitor → Result ModuleError Monitor
new_monitor m = check_source m.source m

-- names.count(n)
abbrev pub count : String → List String → ℕ
count n names = length (keep (λ x. x == n) names)

-- The names that are there more than once; Python makes a set of them.
abbrev pub duplicates : List String → List String
duplicates names = keep (λ n. ltb 1 (count n names)) names

-- `Module`
unfoldable pub new_module : Module → Result ModuleError Module
new_module m =
    let dupes = duplicates (map (λ (f : Fetcher). f.name) m.fetchers) in
    if m.name == ""
    then err nameless
    else if m.description == ""
    then err undescribed
    else elim dupes [ [] ↦ ok m | n ∷ ns ↦ err (duplicate_fetchers (n ∷ ns)) ]

-- The name under which the remote model calls a fetcher.
abbrev pub tool_name : Module → Fetcher → String
tool_name m f = m.name <> "_" <> f.name

-- The tools of one module in `build_tools` of src/nixadmin/llm/remote.py, with the name and the
-- description of each; none takes an argument.
abbrev pub offer_each : Module → List Fetcher → List (String × String)
offer_each m [] = []
offer_each m (f ∷ fs) =
    let rest = offer_each m fs in
    if f.expose_as_tool then (tool_name m f, f.description) ∷ rest else rest

abbrev pub rebuild_tool : String × String
rebuild_tool =
    ("nixadmin_rebuild", "Rebuild the NixOS configuration. Always 'test' before 'switch'.")

-- `build_tools`
unfoldable pub build_tools : List Module → List (String × String)
build_tools [] = rebuild_tool ∷ []
build_tools (m ∷ ms) = offer_each m m.fetchers ++ build_tools ms

-- `_tool_cmds`: a comprehension, where a later fetcher of the same name takes the place
abbrev pub file_each : Module → List Fetcher → Dict String String → Dict String String
file_each m [] cmds = cmds
file_each m (f ∷ fs) cmds =
    file_each m fs (if f.expose_as_tool then insert (tool_name m f) f.cmd cmds else cmds)

unfoldable pub file_modules : List Module → Dict String String → Dict String String
file_modules [] cmds = cmds
file_modules (m ∷ ms) cmds = file_modules ms (file_each m m.fetchers cmds)

abbrev pub tool_cmds : List Module → Dict String String
tool_cmds ms = file_modules ms []

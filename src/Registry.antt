-- ===== src/Registry.antt =====
-- The loading of modules in src/nixadmin/registry.py, on what the registry reads of the modules of
-- src/nixadmin/sdk.py. The warnings are not modelled.
pub mod Names
pub mod Loading
use nixadmin.Prelude.{
  String, Bool, true, false, Option, none, some, List, [], ◌∷◌, ◌++◌, ◌==◌, string_eq, nat_eq,
  if◌then◌else◌,
}
use nixadmin.Prelude.Int.{ℤ, pos, negsuc}
use nixadmin.Prelude.Dict.{Dict, lookup, insert}

-- `Module`, without its fetchers, monitors and context
pub record Manifest : Type 0 where
  pub spec_version : ℤ
  pub name : String
  pub description : String

-- What the load of an entry point does: raise, or give an object, which is a `Module` or none.
pub data Loaded : Type 0 where
  raised stranger : Loaded
  module_of : Manifest → Loaded

pub record EntryPoint : Type 0 where
  pub name : String
  pub load : Loaded

-- Whether a version is SPEC_VERSION
abbrev pub is_current : ℤ → Bool
is_current (pos n) = n == 1
is_current (negsuc n) = false

-- `_load_one`
unfoldable pub load_one : Loaded → Option Manifest
load_one raised = none
load_one stranger = none
load_one (module_of m) = if is_current m.spec_version then some m else none

-- `seen` before the loop
unfoldable pub seen_builtins : List Manifest → Dict String String → Dict String String
seen_builtins [] seen = seen
seen_builtins (m ∷ ms) seen = seen_builtins ms (insert m.name "builtin" seen)

-- Whether a name was seen decides on a module.
abbrev pub place :
    String
    → Manifest
    → Option String
    → List Manifest
    → Dict String String
    → List Manifest × Dict String String
place ep_name m (some existing) modules seen = (modules, seen)
place ep_name m none modules seen = (modules ++ (m ∷ []), insert m.name ep_name seen)

-- What one entry point makes of the modules and of `seen`.
abbrev pub admit :
    String
    → Option Manifest
    → List Manifest
    → Dict String String
    → List Manifest × Dict String String
admit ep_name none modules seen = (modules, seen)
admit ep_name (some m) modules seen = place ep_name m (lookup m.name seen) modules seen

-- The loop over the entry points.
unfoldable pub load_each :
    List EntryPoint → List Manifest × Dict String String → List Manifest × Dict String String
load_each [] state = state
load_each (ep ∷ eps) state = load_each eps (admit ep.name (load_one ep.load) (state.0) (state.1))

-- `load_modules`, for the built-in modules and the entry points of the group
unfoldable pub load_modules : List Manifest → List EntryPoint → List Manifest
load_modules builtins eps = (load_each eps (builtins, seen_builtins builtins [])).0

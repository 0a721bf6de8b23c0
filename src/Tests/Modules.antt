-- ===== src/Tests/Modules.antt =====
-- The loading of modules, with entry points that give every kind of thing.
use nixadmin.Prelude.{String, ◌≡◌, refl, List, [], ◌∷◌, string_eq, nat_eq}
use nixadmin.Prelude.Dict.{lookup, insert}
use nixadmin.Prelude.Int.{ℤ, pos}
use nixadmin.Registry.{
  Manifest, Loaded, EntryPoint, load_modules, load_each, load_one, seen_builtins,
}
use nixadmin.Registry.Names.{names}
use nixadmin.Registry.Loading.{IsRegistry, load_modules-IsRegistry}

abbrev manifest : ℤ → String → Manifest
manifest version name = record { spec_version = version; name = name; description = "" }

abbrev builtins : List Manifest
builtins = manifest (pos 1) "disk" ∷ manifest (pos 1) "network" ∷ []

abbrev entry : String → Loaded → EntryPoint
entry name load = record { name = name; load = load }

abbrev points : List EntryPoint
points =
    entry "broken" Loaded.raised
    ∷ entry "zfs" (Loaded.module_of (manifest (pos 1) "zfs"))
    ∷ entry "my_disk" (Loaded.module_of (manifest (pos 1) "disk"))
    ∷ entry "old" (Loaded.module_of (manifest (pos 0) "old"))
    ∷ entry "a_number" Loaded.stranger
    ∷ []

load_modules-IsRegistry_example : IsRegistry points builtins (load_modules builtins points)
unfolding string_eq
load_modules-IsRegistry_example = load_modules-IsRegistry builtins points refl

loaded_names : names (load_modules builtins points) ≡ "disk" ∷ "network" ∷ "zfs" ∷ []
unfolding load_modules load_each load_one seen_builtins nat_eq lookup insert string_eq
loaded_names = refl

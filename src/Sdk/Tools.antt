-- ===== src/Sdk/Tools.antt =====
-- The tools that the remote model is offered, and the commands that stand behind them.
use nixadmin.Prelude.Membership.{contains-append}
use nixadmin.Prelude.{
  ◌≡◌, refl, String, true, ◌||◌, some, List, [], ◌∷◌, ◌++◌, ◌==◌, contains, string_eq,
  if◌then◌else◌, map, arith, Bool-cases, inl, inr, option_eq,
}
use nixadmin.Prelude.Dict.{Dict, lookup, insert, lookup-insert}
use nixadmin.Sdk.{
  Fetcher, Module, is_given, tool_name, offer_each, build_tools, file_each, file_modules, tool_cmds,
}

abbrev pub tool_names : List (String × String) → List String
tool_names ts = map (λ (t : String × String). t.0) ts

contains-names-append :
    (xs ys : List (String × String)) (a : String)
    → contains (tool_names (xs ++ ys)) a
      ≡ (contains (tool_names xs) a || contains (tool_names ys) a)
contains-names-append [] ys a = refl
contains-names-append (x ∷ xs) ys a = ground (arith, contains-names-append xs ys a)

file_each-known :
    (m : Module) (fs : List Fetcher) (cmds : Dict String String) (a : String)
    → is_given (lookup a (file_each m fs cmds))
      ≡ (contains (tool_names (offer_each m fs)) a || is_given (lookup a cmds))
file_each-known m [] cmds a = refl
file_each-known m (f ∷ fs) cmds a = elim (Bool-cases f.expose_as_tool) [
  | inl exposed ↦ rw exposed (
      ground (
        arith,
        file_each-known m fs (insert (tool_name m f) f.cmd cmds) a,
        lookup-insert (tool_name m f) a f.cmd cmds,
      ))
  | inr hidden ↦ rw hidden (file_each-known m fs cmds a)
]

file_modules-known :
    (ms : List Module) (cmds : Dict String String) (a : String)
    → (is_given (lookup a (file_modules ms cmds)) || a == "nixadmin_rebuild")
      ≡ (contains (tool_names (build_tools ms)) a || is_given (lookup a cmds))
unfolding file_modules build_tools
file_modules-known [] cmds a = ground arith
file_modules-known (m ∷ ms) cmds a = ground (
  arith,
  contains-names-append (offer_each m m.fetchers) (build_tools ms) a,
  file_modules-known ms (file_each m m.fetchers cmds) a,
  file_each-known m m.fetchers cmds a,
)

-- The tools that the remote model is offered are those that the daemon can run: a name is among
-- them exactly if it is the rebuild's or has a command, whatever the modules are called.
pub build_tools-runnable :
    (ms : List Module) (name : String)
    → contains (tool_names (build_tools ms)) name
      ≡ (is_given (lookup name (tool_cmds ms)) || name == "nixadmin_rebuild")
unfolding lookup
build_tools-runnable ms name = ground (arith, file_modules-known ms [] name)

-- The commands of the fetchers that the modules expose.
unfoldable pub exposed_each : List Fetcher → List String
exposed_each [] = []
exposed_each (f ∷ fs) =
    let rest = exposed_each fs in if f.expose_as_tool then f.cmd ∷ rest else rest

unfoldable pub exposed : List Module → List String
exposed [] = []
exposed (m ∷ ms) = exposed_each m.fetchers ++ exposed ms

-- A command that is found is one of a module's fetchers, or was there before.
file_each-Founded :
    (m : Module) (fs : List Fetcher) (cmds : Dict String String) (a c : String)
    → lookup a (file_each m fs cmds) ≡ some c
    → (contains (exposed_each fs) c || lookup a cmds == some c) ≡ true
unfolding exposed_each
file_each-Founded m [] cmds a c h = ground arith
file_each-Founded m (f ∷ fs) cmds a c h = elim (Bool-cases f.expose_as_tool) [
  | inl exposed ↦
      let ih = file_each-Founded m fs (insert (tool_name m f) f.cmd cmds) a c (rw exposed at h) in
      rw exposed (ground (arith, ih, lookup-insert (tool_name m f) a f.cmd cmds))
  | inr hidden ↦ rw hidden (file_each-Founded m fs cmds a c (rw hidden at h))
]

file_modules-Founded :
    (ms : List Module) (cmds : Dict String String) (a c : String)
    → lookup a (file_modules ms cmds) ≡ some c
    → (contains (exposed ms) c || lookup a cmds == some c) ≡ true
unfolding exposed file_modules
file_modules-Founded [] cmds a c h = ground arith
file_modules-Founded (m ∷ ms) cmds a c h = ground (
  arith,
  contains-append (exposed_each m.fetchers) (exposed ms) c,
  file_modules-Founded ms (file_each m m.fetchers cmds) a c h,
  file_each-Founded m m.fetchers cmds a c,
)

-- The command that a tool's name stands for is one that a module exposes.
pub tool_cmds-exposed :
    (ms : List Module) (a c : String)
    → lookup a (tool_cmds ms) ≡ some c
    → contains (exposed ms) c ≡ true
unfolding lookup
tool_cmds-exposed ms a c h = ground (arith, file_modules-Founded ms [] a c h)

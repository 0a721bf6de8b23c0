-- ===== src/Registry/Loading.antt =====
-- Which modules src/nixadmin/registry.py loads.
use nixadmin.Prelude.Membership.{contains-append}
use nixadmin.Prelude.{
  ◌≡◌, refl, sym, ap, subst, ◌∙◌, String, Bool, true, not, ◌||◌, Option, none, some, List, [], ◌∷◌,
  ◌++◌, contains, string_eq, All, append_assoc, append-nil, map-append, arith, Bool-cases, ◌⊎◌, inl,
  inr,
}
use nixadmin.Prelude.Dict.{Dict, lookup, insert}
use nixadmin.Registry.{
  Manifest, Loaded, EntryPoint, is_current, load_one, seen_builtins, admit, place, load_each,
  load_modules,
}
use nixadmin.Registry.Names.{
  names, distinct, known, distinct-append, Agrees, Agrees-insert, Agrees-seen_builtins,
}

-- The modules are picked from the entry points in their order, each one a module of the current
-- version that an entry point gave.
pub data Picked : List EntryPoint → List Manifest → Type 0 where
  no_more : Picked [] []
  skip :
      {ep : EntryPoint} {eps : List EntryPoint} {ms : List Manifest}
      → Picked eps ms
      → Picked (ep ∷ eps) ms
  pick :
      {ep : EntryPoint} {eps : List EntryPoint} {m : Manifest} {ms : List Manifest}
      → ep.load ≡ Loaded.module_of m
      → is_current m.spec_version ≡ true
      → Picked eps ms
      → Picked (ep ∷ eps) (m ∷ ms)

-- The name of a module of the current version is there.
abbrev pub is_there : List String → Loaded → Bool
is_there xs Loaded.raised = true
is_there xs Loaded.stranger = true
is_there xs (Loaded.module_of m) = not (is_current m.spec_version) || contains xs m.name

-- What loading adds to some modules.
pub record IsRegistry (eps : List EntryPoint) (before after : List Manifest) : Type 0 where
  pub added : List Manifest
  pub kept : after ≡ before ++ added
  pub picked : Picked eps added
  pub unique : distinct (names after) ≡ true
  pub complete : All (λ (ep : EntryPoint). is_there (names after) ep.load ≡ true) eps

-- What an entry point gave, if it is let through.
load_one-cases :
    (l : Loaded)
    → (load_one l ≡ none) × ((xs : List String) → is_there xs l ≡ true)
      ⊎ ((m : Manifest) × (l ≡ Loaded.module_of m)
          × (is_current m.spec_version ≡ true)
          × (load_one l ≡ some m))
unfolding load_one
load_one-cases Loaded.raised = inl (refl, λ xs. refl)
load_one-cases Loaded.stranger = inl (refl, λ xs. refl)
load_one-cases (Loaded.module_of m) = elim (Bool-cases (is_current m.spec_version)) [
  | inl yes_it_is ↦ inr (m, refl, yes_it_is, ground (arith, yes_it_is))
  | inr no_it_is ↦ inl (ground (arith, no_it_is), λ xs. ground (arith, no_it_is))
]

names-append : (xs ys : List Manifest) → names (xs ++ ys) ≡ names xs ++ names ys
names-append xs ys = map-append (λ (m : Manifest). m.name) xs ys

-- A name that is there before is there after.
stays :
    (eps : List EntryPoint) (before after : List Manifest) (k : String)
    → IsRegistry eps before after
    → contains (names before) k ≡ true
    → contains (names after) k ≡ true
stays eps before after k r h =
    ap (λ ms. contains (names ms) k) (r.kept)
    ∙ ap (λ xs. contains xs k) (names-append before r.added)
    ∙ ground (arith, contains-append (names before) (names r.added) k, h)

module _ (ep : EntryPoint) (eps : List EntryPoint) (before after : List Manifest) where
  passed :
      is_there (names after) ep.load ≡ true
      → IsRegistry eps before after
      → IsRegistry (ep ∷ eps) before after
  passed there r = record {
    added = r.added;
    kept = r.kept;
    picked = skip r.picked;
    unique = r.unique;
    complete = (there, r.complete);
  }

  joined_by :
      (m : Manifest)
      → ep.load ≡ Loaded.module_of m
      → is_current m.spec_version ≡ true
      → IsRegistry eps (before ++ (m ∷ [])) after
      → IsRegistry (ep ∷ eps) before after
  joined_by m is_m current r = record {
    added = m ∷ r.added;
    kept = r.kept ∙ append_assoc before (m ∷ []) r.added;
    picked = pick is_m current r.picked;
    unique = r.unique;
    complete = (ap (is_there (names after)) is_m ∙ ground (arith, there), r.complete);
  }
    where
      there : contains (names after) m.name ≡ true
      there = stays eps (before ++ (m ∷ [])) after m.name r (
          ap (λ xs. contains xs m.name) (names-append before (m ∷ []))
          ∙ ground (arith, contains-append (names before) (m.name ∷ []) m.name))

-- The rest of the entry points, whatever the loop has found so far.
abbrev Rest : List EntryPoint → Type 0
Rest eps =
    (modules : List Manifest) (seen : Dict String String)
    → distinct (names modules) ≡ true
    → Agrees seen (names modules)
    → IsRegistry eps modules (load_each eps (modules, seen)).0

module _ (ep : EntryPoint) (eps : List EntryPoint) (rest : Rest eps) (modules : List Manifest)
    (seen : Dict String String) (d : distinct (names modules) ≡ true)
    (agrees : Agrees seen (names modules)) where
  place-IsRegistry :
      (m : Manifest) (o : Option String)
      → ep.load ≡ Loaded.module_of m
      → is_current m.spec_version ≡ true
      → known o ≡ contains (names modules) m.name
      → IsRegistry (ep ∷ eps) modules (load_each eps (place ep.name m o modules seen)).0
  place-IsRegistry m none is_m current absent = joined_by ep eps modules _ m is_m current (
      rest (modules ++ (m ∷ [])) (insert m.name ep.name seen)
        (ap distinct (names-append modules (m ∷ []))
          ∙ distinct-append (names modules) m.name d (sym absent))
        (subst (Agrees (insert m.name ep.name seen)) (sym (names-append modules (m ∷ [])))
          (Agrees-insert seen (names modules) m.name ep.name agrees)))
  place-IsRegistry m (some v) is_m current there =
      passed ep eps modules after (ap (is_there (names after)) is_m ∙ ground (arith, is_in))
        (rest modules seen d agrees)
    where
      after : List Manifest
      after = (load_each eps (modules, seen)).0

      is_in : contains (names after) m.name ≡ true
      is_in = stays eps modules after m.name (rest modules seen d agrees) (sym there)

  admit-IsRegistry :
      IsRegistry
        (ep ∷ eps)
        modules
        (load_each eps (admit ep.name (load_one ep.load) modules seen)).0
  admit-IsRegistry = elim (load_one-cases ep.load) [
    | inl (is_none, there) ↦
        subst (λ o. IsRegistry (ep ∷ eps) modules (load_each eps (admit ep.name o modules seen)).0)
          (sym is_none) (passed ep eps modules _ (there _) (rest modules seen d agrees))
    | inr (m, is_m, current, is_some) ↦
        subst (λ o. IsRegistry (ep ∷ eps) modules (load_each eps (admit ep.name o modules seen)).0)
          (sym is_some) (place-IsRegistry m (lookup m.name seen) is_m current (agrees m.name))
  ]

load_each-IsRegistry : (eps : List EntryPoint) → Rest eps
unfolding load_each
load_each-IsRegistry [] modules seen d agrees = record {
  added = [];
  kept = sym (append-nil modules);
  picked = no_more;
  unique = d;
  complete = tt;
}
load_each-IsRegistry (ep ∷ eps) modules seen d agrees =
    admit-IsRegistry ep eps (load_each-IsRegistry eps) modules seen d agrees

-- If no two built-in modules have the same name, then whatever the entry points of the group give or
-- raise: the modules that are loaded are the built-in ones, in their order, and after them some that
-- entry points gave, in the order of the entry points and each of the current version; no two have
-- the same name; and every module of the current version that an entry point gave has its name
-- among them.
pub load_modules-IsRegistry :
    (builtins : List Manifest) (eps : List EntryPoint)
    → distinct (names builtins) ≡ true
    → IsRegistry eps builtins (load_modules builtins eps)
unfolding load_modules lookup
load_modules-IsRegistry builtins eps d =
    load_each-IsRegistry eps builtins (seen_builtins builtins []) d
      (λ k. ground (arith, Agrees-seen_builtins builtins [] k))

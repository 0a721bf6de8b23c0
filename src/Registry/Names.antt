-- ===== src/Registry/Names.antt =====
-- The names of the modules that src/nixadmin/registry.py loads.
use nixadmin.Prelude.Membership.{contains-append}
use nixadmin.Prelude.{
  ◌≡◌, refl, String, Bool, true, false, not, ◌&&◌, ◌||◌, Option, none, some, List, [], ◌∷◌, ◌++◌,
  contains, string_eq, map, arith,
}
use nixadmin.Prelude.Dict.{Dict, lookup, insert, lookup-insert}
use nixadmin.Registry.{Manifest, seen_builtins}

abbrev pub names : List Manifest → List String
names ms = map (λ m. m.name) ms

-- No name is there twice.
abbrev pub distinct : List String → Bool
distinct [] = true
distinct (x ∷ xs) = not (contains xs x) && distinct xs

abbrev pub known : Option String → Bool
known none = false
known (some v) = true

pub distinct-append :
    (xs : List String) (x : String)
    → distinct xs ≡ true
    → contains xs x ≡ false
    → distinct (xs ++ (x ∷ [])) ≡ true
distinct-append [] x d h = refl
distinct-append (y ∷ xs) x d h = ground (arith, distinct-append xs x, contains-append xs (x ∷ []) y)

-- `seen` has the names of the modules.
abbrev pub Agrees : Dict String String → List String → Type 0
Agrees seen xs = (k : String) → known (lookup k seen) ≡ contains xs k

pub Agrees-insert :
    (seen : Dict String String) (xs : List String) (k v : String)
    → Agrees seen xs
    → Agrees (insert k v seen) (xs ++ (k ∷ []))
Agrees-insert seen xs k v h j =
    ground (arith, lookup-insert k j v seen, contains-append xs (k ∷ []) j, h j)

pub Agrees-seen_builtins :
    (ms : List Manifest) (seen : Dict String String) (k : String)
    → known (lookup k (seen_builtins ms seen)) ≡ (contains (names ms) k || known (lookup k seen))
unfolding seen_builtins
Agrees-seen_builtins [] seen k = refl
Agrees-seen_builtins (m ∷ ms) seen k = ground (
  arith,
  lookup-insert m.name k "builtin" seen,
  Agrees-seen_builtins ms (insert m.name "builtin" seen) k,
)

-- ===== src/Prelude/Membership.antt =====
-- Which values are in a list that was joined, or that lost a value.
use mathlib.Core.Path.{◌≡◌, refl}
use mathlib.Core.Bool.{false, not, ◌||◌}
use mathlib.Core.List.{List, [], ◌∷◌, ◌++◌}
use native.Mathlib.Omega.{arith}
use nixadmin.Prelude.Tests.{if◌then◌else◌}
use nixadmin.Prelude.Lists.{keep}
use nixadmin.Prelude.Equality.{Eq, ◌==◌, contains}

module _ {A : Type 0} ⦃e : Eq A⦄ where
  pub contains-append :
      (xs ys : List A) (a : A) → contains (xs ++ ys) a ≡ (contains xs a || contains ys a)
  contains-append [] ys a = refl
  contains-append (x ∷ xs) ys a = ground (arith, contains-append xs ys a)

  pub contains-without :
      (x a : A) (xs : List A)
      → contains (keep (λ y. not (x == y)) xs) a ≡ (if a == x then false else contains xs a)
  contains-without x a [] = ground arith
  contains-without x a (y ∷ xs) = ground (arith, contains-without x a xs)

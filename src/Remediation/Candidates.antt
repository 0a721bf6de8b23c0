-- ===== src/Remediation/Candidates.antt =====
-- The units among which `run` of src/nixadmin/remediation.py chooses.
use nixadmin.Prelude.{
  ◌≡◌, ◌≢◌, refl, String, Bool, true, false, ◌&&◌, List, [], ◌∷◌, ◌==◌, contains, string_eq, keep,
  some_of, All, if◌then◌else◌, arith,
}
use nixadmin.Prelude.Case.{lower}
use nixadmin.Prelude.Text.{strip}
use nixadmin.Remediation.{UnitRow, choose, distinct, preferred}
use nixadmin.Remediation.Matching.{fits, hits, match_unit, candidates, has_failed, IsMatch}

-- No name twice.
abbrev pub AreDistinct : List String → Type 0
AreDistinct [] = Unit
AreDistinct (x ∷ xs) = (contains xs x ≡ false) × AreDistinct xs

-- What the candidates for a target are.
pub record AreCandidates (target : String) (units : List UnitRow) (names : List String)
    : Type 0 where
  pub matching : All (IsMatch target units) names
  pub failed_first :
      some_of (has_failed units) (match_unit target units) ≡ true
      → All (λ name. has_failed units name ≡ true) names
  pub different : AreDistinct names

module _ {A : Type 0} {P Q : A → Type 0} where
  all_map : ((x : A) → P x → Q x) → (xs : List A) → All P xs → All Q xs
  all_map f [] all = tt
  all_map f (x ∷ xs) (p, all) = (f x p, all_map f xs all)

all_keep :
    (P : String → Type 0) (p : String → Bool) (xs : List String) → All P xs → All P (keep p xs)
all_keep P p [] all = tt
all_keep P p (x ∷ xs) (px, all) =
    elim (p x) as (λ b. All P (elim b [ true ↦ x ∷ keep p xs | false ↦ keep p xs ])) [
      | true ↦ (px, all_keep P p xs all)
      | false ↦ all_keep P p xs all
    ]

kept_head :
    (p : String → Bool) (x : String) (rest : List String) (b : Bool)
    → p x ≡ b
    → All (λ y. p y ≡ true) rest
    → All (λ y. p y ≡ true) (elim b [ true ↦ x ∷ rest | false ↦ rest ])
kept_head p x rest true h all = (h, all)
kept_head p x rest false h all = all

kept : (p : String → Bool) (xs : List String) → All (λ x. p x ≡ true) (keep p xs)
kept p [] = tt
kept p (x ∷ xs) = kept_head p x (keep p xs) (p x) refl (kept p xs)

all_distinct : (P : String → Type 0) (seen xs : List String) → All P xs → All P (distinct seen xs)
unfolding distinct
all_distinct P seen [] all = tt
all_distinct P seen (x ∷ xs) (px, all) =
    elim (contains seen x)
      as (λ b. All P (if b then distinct seen xs else x ∷ distinct (x ∷ seen) xs)) [
        | true ↦ all_distinct P seen xs all
        | false ↦ (px, all_distinct P (x ∷ seen) xs all)
      ]

later : (b r : Bool) → r ≡ true → (elim b [ true ↦ true | false ↦ r ]) ≡ true
later true r h = refl
later false r h = h

here :
    (name : String) (b r : Bool)
    → b ≡ true
    → (elim (name == name && b) [ true ↦ true | false ↦ r ]) ≡ true
here name b r h = ground arith

Fitting : String → List UnitRow → String → Type 0
Fitting t units name = some_of (λ u. u.name == name && fits t u) units ≡ true

hits_head :
    (t : String) (u : UnitRow) (units : List UnitRow) (b : Bool)
    → fits t u ≡ b
    → All (Fitting t (u ∷ units)) (hits t units)
    → All (Fitting t (u ∷ units)) (if b then u.name ∷ hits t units else hits t units)
unfolding Fitting
hits_head t u units true h all =
    (here u.name (fits t u) (some_of (λ v. v.name == u.name && fits t v) units) h, all)
hits_head t u units false h all = all

hits-Fitting : (t : String) (units : List UnitRow) → All (Fitting t units) (hits t units)
unfolding hits Fitting
hits-Fitting t [] = tt
hits-Fitting t (u ∷ units) = hits_head t u units (fits t u) refl (
    all_map
      (λ name h.
        later (u.name == name && fits t u) (some_of (λ v. v.name == name && fits t v) units) h)
      (hits t units) (hits-Fitting t units))

match_unit-IsMatch :
    (target : String) (units : List UnitRow) → All (IsMatch target units) (match_unit target units)
unfolding match_unit Fitting
match_unit-IsMatch target units =
    let t = strip (lower target) in
    elim (t == "") as (λ b. All (IsMatch target units) (if b then [] else hits t units)) [
      | true ↦ tt
      | false ↦ hits-Fitting t units
    ]

-- The names that `choose` prefers, or all.
prefer :
    (P : String → Type 0) (names failed : List String)
    → All P names
    → All P failed
    → All P (preferred names failed)
prefer P names [] all some_ = all
prefer P names (x ∷ xs) all some_ = some_

all_choose :
    (P : String → Type 0) (names : List String) (units : List UnitRow)
    → All P names
    → All P (choose names units)
unfolding choose
all_choose P names units all =
    prefer P names (keep (has_failed units) names) all (all_keep P (has_failed units) names all)

kept_some_head :
    (x : String) (rest : List String) (b r : Bool)
    → (elim b [ true ↦ true | false ↦ r ]) ≡ true
    → (r ≡ true → rest ≢ [])
    → (elim b [ true ↦ x ∷ rest | false ↦ rest ]) ≢ []
kept_some_head x rest true r h ih e = absurd cc
kept_some_head x rest false r h ih e = ih h e

kept_some : (p : String → Bool) (xs : List String) → some_of p xs ≡ true → keep p xs ≢ []
kept_some p [] h = absurd cc
kept_some p (x ∷ xs) h = kept_some_head x (keep p xs) (p x) (some_of p xs) h (kept_some p xs)

prefer_some :
    (P : String → Type 0) (names failed : List String)
    → failed ≢ []
    → All P failed
    → All P (preferred names failed)
prefer_some P names [] some_ all = absurd (some_ refl)
prefer_some P names (x ∷ xs) some_ all = all

apart :
    (x : String) (seen ys : List String)
    → All (λ y. contains (x ∷ seen) y ≡ false) ys
    → contains ys x ≡ false
apart x seen [] all = refl
apart x seen (y ∷ ys) (h, all) = ground (arith, apart x seen ys all)

unseen :
    (x y : String) (seen : List String) → contains (x ∷ seen) y ≡ false → contains seen y ≡ false
unseen x y seen h = ground arith

fresh_head :
    (seen xs : List String) (x : String) (b : Bool)
    → contains seen x ≡ b
    → All (λ y. contains seen y ≡ false) (distinct seen xs)
    → All (λ y. contains (x ∷ seen) y ≡ false) (distinct (x ∷ seen) xs)
    → All
        (λ y. contains seen y ≡ false)
        (if b then distinct seen xs else x ∷ distinct (x ∷ seen) xs)
fresh_head seen xs x true h skip rest = skip
fresh_head seen xs x false h skip rest =
    (h, all_map (λ y. unseen x y seen) (distinct (x ∷ seen) xs) rest)

fresh : (seen xs : List String) → All (λ x. contains seen x ≡ false) (distinct seen xs)
unfolding distinct
fresh seen [] = tt
fresh seen (x ∷ xs) =
    fresh_head seen xs x (contains seen x) refl (fresh seen xs) (fresh (x ∷ seen) xs)

distinct-AreDistinct : (seen xs : List String) → AreDistinct (distinct seen xs)
unfolding distinct
distinct-AreDistinct seen [] = tt
distinct-AreDistinct seen (x ∷ xs) =
    elim (contains seen x)
      as (λ b. AreDistinct (if b then distinct seen xs else x ∷ distinct (x ∷ seen) xs)) [
        | true ↦ distinct-AreDistinct seen xs
        | false ↦ (
          apart x seen (distinct (x ∷ seen) xs) (fresh (x ∷ seen) xs),
          distinct-AreDistinct (x ∷ seen) xs,
        )
      ]

-- The units that a request to restart comes down to are units of the machine that fit its target,
-- each once; and if one of those that fit has failed, only units that have failed are offered.
pub candidates-AreCandidates :
    (target : String) (units : List UnitRow) → AreCandidates target units (candidates target units)
unfolding candidates choose
candidates-AreCandidates target units =
    let names = match_unit target units in
    let failed = keep (has_failed units) names in
    record {
      matching =
          all_distinct (IsMatch target units) [] (choose names units)
            (all_choose (IsMatch target units) names units (match_unit-IsMatch target units));
      failed_first = λ h.
          all_distinct (λ name. has_failed units name ≡ true) [] (choose names units)
            (prefer_some (λ name. has_failed units name ≡ true) names failed
              (kept_some (has_failed units) names h) (kept (has_failed units) names));
      different = distinct-AreDistinct [] (choose names units);
    }

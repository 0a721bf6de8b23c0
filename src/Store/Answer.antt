-- ===== src/Store/Answer.antt =====
-- What `_query` of src/nixadmin/store.py promises, without its own tests and its own order.
use mathlib.Core.List.{Perm}
use mathlib.Core.List.Perm
use nixadmin.Prelude.{
  ℕ, zero, suc, min, ◌≤◌, ◌<◌, ◌≡◌, refl, Bool, true, not, ◌==◌, string_eq, option_eq, Option, none,
  some, List, [], ◌∷◌, ◌++◌, keep, leb, ltb, leb→le, le→leb, ltb→lt, lt→ltb, All, Bool-cases,
  and-true, ◌⊎◌, inl, inr, arith, eq-true,
}
use nixadmin.Prelude.Int.{ℤ, pos, negsuc}
use nixadmin.Store.{Row, Filter, holds, below, matches, newer, place, order_by, clamp}
use nixadmin.Store.Sorted.{NotOlder, IsSorted}

-- A condition, if it is given.
abbrev pub Given : {A : Type 0} → (A → Type 0) → Option A → Type 0
Given P none = Unit
Given P (some a) = P a

abbrev pub BelowId : ℕ → ℤ → Type 0
BelowId id (pos n) = id < n
BelowId id (negsuc n) = ⊥

-- The row is of the unit and of the kind, not before the time, and its identifier is below the
-- cursor; each where it is given.
abbrev pub Meets : Filter → Row → Type 0
Meets f r =
    Given (λ u. r.unit ≡ some u) f.unit
    × Given (λ k. r.kind ≡ k) f.kind
    × Given (λ t. t ≤ r.ts) f.since
    × Given (BelowId r.id) f.before_id

-- Rows by falling times, and by falling identifiers where times are equal.
abbrev pub Precedes : Row → List Row → Type 0
Precedes r [] = Unit
Precedes r (x ∷ rows) = (x.ts < r.ts) ⊎ ((x.ts ≡ r.ts) × (x.id ≤ r.id))

abbrev pub IsOrdered : List Row → Type 0
IsOrdered [] = Unit
IsOrdered (r ∷ rows) = Precedes r rows × IsOrdered rows

-- The limit, but at least 1 and at most 1000.
abbrev pub capacity : ℤ → ℕ
capacity (pos zero) = 1
capacity (pos (suc n)) = min (suc n) 1000
capacity (negsuc n) = 1

pub clamp-capacity : (limit : ℤ) → clamp limit ≡ capacity limit
unfolding clamp
clamp-capacity (pos zero) = refl
clamp-capacity (pos (suc n)) = omega arith
clamp-capacity (negsuc n) = refl

pub capacity-le : (limit : ℤ) → capacity limit ≤ 1000
capacity-le (pos zero) = omega arith
capacity-le (pos (suc n)) = omega arith
capacity-le (negsuc n) = omega arith

holds-Given :
    {A : Type 0} (test : A → Bool) (P : A → Type 0) (o : Option A)
    → ((a : A) → test a ≡ true → P a)
    → holds test o ≡ true
    → Given P o
holds-Given test P none sound h = tt
holds-Given test P (some a) sound h = sound a h

Given-holds :
    {A : Type 0} (test : A → Bool) (P : A → Type 0) (o : Option A)
    → ((a : A) → P a → test a ≡ true)
    → Given P o
    → holds test o ≡ true
Given-holds test P none full h = refl
Given-holds test P (some a) full h = full a h

below-BelowId : (id : ℕ) (b : ℤ) → below id b ≡ true → BelowId id b
unfolding below
below-BelowId id (pos n) h = ltb→lt id n h
below-BelowId id (negsuc n) h = absurd (ground (arith, h))

BelowId-below : (id : ℕ) (b : ℤ) → BelowId id b → below id b ≡ true
unfolding below
BelowId-below id (pos n) h = lt→ltb id n h
BelowId-below id (negsuc n) h = absurd h

pub matches-Meets : (f : Filter) (r : Row) → matches f r ≡ true → Meets f r
unfolding matches
matches-Meets f r h =
    let (h₁, b) = and-true _ _ h in
    let (h₂, t) = and-true _ _ h₁ in
    let (u, k) = and-true _ _ h₂ in
    (
      holds-Given _ _ f.unit (λ a e. eq-true r.unit (some a) e) u,
      holds-Given _ _ f.kind (λ a e. eq-true r.kind a e) k,
      holds-Given _ _ f.since (λ a e. leb→le a r.ts e) t,
      holds-Given _ _ f.before_id (λ a e. below-BelowId r.id a e) b,
    )

Meets-matches : (f : Filter) (r : Row) → Meets f r → matches f r ≡ true
unfolding matches
Meets-matches f r (u, k, t, b) =
    let eu = Given-holds (λ u. r.unit == some u) _ f.unit (λ a e. ground (arith, e)) u in
    let ek = Given-holds (λ k. r.kind == k) _ f.kind (λ a e. ground (arith, e)) k in
    let et = Given-holds (λ t. leb t r.ts) _ f.since (λ a e. le→leb a r.ts e) t in
    let eb = Given-holds (below r.id) _ f.before_id (λ a e. BelowId-below r.id a e) b in
    rw (eu, ek, et, eb) refl

keep-Meets : (f : Filter) (rows : List Row) → All (Meets f) (keep (matches f) rows)
keep-Meets f [] = tt
keep-Meets f (r ∷ rows) = elim (Bool-cases (matches f r)) [
  | inl e ↦ rw (e, keep) (matches-Meets f r e, keep-Meets f rows)
  | inr e ↦ rw (e, keep) (keep-Meets f rows)
]

pub keep-not-Meets :
    (f : Filter) (rows : List Row) → All (λ r. ¬ Meets f r) (keep (λ r. not (matches f r)) rows)
keep-not-Meets f [] = tt
keep-not-Meets f (r ∷ rows) = elim (Bool-cases (matches f r)) [
  | inl e ↦ rw (e, keep) (keep-not-Meets f rows)
  | inr e ↦
      rw (e, keep) (λ m. absurd (ground (arith, e, Meets-matches f r m)), keep-not-Meets f rows)
]

middle-Perm : (a : Row) (xs ys : List Row) → Perm (xs ++ (a ∷ ys)) (a ∷ (xs ++ ys))
middle-Perm a [] ys = Perm.refl _
middle-Perm a (x ∷ xs) ys =
    Perm.trans (Perm.cons x (middle-Perm a xs ys)) (Perm.swap a x (xs ++ ys))

pub keep-Perm :
    (p : Row → Bool) (rows : List Row) → Perm (keep p rows ++ keep (λ r. not (p r)) rows) rows
keep-Perm p [] = Perm.refl _
keep-Perm p (r ∷ rows) = elim (Bool-cases (p r)) [
  | inl e ↦ rw (e, keep) (Perm.cons r (keep-Perm p rows))
  | inr e ↦
      rw (e, keep)
        (Perm.trans (middle-Perm r (keep p rows) (keep (λ r. not (p r)) rows))
          (Perm.cons r (keep-Perm p rows)))
]

place-All : (P : Row → Type 0) (r : Row) (rows : List Row) → P r → All P rows → All P (place r rows)
unfolding place
place-All P r [] h hs = (h, tt)
place-All P r (x ∷ rows) h hs = elim (Bool-cases (newer r x)) [
  | inl e ↦ rw e (h, hs)
  | inr e ↦ rw e (hs.0, place-All P r rows h hs.1)
]

order_by-All : (P : Row → Type 0) (rows : List Row) → All P rows → All P (order_by rows)
unfolding order_by
order_by-All P [] hs = tt
order_by-All P (r ∷ rows) hs = place-All P r (order_by rows) hs.0 (order_by-All P rows hs.1)

pub sorted-Meets : (f : Filter) (rows : List Row) → All (Meets f) (order_by (keep (matches f) rows))
sorted-Meets f rows = order_by-All (Meets f) _ (keep-Meets f rows)

NotOlder-Precedes : (r : Row) (rows : List Row) → NotOlder r rows → Precedes r rows
unfolding newer
NotOlder-Precedes r [] h = tt
NotOlder-Precedes r (x ∷ rows) h = elim (Bool-cases (ltb x.ts r.ts)) [
  | inl e ↦ inl (ltb→lt x.ts r.ts e)
  | inr e ↦ inr (ground (arith, h, e), ground (arith, h, e))
]

pub sorted-IsOrdered : (rows : List Row) → IsSorted rows → IsOrdered rows
sorted-IsOrdered [] h = tt
sorted-IsOrdered (r ∷ rows) h = (NotOlder-Precedes r rows h.0, sorted-IsOrdered rows h.1)

-- ===== src/Store/Sorted.antt =====
-- The order of the rows: as the table holds them, and as ORDER BY ts DESC, id DESC gives them.
use mathlib.Core.List.{Perm}
use mathlib.Core.List.Perm
use nixadmin.Prelude.{
  ℕ, ◌≤◌, ◌<◌, ◌≡◌, refl, Bool, true, false, inl, inr, List, [], ◌∷◌, keep, arith,
}
use nixadmin.Prelude.{Bool-cases}
use nixadmin.Store.{Row, newer, place, order_by}

-- Identifiers fall strictly down the table, from below `n`.
abbrev pub Desc : ℕ → List Row → Type 0
Desc n [] = Unit
Desc n (r ∷ rows) = (r.id < n) × Desc r.id rows

-- Times do not rise down the table, from `t`: the clock was not set back between insertions.
abbrev pub Chron : ℕ → List Row → Type 0
Chron t [] = Unit
Chron t (r ∷ rows) = (r.ts ≤ t) × Chron r.ts rows

pub Desc-weaken : (n m : ℕ) (rows : List Row) → n ≤ m → Desc n rows → Desc m rows
Desc-weaken n m [] le h = tt
Desc-weaken n m (r ∷ rows) le h = (omega arith, h.1)

pub Chron-weaken : (t u : ℕ) (rows : List Row) → t ≤ u → Chron t rows → Chron u rows
Chron-weaken t u [] le h = tt
Chron-weaken t u (r ∷ rows) le h = (omega arith, h.1)

pub keep-Desc : (p : Row → Bool) (n : ℕ) (rows : List Row) → Desc n rows → Desc n (keep p rows)
keep-Desc p n [] h = tt
keep-Desc p n (r ∷ rows) h = ground (
  arith,
  keep-Desc p r.id rows h.1,
  keep-Desc p n rows (Desc-weaken r.id n rows (omega arith) h.1),
)

pub keep-Chron : (p : Row → Bool) (t : ℕ) (rows : List Row) → Chron t rows → Chron t (keep p rows)
keep-Chron p t [] h = tt
keep-Chron p t (r ∷ rows) h = ground (
  arith,
  keep-Chron p r.ts rows h.1,
  keep-Chron p t rows (Chron-weaken r.ts t rows (omega arith) h.1),
)

place-newest :
    (r : Row) (rows : List Row) → Desc r.id rows → Chron r.ts rows → place r rows ≡ r ∷ rows
unfolding place newer
place-newest r [] h k = refl
place-newest r (x ∷ rows) h k = ground arith

-- With identifiers and times falling, sorting has nothing to do.
pub order_by-Chron : (n t : ℕ) (rows : List Row) → Desc n rows → Chron t rows → order_by rows ≡ rows
unfolding order_by
order_by-Chron n t [] h k = refl
order_by-Chron n t (r ∷ rows) h k =
    rw (order_by-Chron r.id r.ts rows h.1 k.1) (place-newest r rows h.1 k.1)

-- Each row comes before those that are not newer than it.
abbrev pub NotOlder : Row → List Row → Type 0
NotOlder r [] = Unit
NotOlder r (x ∷ rows) = newer x r ≡ false

abbrev pub IsSorted : List Row → Type 0
IsSorted [] = Unit
IsSorted (r ∷ rows) = NotOlder r rows × IsSorted rows

place-NotOlder :
    (x r : Row) (rows : List Row) → newer r x ≡ false → NotOlder x rows → NotOlder x (place r rows)
unfolding place
place-NotOlder x r [] h k = h
place-NotOlder x r (y ∷ rows) h k = elim (Bool-cases (newer r y)) [
  | inl e ↦ rw e h
  | inr e ↦ rw e k
]

newer_asym : (a b : Row) → newer a b ≡ true → newer b a ≡ false
unfolding newer
newer_asym a b h = ground arith

place-IsSorted : (r : Row) (rows : List Row) → IsSorted rows → IsSorted (place r rows)
unfolding place
place-IsSorted r [] h = (tt, tt)
place-IsSorted r (x ∷ rows) h = elim (Bool-cases (newer r x)) [
  | inl e ↦ rw e (newer_asym r x e, h)
  | inr e ↦ rw e (place-NotOlder x r rows e h.0, place-IsSorted r rows h.1)
]

pub order_by-IsSorted : (rows : List Row) → IsSorted (order_by rows)
unfolding order_by
order_by-IsSorted [] = tt
order_by-IsSorted (r ∷ rows) = place-IsSorted r (order_by rows) (order_by-IsSorted rows)

place-Perm : (r : Row) (rows : List Row) → Perm (place r rows) (r ∷ rows)
unfolding place
place-Perm r [] = Perm.refl _
place-Perm r (x ∷ rows) = elim (Bool-cases (newer r x)) [
  | inl e ↦ rw e (Perm.refl _)
  | inr e ↦ rw e (Perm.trans (Perm.cons x (place-Perm r rows)) (Perm.swap r x rows))
]

pub order_by-Perm : (rows : List Row) → Perm (order_by rows) rows
unfolding order_by
order_by-Perm [] = Perm.refl _
order_by-Perm (r ∷ rows) =
    Perm.trans (place-Perm r (order_by rows)) (Perm.cons r (order_by-Perm rows))

-- ===== src/Tasks/Orderly.antt =====
-- The table of a connection's queries against the tasks that run, in src/nixadmin/server.py.
use nixadmin.Prelude.Membership.{contains-without}
use nixadmin.Prelude.{
  ℕ, ◌+◌, ◌<◌, ◌≡◌, refl, sym, ap, ◌∙◌, String, Bool, true, false, not, ◌&&◌, Option, none, some,
  List, [], ◌∷◌, ◌==◌, contains, string_eq, nat_eq, option_eq, if◌then◌else◌, arith, Bool-cases,
  inl, inr, eq-true,
}
use nixadmin.Prelude.Dict.{Dict, lookup, insert, lookup-insert, lookup-remove}
use nixadmin.Tasks.{
  Work, at_first, spawned, cancel_found, query_of, forget_query, discard, pop_query, finished,
}

-- A task, if it runs.
abbrev pub if_runs : List ℕ → Option ℕ → Option ℕ
if_runs owned none = none
if_runs owned (some n) = if contains owned n then some n else none

-- The numbers of the tasks fall, from below a bound.
abbrev Falling : ℕ → Dict String ℕ → Type 0
Falling k [] = Unit
Falling k ((id, n) ∷ begun) = (n < k) × Falling n begun

abbrev AllBelow : ℕ → List ℕ → Type 0
AllBelow k [] = Unit
AllBelow k (n ∷ ns) = (n < k) × AllBelow k ns

-- The table holds, for each listed identifier, the newest query begun with it, if that runs.
pub record IsOrderly (listed : String → Bool) (w : Work) : Type 0 where
  pub falling : Falling w.next w.begun
  pub below : AllBelow w.next w.owned
  pub current :
      (id : String)
      → lookup id w.tasks ≡ (if listed id then if_runs w.owned (lookup id w.begun) else none)

pub Falling-later : (k : ℕ) (begun : Dict String ℕ) → Falling k begun → Falling (k + 1) begun
Falling-later k [] h = tt
Falling-later k ((id, n) ∷ begun) h = (omega (arith, h.0), h.1)

pub AllBelow-later : (k : ℕ) (ns : List ℕ) → AllBelow k ns → AllBelow (k + 1) ns
AllBelow-later k [] h = tt
AllBelow-later k (n ∷ ns) h = (omega (arith, h.0), AllBelow-later k ns h.1)

if-AllBelow :
    (k : ℕ) (b : Bool) (xs ys : List ℕ)
    → AllBelow k xs
    → AllBelow k ys
    → AllBelow k (elim b [ true ↦ xs | false ↦ ys ])
if-AllBelow k true xs ys hx hy = hx
if-AllBelow k false xs ys hx hy = hy

AllBelow-discard : (k n : ℕ) (ns : List ℕ) → AllBelow k ns → AllBelow k (discard n ns)
AllBelow-discard k n [] h = tt
AllBelow-discard k n (m ∷ ns) h =
    let ih = AllBelow-discard k n ns h.1 in if-AllBelow k (not (n == m)) _ _ (h.0, ih) ih

-- The number of a query that was begun is below the bound, and leads back to the query.
lookup-Falling :
    (k : ℕ) (begun : Dict String ℕ) (id : String) (n : ℕ)
    → Falling k begun
    → lookup id begun ≡ some n
    → (n < k) × (query_of n begun ≡ some id)
unfolding lookup query_of
lookup-Falling k [] id n f h = absurd (ground (arith, h))
lookup-Falling k ((j, m) ∷ begun) id n f h = elim (Bool-cases (id == j)) [
  | inl same ↦ ground (arith, same, h)
  | inr differ ↦ let ih = lookup-Falling m begun id n f.1 (rw differ at h) in ground (arith, ih, f)
]

-- A task that is new does not change which older ones run.
if_runs-new :
    (k : ℕ) (owned : List ℕ) (o : Option ℕ)
    → ((n : ℕ) → o ≡ some n → n < k)
    → if_runs (k ∷ owned) o ≡ if_runs owned o
if_runs-new k owned none h = refl
if_runs-new k owned (some n) h = ground (arith, h n refl)

newest-below :
    (l : String → Bool) (w : Work) (id : String)
    → IsOrderly l w
    → (n : ℕ) → lookup id w.begun ≡ some n
    → n < w.next
newest-below l w id h n e = (lookup-Falling w.next w.begun id n h.falling e).0

if-none : (b : Bool) (o p : Option ℕ) → o ≡ p → (if b then o else none) ≡ (if b then p else none)
if-none b o p e = ap (λ o. if b then o else none) e

pub at_first-IsOrderly : IsOrderly (λ id. false) at_first
unfolding lookup
at_first-IsOrderly = record { falling = tt; below = tt; current = λ id. refl }

module _ (l : String → Bool) where
  pub spawned-IsOrderly : (w : Work) → IsOrderly l w → IsOrderly l (spawned w)
  spawned-IsOrderly w h = record {
    falling = Falling-later w.next w.begun h.falling;
    below = (omega arith, AllBelow-later w.next w.owned h.below);
    current = λ id.
        h.current id
        ∙ if-none (l id) _ _
            (sym (if_runs-new w.next w.owned (lookup id w.begun) (newest-below l w id h)));
  }

  pub queried-IsOrderly :
      (id : String) (w : Work)
      → IsOrderly l w
      → IsOrderly
          (λ j. if j == id then true else l j)
          (record (spawned w) { tasks = insert id w.next w.tasks; begun = (id, w.next) ∷ w.begun })
  unfolding lookup
  queried-IsOrderly id w h = record {
    falling = (omega arith, h.falling);
    below = (omega arith, AllBelow-later w.next w.owned h.below);
    current = λ j. elim (Bool-cases (j == id)) [
      | inl same ↦ ground (arith, same, lookup-insert id j w.next w.tasks)
      | inr differ ↦
          lookup-insert id j w.next w.tasks
          ∙ rw differ (
              h.current j
              ∙ if-none (l j) _ _
                  (sym (if_runs-new w.next w.owned (lookup j w.begun) (newest-below l w j h))))
    ];
  }

  pub left-IsOrderly :
      (q : Option String) (w : Work)
      → IsOrderly l w
      → IsOrderly
          (λ j. if q == some j then false else l j)
          (record w { tasks = pop_query q w.tasks })
  left-IsOrderly none w h = record {
    falling = h.falling;
    below = h.below;
    current = λ j. ground (arith, h.current j);
  }
  left-IsOrderly (some id) w h = record {
    falling = h.falling;
    below = h.below;
    current = λ j. ground (arith, h.current j, lookup-remove id j w.tasks);
  }

lookup-forget_query :
    (n : ℕ) (q : Option String) (tasks : Dict String ℕ) (id : String)
    → lookup id (forget_query n q tasks)
      ≡ (if q == some id && lookup id tasks == some n then none else lookup id tasks)
lookup-forget_query n none tasks id = ground arith
lookup-forget_query n (some j) tasks id = elim (Bool-cases (lookup j tasks == some n)) [
  | inl there ↦ rw there (ground (arith, there, lookup-remove j id tasks))
  | inr absent ↦ rw absent (ground (arith, absent))
]

-- What a task's end leaves of the query that an identifier stands for.
forgotten :
    (n : ℕ) (owned : List ℕ) (q : Option String) (id : String) (o found : Option ℕ)
    → contains owned n ≡ true
    → found ≡ if_runs owned o
    → ((m : ℕ) → o ≡ some m → n ≡ m → q ≡ some id)
    → (if q == some id && found == some n then none else found) ≡ if_runs (discard n owned) o
forgotten n owned q id none found runs e led = ground (arith, e)
forgotten n owned q id (some m) found runs e led = elim (Bool-cases (n == m)) [
  | inl same ↦
      ground (arith, same, runs, e, contains-without n m owned, led m refl (eq-true n m same))
  | inr differ ↦ ground (arith, differ, runs, e, contains-without n m owned)
]

listed-forgotten :
    (listed : Bool) (n : ℕ) (owned : List ℕ) (q : Option String) (id : String) (o found : Option ℕ)
    → contains owned n ≡ true
    → found ≡ (if listed then if_runs owned o else none)
    → ((m : ℕ) → o ≡ some m → n ≡ m → q ≡ some id)
    → (if q == some id && found == some n then none else found)
      ≡ (if listed then if_runs (discard n owned) o else none)
listed-forgotten true n owned q id o found runs e led = forgotten n owned q id o found runs e led
listed-forgotten false n owned q id o found runs e led = ground (arith, e)

module _ (l : String → Bool) where
  pub if-IsOrderly :
      (b : Bool) (v w : Work)
      → (b ≡ true → IsOrderly l v)
      → (b ≡ false → IsOrderly l w)
      → IsOrderly l (if b then v else w)
  if-IsOrderly true v w hv hw = hv refl
  if-IsOrderly false v w hv hw = hw refl

  pub finished-IsOrderly : (n : ℕ) (w : Work) → IsOrderly l w → IsOrderly l (finished n w)
  unfolding finished
  finished-IsOrderly n w h =
      if-IsOrderly (contains w.owned n) _ _
        (λ runs. record {
          falling = h.falling;
          below = AllBelow-discard w.next n w.owned h.below;
          current = λ id.
              lookup-forget_query n (query_of n w.begun) w.tasks id
              ∙ listed-forgotten (l id) n w.owned (query_of n w.begun) id (lookup id w.begun)
                  (lookup id w.tasks) runs (h.current id)
                  (λ m e same.
                    ap (λ k. query_of k w.begun) same
                    ∙ (lookup-Falling w.next w.begun id m h.falling e).1);
        })
        (λ _. h)

  pub cancelled-IsOrderly :
      (o : Option ℕ) (w : Work) → IsOrderly l w → IsOrderly l (cancel_found o w)
  cancelled-IsOrderly none w h = h
  cancelled-IsOrderly (some n) w h = record {
    falling = h.falling;
    below = h.below;
    current = h.current;
  }

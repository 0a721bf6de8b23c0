-- ===== src/Tasks/Current.antt =====
-- Which query a cancel reaches, in src/nixadmin/server.py.
use nixadmin.Prelude.{
  ℕ, ◌≡◌, refl, ap, ◌∙◌, String, Bool, true, false, Option, none, some, List, [], ◌∷◌, ◌==◌,
  contains, string_eq, nat_eq, option_eq, if◌then◌else◌,
}
use nixadmin.Prelude.Dict.{lookup}
use nixadmin.Tasks.{
  Work, spawn, on_query, cancel_found, on_cancel, query_of, leave, left, close, aclose, Event,
  query, cancel, request, lost, stopped, elsewhere, done, step, after,
}
use nixadmin.Tasks.Orderly.{
  if_runs, IsOrderly, at_first-IsOrderly, spawned-IsOrderly, queried-IsOrderly, left-IsOrderly,
  finished-IsOrderly, cancelled-IsOrderly, if-IsOrderly, Falling-later, AllBelow-later,
}

-- Whether a query with an identifier was begun, and since the newest one was, none with the
-- identifier came to the end of its work; the newest event first.
unfoldable pub is_listed : List Event → String → Bool
is_listed [] id = false
is_listed (query j ∷ es) id =
    let rest = is_listed es id in
    let began = if id == j then true else rest in if (after es).closing then rest else began
is_listed (left n ∷ es) id =
    let rest = is_listed es id in
    let kept = if query_of n (after es).begun == some id then false else rest in
    if contains (after es).owned n then kept else rest
is_listed (e ∷ es) id = is_listed es id

-- A step under a guard, with what it lists.
guarded-IsOrderly :
    (b : Bool) (l m : String → Bool) (v w : Work)
    → (b ≡ true → IsOrderly l v)
    → IsOrderly m w
    → IsOrderly (λ id. if b then l id else m id) (if b then v else w)
guarded-IsOrderly true l m v w hv hw = hv refl
guarded-IsOrderly false l m v w hv hw = hw

after-IsOrderly : (es : List Event) → IsOrderly (is_listed es) (after es)
unfolding after is_listed step on_query on_cancel spawn close aclose leave
after-IsOrderly [] = at_first-IsOrderly
after-IsOrderly (query id ∷ es) =
    let h = after-IsOrderly es in
    guarded-IsOrderly (after es).closing _ _ _ _ (λ _. h)
      (queried-IsOrderly (is_listed es) id (after es) h)
after-IsOrderly (left n ∷ es) =
    let h = after-IsOrderly es in
    guarded-IsOrderly (contains (after es).owned n) _ _ _ _
      (λ _. left-IsOrderly (is_listed es) (query_of n (after es).begun) (after es) h) h
after-IsOrderly (cancel id ∷ es) =
    cancelled-IsOrderly (is_listed es) (lookup id (after es).tasks) (after es) (after-IsOrderly es)
after-IsOrderly (request ∷ es) =
    let h = after-IsOrderly es in
    if-IsOrderly (is_listed es) (after es).closing _ _ (λ _. h)
      (λ _. spawned-IsOrderly (is_listed es) (after es) h)
after-IsOrderly (lost ∷ es) =
    let h = after-IsOrderly es in
    if-IsOrderly (is_listed es) (after es).closed _ _ (λ _. h)
      (λ _. record { falling = h.falling; below = h.below; current = h.current })
after-IsOrderly (stopped ∷ es) =
    let h = after-IsOrderly es in
    record { falling = h.falling; below = h.below; current = h.current }
after-IsOrderly (elsewhere ∷ es) =
    let h = after-IsOrderly es in
    record {
      falling = Falling-later (after es).next (after es).begun h.falling;
      below = AllBelow-later (after es).next (after es).owned h.below;
      current = h.current;
    }
after-IsOrderly (done n ∷ es) = finished-IsOrderly (is_listed es) n (after es) (after-IsOrderly es)

-- The tasks whose cancellation a cancel adds: the one that is found.
abbrev pub with_cancelled : Option ℕ → List ℕ → List ℕ
with_cancelled none ns = ns
with_cancelled (some n) ns = n ∷ ns

cancel_found-cancelled :
    (o : Option ℕ) (w : Work) → (cancel_found o w).cancelled ≡ with_cancelled o w.cancelled
cancel_found-cancelled none w = refl
cancel_found-cancelled (some n) w = refl

-- Whatever a client sends, in whatever order its queries and tasks end and whatever else the daemon
-- runs: a cancel with an identifier reaches the newest query that the client began with it, if that
-- still runs and no query with the identifier has come to the end of its work since; else it
-- reaches no task.
pub on_cancel-newest :
    (es : List Event) (id : String)
    → (on_cancel id (after es)).cancelled
      ≡ with_cancelled
          (if is_listed es id then if_runs (after es).owned (lookup id (after es).begun) else none)
          (after es).cancelled
unfolding on_cancel
on_cancel-newest es id =
    cancel_found-cancelled (lookup id (after es).tasks) (after es)
    ∙ ap (λ o. with_cancelled o (after es).cancelled) ((after-IsOrderly es).current id)

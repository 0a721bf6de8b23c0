-- ===== src/Dispatch/Ended.antt =====
-- The messages that end a query of src/nixadmin/server.py, and how often its steps send one.
use nixadmin.Prelude.{
  ◌≡◌, refl, ap, String, Bool, true, false, ◌&&◌, Option, List, [], ◌∷◌, ◌==◌, string_eq,
  if◌then◌else◌, ℕ, ◌+◌,
}
use nixadmin.Prelude.Text.{strip}
use nixadmin.Prelude.Result.{Result, ok, err}
use nixadmin.Prelude.Exec.{◌>>=◌}
use nixadmin.Routing.{local, remote, Module}
use nixadmin.Dispatch.{
  run_remediation, run_action, answer_locally, run_local, payload, keep_turn, run_remote,
  stay_local,
}
use nixadmin.Effects.{
  status, delta, done, error, asked, to_remote, to_local, Trace, Fault, Note, progress, prompt,
  Query, Env, Run, add_notes, add_deltas, fault_or, joined,
}

-- The messages that end a query, in a trace.
abbrev pub terminals : Trace → ℕ
terminals [] = 0
terminals (done chain ∷ tr) = 1 + terminals tr
terminals (error text ∷ tr) = 1 + terminals tr
terminals (other ∷ tr) = terminals tr

-- The newest effect ends the query.
abbrev pub ends : Trace → Bool
ends (done chain ∷ tr) = true
ends (error text ∷ tr) = true
ends other = false

-- A part of a query that finishes has ended it; one that is stopped by a fault has not.
abbrev pub IsEnded : ℕ → Result Fault (Unit {0}) × Trace → Type 0
IsEnded n (ok u, tr) = (terminals tr ≡ 1 + n) × (ends tr ≡ true)
IsEnded n (err f, tr) = terminals tr ≡ n

module _ (E : Env) (q : Query) where
  pub terminals-add_notes :
      (ns : List Note) (tr : Trace) → terminals (add_notes ns tr) ≡ terminals tr
  terminals-add_notes [] tr = refl
  terminals-add_notes (progress text ∷ ns) tr = terminals-add_notes ns (status text ∷ tr)
  terminals-add_notes (prompt text answer ∷ ns) tr = terminals-add_notes ns (asked text answer ∷ tr)

  pub terminals-add_deltas :
      (ds : List String) (tr : Trace) → terminals (add_deltas ds tr) ≡ terminals tr
  terminals-add_deltas [] tr = refl
  terminals-add_deltas (d ∷ ds) tr = terminals-add_deltas ds (delta d ∷ tr)

  pub then-IsEnded :
      {A : Type 0} (n : ℕ) (r : Result Fault A) (f : A → Run (Unit {0})) (tr tr' : Trace)
      → terminals tr' ≡ n
      → ((a : A) → IsEnded n (f a tr'))
      → IsEnded n (((λ _. (r, tr')) >>= f) tr)
  then-IsEnded n (ok a) f tr tr' e k = k a
  then-IsEnded n (err x) f tr tr' e k = e

  pub if-IsEnded :
      (n : ℕ) (b : Bool) (x y : Run (Unit {0})) (tr : Trace)
      → IsEnded n (x tr)
      → IsEnded n (y tr)
      → IsEnded n ((if b then x else y) tr)
  if-IsEnded n true x y tr p m = p
  if-IsEnded n false x y tr p m = m

  pub run_remediation-IsEnded : (tr : Trace) → IsEnded (terminals tr) (run_remediation E tr)
  unfolding run_remediation
  run_remediation-IsEnded tr =
      let (r, ns) = E.remediate tr in
      let k = terminals-add_notes ns tr in
      then-IsEnded (terminals tr) r _ tr (add_notes ns tr) k (λ a. (ap (λ m. 1 + m) k, refl))

  pub run_action-IsEnded : (tr : Trace) → IsEnded (terminals tr) (run_action E tr)
  unfolding run_action
  run_action-IsEnded tr =
      let (r, ns) = E.change_app tr in
      let k = terminals-add_notes ns tr in
      then-IsEnded (terminals tr) r _ tr (add_notes ns tr) k (λ a. (ap (λ m. 1 + m) k, refl))

  pub answer_locally-IsEnded :
      (context : String) (tr : Trace) → IsEnded (terminals tr) (answer_locally E q context tr)
  unfolding answer_locally
  answer_locally-IsEnded context tr =
      let message = E.augment q.text context in
      let (ds, fault) = E.summarize (to_local message ∷ tr) message in
      let k = terminals-add_deltas ds (to_local message ∷ tr) in
      then-IsEnded (terminals tr) (fault_or (joined ds) fault) (keep_turn E local q.text) tr
        (add_deltas ds (to_local message ∷ tr)) k (λ a. (ap (λ m. 1 + m) k, refl))

  pub run_local-IsEnded :
      (matched : List Module) (tr : Trace) → IsEnded (terminals tr) (run_local E q matched tr)
  unfolding run_local
  run_local-IsEnded [] tr = answer_locally-IsEnded "" tr
  run_local-IsEnded (m ∷ ms) tr =
      then-IsEnded (terminals tr) (E.prefetch (m ∷ ms) tr) _ tr tr refl (λ context.
        if-IsEnded (terminals tr) (strip context == "") _ _ tr (refl, refl)
          (answer_locally-IsEnded context tr))

  pub stay_local-IsEnded :
      (matched : List Module) (fallback : Bool) (msg : String) (tr : Trace)
      → IsEnded (terminals tr) (stay_local E q matched fallback msg tr)
  unfolding stay_local
  stay_local-IsEnded matched fallback msg tr =
      if-IsEnded (terminals tr) (fallback && E.has_local) _ _ tr (run_local-IsEnded matched tr)
        (refl, refl)

  pub run_remote-IsEnded :
      (text : Option String) (tr : Trace) → IsEnded (terminals tr) (run_remote E q text tr)
  unfolding run_remote
  run_remote-IsEnded text tr =
      let p = payload E q text tr in
      let (ds, fault) = E.run_model (to_remote p ∷ tr) p in
      let k = terminals-add_deltas ds (to_remote p ∷ tr) in
      then-IsEnded (terminals tr) (fault_or (joined ds) fault) (keep_turn E remote p.text) tr
        (add_deltas ds (to_remote p ∷ tr)) k (λ a. (ap (λ m. 1 + m) k, refl))

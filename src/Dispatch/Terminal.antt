-- ===== src/Dispatch/Terminal.antt =====
-- How a query of src/nixadmin/server.py ends: the client reads messages until a `Done` or an
-- `Error`, so each query has to send one, send it last, and send no other.
use nixadmin.Prelude.{
  ◌≡◌, refl, ap, subst, String, Bool, true, false, ◌&&◌, Option, none, some, List, ◌∷◌, string_eq,
  if◌then◌else◌, ℕ, ◌+◌, arith,
}
use nixadmin.Prelude.Result.{Result, ok, err}
use nixadmin.Prelude.Exec.{continue, gets, pure, ◌>>=◌, ◌>>◌}
use nixadmin.Routing.{
  Chain, local, remote, Module, Action, proceed, confirm_remote, wait_local, unavailable,
}
use nixadmin.Dispatch.{
  run_remote, stay_local, escalation_prompt, offer_escalation, apply_decision, run_chain, run_known,
  match_modules, run_read, run_query, close, dispatch, under_lock, add_answer, wait_local_ready,
}
use nixadmin.Effects.{
  status, asked, waited, Trace, Fault, cancelled, failure, crash, Known, app_change, toggle, Query,
  Env, redact_query, fault_or,
}
use nixadmin.Dispatch.Ended.{
  IsEnded, ends, if-IsEnded, run_action-IsEnded, run_local-IsEnded, run_remediation-IsEnded,
  run_remote-IsEnded, stay_local-IsEnded, terminals, then-IsEnded,
}

module _ (E : Env) (q : Query) where
  -- The answer to the escalation's prompt.
  reply-IsEnded :
      (matched : List Module) (text msg prompt_text : String) (fallback answer : Bool) (tr : Trace)
      → IsEnded (terminals tr) (
          (if answer then run_remote E q (some text) else stay_local E q matched fallback msg)
            (asked prompt_text answer ∷ tr))
  reply-IsEnded matched text msg prompt_text fallback true tr =
      run_remote-IsEnded E q (some text) (asked prompt_text true ∷ tr)
  reply-IsEnded matched text msg prompt_text fallback false tr =
      stay_local-IsEnded E q matched fallback msg (asked prompt_text false ∷ tr)

  prompted-IsEnded :
      (matched : List Module) (text msg prompt_text : String) (fallback : Bool)
      (r : Result Fault Bool) (tr : Trace)
      → IsEnded (terminals tr) (
          continue r
            (λ answer.
              if answer then run_remote E q (some text) else stay_local E q matched fallback msg)
            (add_answer E prompt_text r tr))
  prompted-IsEnded matched text msg prompt_text fallback (ok answer) tr =
      reply-IsEnded matched text msg prompt_text fallback answer tr
  prompted-IsEnded matched text msg prompt_text fallback (err f) tr = refl

  offer_escalation-IsEnded :
      (matched : List Module) (reason : String) (fallback : Bool) (tr : Trace)
      → IsEnded (terminals tr) (offer_escalation E q matched reason fallback tr)
  unfolding offer_escalation
  offer_escalation-IsEnded matched reason fallback tr =
      if-IsEnded E q (terminals tr) E.remote_ready _ _ tr
        (then-IsEnded E q (terminals tr) (fault_or tt (E.redacting tr)) _ tr tr refl (λ _.
          prompted-IsEnded matched (redact_query E q.text).redacted _
            (escalation_prompt E reason (redact_query E q.text)) fallback (E.confirm tr _) tr))
        (stay_local-IsEnded E q matched fallback _ tr)

  -- A chain that is left is run; none is left only when the query has been ended.
  run_chain-IsEnded :
      (matched : List Module) (chain : Chain) (tr : Trace)
      → IsEnded (terminals tr) (run_chain E q matched (some chain) tr)
  unfolding run_chain
  run_chain-IsEnded matched remote tr = run_remote-IsEnded E q none tr
  run_chain-IsEnded matched local tr =
      if-IsEnded E q (terminals tr) (E.remote_ready && E.has_local) _ _ tr
        (then-IsEnded E q (terminals tr) (E.assess_escalation tr) _ tr tr refl (λ unsure.
          if-IsEnded E q (terminals tr) unsure _ _ tr (offer_escalation-IsEnded matched _ true tr)
            (run_local-IsEnded E q matched tr)))
        (run_local-IsEnded E q matched tr)

  -- After a wait for the local model.
  wait-IsEnded :
      (matched : List Module) (o : Option Fault) (tr tr' : Trace)
      → terminals tr' ≡ terminals tr
      → IsEnded (terminals tr) (
          let (r, u) = continue (fault_or tt o) (λ _. pure (some local)) tr' in
          continue r (run_chain E q matched) u)
  wait-IsEnded matched none tr tr' e =
      let P : ℕ → Type 0 = λ m. IsEnded m (run_chain E q matched (some local) tr') in
      subst P e (run_chain-IsEnded matched local tr')
  wait-IsEnded matched (some f) tr tr' e = e

  answered-IsEnded :
      (matched : List Module) (text : String) (answer ready : Bool) (tr : Trace)
      → IsEnded (terminals tr) (
          ((if answer
                then pure (some remote)
                else if ready
                then pure (some local)
                else wait_local_ready E >> pure (some local))
              >>= run_chain E q matched)
            (asked text answer ∷ tr))
  answered-IsEnded matched text true ready tr =
      run_chain-IsEnded matched remote (asked text true ∷ tr)
  answered-IsEnded matched text false true tr =
      run_chain-IsEnded matched local (asked text false ∷ tr)
  answered-IsEnded matched text false false tr =
      wait-IsEnded matched (E.wait (asked text false ∷ tr)) tr (waited ∷ asked text false ∷ tr) refl

  routed-IsEnded :
      (matched : List Module) (text : String) (r : Result Fault Bool) (tr : Trace)
      → IsEnded (terminals tr) (
          (((λ t. (r, add_answer E text r t)) >>= λ answer. gets E.local_ready >>= λ ready.
          if answer
          then pure (some remote)
          else if ready
          then pure (some local)
          else wait_local_ready E >> pure (some local))
              >>= run_chain E q matched)
            tr)
  routed-IsEnded matched text (ok answer) tr =
      answered-IsEnded matched text answer (E.local_ready (asked text answer ∷ tr)) tr
  routed-IsEnded matched text (err f) tr = refl

  decided-IsEnded :
      (matched : List Module) (a : Action) (c : Chain) (pinned : Bool) (m : String) (tr : Trace)
      → IsEnded (terminals tr) (
          (apply_decision E (record { chain = c; action = a; pinned_local = pinned; message = m })
              >>= run_chain E q matched)
            tr)
  unfolding apply_decision run_chain
  decided-IsEnded matched proceed c pinned m tr = run_chain-IsEnded matched c tr
  decided-IsEnded matched unavailable c pinned m tr = (refl, refl)
  decided-IsEnded matched wait_local c pinned m tr =
      wait-IsEnded matched (E.wait (status m ∷ tr)) tr (waited ∷ status m ∷ tr) refl
  decided-IsEnded matched confirm_remote c pinned m tr =
      routed-IsEnded matched m (E.confirm (status m ∷ tr) m) (status m ∷ tr)

  run_read-IsEnded :
      (matched : List Module) (tr : Trace) → IsEnded (terminals tr) (run_read E q matched tr)
  unfolding run_read
  run_read-IsEnded matched tr = decided-IsEnded matched _ _ _ _ tr

  run_known-IsEnded :
      (matched : List Module) (known : Option Known) (tr : Trace)
      → IsEnded (terminals tr) (run_known E q matched known tr)
  unfolding run_known
  run_known-IsEnded matched (some app_change) tr = run_action-IsEnded E q tr
  run_known-IsEnded matched (some toggle) tr = (refl, refl)
  run_known-IsEnded matched none tr = offer_escalation-IsEnded matched _ false tr

  terminals-match_modules : (tr : Trace) → terminals (match_modules E tr).1 ≡ terminals tr
  unfolding match_modules
  terminals-match_modules tr = ground arith

  run_query-IsEnded : (tr : Trace) → IsEnded (terminals tr) (run_query E q tr)
  unfolding run_query
  run_query-IsEnded tr =
      if-IsEnded E q (terminals tr) (E.is_remediation q.text) _ _ tr
        (run_remediation-IsEnded E q tr)
        (then-IsEnded E q (terminals tr) (match_modules E tr).0 _ tr (match_modules E tr).1 k
          (λ ms. known (terminals tr) ms (match_modules E tr).1 k))
    where
      known :
          (n : ℕ) (ms : List Module) (tr' : Trace)
          → terminals tr' ≡ n
          → IsEnded n (
              (if E.detect_mutation q.text
                  then run_known E q ms (E.parse_action q.text)
                  else run_read E q ms)
                tr')
      known n ms tr' e =
          let P : ℕ → Type 0 = λ m. IsEnded m (
            (if E.detect_mutation q.text
                then run_known E q ms (E.parse_action q.text)
                else run_read E q ms)
              tr') in
          subst P e (
            if-IsEnded E q (terminals tr') (E.detect_mutation q.text) _ _ tr'
              (run_known-IsEnded ms (E.parse_action q.text) tr') (run_read-IsEnded ms tr'))

      k : terminals (match_modules E tr).1 ≡ terminals tr
      k = terminals-match_modules tr

-- What a query adds to a trace, by what stopped the wait for its session's lock.
abbrev pub IsClosed : Option Fault → Trace → Trace → Type 0
IsClosed none tr tr' = (terminals tr' ≡ 1 + terminals tr) × (ends tr' ≡ true)
IsClosed (some f) tr tr' = tr' ≡ tr

-- If no send and no write to the store fails or is cancelled: a query that gets its session's lock
-- adds one message that ends it (a `Done` or an `Error`) to those sent before, and that message is
-- the last thing it does, whatever the models, the tiers, the person, the waits, the fetching and
-- the redaction give or raise; a query that is stopped while it waits for the lock adds nothing.
pub terminals-dispatch :
    (E : Env) (q : Query) (tr : Trace) → IsClosed (E.lock tr) tr (dispatch E q tr)
unfolding dispatch close
terminals-dispatch E q tr = locked (E.lock tr)
  where
    closed :
        (x : Result Fault (Unit {0}) × Trace)
        → IsEnded (terminals tr) x
        → (terminals (close E x.0 x.1) ≡ 1 + terminals tr) × (ends (close E x.0 x.1) ≡ true)
    closed (ok u, tr') h = h
    closed (err cancelled, tr') h = (ap (λ m. 1 + m) h, refl)
    closed (err (failure text), tr') h = (ap (λ m. 1 + m) h, refl)
    closed (err (crash text), tr') h = (ap (λ m. 1 + m) h, refl)

    locked : (o : Option Fault) → IsClosed o tr (under_lock E o q tr)
    locked none = closed (run_query E q tr) (run_query-IsEnded E q tr)
    locked (some f) = refl

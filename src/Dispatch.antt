-- ===== src/Dispatch.antt =====
-- The query lifecycle of src/nixadmin/server.py, from `_dispatch` to `_run_remote`, on the effects
-- and the parameters of Effects.
pub mod Names
pub mod Lawful
pub mod Consent
pub mod Ended
pub mod Terminal
use nixadmin.Prelude.{
  String, ◌<>◌, Bool, true, false, not, ◌&&◌, Option, none, some, List, [], ◌∷◌, ◌++◌, ◌==◌,
  string_eq, if◌then◌else◌,
}
use nixadmin.Prelude.Text.{strip}
use nixadmin.Prelude.Result.{Result, ok, err}
use nixadmin.Prelude.Exec.{Exec, pure, raise, lift, gets, modify, ◌>>=◌, ◌>>◌}
use nixadmin.Routing.{
  Chain, local, remote, Module, Decision, proceed, confirm_remote, wait_local, unavailable,
  resolve_desired_chain, resolve,
}
use nixadmin.Effects.{
  Effect, Env, Fault, Known, Note, Payload, Query, Redaction, Run, Trace, add_deltas, add_notes,
  app_change, asked, cancelled, crash, delta, done, emit, error, explicit_chain, failure, fault_or,
  joined, progress, prompt, redact, redact_query, remembered, scrub_only, status, stored, to_local,
  to_remote, toggle, tool_result, waited,
}
use nixadmin.Dispatch.Names.{summarize_removed}

module _ (E : Env) where
  abbrev pub add_answer : String → Result Fault Bool → Trace → Trace
  add_answer text (ok answer) tr = asked text answer ∷ tr
  add_answer text (err f) tr = tr

  abbrev pub confirmed : String → Run Bool
  confirmed text tr = let answer = E.confirm tr text in (answer, add_answer text answer tr)

  -- `_wait_local_ready`
  abbrev pub wait_local_ready : Run (Unit {0})
  wait_local_ready tr = (fault_or tt (E.wait tr), waited ∷ tr)

  -- A tier that runs to its message, or raises.
  abbrev tier : (Trace → Result Fault String × List Note) → Run String
  tier run tr = let (r, notes) = run tr in (r, add_notes notes tr)

  -- The chunks of a model, sent as they come.
  abbrev stream : (Trace → List String × Option Fault) → Run String
  stream run tr = let (ds, fault) = run tr in (fault_or (joined ds) fault, add_deltas ds tr)

  abbrev pub finish : String → Run (Unit {0})
  finish text = do emit (delta text); emit (done (some local))

  -- `_run_remediation`
  unfoldable pub run_remediation : Run (Unit {0})
  run_remediation = do result ← tier E.remediate; emit (stored "restart" result); finish result

  -- `_run_action`
  unfoldable pub run_action : Run (Unit {0})
  run_action = do result ← tier E.change_app; emit (stored "action" result); finish result

  -- The end of `_run_local` and of `_run_remote`: the turn is kept, and the query is done.
  abbrev pub keep_turn : Chain → String → String → Run (Unit {0})
  keep_turn chain text answer = do
    emit (remembered "user" text)
    emit (remembered "assistant" answer)
    emit (stored "ask" text)
    emit (done (some chain))

  -- The second half of `_run_local`, with the context.
  unfoldable pub answer_locally : Query → String → Run (Unit {0})
  answer_locally q context = do
    emit (to_local (E.augment q.text context))
    answer ← stream (λ tr. E.summarize tr (E.augment q.text context))
    keep_turn local q.text answer

  -- `_run_local`
  unfoldable pub run_local : Query → List Module → Run (Unit {0})
  run_local q [] = answer_locally q ""
  run_local q (m ∷ ms) = do
    context ← (λ tr. (E.prefetch (m ∷ ms) tr, tr))
    if strip context == ""
        then finish "I couldn't check that right now."
        else answer_locally q context

  abbrev pub payload : Query → Option String → Trace → Payload
  payload q none tr = record {
    text = q.text;
    history = E.history tr;
    system_extra = "\n\n" <> E.context tr;
    escalated = false;
  }
  payload q (some text) tr = record {
    text = text;
    history = [];
    system_extra = "";
    escalated = true;
  }

  -- `_run_remote`
  unfoldable pub run_remote : Query → Option String → Run (Unit {0})
  run_remote q text = do
    p ← gets (payload q text)
    emit (to_remote p)
    answer ← stream (λ tr. E.run_model tr p)
    keep_turn remote p.text answer

  -- `_stay_local`
  unfoldable pub stay_local : Query → List Module → Bool → String → Run (Unit {0})
  stay_local q matched local_fallback change_msg =
      if local_fallback && E.has_local then run_local q matched else finish change_msg

  -- The prompt of `_offer_escalation`.
  unfoldable pub escalation_prompt : String → Redaction → String
  escalation_prompt reason r =
      reason
      <> "\n\nI can ask the fuller (cloud) assistant, but that means "
      <> "this leaves your device. Here's exactly what I'd send"
      <> summarize_removed r.removed
      <> ":\n\n“"
      <> r.redacted
      <> "”\n\n"
      <> "To answer, it may look things up on your device; anything sensitive is "
      <> "removed from those too, and nothing else about your machine is sent. "
      <> "Send it?"

  -- `_offer_escalation`
  unfoldable pub offer_escalation : Query → List Module → String → Bool → Run (Unit {0})
  offer_escalation q matched reason local_fallback =
      if E.remote_ready
      then (do
        λ tr. (fault_or tt (E.redacting tr), tr)
        let r = redact_query E q.text
        agreed ← confirmed (escalation_prompt reason r)
        if agreed
            then run_remote q (some r.redacted)
            else stay_local q matched local_fallback
                ("Okay — keeping this on your device; I'll leave that " <> "change for now."))
      else stay_local q matched local_fallback (
          "I can't make that change on my own yet — it needs the "
          <> "fuller assistant, which isn't set up on this machine.")

  -- `_apply_decision`; none if the query is finished
  unfoldable pub apply_decision : Decision → Run (Option Chain)
  apply_decision d = elim d.action [
    | proceed ↦ pure (some d.chain)
    | unavailable ↦ do emit (error d.message); pure none
    | wait_local ↦ do emit (status d.message); wait_local_ready; pure (some local)
    | confirm_remote ↦ do
      emit (status d.message)
      agreed ← confirmed d.message
      ready ← gets E.local_ready
      if agreed
          then pure (some remote)
          else if ready
          then pure (some local)
          else do wait_local_ready; pure (some local)
  ]

  -- The end of `_run_query`: the chosen chain is run.
  unfoldable pub run_chain : Query → List Module → Option Chain → Run (Unit {0})
  run_chain q matched none = pure tt
  run_chain q matched (some remote) = run_remote q none
  run_chain q matched (some local) =
      if E.remote_ready && E.has_local
      then (do
        unsure ← (λ tr. (E.assess_escalation tr, tr))
        if unsure
            then offer_escalation q matched
                "I'm not sure I can answer this well on your device alone." true
            else run_local q matched)
      else run_local q matched

  -- A query that asks for a change, by the action that it names.
  unfoldable pub run_known : Query → List Module → Option Known → Run (Unit {0})
  run_known q matched (some app_change) = run_action
  run_known q matched (some toggle) = finish (
      "I can only install and remove apps for now — changing "
      <> "settings like that isn't supported yet.")
  run_known q matched none =
      offer_escalation q matched "That's a change I can't make on your device by myself." false

  -- The modules that the local model matches, if there is one.
  unfoldable pub match_modules : Run (List Module)
  match_modules =
      if E.has_local
      then (do
        ready ← gets E.local_ready
        if ready then pure tt else emit (status "Warming up the local assistant… one moment.")
        λ tr. (E.classify tr, tr))
      else pure []

  -- The routing of a query that asks for no change.
  unfoldable pub run_read : Query → List Module → Run (Unit {0})
  run_read q matched = do
    ready ← gets E.local_ready
    let (desired, pinned) = resolve_desired_chain (explicit_chain q.chain) matched E.default_chain
    chain ← apply_decision (resolve desired pinned ready E.remote_ready)
    run_chain q matched chain

  -- `_run_query`
  unfoldable pub run_query : Query → Run (Unit {0})
  run_query q = if E.is_remediation q.text then run_remediation else (do
    matched ← match_modules
    if E.detect_mutation q.text
        then run_known q matched (E.parse_action q.text)
        else run_read q matched)

  -- The handlers of `_dispatch`.
  unfoldable pub close : Result Fault (Unit {0}) → Trace → Trace
  close (ok u) tr = tr
  close (err cancelled) tr = done none ∷ tr
  close (err (failure text)) tr = error text ∷ tr
  close (err (crash text)) tr = error ("internal error: " <> text) ∷ tr

  abbrev pub under_lock : Option Fault → Query → Trace → Trace
  under_lock none q tr = let (r, tr') = run_query q tr in close r tr'
  under_lock (some f) q tr = tr

  -- `_dispatch`: what stops the wait for the session's lock is caught by no handler. The failures of
  -- the sends and of the store, and a cancel that comes during one of them, are left out.
  unfoldable pub dispatch : Query → Trace → Trace
  dispatch q tr = under_lock (E.lock tr) q tr

-- ===== src/Dispatch/Lawful.antt =====
-- What may leave the device on a query of src/nixadmin/server.py, and the steps that hold to it.
use mathlib.Core.Option.{some-injective}
use text.Mathlib.TextLemmas.{append_assoc}
use nixadmin.Prelude.{
  ◌≡◌, refl, sym, ◌∙◌, subst, ◌<>◌, String, Bool, true, false, ◌&&◌, Option, none, some, List, [],
  ◌∷◌, ◌==◌, string_eq, if◌then◌else◌,
}
use nixadmin.Prelude.Text.{strip}
use nixadmin.Prelude.Result.{Result, ok, err}
use nixadmin.Prelude.Exec.{◌>>=◌}
use nixadmin.Routing.{local, remote, Module}
use nixadmin.Dispatch.Names.{summarize_removed}
use nixadmin.Dispatch.{
  run_remediation, run_action, answer_locally, run_local, payload, keep_turn, run_remote,
  stay_local, escalation_prompt,
}
use nixadmin.Effects.{
  Payload, status, delta, asked, to_remote, to_local, Trace, Fault, Note, progress, prompt, Query,
  Env, Redaction, redact, scrub_only, redact_query, Run, add_notes, add_deltas, fault_or, joined,
}

-- The last thing that happened was a consent.
abbrev pub Consented : Trace → Type 0
Consented (asked text true ∷ tr) = Unit
Consented other = ⊥

-- The last prompt, if that was the last thing that happened.
abbrev pub last_prompt : Trace → String
last_prompt (asked text answer ∷ tr) = text
last_prompt other = ""

-- What is to be sent of a scrubbed text: with a local model its rewrite of it, if that came, else the
-- scrubbed text itself.
abbrev pub cleaned : Bool → Option String → String → String
cleaned true (some rewritten) scrubbed = rewritten
cleaned has_local other scrubbed = scrubbed

-- A text stands in a prompt, whole.
abbrev pub Shows : String → String → Type 0
Shows shown text =
    (before : String) × (after : String) × (shown ≡ before <> "“" <> text <> "”" <> after)

-- What a payload sent on an escalation holds: the scrubbed query, or the local model's rewrite of
-- it, which stands in the prompt before it; and nothing of the grounding or of earlier turns.
abbrev pub IsReviewed : Env → Query → Payload → Trace → Type 0
IsReviewed E q p tr =
    let scrubbed = (E.scrub q.text).0 in
    (p.text ≡ cleaned E.has_local (E.rewrite scrubbed) scrubbed)
    × (p.history ≡ [])
    × (p.system_extra ≡ "")
    × Shows (last_prompt tr) p.text

-- Everything that was handed to the remote chain was handed over right after a consent, and what
-- an escalation handed over had been reviewed.
abbrev pub IsLawful : Env → Query → Trace → Type 0
IsLawful E q [] = Unit
IsLawful E q (to_remote p ∷ tr) =
    Consented tr × (p.escalated ≡ true → IsReviewed E q p tr) × IsLawful E q tr
IsLawful E q (other ∷ tr) = IsLawful E q tr

redact_query-cleaned :
    (E : Env) (t : String)
    → (redact_query E t).redacted
      ≡ (let scrubbed = (E.scrub t).0 in cleaned E.has_local (E.rewrite scrubbed) scrubbed)
unfolding redact_query redact scrub_only
redact_query-cleaned E t = pick E.has_local (E.rewrite (E.scrub t).0)
  where
    pick :
        (b : Bool) (o : Option String)
        → (let (scrubbed, removed) = E.scrub t in
            let whole : Redaction = record {
              original = t;
              redacted = elim o [ none ↦ scrubbed | some r ↦ r ];
              removed = removed;
            } in
            let plain : Redaction = record {
              original = t;
              redacted = scrubbed;
              removed = removed;
            } in
            (if b then whole else plain).redacted)
          ≡ cleaned b o (E.scrub t).0
    pick true (some r) = refl
    pick true none = refl
    pick false (some r) = refl
    pick false none = refl

regrouped :
    (a b c d x o r k y z : String)
    → a <> b <> c <> d <> (x <> o) <> r <> (k <> y) <> z
      ≡ (a <> b <> c <> d <> x) <> o <> r <> k <> y <> z
regrouped a b c d x o r k y z = simp append_assoc refl

escalation_prompt-Shows :
    (E : Env) (reason : String) (r : Redaction) → Shows (escalation_prompt E reason r) r.redacted
unfolding escalation_prompt
escalation_prompt-Shows E reason r = (
  _,
  "\n\n" <> "To answer, it may look things up on your device; anything sensitive is "
      <> "removed from those too, and nothing else about your machine is sent. " <> "Send it?",
  regrouped reason "\n\nI can ask the fuller (cloud) assistant, but that means "
      "this leaves your device. Here's exactly what I'd send" (summarize_removed r.removed) ":\n\n"
      "“" r.redacted "”" "\n\n"
      ("To answer, it may look things up on your device; anything sensitive is "
        <> "removed from those too, and nothing else about your machine is sent. " <> "Send it?"),
)

module _ (E : Env) (q : Query) where
  pub notes-IsLawful :
      (ns : List Note) (tr : Trace) → IsLawful E q tr → IsLawful E q (add_notes ns tr)
  notes-IsLawful [] tr h = h
  notes-IsLawful (progress text ∷ ns) tr h = notes-IsLawful ns (status text ∷ tr) h
  notes-IsLawful (prompt text answer ∷ ns) tr h = notes-IsLawful ns (asked text answer ∷ tr) h

  pub deltas-IsLawful :
      (ds : List String) (tr : Trace) → IsLawful E q tr → IsLawful E q (add_deltas ds tr)
  deltas-IsLawful [] tr h = h
  deltas-IsLawful (d ∷ ds) tr h = deltas-IsLawful ds (delta d ∷ tr) h

  -- The rest of a block keeps the law from whatever state its first part leaves.
  pub then-IsLawful :
      {A B : Type 0} (r : Result Fault A) (f : A → Run B) (tr tr' : Trace)
      → IsLawful E q tr'
      → ((a : A) → IsLawful E q (f a tr').1)
      → IsLawful E q (((λ _. (r, tr')) >>= f) tr).1
  then-IsLawful (ok a) f tr tr' h k = k a
  then-IsLawful (err e) f tr tr' h k = h

  pub run_remediation-IsLawful :
      (tr : Trace) → IsLawful E q tr → IsLawful E q (run_remediation E tr).1
  unfolding run_remediation
  run_remediation-IsLawful tr h =
      let (r, ns) = E.remediate tr in
      let k = notes-IsLawful ns tr h in then-IsLawful r _ tr (add_notes ns tr) k (λ a. k)

  pub run_action-IsLawful : (tr : Trace) → IsLawful E q tr → IsLawful E q (run_action E tr).1
  unfolding run_action
  run_action-IsLawful tr h =
      let (r, ns) = E.change_app tr in
      let k = notes-IsLawful ns tr h in then-IsLawful r _ tr (add_notes ns tr) k (λ a. k)

  pub if-IsLawful :
      {A : Type 0} (b : Bool) (x y : Run A) (tr : Trace)
      → (b ≡ true → IsLawful E q (x tr).1)
      → (b ≡ false → IsLawful E q (y tr).1)
      → IsLawful E q ((if b then x else y) tr).1
  if-IsLawful true x y tr p n = p refl
  if-IsLawful false x y tr p n = n refl

  pub answer_locally-IsLawful :
      (context : String) (tr : Trace)
      → IsLawful E q tr
      → IsLawful E q (answer_locally E q context tr).1
  unfolding answer_locally
  answer_locally-IsLawful context tr h =
      let message = E.augment q.text context in
      let (ds, fault) = E.summarize (to_local message ∷ tr) message in
      let k = deltas-IsLawful ds (to_local message ∷ tr) h in
      then-IsLawful (fault_or (joined ds) fault) (keep_turn E local q.text) tr
        (add_deltas ds (to_local message ∷ tr)) k (λ a. k)

  pub run_local-IsLawful :
      (matched : List Module) (tr : Trace)
      → IsLawful E q tr
      → IsLawful E q (run_local E q matched tr).1
  unfolding run_local
  run_local-IsLawful [] tr h = answer_locally-IsLawful "" tr h
  run_local-IsLawful (m ∷ ms) tr h = then-IsLawful (E.prefetch (m ∷ ms) tr) _ tr tr h (λ context.
      if-IsLawful (strip context == "") _ _ tr (λ _. h) (λ _. answer_locally-IsLawful context tr h))

  pub stay_local-IsLawful :
      (matched : List Module) (fallback : Bool) (msg : String) (tr : Trace)
      → IsLawful E q tr
      → IsLawful E q (stay_local E q matched fallback msg tr).1
  unfolding stay_local
  stay_local-IsLawful matched fallback msg tr h =
      if-IsLawful (fallback && E.has_local) _ _ tr (λ _. run_local-IsLawful matched tr h) (λ _. h)

  -- The remote chain, entered right after a consent.
  pub run_remote-IsLawful :
      (text : Option String) (tr : Trace)
      → Consented tr
      → ((t : String) → text ≡ some t → IsReviewed E q (payload E q (some t) tr) tr)
      → IsLawful E q tr
      → IsLawful E q (run_remote E q text tr).1
  unfolding run_remote
  run_remote-IsLawful none tr yes_ reviewed h =
      let p = payload E q none tr in
      let (ds, fault) = E.run_model (to_remote p ∷ tr) p in
      let k = deltas-IsLawful ds (to_remote p ∷ tr) (yes_, λ e. cc, h) in
      then-IsLawful (fault_or (joined ds) fault) (keep_turn E remote p.text) tr
        (add_deltas ds (to_remote p ∷ tr)) k (λ a. k)
  run_remote-IsLawful (some t) tr yes_ reviewed h =
      let p = payload E q (some t) tr in
      let (ds, fault) = E.run_model (to_remote p ∷ tr) p in
      let k = deltas-IsLawful ds (to_remote p ∷ tr) (yes_, λ e. reviewed t refl, h) in
      then-IsLawful (fault_or (joined ds) fault) (keep_turn E remote p.text) tr
        (add_deltas ds (to_remote p ∷ tr)) k (λ a. k)

  -- The answer to the escalation's prompt.
  pub answered-IsLawful :
      (matched : List Module) (reason msg : String) (fallback answer : Bool) (tr : Trace)
      → IsLawful E q tr
      → IsLawful E q
          ((if answer
              then run_remote E q (some (redact_query E q.text).redacted)
              else stay_local E q matched fallback msg)
            (asked (escalation_prompt E reason (redact_query E q.text)) answer ∷ tr)).1
  answered-IsLawful matched reason msg fallback true tr h =
      run_remote-IsLawful (some (redact_query E q.text).redacted)
        (asked (escalation_prompt E reason (redact_query E q.text)) true ∷ tr) tt
        (λ t e.
          let same = sym (some-injective _ _ e) in
          let shown = escalation_prompt-Shows E reason (redact_query E q.text) in
          (
            same ∙ redact_query-cleaned E q.text,
            refl,
            refl,
            subst (Shows (escalation_prompt E reason (redact_query E q.text))) (sym same) shown,
          ))
        h
  answered-IsLawful matched reason msg fallback false tr h =
      stay_local-IsLawful matched fallback msg
        (asked (escalation_prompt E reason (redact_query E q.text)) false ∷ tr) h

-- ===== src/Connections/Confirmation.antt =====
-- Where the answer of a confirmation of src/nixadmin/connections.py comes from.
use nixadmin.Prelude.{
  ◌≡◌, refl, ◌∙◌, ap, String, Bool, true, false, Option, none, some, List, [], ◌∷◌, ◌==◌, string_eq,
  if◌then◌else◌, arith, Bool-cases, inl, inr,
}
use nixadmin.Prelude.Dict.{Dict, lookup, lookup-insert, lookup-remove}
use nixadmin.Connections.{
  Answer, waiting, cancelled, answered, ClientConn, ask, settle, deliver, deliver_response,
  cancel_all, close, forget, verdict, Event, asked, responded, ended, disconnected, step, after,
}

-- The earlier of two responses.
abbrev pub first_of : Option Bool → Bool → Option Bool
first_of (some earlier) confirmed = some earlier
first_of none confirmed = some confirmed

-- The first response with an identifier since a question with it was last asked or ended.
unfoldable pub response_to : String → List Event → Option Bool
response_to qid [] = none
response_to qid (asked q ∷ es) = let rest = response_to qid es in if qid == q then none else rest
response_to qid (responded q confirmed ∷ es) =
    let rest = response_to qid es in if qid == q then first_of rest confirmed else rest
response_to qid (ended q ∷ es) = let rest = response_to qid es in if qid == q then none else rest
response_to qid (disconnected ∷ es) = response_to qid es

-- A future that says yes has a response that says yes.
abbrev IsFounded : Option Answer → Option Bool → Type 0
IsFounded (some (answered confirmed)) r = r ≡ some confirmed
IsFounded (some waiting) r = r ≡ none
IsFounded other r = Unit

lookup-cancel_all :
    (qid : String) (d : Dict String Answer) (r : Option Bool)
    → IsFounded (lookup qid d) r
    → IsFounded (lookup qid (cancel_all d)) r
unfolding lookup cancel_all
lookup-cancel_all qid [] r h = h
lookup-cancel_all qid ((k, waiting) ∷ d) r h = elim (Bool-cases (qid == k)) [
  | inl e ↦ rw e tt
  | inr e ↦ rw e (lookup-cancel_all qid d r (rw e at h))
]
lookup-cancel_all qid ((k, other) ∷ d) r h = elim (Bool-cases (qid == k)) [
  | inl e ↦ rw e (rw e at h)
  | inr e ↦ rw e (lookup-cancel_all qid d r (rw e at h))
]

settled-IsFounded :
    (future : Answer) (confirmed : Bool) (r : Option Bool)
    → IsFounded (some future) r
    → IsFounded (some (settle confirmed future)) (first_of r confirmed)
settled-IsFounded waiting confirmed none h = refl
settled-IsFounded waiting confirmed (some b) h = cc
settled-IsFounded cancelled confirmed r h = tt
settled-IsFounded (answered b) confirmed none h = cc
settled-IsFounded (answered b) confirmed (some d) h = h

delivered-IsFounded :
    (qid q : String) (confirmed : Bool) (c : ClientConn) (r : Option Bool) (o : Option Answer)
    → lookup q c.pending ≡ o
    → IsFounded (lookup qid c.pending) r
    → IsFounded
        (lookup qid (deliver q confirmed o c).pending)
        (if qid == q then first_of r confirmed else r)
delivered-IsFounded qid q confirmed c r none e h = elim (Bool-cases (qid == q)) [
  | inl same ↦
      let gone : lookup qid c.pending ≡ none = ground (arith, same, e) in rw (same, gone) tt
  | inr differ ↦ rw differ h
]
delivered-IsFounded qid q confirmed c r (some future) e h =
    rw lookup-insert (elim (Bool-cases (qid == q)) [
      | inl same ↦
          let there : lookup qid c.pending ≡ some future = ground (arith, same, e) in
          rw same (settled-IsFounded future confirmed r (rw there at h))
      | inr differ ↦ rw differ h
    ])

if-IsFounded :
    (qid : String) (gone : Bool) (c d : ClientConn) (r : Option Bool)
    → IsFounded (lookup qid c.pending) r
    → IsFounded (lookup qid d.pending) r
    → IsFounded (lookup qid (if gone then c else d).pending) r
if-IsFounded qid true c d r h k = h
if-IsFounded qid false c d r h k = k

closed-IsFounded :
    (qid : String) (c : ClientConn) (r : Option Bool)
    → IsFounded (lookup qid c.pending) r
    → IsFounded (lookup qid (close c).pending) r
unfolding close
closed-IsFounded qid c r h = if-IsFounded qid c.closed c _ r h (lookup-cancel_all qid c.pending r h)

after-IsFounded :
    (qid : String) (es : List Event)
    → IsFounded (lookup qid (after es).pending) (response_to qid es)
unfolding after step response_to ask deliver_response forget lookup
after-IsFounded qid [] = tt
after-IsFounded qid (asked q ∷ es) =
    rw lookup-insert
      (elim (Bool-cases (qid == q)) [ inl e ↦ rw e refl | inr e ↦ rw e (after-IsFounded qid es) ])
after-IsFounded qid (responded q confirmed ∷ es) =
    delivered-IsFounded qid q confirmed (after es) (response_to qid es)
      (lookup q (after es).pending) refl (after-IsFounded qid es)
after-IsFounded qid (ended q ∷ es) =
    rw lookup-remove
      (elim (Bool-cases (qid == q)) [ inl e ↦ rw e tt | inr e ↦ rw e (after-IsFounded qid es) ])
after-IsFounded qid (disconnected ∷ es) =
    closed-IsFounded qid (after es) (response_to qid es) (after-IsFounded qid es)

founded-yes :
    (o : Option Answer) (r : Option Bool) → IsFounded o r → verdict o ≡ true → r ≡ some true
unfolding verdict
founded-yes none r h e = cc
founded-yes (some waiting) r h e = cc
founded-yes (some cancelled) r h e = cc
founded-yes (some (answered confirmed)) r h e = h ∙ ap some e

-- Whatever is asked, answered, ended and disconnected on a connection, in whatever order: a
-- question counts as confirmed only if the first response with its identifier since it was asked
-- was a confirmation.
pub confirmed_by-response :
    (qid : String) (es : List Event)
    → verdict (lookup qid (after es).pending) ≡ true
    → response_to qid es ≡ some true
confirmed_by-response qid es e =
    founded-yes (lookup qid (after es).pending) (response_to qid es) (after-IsFounded qid es) e

-- ===== src/Web/Session/Prompts.antt =====
-- The prompts of a query session of src/nixadmin/web/session.py, and its end.
use nixadmin.Prelude.{
  ℕ, ◌+◌, ◌≤◌, ◌≡◌, refl, ap, Bool, true, false, Option, none, some, List, [], ◌∷◌, ◌++◌, keep,
  length, arith, if◌then◌else◌,
}
use nixadmin.Prelude.Result.{Result, ok, err}
use nixadmin.Json.{JsonText}
use nixadmin.Protocol.{Class, confirm, input, done, error, Message, Refusal, unhashable, decode}
use nixadmin.Web.Requests.{QuerySpec}
use nixadmin.Web.Session.{
  Phase, reading, waiting, ended, Respond, Session, message_of, write, close, end, opened, after,
  settle, show, read_decoded, read, resume, Event, line, eof, take, timeout, answer, cancelled,
  closed, put, on_take, on_timeout, generator, step, run, cancel_of,
}
use nixadmin.Web.Session.Tracks.{is_respond, responses, responses-write}

abbrev pub asks : Class → Bool
asks confirm = true
asks input = true
asks other = false

abbrev pub is_prompt : Message → Bool
is_prompt m = asks m.cls

-- The prompts that were shown.
unfoldable pub prompts : Session → ℕ
prompts s = length (keep is_prompt s.shown)

-- One if the session waits for the answer to a prompt.
abbrev pub pending : Phase → ℕ
pending waiting = 1
pending other = 0

abbrev answered : Session → ℕ
answered s = length (responses s)

-- A session owes no answer: each was sent for a prompt of its own.
abbrev Owes : Session → Type 0
Owes s = answered s + pending s.phase ≤ prompts s

length-keep_one :
    {A : Type 0} (p : A → Bool) (xs : List A) (x : A)
    → length (keep p (xs ++ (x ∷ []))) ≡ length (keep p xs) + (if p x then 1 else 0)
length-keep_one p [] x = ground arith
length-keep_one p (y ∷ xs) x = ground (arith, length-keep_one p xs x)

pending-after : (c : Class) → pending (after c) ≡ (if asks c then 1 else 0)
unfolding after
pending-after confirm = refl
pending-after input = refl
pending-after done = refl
pending-after error = refl
pending-after other = refl

settle-sent : (p : Phase) (s : Session) → (settle p s).sent ≡ s.sent
unfolding settle end close
settle-sent reading s = refl
settle-sent waiting s = refl
settle-sent ended s = refl

settle-shown : (p : Phase) (s : Session) → (settle p s).shown ≡ s.shown
unfolding settle end close
settle-shown reading s = refl
settle-shown waiting s = refl
settle-shown ended s = refl

settle-phase : (p : Phase) (s : Session) → (settle p s).phase ≡ p
unfolding settle end close
settle-phase reading s = refl
settle-phase waiting s = refl
settle-phase ended s = refl

-- A record of the parts by which `Owes` is decided.
same-Owes :
    (s t : Session)
    → answered t ≡ answered s
    → prompts t ≡ prompts s
    → pending t.phase ≤ pending s.phase
    → Owes s
    → Owes t
same-Owes s t sent shown phase owes = omega arith

end-Owes : (s : Session) → Owes s → Owes (end s)
unfolding end close prompts responses
end-Owes s owes = same-Owes s (end s) refl refl (omega arith) owes

show-Owes : (m : Message) (s : Session) → Owes (record s { phase = reading }) → Owes (show m s)
unfolding show prompts responses
show-Owes m s owes =
    let t = record s { shown = s.shown ++ (m ∷ []) } in
    let p = after m.cls in
    rw
      (
        settle-sent p t,
        settle-phase p t,
        settle-shown p t,
        pending-after m.cls,
        length-keep_one is_prompt s.shown m,
      )
      (omega arith)

decoded-Owes :
    (r : Result Refusal Message) (s : Session)
    → s.phase ≡ reading
    → Owes s
    → Owes (read_decoded r s)
unfolding responses prompts
decoded-Owes (ok m) s h owes =
    show-Owes m s (same-Owes s (record s { phase = reading }) refl refl (rw h (omega arith)) owes)
decoded-Owes (err unhashable) s h owes = end-Owes s owes
decoded-Owes (err other) s h owes = owes

read-Owes : (l : JsonText) (s : Session) → s.phase ≡ reading → Owes s → Owes (read l s)
unfolding read
read-Owes l s h owes =
    elim s.is_open as (λ up. Owes (if up then read_decoded (decode l) s else end s)) [
      | true ↦ decoded-Owes (decode l) s h owes
      | false ↦ end-Owes s owes
    ]

give_up-Owes :
    (rest : List (Option Respond)) (s : Session)
    → Owes s
    → Owes (resume none (record s { answers = rest }))
unfolding resume end close prompts write responses
give_up-Owes rest s owes =
    let t = write (cancel_of s.qid) s in
    same-Owes s (end t) (ap length (responses-write s)) refl (omega arith) owes

answered_one :
    (up : Bool) (m : Message) (sent : List Message)
    → length (keep is_respond (if up then sent ++ (m ∷ []) else sent))
      ≤ length (keep is_respond sent) + 1
answered_one true m sent = rw (length-keep_one is_respond sent m) (ground arith)
answered_one false m sent = omega arith

reply-Owes :
    (r : Respond) (rest : List (Option Respond)) (s : Session)
    → s.phase ≡ waiting
    → Owes s
    → Owes (resume (some r) (record s { answers = rest }))
unfolding resume prompts write responses
reply-Owes r rest s h owes =
    let one = answered_one s.is_open (message_of r) s.sent in
    let phase : pending s.phase ≡ 1 = rw h refl in omega arith

take-Owes :
    (queue : List (Option Respond)) (s : Session)
    → s.phase ≡ waiting
    → Owes s
    → Owes (on_take queue s)
take-Owes [] s h owes = owes
take-Owes (none ∷ rest) s h owes = give_up-Owes rest s owes
take-Owes (some r ∷ rest) s h owes = reply-Owes r rest s h owes

timeout-Owes : (queue : List (Option Respond)) (s : Session) → Owes s → Owes (on_timeout queue s)
timeout-Owes [] s owes = give_up-Owes s.answers s owes
timeout-Owes (a ∷ rest) s owes = owes

generator-Owes :
    (e : Event) (phase : Phase) (s : Session)
    → s.phase ≡ phase
    → Owes s
    → Owes (generator e phase s)
generator-Owes (line l) reading s h owes = read-Owes l s h owes
generator-Owes eof reading s h owes = end-Owes s owes
generator-Owes take waiting s h owes = take-Owes s.answers s h owes
generator-Owes timeout waiting s h owes = timeout-Owes s.answers s owes
generator-Owes other phase s h owes = owes

step-Owes : (e : Event) (s : Session) → Owes s → Owes (step e s)
unfolding step prompts responses put write close
step-Owes (answer confirmed value) s owes = owes
step-Owes cancelled s owes =
    same-Owes s (write (cancel_of s.qid) s) (ap length (responses-write s)) refl (omega arith) owes
step-Owes closed s owes = owes
step-Owes (line l) s owes = generator-Owes (line l) s.phase s refl owes
step-Owes eof s owes = generator-Owes eof s.phase s refl owes
step-Owes take s owes = generator-Owes take s.phase s refl owes
step-Owes timeout s owes = generator-Owes timeout s.phase s refl owes

run-Owes : (es : List Event) (s : Session) → Owes s → Owes (run es s)
unfolding run
run-Owes [] s owes = owes
run-Owes (e ∷ es) s owes = run-Owes es (step e s) (step-Owes e s owes)

-- A prompt takes one answer: whatever the threads do, a session has sent at most as many answers as
-- it has shown prompts, and one fewer while it waits.
pub run-one_answer :
    (q : QuerySpec) (es : List Event)
    → length (responses (run es (opened q))) + pending (run es (opened q)).phase
      ≤ prompts (run es (opened q))
unfolding opened prompts responses
run-one_answer q es = run-Owes es (opened q) (omega arith)

-- ===== src/Web/Session/Answers.antt =====
-- The answers that a query session of src/nixadmin/web/session.py sends to the daemon.
use nixadmin.Prelude.{
  keep-append, map-append, append_assoc, ◌≡◌, refl, sym, ap, subst, ◌∙◌, String, Option, none, some,
  List, [], ◌∷◌, ◌++◌, map, keep, Bool-cases, inl, inr, if◌then◌else◌,
}
use nixadmin.Protocol.{Message}
use nixadmin.Web.Requests.{QuerySpec}
use nixadmin.Web.Session.{
  Phase, reading, waiting, Respond, Session, message_of, write, close, end, opened, resume, Event,
  line, eof, take, timeout, answer, cancelled, closed, put, on_take, on_timeout, generator, step,
  run, cancel_of,
}
use nixadmin.Web.Session.Tracks.{
  Tracks, end_quiet, entry, is_respond, log_of, logged, read_quiet, responses, responses-write,
  tracks_down, tracks_put, tracks_quiet,
}

give_up :
    {qid : String} {log : List (Option Message)} (rest : List (Option Respond)) (s : Session)
    → Tracks qid log s
    → Tracks qid log (resume none (record s { answers = rest }))
unfolding resume end close write responses
give_up rest s tracks = tracks_down _ refl (responses-write s) refl tracks

sent_one :
    (r : Respond) (answers : List (Option Message)) (sent : List Message)
    → map some (keep is_respond (sent ++ (message_of r ∷ []))) ++ answers
      ≡ map some (keep is_respond sent) ++ (some (message_of r) ∷ answers)
unfolding message_of
sent_one r answers sent =
    let m = message_of r in
    ap (λ ms. map some ms ++ answers) (keep-append is_respond sent (m ∷ []))
    ∙ ap (λ ms. ms ++ answers) (map-append some (keep is_respond sent) (m ∷ []))
    ∙ append_assoc (map some (keep is_respond sent)) (some m ∷ []) answers

-- The oldest answer of the queue is sent, if the session is open.
reply :
    {qid : String} {log : List (Option Message)} (r : Respond) (rest : List (Option Respond))
    (s : Session)
    → s.answers ≡ some r ∷ rest
    → Tracks qid log s
    → Tracks qid log (resume (some r) (record s { answers = rest }))
unfolding resume write responses
reply r rest s h tracks = elim (Bool-cases s.is_open) [
  | inl up ↦ record {
    same = tracks.same;
    rest = map entry rest;
    split =
        ap
          (λ up.
            map some (keep is_respond (if up then s.sent ++ (message_of r ∷ []) else s.sent))
            ++ map entry rest)
          up
        ∙ sent_one r (map entry rest) s.sent
        ∙ ap (λ q. map some (responses s) ++ map entry q) (sym h)
        ∙ ap (λ q. map some (responses s) ++ q) (sym (tracks.queued up))
        ∙ tracks.split;
    queued = λ _. refl;
  }
  | inr down ↦
      tracks_down _ refl
        (ap (λ up. keep is_respond (if up then s.sent ++ (message_of r ∷ []) else s.sent)) down)
        down tracks
]

tracks_take :
    {qid : String} {log : List (Option Message)} (queue : List (Option Respond)) (s : Session)
    → s.answers ≡ queue
    → Tracks qid log s
    → Tracks qid log (on_take queue s)
tracks_take [] s h tracks = tracks
tracks_take (none ∷ rest) s h tracks = give_up rest s tracks
tracks_take (some r ∷ rest) s h tracks = reply r rest s h tracks

tracks_timeout :
    {qid : String} {log : List (Option Message)} (queue : List (Option Respond)) (s : Session)
    → Tracks qid log s
    → Tracks qid log (on_timeout queue s)
tracks_timeout [] s tracks = give_up s.answers s tracks
tracks_timeout (a ∷ rest) s tracks = tracks

tracks_generator :
    {qid : String} {log : List (Option Message)} (e : Event) (phase : Phase) (s : Session)
    → Tracks qid log s
    → Tracks qid log (generator e phase s)
tracks_generator (line l) reading s tracks = read_quiet l s tracks
tracks_generator eof reading s tracks = end_quiet s tracks
tracks_generator take waiting s tracks = tracks_take s.answers s refl tracks
tracks_generator timeout waiting s tracks = tracks_timeout s.answers s tracks
tracks_generator other phase s tracks = tracks

tracks_step :
    {qid : String} {log : List (Option Message)} (e : Event) (s : Session)
    → Tracks qid log s
    → Tracks qid (logged qid e log) (step e s)
unfolding step logged responses write close
tracks_step {qid = qid} {log = log} (answer confirmed value) s tracks =
    let given : String → Option Respond =
      λ id. some (record { id = id; confirmed = confirmed; value = value }) in
    subst (λ id. Tracks qid (log ++ (entry (given id) ∷ [])) (put (given s.qid) s)) tracks.same
      (tracks_put (given s.qid) tracks)
tracks_step cancelled s tracks =
    let t = write (cancel_of s.qid) s in
    tracks_put none (tracks_quiet t refl (responses-write s) refl (λ up. up) tracks)
tracks_step closed s tracks = tracks_down _ refl refl refl tracks
tracks_step (line l) s tracks = tracks_generator (line l) s.phase s tracks
tracks_step eof s tracks = tracks_generator eof s.phase s tracks
tracks_step take s tracks = tracks_generator take s.phase s tracks
tracks_step timeout s tracks = tracks_generator timeout s.phase s tracks

tracks_run :
    {qid : String} (log : List (Option Message)) (es : List Event) (s : Session)
    → Tracks qid log s
    → Tracks qid (log_of qid es log) (run es s)
unfolding run log_of
tracks_run log [] s tracks = tracks
tracks_run {qid = qid} log (e ∷ es) s tracks =
    tracks_run (logged qid e log) es (step e s) (tracks_step e s tracks)

-- The answers that a session has sent are the first ones that it was given, in their order: the log
-- of answers and cancels begins with them, so none was made up, and none was given after a cancel.
pub run-IsFaithful :
    (q : QuerySpec) (es : List Event)
    → (rest : List (Option Message)) × (map some (responses (run es (opened q))) ++ rest
        ≡ log_of q.qid es [])
unfolding opened responses
run-IsFaithful q es =
    let tracks =
      tracks_run {qid = q.qid} [] es (opened q)
        (record { same = refl; rest = []; split = refl; queued = λ _. refl }) in
    (tracks.rest, tracks.split)

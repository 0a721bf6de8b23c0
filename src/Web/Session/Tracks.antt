-- ===== src/Web/Session/Tracks.antt =====
-- The log of the answers that a query session of src/nixadmin/web/session.py is given, and the steps
-- that send none of them.
use mathlib.Core.Bool.{true≢false}
use nixadmin.Prelude.{
  keep-append, map-append, append-nil, append_assoc, ◌≡◌, refl, sym, ap, ◌∙◌, String, Bool, true,
  false, Option, none, some, List, [], ◌∷◌, ◌++◌, map, keep, if◌then◌else◌,
}
use nixadmin.Prelude.Result.{Result, ok, err}
use nixadmin.Json.{JsonText}
use nixadmin.Protocol.{respond, Message, Refusal, unhashable, decode}
use nixadmin.Web.Session.{
  Phase, reading, waiting, ended, Respond, Session, message_of, write, close, end, after, settle,
  show, read_decoded, read, Event, answer, cancelled, put, cancel_of,
}

abbrev pub is_respond : Message → Bool
is_respond m = elim m.cls [ respond ↦ true | _ ↦ false ]

-- The answers that were sent.
unfoldable pub responses : Session → List Message
responses s = keep is_respond s.sent

abbrev pub entry : Option Respond → Option Message
entry none = none
entry (some r) = some (message_of r)

-- The log of what the other threads put into the queue: an answer, or none for a cancel.
unfoldable pub logged : String → Event → List (Option Message) → List (Option Message)
logged qid (answer confirmed value) log =
    log ++ (some (message_of (record { id = qid; confirmed = confirmed; value = value })) ∷ [])
logged qid cancelled log = log ++ (none ∷ [])
logged qid other log = log

unfoldable pub log_of : String → List Event → List (Option Message) → List (Option Message)
log_of qid [] log = log
log_of qid (e ∷ es) log = log_of qid es (logged qid e log)

pub record Tracks (qid : String) (log : List (Option Message)) (s : Session) : Type 0 where
  pub same : s.qid ≡ qid
  pub rest : List (Option Message)
  pub split : map some (responses s) ++ rest ≡ log
  pub queued : s.is_open ≡ true → rest ≡ map entry s.answers

pub tracks_quiet :
    {qid : String} {log : List (Option Message)} {s : Session} (t : Session)
    → t.qid ≡ s.qid
    → responses t ≡ responses s
    → t.answers ≡ s.answers
    → (t.is_open ≡ true → s.is_open ≡ true)
    → Tracks qid log s
    → Tracks qid log t
tracks_quiet t id sent answers up tracks = record {
  same = id ∙ tracks.same;
  rest = tracks.rest;
  split = ap (λ rs. map some rs ++ tracks.rest) sent ∙ tracks.split;
  queued = λ opened. tracks.queued (up opened) ∙ ap (map entry) (sym answers);
}

pub responses_if : Bool → Message → List Message → List Message
responses_if up m sent = if up then sent ++ (m ∷ []) else sent

-- A message that is no answer leaves the answers as they are.
pub keep-cancel :
    (up : Bool) (qid : String) (sent : List Message)
    → keep is_respond (responses_if up (cancel_of qid) sent) ≡ keep is_respond sent
unfolding cancel_of responses_if
keep-cancel true qid sent =
    keep-append is_respond sent (cancel_of qid ∷ []) ∙ append-nil (keep is_respond sent)
keep-cancel false qid sent = refl

pub responses-write : (s : Session) → responses (write (cancel_of s.qid) s) ≡ responses s
unfolding responses write responses_if
responses-write s = keep-cancel s.is_open s.qid s.sent

pub tracks_down :
    {qid : String} {log : List (Option Message)} {s : Session} (t : Session)
    → t.qid ≡ s.qid
    → responses t ≡ responses s
    → t.is_open ≡ false
    → Tracks qid log s
    → Tracks qid log t
tracks_down t id sent down tracks = record {
  same = id ∙ tracks.same;
  rest = tracks.rest;
  split = ap (λ rs. map some rs ++ tracks.rest) sent ∙ tracks.split;
  queued = λ up. absurd (true≢false (sym up ∙ down));
}

pub tracks_put :
    {qid : String} {log : List (Option Message)} {s : Session} (a : Option Respond)
    → Tracks qid log s
    → Tracks qid (log ++ (entry a ∷ [])) (put a s)
unfolding put responses
tracks_put {s = s} a tracks = record {
  same = tracks.same;
  rest = tracks.rest ++ (entry a ∷ []);
  split =
      sym (append_assoc (map some (responses s)) tracks.rest (entry a ∷ []))
      ∙ ap (λ log. log ++ (entry a ∷ [])) tracks.split;
  queued = λ up.
      ap (λ rest. rest ++ (entry a ∷ [])) (tracks.queued up)
      ∙ sym (map-append entry s.answers (a ∷ []));
}

-- The settled phase changes neither what was sent nor what was put.
pub settle_quiet :
    {qid : String} {log : List (Option Message)} (phase : Phase) (s : Session)
    → Tracks qid log s
    → Tracks qid log (settle phase s)
unfolding settle end close responses
settle_quiet reading s tracks = tracks_quiet _ refl refl refl (λ up. up) tracks
settle_quiet waiting s tracks = tracks_quiet _ refl refl refl (λ up. up) tracks
settle_quiet ended s tracks = tracks_down _ refl refl refl tracks

pub end_quiet :
    {qid : String} {log : List (Option Message)} (s : Session)
    → Tracks qid log s
    → Tracks qid log (end s)
unfolding end close responses
end_quiet s tracks = tracks_down _ refl refl refl tracks

pub decoded_quiet :
    {qid : String} {log : List (Option Message)} (r : Result Refusal Message) (s : Session)
    → Tracks qid log s
    → Tracks qid log (read_decoded r s)
unfolding show responses
decoded_quiet (ok m) s tracks =
    settle_quiet (after m.cls) _ (tracks_quiet _ refl refl refl (λ up. up) tracks)
decoded_quiet (err unhashable) s tracks = end_quiet s tracks
decoded_quiet (err other) s tracks = tracks

pub read_quiet :
    {qid : String} {log : List (Option Message)} (l : JsonText) (s : Session)
    → Tracks qid log s
    → Tracks qid log (read l s)
unfolding read
read_quiet {qid = qid} {log = log} l s tracks =
    elim s.is_open as (λ up. Tracks qid log (if up then read_decoded (decode l) s else end s)) [
      | true ↦ decoded_quiet (decode l) s tracks
      | false ↦ end_quiet s tracks
    ]

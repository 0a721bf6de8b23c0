-- ===== src/Dclient/Answered.antt =====
-- What the local view's client (src/nixadmin/web/dclient.py) makes of the daemon's answers.
use text.Mathlib.TextLemmas.{
  append-nil as text-append-nil, nil-append as text-nil-append, append_assoc as text-append_assoc,
}
use nixadmin.Prelude.{
  ◌≡◌, refl, sym, ap, append-nil, ◌∙◌, ◌+◌, String, ◌<>◌, Bool, true, false, Option, none, some,
  List, [], ◌∷◌, ◌++◌, string_eq, append_assoc, arith,
}
use nixadmin.Prelude.Result.{ok}
use nixadmin.Json.{Json, str, get}
use nixadmin.Protocol.{Message, encode, pack, fields_of}
use nixadmin.Protocol.Transport.{Line, negotiate, attribute}
use nixadmin.Daemon.{Sent, delta, status, error, done, failures, journal, timeline, ledger}
use nixadmin.Daemon.Quiet.{terminals}
use nixadmin.Daemon.Wire.{wire_of, decode-wire_of}
use nixadmin.Dclient.{
  Item, printed, Finish, os_error, Connection, collected, read, reading_of, on_item, read_item,
  Outcome, replied, lost, escaped, with_deltas, ending, read_items, on_hello, converse, glue,
  join_texts, result_of, ends, or_else, map_answer, joined,
}

-- The lines of some messages, the newest of which comes first, in the order of their sending.
unfoldable pub lines_of : List Sent → List Item
lines_of [] = []
lines_of (m ∷ ms) = lines_of ms ++ (printed (encode (wire_of m)) ∷ [])

-- What the deltas among them say.
unfoldable pub said : List Sent → String
said [] = ""
said (delta id t ∷ ms) = said ms <> t
said (other ∷ ms) = said ms

-- What some messages tell whoever waits for their end: the error that ends them, or what was said.
abbrev pub told : String → List Sent → Json × Bool
told default (error id t ∷ ms) = (str t, false)
told default (done id chain model ∷ ms) = (str (or_else default (said ms)), true)
told default other = (str "daemon unreachable", false)

delta_texts : Sent → List Json
delta_texts m = collected true (wire_of m)

texts_of : List Sent → List Json
texts_of [] = []
texts_of (m ∷ ms) = texts_of ms ++ delta_texts m

with_deltas_twice :
    (xs ys : List Json) (o : Outcome) → with_deltas xs (with_deltas ys o) ≡ with_deltas (xs ++ ys) o
with_deltas_twice xs ys (replied r) =
    ap (λ ds. replied (record { result = r.result; deltas = ds }))
      (sym (append_assoc xs ys r.deltas))
with_deltas_twice xs ys other = refl

read_item-wire : (m : Sent) → read_item (printed (encode (wire_of m))) ≡ read (wire_of m)
unfolding read_item
read_item-wire m = ap reading_of (decode-wire_of m)

-- A message that ends nothing.
on_quiet :
    (m : Sent) (o : Outcome)
    → terminals (m ∷ []) ≡ 0
    → on_item ends true o (read (wire_of m)) ≡ with_deltas (delta_texts m) o
unfolding terminals delta_texts wire_of
on_quiet (delta id t) o h = refl
on_quiet (status id t) o h = refl
on_quiet (error id t) o h = absurd (omega arith)
on_quiet (done id chain model) o h = absurd (omega arith)
on_quiet (failures id units) o h = refl
on_quiet (journal id unit t) o h = refl
on_quiet (timeline id page) o h = refl
on_quiet (ledger id well) o h = refl

pub terminals-cons :
    (m : Sent) (ms : List Sent) → terminals (m ∷ ms) ≡ terminals (m ∷ []) + terminals ms
unfolding terminals
terminals-cons (delta id t) ms = omega arith
terminals-cons (status id t) ms = omega arith
terminals-cons (error id t) ms = omega arith
terminals-cons (done id chain model) ms = omega arith
terminals-cons (failures id units) ms = omega arith
terminals-cons (journal id unit t) ms = omega arith
terminals-cons (timeline id page) ms = omega arith
terminals-cons (ledger id well) ms = omega arith

-- The messages before the end are passed, and their deltas are kept.
read-lines :
    (ms : List Sent) (rest : List Item) (finish : Finish)
    → terminals ms ≡ 0
    → read_items ends true (lines_of ms ++ rest) finish
      ≡ with_deltas (texts_of ms) (read_items ends true rest finish)
unfolding lines_of texts_of
read-lines [] rest finish h = no_deltas (read_items ends true rest finish)
  where
    no_deltas : (o : Outcome) → o ≡ with_deltas [] o
    no_deltas (replied r) = refl
    no_deltas lost = refl
    no_deltas escaped = refl
read-lines (m ∷ ms) rest finish h =
    let item = printed (encode (wire_of m)) in
    let o = read_items ends true rest finish in
    let split = terminals-cons m ms in
    let one : read_items ends true (item ∷ rest) finish ≡ with_deltas (delta_texts m) o =
      unfold read_items in
      (ap (on_item ends true o) (read_item-wire m) ∙ on_quiet m o (omega arith)) in
    ap (λ is. read_items ends true is finish) (append_assoc (lines_of ms) (item ∷ []) rest)
    ∙ read-lines ms (item ∷ rest) finish (omega arith)
    ∙ ap (with_deltas (texts_of ms)) one
    ∙ with_deltas_twice (texts_of ms) (delta_texts m) o

abbrev followed : String → Option String → Option String
followed t none = none
followed t (some s) = some (s <> t)

followed-glue : (s t : String) (o : Option String) → glue s (followed t o) ≡ followed t (glue s o)
followed-glue s t none = refl
followed-glue s t (some u) = ap some (sym (text-append_assoc s u t))

join_texts-append :
    (vs : List Json) (t : String) → join_texts (vs ++ (str t ∷ [])) ≡ followed t (join_texts vs)
unfolding join_texts
join_texts-append [] t = ap some (text-append-nil t ∙ sym (text-nil-append t))
join_texts-append (str s ∷ vs) t =
    ap (glue s) (join_texts-append vs t) ∙ followed-glue s t (join_texts vs)
join_texts-append (other ∷ vs) t = refl

join_texts-said : (ms : List Sent) → join_texts (texts_of ms) ≡ some (said ms)
unfolding join_texts texts_of said delta_texts wire_of attribute get pack fields_of string_eq
join_texts-said [] = refl
join_texts-said (delta id t ∷ ms) =
    join_texts-append (texts_of ms) t ∙ ap (followed t) (join_texts-said ms)
join_texts-said (m ∷ ms) = ap join_texts (append-nil (texts_of ms)) ∙ join_texts-said ms

-- What `_roundtrip` makes of messages that end with the only terminal one.
abbrev heard : Sent → List Sent → Outcome
heard m ms = replied (record { result = some (wire_of m); deltas = texts_of ms ++ [] })

on_last :
    (m : Sent) (o : Outcome)
    → terminals (m ∷ []) ≡ 1
    → on_item ends true o (read (wire_of m))
      ≡ replied (record { result = some (wire_of m); deltas = [] })
unfolding terminals wire_of
on_last (error id t) o h = refl
on_last (done id chain model) o h = refl
on_last (delta id t) o h = absurd (omega arith)
on_last (status id t) o h = absurd (omega arith)
on_last (failures id units) o h = absurd (omega arith)
on_last (journal id unit t) o h = absurd (omega arith)
on_last (timeline id page) o h = absurd (omega arith)
on_last (ledger id well) o h = absurd (omega arith)

read-last :
    (m : Sent) (ms : List Sent) (finish : Finish)
    → terminals (m ∷ []) ≡ 1
    → terminals ms ≡ 0
    → read_items ends true (lines_of (m ∷ ms)) finish ≡ heard m ms
unfolding lines_of
read-last m ms finish hm hms =
    let item = printed (encode (wire_of m)) in
    let o = ending finish in
    let one : read_items ends true (item ∷ []) finish ≡ on_item ends true o (read (wire_of m)) =
      unfold read_items in (ap (on_item ends true o) (read_item-wire m)) in
    read-lines ms (item ∷ []) finish hms ∙ ap (with_deltas (texts_of ms)) (one ∙ on_last m o hm)

all-said : (ms : List Sent) → join_texts (texts_of ms ++ []) ≡ some (said ms)
all-said ms = ap join_texts (append-nil (texts_of ms)) ∙ join_texts-said ms

answer-heard :
    (default : String) (m : Sent) (ms : List Sent)
    → terminals (m ∷ []) ≡ 1
    → map_answer default (result_of (heard m ms)) ≡ ok (told default (m ∷ ms))
unfolding wire_of attribute get pack fields_of string_eq terminals
answer-heard default (error id t) ms h =
    ap (λ o. map_answer default (joined (some (wire_of (error id t))) o)) (all-said ms)
answer-heard default (done id chain model) ms h =
    ap (λ o. map_answer default (joined (some (wire_of (done id chain model))) o)) (all-said ms)
answer-heard default (delta id t) ms h = absurd (omega arith)
answer-heard default (status id t) ms h = absurd (omega arith)
answer-heard default (failures id units) ms h = absurd (omega arith)
answer-heard default (journal id unit t) ms h = absurd (omega arith)
answer-heard default (timeline id page) ms h = absurd (omega arith)
answer-heard default (ledger id well) ms h = absurd (omega arith)

-- Messages of which none ends the answer, and then a read that takes too long.
read-late : (ms : List Sent) → terminals ms ≡ 0 → read_items ends true (lines_of ms) os_error ≡ lost
unfolding read_items
read-late ms h =
    ap (λ is. read_items ends true is os_error) (sym (append-nil (lines_of ms)))
    ∙ read-lines ms [] os_error h

-- A connection that gives a daemon's hello and then some messages.
abbrev pub giving : Line → List Sent → Finish → Connection
giving hello ms finish = record {
  opens = true;
  hello = hello;
  items = lines_of ms;
  finish = finish;
}

module _ (hello : Line) (greeting : Message) (welcome : negotiate hello ≡ ok greeting) (m : Sent)
    (ms : List Sent) (finish : Finish) (ends_it : terminals (m ∷ []) ≡ 1)
    (before : terminals ms ≡ 0) where
  pub told_by :
      (default : String)
      → map_answer default (result_of (converse ends true (giving hello (m ∷ ms) finish)))
        ≡ ok (told default (m ∷ ms))
  unfolding converse
  told_by default =
      ap
        (λ r.
          map_answer default
            (result_of (on_hello r (read_items ends true (lines_of (m ∷ ms)) finish))))
        welcome
      ∙ ap (λ o. map_answer default (result_of o)) (read-last m ms finish ends_it before)
      ∙ answer-heard default m ms ends_it

module _ (hello : Line) (greeting : Message) (welcome : negotiate hello ≡ ok greeting)
    (ms : List Sent) (quiet : terminals ms ≡ 0) where
  pub told_late :
      (default : String)
      → map_answer default (result_of (converse ends true (giving hello ms os_error)))
        ≡ ok (str "daemon unreachable", false)
  unfolding converse
  told_late default =
      ap
        (λ r.
          map_answer default (result_of (on_hello r (read_items ends true (lines_of ms) os_error))))
        welcome
      ∙ ap (λ o. map_answer default (result_of o)) (read-late ms quiet)

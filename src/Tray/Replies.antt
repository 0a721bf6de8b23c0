-- ===== src/Tray/Replies.antt =====
-- Where the replies to the tray come from, in src/nixadmin/tray/client.py, and what a lost connection
-- leaves.
use nixadmin.Prelude.{
  ◌≡◌, refl, String, Bool, true, false, ◌||◌, Option, none, some, List, [], ◌∷◌, ◌==◌, string_eq,
  arith, Bool-cases, ◌⊎◌, inl, inr,
}
use nixadmin.Prelude.Dict.{lookup}
use nixadmin.Prelude.Result.{ok}
use nixadmin.Json.{str, JsonText}
use nixadmin.Protocol.{Message, decode}
use nixadmin.Protocol.Transport.{attribute}
use nixadmin.Tray.{
  Future, waiting, replied, DaemonClient, at_start, disconnect, dispatch, Event, greeted, missed,
  lost, received, asked, expired, told, step, after,
}
use nixadmin.Tray.Settled.{Alternate, Holds}
use nixadmin.Tray.Sound.{
  is_reply, split-IsSound, if-IsSound, disconnect-IsSound, set_connected-IsSound, missed-IsSound,
  dispatch_decoded-IsSound, time_out-IsSound, request-IsSound, Holds-later, while_connected-IsSound,
}

-- Whether a request was made with an identifier, the newest event first.
unfoldable pub was_asked : String → List Event → Bool
was_asked id [] = false
was_asked id (asked collect writes i m ∷ es) = let rest = was_asked id es in id == i || rest
was_asked id (e ∷ es) = was_asked id es

-- A message of a line that ends a request with an identifier, and came after it was made.
pub record Answers (id : String) (m : Message) (line : JsonText) (es : List Event) : Type 0 where
  pub read : decode line ≡ ok m
  pub final : is_reply m.cls ≡ true
  pub same : attribute "id" m ≡ str id
  pub since : was_asked id es ≡ true

-- A message came in after the request with an identifier, as an answer of it.
abbrev pub WasAnswered : String → Message → List Event → Type 0
WasAnswered id m [] = ⊥
WasAnswered id m (received writes line ∷ es) = Answers id m line es ⊎ WasAnswered id m es
WasAnswered id m (e ∷ es) = WasAnswered id m es

-- What holds of a client after some events.
abbrev IsSoundAfter : List Event → DaemonClient → Type 0
IsSoundAfter es c = Holds (λ id. was_asked id es) (λ id m. WasAnswered id m es) c

step-IsSound :
    (e : Event) (es : List Event) (c : DaemonClient)
    → IsSoundAfter es c
    → IsSoundAfter (e ∷ es) (step e c)
unfolding step was_asked dispatch
step-IsSound greeted es c h = if-IsSound c.running _ c (set_connected-IsSound c h) h
step-IsSound missed es c h = split-IsSound c.connected c _ (λ _. h) (λ off. missed-IsSound c off h)
step-IsSound lost es c h = while_connected-IsSound disconnect c h (λ on. disconnect-IsSound c on h)
step-IsSound (received writes line) es c h =
    let old = Holds-later c (λ id e. e) (λ id m a. inr a) h in
    while_connected-IsSound (dispatch writes line) c old (λ on.
      dispatch_decoded-IsSound writes (decode line) c on old (λ id m read final same since.
        inl (record { read = read; final = final; same = same; since = since })))
step-IsSound (asked collect writes id m) es c h =
    request-IsSound collect writes id m c (ground arith)
      (Holds-later c (λ j e. ground (arith, e)) (λ j n a. a) h)
step-IsSound (expired id) es c h = time_out-IsSound id c h
step-IsSound (told id) es c h = h

at_start-IsSound : IsSoundAfter [] at_start
unfolding lookup
at_start-IsSound = record {
  kept = λ id. refl;
  idle = λ _. refl;
  turns = refl;
  known = λ id f e. absurd (ground (arith, e));
  genuine = λ id m e. absurd (ground (arith, e));
}

after-IsSound : (es : List Event) → IsSoundAfter es (after es)
unfolding after
after-IsSound [] = at_start-IsSound
after-IsSound (e ∷ es) = step-IsSound e es (after es) (after-IsSound es)

-- What a future says is so: who waits has asked and has a connection, and a reply was an answer.
abbrev pub IsTrue : String → List Event → Bool → Option Future → Type 0
IsTrue id es connected (some waiting) = (connected ≡ true) × (was_asked id es ≡ true)
IsTrue id es connected (some (replied m)) = WasAnswered id m es
IsTrue id es connected other = Unit

sound-IsTrue :
    (es : List Event) (c : DaemonClient) (id : String) (o : Option Future)
    → IsSoundAfter es c
    → lookup id c.futures ≡ o
    → IsTrue id es c.connected o
sound-IsTrue es c id none h e = tt
sound-IsTrue es c id (some waiting) h e = elim (Bool-cases c.connected) [
  | inl on ↦ (on, h.known id waiting e)
  | inr off ↦ absurd (ground (arith, e, h.kept id, h.idle off))
]
sound-IsTrue es c id (some (replied m)) h e = h.genuine id m e
sound-IsTrue es c id (some other) h e = tt

-- Whatever the daemon sends and in whatever order requests are made, answered and lost: a request
-- waits only while there is a connection; a reply to it is a message that ends a request, with its
-- identifier, that came in after the request was made; and the calls of `on_state` take turns, the
-- last one as the connection is now.
pub futures-AreTrue :
    (es : List Event) (id : String)
    → IsTrue id es (after es).connected (lookup id (after es).futures)
      × Alternate (after es).connected (after es).states
futures-AreTrue es id =
    (sound-IsTrue es (after es) id _ (after-IsSound es) refl, (after-IsSound es).turns)

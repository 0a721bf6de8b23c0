-- ===== src/Tray/Sound.antt =====
-- What the events of src/nixadmin/tray/client.py keep of a client, one by one.
use nixadmin.Prelude.Membership.{contains-without}
use nixadmin.Prelude.{
  ◌≡◌, refl, ap, ◌∙◌, String, Bool, true, false, not, ◌&&◌, Option, none, some, List, ◌==◌,
  contains, string_eq, if◌then◌else◌, arith, Bool-cases, inl, inr, eq-true, subst,
}
use nixadmin.Prelude.Dict.{lookup, lookup-insert}
use nixadmin.Prelude.Result.{Result, ok, err}
use nixadmin.Json.{Json, str, arr, obj}
use nixadmin.Protocol.{Class, event, confirm, delta, failures, done, error, Message}
use nixadmin.Protocol.Transport.{attribute}
use nixadmin.Tray.{
  Future, waiting, timed_out, replied, DaemonClient, set_connected, fail_pending, disconnect,
  reply_to, append_to, key_of, is_empty, on_delta, on_reply, dispatch_class, dispatch_decoded,
  request, waits, time_out, while_connected,
}
use nixadmin.Tray.Settled.{Alternate, Holds, settled-IsSound, failed-IsSound}

-- wire.Failures, wire.Done and wire.Error, which end a request.
abbrev pub is_reply : Class → Bool
is_reply failures = true
is_reply done = true
is_reply error = true
is_reply other = false

-- The reply of a future.
abbrev message_or : Message → Option Future → Message
message_or d (some (replied m)) = m
message_or d other = d

module _ {was : String → Bool} {Fits : String → Message → Type 0} where
  pub disconnect-IsSound :
      (c : DaemonClient) → c.connected ≡ true → Holds was Fits c → Holds was Fits (disconnect c)
  unfolding disconnect fail_pending set_connected
  disconnect-IsSound c on h =
      rw on (failed-IsSound h (refl, subst (λ b. Alternate b c.states) on h.turns))

  pub split-IsSound :
      (b : Bool) (c d : DaemonClient)
      → (b ≡ true → Holds was Fits c)
      → (b ≡ false → Holds was Fits d)
      → Holds was Fits (if b then c else d)
  split-IsSound true c d hc hd = hc refl
  split-IsSound false c d hc hd = hd refl

  pub if-IsSound :
      (b : Bool) (c d : DaemonClient)
      → Holds was Fits c
      → Holds was Fits d
      → Holds was Fits (if b then c else d)
  if-IsSound b c d hc hd = split-IsSound b c d (λ _. hc) (λ _. hd)

  reply_to-IsSound :
      (id : String) (m : Message) (c : DaemonClient)
      → Holds was Fits c
      → (was id ≡ true → Fits id m)
      → Holds was Fits (reply_to id m c)
  reply_to-IsSound id m c h fits =
      if-IsSound (contains c.pending id) _ c
        (settled-IsSound id (replied m) h refl
          (λ n since e. subst (Fits id) (ap (message_or m) e) (fits since)))
        h

  append_to-IsSound :
      (id : String) (text : Json) (o : Option (List Json)) (c : DaemonClient)
      → Holds was Fits c
      → Holds was Fits (append_to id text o c)
  append_to-IsSound id text none c h = h
  append_to-IsSound id text (some buf) c h = h

  on_reply-IsSound :
      (v : Json) (m : Message) (c : DaemonClient)
      → c.connected ≡ true
      → Holds was Fits c
      → ((id : String) → v ≡ str id → was id ≡ true → Fits id m)
      → Holds was Fits (on_reply (key_of v) m c)
  on_reply-IsSound (str id) m c on h fits = reply_to-IsSound id m c h (fits id refl)
  on_reply-IsSound (arr items) m c on h fits =
      if-IsSound (is_empty c.pending) c _ h (disconnect-IsSound c on h)
  on_reply-IsSound (obj items) m c on h fits =
      if-IsSound (is_empty c.pending) c _ h (disconnect-IsSound c on h)
  on_reply-IsSound other m c on h fits = h

  on_delta-IsSound :
      (v : Json) (m : Message) (c : DaemonClient)
      → c.connected ≡ true
      → Holds was Fits c
      → Holds was Fits (on_delta (key_of v) m c)
  on_delta-IsSound (str id) m c on h =
      append_to-IsSound id (attribute "text" m) (lookup id c.collect) c h
  on_delta-IsSound (arr items) m c on h = disconnect-IsSound c on h
  on_delta-IsSound (obj items) m c on h = disconnect-IsSound c on h
  on_delta-IsSound other m c on h = h

  pub set_connected-IsSound :
      (c : DaemonClient) → Holds was Fits c → Holds was Fits (set_connected true c)
  unfolding set_connected
  set_connected-IsSound c h =
      split-IsSound (not c.connected) _ c
        (λ off. record {
          kept = h.kept;
          idle = λ e. absurd (ground (arith, e));
          turns = (refl, subst (λ b. Alternate b c.states) (ground (arith, off)) h.turns);
          known = h.known;
          genuine = h.genuine;
        })
        (λ _. h)

  pub missed-IsSound :
      (c : DaemonClient)
      → c.connected ≡ false
      → Holds was Fits c
      → Holds was Fits (set_connected false c)
  unfolding set_connected
  missed-IsSound c off h =
      split-IsSound c.connected _ c (λ on. absurd (ground (arith, on, off))) (λ _. h)

  dispatch_class-IsSound :
      (k : Class) (writes : Bool) (m : Message) (c : DaemonClient)
      → c.connected ≡ true
      → Holds was Fits c
      → ((id : String) → is_reply k ≡ true → attribute "id" m ≡ str id → was id ≡ true → Fits id m)
      → Holds was Fits (dispatch_class k writes m c)
  dispatch_class-IsSound failures writes m c on h fits =
      on_reply-IsSound (attribute "id" m) m c on h (λ id. fits id refl)
  dispatch_class-IsSound done writes m c on h fits =
      on_reply-IsSound (attribute "id" m) m c on h (λ id. fits id refl)
  dispatch_class-IsSound error writes m c on h fits =
      on_reply-IsSound (attribute "id" m) m c on h (λ id. fits id refl)
  dispatch_class-IsSound delta writes m c on h fits = on_delta-IsSound (attribute "id" m) m c on h
  dispatch_class-IsSound confirm writes m c on h fits = if-IsSound writes _ c h h
  dispatch_class-IsSound event writes m c on h fits = h
  dispatch_class-IsSound other writes m c on h fits = h

  pub dispatch_decoded-IsSound :
      {R : Type 0} (writes : Bool) (r : Result R Message) (c : DaemonClient)
      → c.connected ≡ true
      → Holds was Fits c
      → ((id : String) (m : Message)
          → r ≡ ok m
          → is_reply m.cls ≡ true
          → attribute "id" m ≡ str id
          → was id ≡ true
          → Fits id m)
      → Holds was Fits (dispatch_decoded writes r c)
  dispatch_decoded-IsSound writes (ok m) c on h fits =
      dispatch_class-IsSound m.cls writes m c on h (λ id. fits id m refl)
  dispatch_decoded-IsSound writes (err e) c on h fits = h

  pub time_out-IsSound :
      (id : String) (c : DaemonClient) → Holds was Fits c → Holds was Fits (time_out id c)
  unfolding time_out
  time_out-IsSound id c h =
      if-IsSound (waits (lookup id c.futures)) _ c
        (settled-IsSound id timed_out h refl (λ m since e. absurd (ground (arith, e)))) h

  pub request-IsSound :
      (collect writes : Bool) (id : String) (m : Message) (c : DaemonClient)
      → was id ≡ true
      → Holds was Fits c
      → Holds was Fits (request collect writes id m c)
  unfolding request
  request-IsSound collect writes id m c new h = elim (Bool-cases (c.connected && writes)) [
    | inl go ↦ rw go (record {
      kept = λ j.
          ground (
            arith,
            h.kept j,
            contains-without id j c.pending,
            lookup-insert id j waiting c.futures,
          );
      idle = λ e. absurd (ground (arith, e, go));
      turns = h.turns;
      known = λ j f e. elim (Bool-cases (j == id)) [
        | inl same ↦ ap was (eq-true j id same) ∙ new
        | inr differ ↦ h.known j f (ground (arith, e, differ, lookup-insert id j waiting c.futures))
      ];
      genuine = λ j n e. elim (Bool-cases (j == id)) [
        | inl same ↦ absurd (ground (arith, e, same, lookup-insert id j waiting c.futures))
        | inr differ ↦
            h.genuine j n (ground (arith, e, differ, lookup-insert id j waiting c.futures))
      ];
    })
    | inr stay ↦ rw stay h
  ]

pub Holds-later :
    {was will : String → Bool} {Fits Suits : String → Message → Type 0} (c : DaemonClient)
    → ((id : String) → was id ≡ true → will id ≡ true)
    → ((id : String) (m : Message) → Fits id m → Suits id m)
    → Holds was Fits c
    → Holds will Suits c
Holds-later c more fits h = record {
  kept = h.kept;
  idle = h.idle;
  turns = h.turns;
  known = λ id f e. more id (h.known id f e);
  genuine = λ id m e. fits id m (h.genuine id m e);
}

pub while_connected-IsSound :
    {was : String → Bool} {Fits : String → Message → Type 0} (f : DaemonClient → DaemonClient)
    (c : DaemonClient)
    → Holds was Fits c
    → (c.connected ≡ true → Holds was Fits (f c))
    → Holds was Fits (while_connected f c)
while_connected-IsSound f c h hf = split-IsSound c.connected (f c) c hf (λ _. h)

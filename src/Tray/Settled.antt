-- ===== src/Tray/Settled.antt =====
-- The futures of the tray's client in src/nixadmin/tray/client.py, one by one and all at once.
use nixadmin.Prelude.Membership.{contains-without}
use nixadmin.Prelude.{
  ◌≡◌, refl, sym, ap, ◌∙◌, String, Bool, true, false, not, Option, none, some, List, [], ◌∷◌, ◌==◌,
  contains, string_eq, if◌then◌else◌, arith, ◌⊎◌, inl, inr, eq-true, subst,
}
use nixadmin.Prelude.Dict.{Dict, lookup, lookup-insert}
use nixadmin.Protocol.{Message}
use nixadmin.Tray.{
  Future, waiting, disconnected, timed_out, replied, DaemonClient, settle, put_future, settle_at,
  fail_each, without, waits,
}

put-settled :
    (id j : String) (outcome : Future) (futures : Dict String Future) (o : Option Future)
    → lookup id futures ≡ o
    → lookup j (put_future id (settle outcome o) futures)
      ≡ (if j == id then settle outcome (lookup j futures) else lookup j futures)
put-settled id j outcome futures none e = ground (arith, e)
put-settled id j outcome futures (some waiting) e =
    ground (arith, e, lookup-insert id j outcome futures)
put-settled id j outcome futures (some other) e =
    ground (arith, e, lookup-insert id j other futures)

lookup-settle_at :
    (id j : String) (outcome : Future) (futures : Dict String Future)
    → lookup j (settle_at id outcome futures)
      ≡ (if j == id then settle outcome (lookup j futures) else lookup j futures)
unfolding settle_at
lookup-settle_at id j outcome futures = put-settled id j outcome futures _ refl

settle-again :
    (o : Option Future) → settle disconnected (settle disconnected o) ≡ settle disconnected o
settle-again none = refl
settle-again (some waiting) = refl
settle-again (some disconnected) = refl
settle-again (some timed_out) = refl
settle-again (some (replied m)) = refl

lookup-fail_each :
    (ids : List String) (j : String) (futures : Dict String Future)
    → lookup j (fail_each ids futures)
      ≡ (if contains ids j then settle disconnected (lookup j futures) else lookup j futures)
unfolding fail_each
lookup-fail_each [] j futures = refl
lookup-fail_each (id ∷ ids) j futures =
    let ih = lookup-fail_each ids j futures in
    lookup-settle_at id j disconnected (fail_each ids futures)
    ∙ ground (arith, ih, settle-again (lookup j futures))

-- The calls of `on_state`, the newest first, take turns, and the newest one told the truth.
abbrev pub Alternate : Bool → List Bool → Type 0
Alternate b [] = b ≡ false
Alternate b (s ∷ ss) = (s ≡ b) × Alternate (not b) ss

-- The parts of a client, with which requests were made and which replies are to be expected.
pub record IsSound (was : String → Bool) (Fits : String → Message → Type 0) (connected : Bool)
    (pending : List String) (futures : Dict String Future) (states : List Bool) : Type 0 where
  pub kept : (id : String) → contains pending id ≡ waits (lookup id futures)
  pub idle : connected ≡ false → pending ≡ []
  pub turns : Alternate connected states
  pub known : (id : String) (f : Future) → lookup id futures ≡ some f → was id ≡ true
  pub genuine : (id : String) (m : Message) → lookup id futures ≡ some (replied m) → Fits id m

abbrev pub Holds : (String → Bool) → (String → Message → Type 0) → DaemonClient → Type 0
Holds was Fits c = IsSound was Fits c.connected c.pending c.futures c.states

waits-settle :
    (outcome : Future) (o : Option Future)
    → waits (some outcome) ≡ false
    → waits (settle outcome o) ≡ false
waits-settle outcome none h = refl
waits-settle outcome (some waiting) h = h
waits-settle outcome (some disconnected) h = refl
waits-settle outcome (some timed_out) h = refl
waits-settle outcome (some (replied m)) h = refl

settle-known :
    (outcome : Future) (o : Option Future) (f : Future)
    → settle outcome o ≡ some f
    → (g : Future) × (o ≡ some g)
settle-known outcome none f e = absurd (ground (arith, e))
settle-known outcome (some g) f e = (g, refl)

settle-replied :
    (outcome : Future) (o : Option Future) (m : Message)
    → settle outcome o ≡ some (replied m)
    → (o ≡ some (replied m)) ⊎ ((o ≡ some waiting) × (some outcome ≡ some (replied m)))
settle-replied outcome none m e = absurd (ground (arith, e))
settle-replied outcome (some waiting) m e = inr (refl, e)
settle-replied outcome (some disconnected) m e = inl e
settle-replied outcome (some timed_out) m e = inl e
settle-replied outcome (some (replied n)) m e = inl e

if-known :
    (b : Bool) (outcome : Future) (o : Option Future) (f : Future)
    → (if b then settle outcome o else o) ≡ some f
    → (g : Future) × (o ≡ some g)
if-known true outcome o f e = settle-known outcome o f e
if-known false outcome o f e = (f, e)

-- A reply after a part of the futures is settled: it was there, or it is new.
if-replied :
    (b : Bool) (outcome : Future) (o : Option Future) (m : Message)
    → (if b then settle outcome o else o) ≡ some (replied m)
    → (o ≡ some (replied m)) ⊎ ((b ≡ true) × (o ≡ some waiting) × (some outcome ≡ some (replied m)))
if-replied true outcome o m e = elim (settle-replied outcome o m e) [
  | inl there ↦ inl there
  | inr new ↦ inr (refl, new.0, new.1)
]
if-replied false outcome o m e = inl e

module _ {was : String → Bool} {Fits : String → Message → Type 0} where
  pub settled-IsSound :
      (id : String) (outcome : Future) {b : Bool} {ids : List String} {fs : Dict String Future}
      {ss : List Bool}
      → IsSound was Fits b ids fs ss
      → waits (some outcome) ≡ false
      → ((m : Message) → was id ≡ true → some outcome ≡ some (replied m) → Fits id m)
      → IsSound was Fits b (without id ids) (settle_at id outcome fs) ss
  settled-IsSound id outcome {b} {ids} {fs} h final fits = record {
    kept = λ j. ground (
      arith,
      h.kept j,
      contains-without id j ids,
      lookup-settle_at id j outcome fs,
      waits-settle outcome (lookup j fs) final,
    );
    idle = λ e. ap (without id) (h.idle e);
    turns = h.turns;
    known = λ j f e.
        let found =
          if-known (j == id) outcome (lookup j fs) f (sym (lookup-settle_at id j outcome fs) ∙ e) in
        h.known j found.0 found.1;
    genuine = λ j m e.
        elim (if-replied (j == id) outcome (lookup j fs) m
          (sym (lookup-settle_at id j outcome fs) ∙ e)) [
            | inl there ↦ h.genuine j m there
            | inr new ↦
                subst (λ k. Fits k m) (sym (eq-true j id new.0))
                  (fits m
                    (h.known id waiting (ap (λ k. lookup k fs) (sym (eq-true j id new.0)) ∙ new.1))
                    new.2)
          ];
  }

  -- All futures that are waited for are settled.
  pub failed-IsSound :
      {b : Bool} {ids : List String} {fs : Dict String Future} {ss rest : List Bool}
      → IsSound was Fits b ids fs ss
      → Alternate false rest
      → IsSound was Fits false [] (fail_each ids fs) rest
  failed-IsSound {b} {ids} {fs} h turns = record {
    kept = λ j.
        ground (
          arith,
          h.kept j,
          lookup-fail_each ids j fs,
          waits-settle disconnected (lookup j fs) refl,
        );
    idle = λ _. refl;
    turns = turns;
    known = λ j f e.
        let found =
          if-known (contains ids j) disconnected (lookup j fs) f
            (sym (lookup-fail_each ids j fs) ∙ e) in
        h.known j found.0 found.1;
    genuine = λ j m e.
        elim (if-replied (contains ids j) disconnected (lookup j fs) m
          (sym (lookup-fail_each ids j fs) ∙ e)) [
            | inl there ↦ h.genuine j m there
            | inr new ↦ absurd (ground (arith, new.2))
          ];
  }

-- ===== src/Daemon/Quiet.antt =====
-- The steps of the handlers in src/nixadmin/server.py that end no answer.
use nixadmin.Prelude.{
  ℕ, ◌+◌, ◌≡◌, refl, ap, ◌∙◌, String, Bool, true, false, Option, none, some, List, [], ◌∷◌, ◌==◌,
  string_eq, if◌then◌else◌, arith,
}
use nixadmin.Prelude.Exec.{Exec, continue, handle, pure, modify, ◌>>=◌, try◌except◌}
use nixadmin.Prelude.Result.{Result, ok, err}
use nixadmin.Store.{Draft}
use nixadmin.Remediation.{
  Systemd, RestartOutcome, restart_resolved, attempt, verify, finish, couldnt, still_failing,
  healthy,
}
use nixadmin.Daemon.{
  Sent, delta, status, done, error, Daemon, Handler, put, send, on_machine, systemd, store_append,
}

-- The messages that end an answer.
unfoldable pub terminals : List Sent → ℕ
terminals [] = 0
terminals (done id chain model ∷ ms) = terminals ms + 1
terminals (error id text ∷ ms) = terminals ms + 1
terminals (other ∷ ms) = terminals ms

-- The newest message ends an answer.
abbrev pub EndsWell : List Sent → Type 0
EndsWell [] = ⊥
EndsWell (m ∷ ms) = terminals (m ∷ []) ≡ 1

module _ (S : Systemd) where
  -- Nothing that ends an answer is sent.
  unfoldable pub Quiet : {A : Type 0} → Handler S A → Type 0
  Quiet m = (d : Daemon S) → terminals (m d).1.sent ≡ terminals d.sent

  abbrev pub one : {A : Type 0} → Result String A → ℕ
  one (ok a) = 1
  one (err e) = 0

  abbrev pub EndsBy : {A : Type 0} → Result String A → Daemon S → Type 0
  EndsBy (ok a) d = EndsWell d.sent
  EndsBy (err e) d = Unit

  -- One such message is sent, and sent last, unless the handler raises.
  unfoldable pub Settles : {A : Type 0} → Handler S A → Type 0
  Settles m =
      (d : Daemon S)
      → (terminals (m d).1.sent ≡ terminals d.sent + one (m d).0) × EndsBy (m d).0 (m d).1

  pub continue-Quiet :
      {A B : Type 0} (r : Result String A) (f : A → Handler S B) (d : Daemon S)
      → ((a : A) → Quiet (f a))
      → terminals (continue r f d).1.sent ≡ terminals d.sent
  unfolding Quiet
  continue-Quiet (ok a) f d q = q a d
  continue-Quiet (err e) f d q = refl

  pub bind-Quiet :
      {A B : Type 0} (m : Handler S A) (f : A → Handler S B)
      → Quiet m
      → ((a : A) → Quiet (f a))
      → Quiet (m >>= f)
  unfolding Quiet
  bind-Quiet m f qm qf d = continue-Quiet (m d).0 f (m d).1 qf ∙ qm d

  pub continue-Settles :
      {A B : Type 0} (r : Result String A) (f : A → Handler S B) (d : Daemon S)
      → ((a : A) → Settles (f a))
      → (terminals (continue r f d).1.sent ≡ terminals d.sent + one (continue r f d).0)
        × EndsBy (continue r f d).0 (continue r f d).1
  unfolding Settles
  continue-Settles (ok a) f d s = s a d
  continue-Settles (err e) f d s = (omega arith, tt)

  pub bind-Settles :
      {A B : Type 0} (m : Handler S A) (f : A → Handler S B)
      → Quiet m
      → ((a : A) → Settles (f a))
      → Settles (m >>= f)
  unfolding Quiet Settles
  bind-Settles m f qm sf d =
      let (count, last) = continue-Settles (m d).0 f (m d).1 sf in
      (count ∙ ap (λ n. n + one ((m >>= f) d).0) (qm d), last)

  pub machine-Quiet : {A : Type 0} (m : Exec S.World String A) → Quiet (on_machine S m)
  unfolding Quiet on_machine
  machine-Quiet m d = refl

  pub done-Settles :
      (id : String) (chain model : Option String) → Settles (send S (done id chain model))
  unfolding Settles terminals
  done-Settles id chain model d = (refl, refl)

  pub delta-Quiet : (id text : String) → Quiet (send S (delta id text))
  unfolding Quiet terminals
  delta-Quiet id text d = refl

  pub append-Quiet : (now : ℕ) (draft : Draft) → Quiet (modify (store_append S now draft))
  unfolding Quiet store_append
  append-Quiet now draft d = refl

  pub handle-Quiet :
      {A : Type 0} (r : Result String A) (h : String → Handler S A) (d : Daemon S)
      → ((e : String) → Quiet (h e))
      → terminals (handle r h d).1.sent ≡ terminals d.sent
  unfolding Quiet
  handle-Quiet (ok a) h d q = refl
  handle-Quiet (err e) h d q = q e d

  pub try-Quiet :
      {A : Type 0} (m : Handler S A) (h : String → Handler S A)
      → Quiet m
      → ((e : String) → Quiet (h e))
      → Quiet (try◌except◌ m h)
  unfolding Quiet
  try-Quiet m h qm qh d = handle-Quiet (m d).0 h (m d).1 qh ∙ qm d

  -- Which branch is taken does not matter.
  pub if-Quiet :
      {A : Type 0} (b : Bool) (m n : Handler S A) → Quiet m → Quiet n → Quiet (if b then m else n)
  if-Quiet true m n qm qn = qm
  if-Quiet false m n qm qn = qn

  pub pure-Quiet : {A : Type 0} (a : A) → Quiet (pure a)
  unfolding Quiet
  pure-Quiet a d = refl

  pub settle-Quiet :
      Quiet (modify {E = String} (λ (d : Daemon S). record d { machine = S.settle d.machine }))
  unfolding Quiet
  settle-Quiet d = refl

  pub verify-Quiet : (unit scope : String) → Quiet (verify (systemd S) unit scope)
  unfolding verify
  verify-Quiet unit scope = bind-Quiet _ _ settle-Quiet (λ _.
      bind-Quiet _ _ (machine-Quiet (S.is_failed unit scope)) (λ failed.
        if-Quiet failed _ _
          (bind-Quiet _ _ (machine-Quiet (S.unit_tail unit scope))
            (λ reason. pure-Quiet (still_failing unit reason)))
          (pure-Quiet (healthy unit))))

  pub attempt-Quiet : (unit scope : String) → Quiet (attempt (systemd S) true unit scope)
  unfolding attempt
  attempt-Quiet unit scope =
      if-Quiet (scope == "system") _ _
        (bind-Quiet _ _ (machine-Quiet (S.restart_system unit)) (λ _. pure-Quiet none))
        (bind-Quiet _ _ (machine-Quiet (S.restart_user unit)) (λ _. pure-Quiet none))

  pub finish-Quiet :
      (unit scope : String) (early : Option RestartOutcome)
      → Quiet (finish (systemd S) unit scope early)
  unfolding finish
  finish-Quiet unit scope none = verify-Quiet unit scope
  finish-Quiet unit scope (some early) = pure-Quiet early

  pub status-Quiet : (id text : String) → Quiet (modify {E = String} (put S (status id text)))
  unfolding Quiet terminals
  status-Quiet id text d = refl

  pub restart-Quiet :
      (id text unit scope : String)
      → Quiet (restart_resolved (systemd S) (put S (status id text)) true unit scope)
  unfolding restart_resolved
  restart-Quiet id text unit scope = bind-Quiet _ _ (status-Quiet id text) (λ _.
      bind-Quiet _ _
        (try-Quiet _ _ (attempt-Quiet unit scope) (λ e. pure-Quiet (couldnt (systemd S) unit e)))
        (λ early. finish-Quiet unit scope early))

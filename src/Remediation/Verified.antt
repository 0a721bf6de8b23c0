-- ===== src/Remediation/Verified.antt =====
-- When `restart_resolved` of src/nixadmin/remediation.py says that a restart succeeded.
use nixadmin.Prelude.{
  ◌≡◌, ◌≢◌, ◌↔◌, ◌⊎◌, inl, inr, ap, ◌∙◌, ◌==◌, if◌then◌else◌, eq-true, eq-false, String, string_eq,
  Bool, true, false, Option, none, some, arith, ◌<>◌, refl,
}
use nixadmin.Prelude.Result.{Result, ok, err}
use nixadmin.Prelude.Exec.{continue, pure, ◌>>=◌, ◌>>◌, try◌except◌}
use nixadmin.Remediation.{
  Systemd, RestartOutcome, attempt, couldnt, finish, verify, restart_resolved,
}

module _ (S : Systemd) where
  open S use {World, settle, is_failed, restart_user, restart_system}

  -- The command that restarts a unit was run and raised nothing: for a unit of the system the root
  -- helper's, if the caller may use it, else systemctl's for the user. `w'` is what it left.
  abbrev pub IsRestarted : Bool → String → String → World → World → Type 0
  IsRestarted privileged unit scope w w' =
      ((scope ≡ "system") × (privileged ≡ true) × (restart_system unit w ≡ (ok tt, w')))
      ⊎ ((scope ≢ "system") × (restart_user unit w ≡ (ok tt, w')))

  -- It was, and the check after the wait found the unit not failed.
  abbrev pub Recovered : Bool → String → String → World → Type 0
  Recovered privileged unit scope w =
      (w' : World) × IsRestarted privileged unit scope w w'
      × ((is_failed unit scope (settle w')).0 ≡ ok false)

  -- A command that is run, with nothing after it.
  then_none :
      (x : Result String (Unit {0}) × World)
      → (continue {B = Option RestartOutcome} x.0 (λ _. pure none) x.1).0 ≡ ok none
      → x ≡ (ok tt, (continue {B = Option RestartOutcome} x.0 (λ _. pure none) x.1).1)
  then_none (ok u, w) e = refl
  then_none (err t, w) e = absurd (ground (arith, e))

  tried-IsRestarted :
      (system privileged : Bool) (unit scope : String) (w : World) (early : RestartOutcome)
      → (system ≡ true → scope ≡ "system")
      → (system ≡ false → scope ≢ "system")
      → (let run =
            if system
            then (if privileged then restart_system unit >> pure none else pure (some early))
            else restart_user unit >> pure none in
          (run w).0 ≡ ok none → IsRestarted privileged unit scope w (run w).1)
  tried-IsRestarted true true unit scope w early yes_ no_ e =
      inl (yes_ refl, refl, then_none (restart_system unit w) e)
  tried-IsRestarted true false unit scope w early yes_ no_ e = absurd (ground (arith, e))
  tried-IsRestarted false privileged unit scope w early yes_ no_ e =
      inr (no_ refl, then_none (restart_user unit w) e)

  attempt-IsRestarted :
      (privileged : Bool) (unit scope : String) (w : World)
      → (attempt S privileged unit scope w).0 ≡ ok none
      → IsRestarted privileged unit scope w (attempt S privileged unit scope w).1
  unfolding attempt
  attempt-IsRestarted privileged unit scope w =
      tried-IsRestarted (scope == "system") privileged unit scope w _ (eq-true scope "system")
        (eq-false scope "system")

  IsRestarted-attempt :
      (privileged : Bool) (unit scope : String) (w w' : World)
      → IsRestarted privileged unit scope w w'
      → attempt S privileged unit scope w ≡ (ok none, w')
  unfolding attempt string_eq
  IsRestarted-attempt privileged unit scope w w' (inl (sys, may, ran)) = rw (sys, may) (rw ran refl)
  IsRestarted-attempt privileged unit scope w w' (inr (user, ran)) =
      let other : (scope == "system") ≡ false = ground (arith, user) in rw other (rw ran refl)

  verify-Success :
      (unit scope : String) (w : World)
      → ((o : RestartOutcome) × ((verify S unit scope w).0 ≡ ok o) × (o.succeeded ≡ true))
        ↔ ((is_failed unit scope (settle w)).0 ≡ ok false)
  unfolding verify
  verify-Success unit scope w = (
    λ (o, e, good). ground arith,
    λ healthy. (
      record { succeeded = true; message = "Restarted " <> unit <> " — it's healthy again." },
      ground arith,
      refl,
    ),
  )

  attempt-early :
      (privileged : Bool) (unit scope : String) (w : World) (o : RestartOutcome)
      → (attempt S privileged unit scope w).0 ≡ ok (some o)
      → o.succeeded ≡ false
  unfolding attempt
  attempt-early privileged unit scope w o e = ground arith

  conclude :
      (unit scope : String) (r : Result String (Option RestartOutcome)) (w : World)
      → ((o : RestartOutcome) → r ≡ ok (some o) → o.succeeded ≡ false)
      → ((o : RestartOutcome) × (((try◌except◌ (λ _. (r, w)) (λ e. pure (couldnt S unit e))
                >>= finish S unit scope)
              w).0
            ≡ ok o)
          × (o.succeeded ≡ true))
        ↔ ((r ≡ ok none) × ((is_failed unit scope (settle w)).0 ≡ ok false))
  unfolding finish couldnt
  conclude unit scope (ok none) w h =
      (λ p. (refl, (verify-Success unit scope w).0 p), λ q. (verify-Success unit scope w).1 q.1)
  conclude unit scope (ok (some early)) w h =
      (λ (o, e, good). absurd (ground (arith, h early refl)), λ q. cc)
  conclude unit scope (err text) w h = (λ (o, e, good). absurd (ground arith), λ q. cc)

  -- A restart is reported as a success exactly if the command for it was run and raised nothing (the
  -- root helper's for a unit of the system, which needs the caller's leave, systemctl's for a unit of
  -- the user), and the check after the wait found the unit not failed. systemctl's exit code is not
  -- looked at.
  pub restart_resolved-Recovered :
      (status : World → World) (privileged : Bool) (unit scope : String) (w : World)
      → ((o : RestartOutcome) × ((restart_resolved S status privileged unit scope w).0 ≡ ok o)
          × (o.succeeded ≡ true))
        ↔ Recovered privileged unit scope (status w)
  unfolding restart_resolved
  restart_resolved-Recovered status privileged unit scope w =
      let tried = attempt S privileged unit scope (status w) in
      let (fore, back) =
        conclude unit scope (tried.0) (tried.1) (attempt-early privileged unit scope (status w)) in
      (
        λ good.
            let (ran, healthy) = fore good in
            (tried.1, attempt-IsRestarted privileged unit scope (status w) ran, healthy),
        λ (w', ran, healthy).
            let e = IsRestarted-attempt privileged unit scope (status w) w' ran in
            back (
              ap (λ (x : Result String (Option RestartOutcome) × World). x.0) e,
              ap
                    (λ (x : Result String (Option RestartOutcome) × World).
                      (is_failed unit scope (settle x.1)).0)
                    e
                  ∙ healthy,
            ),
      )

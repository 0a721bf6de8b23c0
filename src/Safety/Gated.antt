-- ===== src/Safety/Gated.antt =====
-- The sequences of rebuilds in a session, through the gate of src/nixadmin/safety.py.
use nixadmin.Prelude.{
  ◌≡◌, refl, sym, ◌∙◌, String, Bool, true, false, not, ◌&&◌, ◌||◌, none, some, List, [], ◌∷◌, ◌==◌,
  contains, string_eq, if◌then◌else◌, arith,
}
use nixadmin.Prelude.Result.{Result, ok, err}
use nixadmin.Prelude.Int.{ℤ}
use nixadmin.Prelude.Exec.{pure, ◌>>=◌}
use nixadmin.Safety.{
  fresh, record_test, Outside, Entry, asked, dispatched, actions, is_zero, Gate, run_helper, ask,
  dispatch, note_test, conclude, execute, rebuild, SafetyError, code_of,
}

-- Whether the last test that came back with an exit code succeeded.
unfoldable pub tested : List Entry → Bool
tested [] = false
tested (asked prompt answer ∷ j) = tested j
tested (dispatched action none ∷ j) = tested j
tested (dispatched action (some code) ∷ j) =
    let rest = tested j in if action == "test" then is_zero code else rest

-- Whether the last thing that happened was a consent.
abbrev pub consented : List Entry → Bool
consented (asked prompt true ∷ j) = true
consented other = false

-- A switch was sent only right after a consent and with a successful last test, and a boot only
-- right after a consent.
abbrev pub Gated : List Entry → Type 0
Gated [] = Unit
Gated (asked prompt answer ∷ j) = Gated j
Gated (dispatched action code ∷ j) =
    (action ≡ "switch" → (tested j ≡ true) × (consented j ≡ true))
    × (action ≡ "boot" → consented j ≡ true)
    × Gated j

module _ (O : Outside) where
  -- The session remembers the last test, and the journal is gated.
  pub record IsGated (g : Gate O) : Type 0 where
    pub remembers : g.session.last_test_ok ≡ tested g.journal
    pub gated : Gated g.journal

  entered-IsGated :
      (action : String) (r : Result SafetyError (String × ℤ)) (w : O.World) (g : Gate O)
      → IsGated g
      → (action ≡ "switch" → (tested g.journal ≡ true) × (consented g.journal ≡ true))
      → (action ≡ "boot" → consented g.journal ≡ true)
      → IsGated
          (((λ _.
                (r, record g { world = w; journal = dispatched action (code_of O r) ∷ g.journal }))
              >>= conclude O action)
            g).1
  unfolding conclude note_test tested record_test
  entered-IsGated action (ok (output, code)) w g h sw bt = record {
    remembers = ground (arith, h.remembers);
    gated = ground (arith, h.gated, sw, bt);
  }
  entered-IsGated action (err e) w g h sw bt = record {
    remembers = h.remembers;
    gated = (sw, bt, h.gated);
  }

  execute-IsGated :
      (action : String) (g : Gate O)
      → IsGated g
      → (action ≡ "switch" → (tested g.journal ≡ true) × (consented g.journal ≡ true))
      → (action ≡ "boot" → consented g.journal ≡ true)
      → IsGated (execute O action g).1
  unfolding execute dispatch
  execute-IsGated action g h sw bt =
      let (r, w) = run_helper O (record { action = action; unit = none }) g.world in
      entered-IsGated action r w g h sw bt

  if-IsGated :
      (b : Bool) (x y : Result SafetyError String × Gate O)
      → (b ≡ true → IsGated x.1)
      → (b ≡ false → IsGated y.1)
      → IsGated (if b then x else y).1
  if-IsGated true x y p q = p refl
  if-IsGated false x y p q = q refl

  asked-IsGated :
      (action prompt : String) (answer : Bool) (w : O.World) (g : Gate O)
      → IsGated g
      → (action ≡ "switch" → g.session.last_test_ok ≡ true)
      → IsGated
          ((if answer then execute O action else pure "Cancelled — no changes were made.")
            (record g { world = w; journal = asked prompt answer ∷ g.journal })).1
  unfolding tested
  asked-IsGated action prompt true w g h ready =
      execute-IsGated action _ (record { remembers = h.remembers; gated = h.gated })
        (λ e. (sym h.remembers ∙ ready e, refl)) (λ e. refl)
  asked-IsGated action prompt false w g h ready = record {
    remembers = h.remembers;
    gated = h.gated;
  }

  -- Each rebuild that is asked for, by any name, keeps the gate's promise.
  pub rebuild-IsGated : (action : String) (g : Gate O) → IsGated g → IsGated (rebuild O action g).1
  unfolding rebuild ask
  rebuild-IsGated action g h =
      if-IsGated (not (contains actions action)) _ _ (λ _. h)
        λ known.
          if-IsGated (action == "switch" && not g.session.last_test_ok) _ _ (λ _. h)
            λ ready.
              if-IsGated (action == "switch" || action == "boot") _ _
                (λ _. asked-IsGated action _ _ _ g h (λ e. ground arith))
                (λ free.
                  execute-IsGated action g h (λ e. absurd (ground arith))
                    (λ e. absurd (ground arith)))

  -- The rebuilds of a session, one after the other, whether each returns or raises.
  abbrev pub rebuilds : List String → Gate O → Gate O
  rebuilds [] g = g
  rebuilds (action ∷ rest) g = rebuilds rest (rebuild O action g).1

  rebuilds-IsGated :
      (requests : List String) (g : Gate O) → IsGated g → IsGated (rebuilds requests g)
  rebuilds-IsGated [] g h = h
  rebuilds-IsGated (action ∷ rest) g h =
      rebuilds-IsGated rest (rebuild O action g).1 (rebuild-IsGated action g h)

  -- In a session that begins with nothing tested, whatever rebuilds are asked for, in whatever
  -- order, and however the helper and the person answer: every switch was sent right after a
  -- consent and while the last test with an exit code had succeeded, and every boot right after a
  -- consent.
  pub session-Gated :
      (requests : List String) (w : O.World)
      → Gated (rebuilds requests (record { session = fresh; journal = []; world = w })).journal
  unfolding tested
  session-Gated requests w =
      let start : Gate O = record { session = fresh; journal = []; world = w } in
      let h : IsGated start = record { remembers = refl; gated = tt } in
      (rebuilds-IsGated requests start h).gated

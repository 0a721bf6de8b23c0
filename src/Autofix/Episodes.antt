-- ===== src/Autofix/Episodes.antt =====
-- The failures that src/nixadmin/autofix_engine.py has handled, its set `seen`.
use nixadmin.Prelude.{
  ℕ, ◌≡◌, refl, true, ◌&&◌, List, [], ◌∷◌, contains, string_eq, pair_eq, arith, ◌∙◌,
}
use nixadmin.Prelude.Result.{Result, ok}
use nixadmin.Prelude.Exec.{◌>>=◌}
use nixadmin.Timeline.{FailedUnit, Key, current, keys}
use nixadmin.Remediation.{Systemd, failed_units}
use nixadmin.Autofix.{AutofixConfig, Engine, handle_each, still_failed, run_once}

contains-keep :
    (failed seen : List Key) (k : Key)
    → contains (still_failed failed seen) k ≡ (contains failed k && contains seen k)
contains-keep failed [] k = ground arith
contains-keep failed (x ∷ seen) k = ground (arith, contains-keep failed seen k)

module _ (S : Systemd) (cfg : AutofixConfig) (now : ℕ) where
  handle_each_seen :
      (ks : List Key) (s : Engine S)
      → ((k : Key) → contains ks k ≡ true → contains s.seen k ≡ true)
      → handle_each S cfg now ks s ≡ s
  unfolding handle_each
  handle_each_seen [] s h = refl
  handle_each_seen ((unit, scope) ∷ ks) s h =
      rw (h (unit, scope) (ground arith)) (handle_each_seen ks s (λ k e. h k (ground arith)))

-- `run_once` after the failed units were read.
run_once-read :
    (S : Systemd) (cfg : AutofixConfig) (now : ℕ) (s : Engine S) (units : List FailedUnit)
    → (failed_units S s.world).0 ≡ ok units
    → (run_once S cfg now s).1
      ≡ handle_each S cfg now (keys (current units)) (record s {
        world = (failed_units S s.world).1;
        seen = still_failed (keys (current units)) s.seen;
      })
unfolding run_once
run_once-read S cfg now s units e = rw (e, ◌>>=◌)

-- A run that finds no failure but those seen before restarts nothing, records nothing and announces
-- nothing.
run_once_quiet :
    (S : Systemd) (cfg : AutofixConfig) (now : ℕ) (s : Engine S) (units : List FailedUnit)
    → (failed_units S s.world).0 ≡ ok units
    → ((k : Key) → contains (keys (current units)) k ≡ true → contains s.seen k ≡ true)
    → (run_once S cfg now s).1 ≡ record s {
      world = (failed_units S s.world).1;
      seen = still_failed (keys (current units)) s.seen;
    }
run_once_quiet S cfg now s units e h =
    let ks = keys (current units) in
    run_once-read S cfg now s units e
    ∙ handle_each_seen S cfg now ks _
        (λ k listed. contains-keep ks s.seen k ∙ ground (arith, listed, h k listed))

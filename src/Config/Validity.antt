-- ===== src/Config/Validity.antt =====
-- Which configurations `from_env` of src/nixadmin/config.py lets through.
use nixadmin.Prelude.{
  ◌≤◌, ◌≡◌, refl, String, Bool, true, false, not, ◌&&◌, Option, none, some, List, [], ◌∷◌, ◌==◌,
  contains, string_eq, arith,
}
use nixadmin.Prelude.Dict.{Dict}
use nixadmin.Prelude.Int.{ℤ, pos, negsuc}
use nixadmin.Prelude.Number.{parse_int}
use nixadmin.Prelude.Result.{ok}
use nixadmin.Routing.{is_local}
use nixadmin.Config.{
  Process, Config, Issue, get, chain_of, attempts_of, log_levels, values, url_fits, path_fits,
  base_fits, issues, raise_any, from_env, complaints, tests,
}

-- What the daemon relies on.
pub record IsValid (P : Process) (c : Config) : Type 0 where
  pub attempts : 1 ≤ c.autofix_max_attempts
  pub history : c.history ≡ "null"
  pub events : contains ("sqlite" ∷ "null" ∷ []) c.events ≡ true
  pub log_format : contains ("json" ∷ "console" ∷ []) c.log_format ≡ true
  pub log_level : contains log_levels c.log_level ≡ true
  pub local_url : url_fits P c.local_url ≡ true
  pub remote_base : base_fits P c.remote_base ≡ true
  pub state_dir : path_fits c.state_dir ≡ true
  pub socket_path : path_fits c.socket_path ≡ true
  pub flake_dir : path_fits c.flake_dir ≡ true
  pub local_chain : (is_local c.default_chain && c.local_model == "") ≡ false

AllPass : List (Bool × Issue) → Type 0
AllPass [] = Unit
AllPass ((good, issue) ∷ ts) = (good ≡ true) × AllPass ts

complaints-nil : (ts : List (Bool × Issue)) → complaints ts ≡ [] → AllPass ts
unfolding AllPass complaints
complaints-nil [] h = tt
complaints-nil ((true, issue) ∷ ts) h = (refl, complaints-nil ts h)
complaints-nil ((false, issue) ∷ ts) h = absurd cc

raise_any-ok : (is : List Issue) (c d : Config) → raise_any is c ≡ ok d → (is ≡ []) × (c ≡ d)
raise_any-ok [] c d h = (refl, cc)
raise_any-ok (i ∷ is) c d h = cc

attempts_of-pos : (z : Option ℤ) → 1 ≤ attempts_of z
attempts_of-pos none = omega arith
attempts_of-pos (some (pos n)) = omega arith
attempts_of-pos (some (negsuc n)) = omega arith

chain_of-local :
    (raw model : String)
    → not (raw == "local" && model == "") ≡ true
    → (is_local (chain_of raw) && model == "") ≡ false
chain_of-local raw model h = ground arith

history-null : (s : String) → contains ("null" ∷ []) s ≡ true → s ≡ "null"
history-null s h = ground (arith)

values-IsValid :
    (P : Process) (e : Dict String String) → AllPass (tests P e) → IsValid P (values P e)
unfolding tests values AllPass
values-IsValid P e
      (
        chain,
        (
          attempts,
          (
            retention,
            (
              history,
              (
                events,
                (
                  log_format,
                  (
                    log_level,
                    (
                      local_url,
                      (remote_base, (state_dir, (socket_path, (flake_dir, (has_model, rest))))),
                    ),
                  ),
                ),
              ),
            ),
          ),
        ),
      ) =
    record {
      attempts = attempts_of-pos (parse_int (get "AUTOFIX_MAX_ATTEMPTS" "1" e));
      history = history-null (get "HISTORY" "null" e) history;
      events = events;
      log_format = log_format;
      log_level = log_level;
      local_url = local_url;
      remote_base = remote_base;
      state_dir = state_dir;
      socket_path = socket_path;
      flake_dir = flake_dir;
      local_chain = chain_of-local (get "CHAIN" "remote" e) (get "LOCAL_MODEL" "" e) has_model;
    }

-- A configuration that is read from any environment is one that the daemon can run with: a known
-- history, event store and log, absolute paths and URLs of http where they are set, at least one
-- restart for each unit, and a local model if the local chain is the default.
pub from_env-IsValid :
    (P : Process) (e : Dict String String) (c : Config) → from_env P e ≡ ok c → IsValid P c
unfolding from_env issues
from_env-IsValid P e c h =
    let (clean, same) = raise_any-ok (issues P e) (values P e) c h in
    rw (← same) (values-IsValid P e (complaints-nil (tests P e) clean))

-- ===== src/Routing/Laws.antt =====
-- The decision of src/nixadmin/routing.py against the chains that can be used.
use nixadmin.Prelude.{◌≡◌, refl, Bool, true, false}
use nixadmin.Routing.{
  Chain, local, remote, Action, proceed, confirm_remote, wait_local, unavailable, Decision, resolve,
}

-- The other chain.
abbrev pub other : Chain → Chain
other local = remote
other remote = local

-- Whether a chain can be used now.
abbrev pub is_ready : Bool → Bool → Chain → Bool
is_ready local_ready remote_ready local = local_ready
is_ready local_ready remote_ready remote = remote_ready

-- What each action may be decided for, `ready` being the chains that can be used.
abbrev pub Fits : (Chain → Bool) → Chain → Decision → Action → Type 0
Fits ready desired d proceed = (d.chain ≡ desired) × (ready desired ≡ true)
Fits ready desired d confirm_remote =
    (d.chain ≡ other desired) × (ready desired ≡ false) × (ready (other desired) ≡ true)
Fits ready desired d wait_local =
    (d.chain ≡ local) × (desired ≡ local) × (ready local ≡ false) × (ready remote ≡ false)
Fits ready desired d unavailable =
    (desired ≡ remote) × (ready local ≡ false) × (ready remote ≡ false)

-- For each chain that is desired and each readiness: the query goes on without a question only on
-- the desired chain, which is ready; a question is asked only to switch from a chain that is not
-- ready to the other, which is; the query waits only for the local chain, and is given up only for
-- the remote one, in both cases when neither is ready.
pub resolve-Fits :
    (desired : Chain) (pinned local_ready remote_ready : Bool)
    → let d = resolve desired pinned local_ready remote_ready in
      Fits (is_ready local_ready remote_ready) desired d d.action
unfolding resolve
resolve-Fits local pinned true remote_ready = (refl, refl)
resolve-Fits local pinned false true = (refl, refl, refl)
resolve-Fits local pinned false false = (refl, refl, refl, refl)
resolve-Fits remote pinned local_ready true = (refl, refl)
resolve-Fits remote pinned true false = (refl, refl, refl)
resolve-Fits remote pinned false false = (refl, refl, refl)

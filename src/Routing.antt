-- ===== src/Routing.antt =====
-- src/nixadmin/routing.py: which chain answers a query. The matcher of mutations is not modelled.
pub mod Laws
use nixadmin.Prelude.{
  String, Bool, true, false, ◌||◌, Option, none, some, List, [], ◌∷◌, some_of, if◌then◌else◌,
}

pub data Chain : Type 0 where
  local remote : Chain

-- The `routing` of a module, of src/nixadmin/sdk.py.
pub data Hint : Type 0 where
  hint_local hint_auto hint_remote : Hint

pub record Module : Type 0 where
  pub name : String
  pub routing : Hint

pub data Action : Type 0 where
  proceed confirm_remote wait_local unavailable : Action

abbrev pub is_local : Chain → Bool
is_local local = true
is_local remote = false

abbrev pub hints_local : Module → Bool
hints_local m = elim m.routing [ hint_local ↦ true | _ ↦ false ]

abbrev pub hints_remote : Module → Bool
hints_remote m = elim m.routing [ hint_remote ↦ true | _ ↦ false ]

-- `resolve_desired_chain`: the chain, and whether it is pinned local
unfoldable pub resolve_desired_chain : Option Chain → List Module → Chain → Chain × Bool
resolve_desired_chain (some explicit) matched default_chain = (explicit, is_local explicit)
resolve_desired_chain none matched default_chain =
    if some_of hints_local matched
    then (local, true)
    else if some_of hints_remote matched
    then (remote, false)
    else (default_chain, false)

pub record Decision : Type 0 where
  pub chain : Chain
  pub action : Action
  pub pinned_local : Bool
  pub message : String

-- `resolve`
unfoldable pub resolve : Chain → Bool → Bool → Bool → Decision
resolve remote pinned_local local_ready remote_ready =
    if remote_ready
    then record { chain = remote; action = proceed; pinned_local = pinned_local; message = "" }
    else if local_ready
    then record {
      chain = local;
      action = confirm_remote;
      pinned_local = pinned_local;
      message = "The remote assistant is unavailable. Use the on-device model instead?";
    }
    else record {
      chain = remote;
      action = unavailable;
      pinned_local = pinned_local;
      message = "No assistant is available right now.";
    }
resolve local pinned_local local_ready remote_ready =
    if local_ready
    then record { chain = local; action = proceed; pinned_local = pinned_local; message = "" }
    else if remote_ready
    then record {
      chain = remote;
      action = confirm_remote;
      pinned_local = pinned_local;
      message =
          if pinned_local
          then "The on-device model is starting. Use the remote assistant instead (your request would leave this device)?"
          else "The on-device model is starting. Use the remote assistant instead, or wait?";
    }
    else record {
      chain = local;
      action = wait_local;
      pinned_local = pinned_local;
      message = "The on-device model is still starting…";
    }

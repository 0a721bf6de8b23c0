-- ===== src/Daemon/Serve.antt =====
-- Which handler of src/nixadmin/server.py takes a line (`_on_message`), of those for structured
-- requests, when the values have the declared types. A query, a cancel and a response are the
-- matter of other modules.
use nixadmin.Prelude.{ℕ, String, Option, none, some, List, [], ◌∷◌}
use nixadmin.Prelude.Int.{ℤ}
use nixadmin.Prelude.Exec.{pure}
use nixadmin.Prelude.Result.{Result, ok, err}
use nixadmin.Json.{Json, null, int, str, JsonText}
use nixadmin.Remediation.{Systemd}
use nixadmin.Protocol
use nixadmin.Protocol.{Class, Message, Refusal, decode}
use nixadmin.Daemon
use nixadmin.Daemon.{Daemon, Handler, Local, UnitRequest}

-- A text or None.
abbrev pub text_or_none : Json → Option (Option String)
text_or_none null = some none
text_or_none (str s) = some (some s)
text_or_none other = none

abbrev pub int_or_none : Json → Option (Option ℤ)
int_or_none null = some none
int_or_none (int z) = some (some z)
int_or_none other = none

-- The message of a request about a unit.
abbrev pub unit_request : List Json → Option UnitRequest
unit_request (str id ∷ str unit ∷ str scope ∷ []) =
    some (record { id = id; unit = unit; scope = scope })
unit_request other = none

module _ (S : Systemd) (now : ℕ) (L : Local S) where
  abbrev pub ignore : Handler S (Unit {0})
  ignore = pure tt

  abbrev pub with_unit :
      Option UnitRequest → (UnitRequest → Handler S (Unit {0})) → Handler S (Unit {0})
  with_unit none handler = ignore
  with_unit (some r) handler = handler r

  abbrev pub with_page :
      String → ℤ → Option (Option String) → Option (Option ℤ) → Handler S (Unit {0})
  with_page id limit (some unit) (some before_id) = Daemon.get_timeline S id limit unit before_id
  with_page id limit unit before_id = ignore

  abbrev pub on_timeline : List Json → Handler S (Unit {0})
  on_timeline (str id ∷ int limit ∷ unit ∷ before_id ∷ []) =
      with_page id limit (text_or_none unit) (int_or_none before_id)
  on_timeline other = ignore

  abbrev pub with_id : (String → Handler S (Unit {0})) → List Json → Handler S (Unit {0})
  with_id handler (str id ∷ []) = handler id
  with_id handler other = ignore

  unfoldable pub on_class : Class → List Json → Handler S (Unit {0})
  on_class Protocol.list_failures values = with_id (Daemon.list_failures S now) values
  on_class Protocol.restart_unit values =
      with_unit (unit_request values) (Daemon.restart_unit S now L.model)
  on_class Protocol.explain_unit values =
      with_unit (unit_request values) (Daemon.explain_unit S now L)
  on_class Protocol.unit_journal values =
      with_unit (unit_request values) (Daemon.unit_journal S now)
  on_class Protocol.get_timeline values = on_timeline values
  on_class Protocol.get_ledger values = with_id (Daemon.get_ledger S now) values
  on_class other values = ignore

  abbrev pub on_decoded : Result Refusal Message → Handler S (Unit {0})
  on_decoded (ok m) = on_class m.cls m.values
  on_decoded (err e) = ignore

  -- `_on_message`
  unfoldable pub on_message : JsonText → Handler S (Unit {0})
  on_message line = on_decoded (decode line)

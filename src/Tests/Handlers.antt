-- ===== src/Tests/Handlers.antt =====
-- The theorems about the daemon's handlers at the machine with one user unit.
use nixadmin.Prelude.{◌≡◌, refl, true, false, some, [], ◌∷◌, string_eq, pair_eq, ◌<>◌}
use nixadmin.Prelude.Result.{ok}
use nixadmin.Store
use nixadmin.Daemon.{escaped, Daemon, Local, UnitRequest, done, delta, restart_unit}
use nixadmin.Daemon.Quiet.{EndsWell}
use nixadmin.Prelude.Int.{pos}
use nixadmin.Json.{str, int, arr, nil, obj, end, get}
use nixadmin.Protocol
use nixadmin.Protocol.{
  Message, encode, decode, class_of, class_named, type_of, fields_of, build, pop, pack,
  require_compatible, leq,
}
use nixadmin.Protocol.Transport.{Line, negotiate, decode_line, validate_hello, attribute}
use nixadmin.Dclient.{os_error, restart}
use nixadmin.Dclient.Told.{served, told_in_time, restart-answered}
use nixadmin.Daemon.Live.{restart_unit_unlisted}
use nixadmin.Remediation.{failed_units}
use nixadmin.Tests.Fixing.{machine}

abbrev daemon : Daemon machine
daemon = record {
  machine = true;
  broken = false;
  sent = [];
  service = record { store = Store.null_store; seen_failures = [] };
}

abbrev request : UnitRequest
request = record { id = "7"; unit = "backup.service"; scope = "user" }

abbrev local_model : Local machine
local_model = record {
  model = "qwen3";
  is_ready = λ w. (false, w);
  summarize = λ message w. (("The disk " ∷ [], escaped), w);
}

abbrev other_request : UnitRequest
other_request = record { id = "8"; unit = "sshd.service"; scope = "system" }

restart_unit_unlisted_example : restart_unit machine 5 "qwen3" other_request daemon ≡ (
  ok tt,
  record daemon {
    sent =
        done "8" (some "local") (some "qwen3")
        ∷ delta "8" ("sshd.service" <> " isn't failing right now.")
        ∷ [];
  },
)
unfolding failed_units string_eq pair_eq
restart_unit_unlisted_example =
    restart_unit_unlisted machine 5 "qwen3" other_request daemon
      (record { unit = "backup.service"; scope = "user"; description = "Backup" } ∷ []) true refl
      refl

-- The daemon's hello.
abbrev greeting : Message
greeting = record {
  cls = Protocol.hello;
  values = arr nil ∷ obj end ∷ str "local" ∷ arr nil ∷ int (pos 4) ∷ int (pos 4) ∷ [];
}

abbrev hello : Line
hello = record { size = 90; is_utf8 = true; is_blank = false; json = encode greeting }

welcome : negotiate hello ≡ ok greeting
unfolding negotiate decode_line validate_hello encode decode class_of class_named type_of fields_of
    build pop pack get attribute require_compatible leq string_eq
welcome = refl

restart-answered_example :
    EndsWell (restart_unit machine 5 "qwen3" request daemon).1.sent
    × (restart (served machine 5 local_model 0 hello os_error daemon) "7" "backup.service" "user"
        ≡ ok (told_in_time 0 "done" (restart_unit machine 5 "qwen3" request daemon).1.sent))
restart-answered_example =
    restart-answered machine 5 local_model hello greeting welcome os_error request daemon refl 0

-- ===== src/Dclient/Told.antt =====
-- A request of the local view (src/nixadmin/web/dclient.py) and the daemon's handler of it
-- (src/nixadmin/server.py), with the wire between them.
use nixadmin.Prelude.{
  Bool, zero, suc, false, drop, ℕ, ◌+◌, ◌≡◌, refl, ap, ◌∙◌, String, true, List, [], ◌∷◌, string_eq,
  arith,
}
use nixadmin.Prelude.Result.{ok}
use nixadmin.Json.{Json, str, obj, dumps, get}
use nixadmin.Remediation.{Systemd}
use nixadmin.Protocol.{Message, decode, class_of, class_named, type_of, fields_of, build, pop}
use nixadmin.Protocol.Transport.{Line, negotiate}
use nixadmin.Daemon.{Sent, Daemon, Local, UnitRequest, restart_unit}
use nixadmin.Daemon.Serve.{on_message, on_class}
use nixadmin.Daemon.Quiet.{EndsWell, terminals}
use nixadmin.Daemon.Ends.{restart_unit-ends}
use nixadmin.Dclient.{
  Finish, os_error, Socket, unit_request, converse, result_of, map_answer, ends, roundtrip, restart,
}
use nixadmin.Dclient.Answered.{told, giving, told_by, told_late, terminals-cons}

terminals-drop : (n : ℕ) (ms : List Sent) → terminals ms ≡ 0 → terminals (drop n ms) ≡ 0
terminals-drop zero ms h = h
terminals-drop (suc n) [] h = h
terminals-drop (suc n) (m ∷ ms) h = let c = terminals-cons m ms in terminals-drop n ms (omega arith)

-- How the messages end for the view, when so many of the last ones come too late for its time limit:
-- a read then raises an `OSError`.
abbrev pub finish_of : ℕ → Finish → Finish
finish_of zero finish = finish
finish_of (suc n) finish = os_error

-- What the view is told, when so many of the last messages come too late.
abbrev pub told_in_time : ℕ → String → List Sent → Json × Bool
told_in_time zero default sent = told default sent
told_in_time (suc n) default sent = (str "daemon unreachable", false)

module _ (hello : Line) (greeting : Message) (welcome : negotiate hello ≡ ok greeting)
    (finish : Finish) where
  told_all :
      (late : ℕ) (default : String) (sent : List Sent)
      → EndsWell sent
      → terminals sent ≡ 1
      → map_answer default
          (result_of (converse ends true (giving hello (drop late sent) (finish_of late finish))))
        ≡ ok (told_in_time late default sent)
  told_all late default [] h n = absurd h
  told_all zero default (m ∷ ms) h n =
      let c = terminals-cons m ms in
      told_by hello greeting welcome m ms finish h (omega arith) default
  told_all (suc late) default (m ∷ ms) h n =
      let c = terminals-cons m ms in
      told_late hello greeting welcome (drop late ms) (terminals-drop late ms (omega arith)) default

module _ (S : Systemd) (now : ℕ) (L : Local S) where
  restart-read :
      (r : UnitRequest) (d : Daemon S)
      → on_message S now L (dumps (obj (unit_request "restart_unit" r.id r.unit r.scope))) d
        ≡ restart_unit S now L.model r d
  unfolding on_message on_class decode class_of class_named type_of fields_of build pop get
      string_eq
  restart-read r d = refl

  -- A connection to the daemon, which answers a line by its hello and then by what the handler of the
  -- line sends, before it ends somehow; so many of the last messages come too late.
  abbrev pub served : ℕ → Line → Finish → Daemon S → Socket
  served late hello finish d line =
      giving hello (drop late (on_message S now L line d).1.sent) (finish_of late finish)

module _ (S : Systemd) (now : ℕ) (L : Local S) (hello : Line) (greeting : Message)
    (welcome : negotiate hello ≡ ok greeting) (finish : Finish) (r : UnitRequest) (d : Daemon S)
    (new : d.sent ≡ []) where
  -- A restart that the local view asks for, on a new connection with a compatible daemon, which takes
  -- what is sent: whatever systemd does, the daemon reads the request as it was meant and sends an end
  -- of its answer last. If all messages come within the view's time limit, however the connection
  -- ends after them, the view is told the error's text, as a failure, or all that the deltas said
  -- (also that the unit is still failing), as a success; if the last ones, as many as may be, come too
  -- late, it is told that the daemon is unreachable, as a failure.
  pub restart-answered :
      (late : ℕ)
      → EndsWell (restart_unit S now L.model r d).1.sent
        × (restart (served S now L late hello finish d) r.id r.unit r.scope
            ≡ ok (told_in_time late "done" (restart_unit S now L.model r d).1.sent))
  unfolding restart roundtrip
  restart-answered late =
      let (count, last) = restart_unit-ends S now L.model r d in
      let once = count ∙ ap (λ ms. terminals ms + 1) new in
      (
        last,
        ap
              (λ e. map_answer "done" (
                result_of (
                  converse ends true
                    (giving hello (drop late (e.1.sent)) (finish_of late finish)))))
              (restart-read S now L r d)
            ∙ told_all hello greeting welcome finish late "done" _ last
                (unfold terminals in (once)),
      )

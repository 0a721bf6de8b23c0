-- ===== src/Tests/Applet.antt =====
-- The tray's client in an exchange with a daemon that goes away.
use nixadmin.Prelude.{◌≡◌, refl, true, false, none, some, List, [], ◌∷◌, string_eq}
use nixadmin.Prelude.Dict.{lookup, insert}
use nixadmin.Json.{str, null, obj, arr, nil, field, end, get, dumps}
use nixadmin.Protocol.{
  restart_unit, done, Message, decode, class_of, class_named, type_of, fields_of, pack, build, pop,
}
use nixadmin.Protocol.Transport.{attribute}
use nixadmin.Tray.{
  Event, greeted, lost, received, asked, after, step, set_connected, disconnect, fail_pending,
  fail_each, settle_at, request, dispatch, restarted, reply_of,
}
use nixadmin.Tray.Settled.{Alternate}
use nixadmin.Tray.Replies.{IsTrue, futures-AreTrue}

abbrev restart : Message
restart = record { cls = restart_unit; values = str "r1" ∷ str "nginx" ∷ str "system" ∷ [] }

-- A restart that is not answered before the daemon goes away, and one that is done.
abbrev exchange : List Event
exchange =
    received true (dumps (obj (field "type" (str "done") (field "id" (str "r2") end))))
    ∷ asked false true "r2" (record restart { values = str "r2" ∷ str "cups" ∷ str "system" ∷ [] })
    ∷ greeted
    ∷ lost
    ∷ asked false true "r1" restart
    ∷ greeted
    ∷ []

futures-AreTrue_example :
    IsTrue "r2" exchange (after exchange).connected (lookup "r2" (after exchange).futures)
    × Alternate (after exchange).connected (after exchange).states
futures-AreTrue_example = futures-AreTrue exchange "r2"

-- A restart that the daemon did not answer looks like one that went well.
unanswered :
    (restarted (reply_of (lookup "r1" (after exchange).futures)) ≡ none)
    × (restarted (reply_of (lookup "r2" (after exchange).futures)) ≡ none)
unfolding after step set_connected disconnect fail_pending fail_each settle_at request dispatch
    decode lookup insert string_eq class_of get class_named type_of build fields_of pop attribute
    pack
unanswered = (refl, refl)

-- An identifier that has no hash ends the tray's connection for good.
stopped :
    (after (
      greeted
      ∷ received true (
          dumps
            (obj (field "type" (str "delta") (field "id" (arr nil) (field "text" (str "x") end)))))
      ∷ greeted
      ∷ [])).connected
    ≡ false
unfolding after step set_connected disconnect fail_pending fail_each dispatch decode string_eq
    class_of get class_named type_of build fields_of pop attribute pack
stopped = refl

-- The second one has its reply.
done_r2 :
    reply_of (lookup "r2" (after exchange).futures)
    ≡ some (record { cls = done; values = str "r2" ∷ null ∷ null ∷ [] })
unfolding after step set_connected disconnect fail_pending fail_each settle_at request dispatch
    decode lookup insert string_eq class_of get class_named type_of build fields_of pop attribute
    pack
done_r2 = refl

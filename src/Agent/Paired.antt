-- ===== src/Agent/Paired.antt =====
-- The conversations that src/nixadmin/llm/remote.py sends to the model.
use nixadmin.Prelude.{
  ℕ, zero, suc, ◌≡◌, refl, sym, ap, ◌∙◌, subst, String, ◌<>◌, Bool, true, false, some, List, [],
  ◌∷◌, ◌++◌, string_eq, if◌then◌else◌, All, map, arith,
}
use nixadmin.Prelude.Result.{Result, ok, err}
use nixadmin.Prelude.Exec.{continue, pure, modify, ◌>>◌}
use nixadmin.Safety.{Gate}
use nixadmin.Sdk.{Module}
use nixadmin.Agent.{
  Chunk, ToolCall, Reading, Message, user, earlier, assistant, tool, Fault, Platform, Talk,
  ask_model, heard, reading_of, execute, add_message, execute_all, content_of, finish_round, round,
  rounds, go_on, calls_of, system_prompt, opening, start,
}
use nixadmin.Agent.Answers.{
  take_message, waiting, waiting-append, All-append, ClearMessage, IsProper, AllProper, Owes,
  Answers, execute-Given,
}

module _ (P : Platform) (modules : List Module) (escalated : Bool) where
  owed_after :
      (is js : List String) (m : Message) (t t' : Talk P)
      → take_message (some is) m ≡ some js
      → ClearMessage P modules escalated m
      → Owes P modules escalated is t
      → t'.messages ≡ t.messages
      → t'.requests ≡ t.requests
      → Owes P modules escalated js (add_message P modules escalated m t')
  unfolding waiting
  owed_after is js m t t' next c h same sent = record {
    waits =
        ap (λ ms. waiting (some []) (ms ++ (m ∷ []))) same
        ∙ waiting-append (some []) t.messages (m ∷ [])
        ∙ ap (λ o. take_message o m) h.waits
        ∙ next;
    clear =
        subst (λ ms. All (ClearMessage P modules escalated) (ms ++ (m ∷ []))) (sym same)
          (All-append (ClearMessage P modules escalated) t.messages m h.clear c);
    sent = subst (λ rs. All (IsProper P modules escalated) rs) (sym sent) h.sent;
  }

  -- What a part of a round leaves: an exception ends the conversation.
  abbrev After : {A : Type 0} → List String → Result Fault A → Talk P → Type 0
  After ids (ok a) t = Owes P modules escalated ids t
  After ids (err e) t = AllProper P modules escalated t

  execute_all-After :
      (cs : List ToolCall) (t : Talk P)
      → Owes P modules escalated (map (λ (c : ToolCall). c.id) cs) t
      → (let (r, t') = execute_all P modules escalated cs t in After [] r t')
  unfolding execute_all
  execute_all-After [] t h = h
  execute_all-After (c ∷ cs) t h =
      one (execute P modules escalated c t).0 (execute P modules escalated c t).1
        (execute-Given P modules escalated c t) (execute_all-After cs)
    where
      one :
          (r : Result Fault String) (t' : Talk P)
          → Answers P modules escalated t r t'
          → ((u : Talk P)
              → Owes P modules escalated (map (λ (c : ToolCall). c.id) cs) u
              → (let (r, t') = execute_all P modules escalated cs u in After [] r t'))
          → (let (r, u) =
                continue r
                  (λ result.
                    modify (add_message P modules escalated (tool c.id result))
                    >> execute_all P modules escalated cs)
                  t' in
              After [] r u)
      one (ok s) t' a rest = rest _ (owed_after _ _ (tool c.id s) t t' (ground arith) a.2 h a.0 a.1)
      one (err e) t' a rest = subst (λ rs. All (IsProper P modules escalated) rs) (sym a) h.sent

  -- The last step of a round with calls.
  closed_off :
      (r : Result Fault (Unit {0})) (t : Talk P)
      → After [] r t
      → (let (r', t') = continue {B = Bool} r (λ _. pure false) t in After [] r' t')
  closed_off (ok u) t h = h
  closed_off (err e) t h = h

  finish_round-After :
      (r : Reading) (cs : List ToolCall) (t : Talk P)
      → Owes P modules escalated [] t
      → (let (r', t') = finish_round P modules escalated r cs t in After [] r' t')
  unfolding finish_round
  finish_round-After r [] t h = h
  finish_round-After r (c ∷ cs) t h =
      let turn = assistant (content_of P modules escalated r.text_acc) (c ∷ cs) in
      let end = execute_all P modules escalated (c ∷ cs) (add_message P modules escalated turn t) in
      closed_off (end.0) (end.1)
        (execute_all-After (c ∷ cs) _ (owed_after [] _ turn t t refl tt h refl refl))

  asked-Owes :
      (answer : List Chunk × Bool) (w : P.outside.World) (t : Talk P)
      → Owes P modules escalated [] t
      → Owes P modules escalated [] (heard P modules escalated (answer, w) t)
  asked-Owes (chunks, fails) w t h = record {
    waits = h.waits;
    clear = h.clear;
    sent = (record { answered = h.waits; clear = h.clear }, h.sent);
  }

  round-After :
      (t : Talk P)
      → Owes P modules escalated [] t
      → (let (r, t') = round P modules escalated t in After [] r t')
  unfolding round ask_model
  round-After t h = read (P.complete t.messages t.gate.world)
    where
      read :
          (answer : (List Chunk × Bool) × P.outside.World)
          → (let (r, u) =
                continue
                  (reading_of P modules escalated answer)
                  (λ r. finish_round P modules escalated r (calls_of P modules escalated r))
                  (heard P modules escalated answer t) in
              After [] r u)
      read ((chunks, true), w) = (asked-Owes (chunks, true) w t h).sent
      read ((chunks, false), w) = finish_round-After _ _ _ (asked-Owes (chunks, false) w t h)

  rounds-After :
      (n : ℕ) (t : Talk P)
      → Owes P modules escalated [] t
      → (let (r, t') = rounds P modules escalated n t in After [] r t')
  unfolding rounds
  rounds-After zero t h = h
  rounds-After (suc n) t h =
      more (round P modules escalated t).0 (round P modules escalated t).1 (round-After t h)
        (rounds-After n)
    where
      more :
          (r : Result Fault Bool) (u : Talk P)
          → After [] r u
          → ((v : Talk P)
              → Owes P modules escalated [] v
              → (let (r', v') = rounds P modules escalated n v in After [] r' v'))
          → (let (r', v') =
                continue r (go_on P modules escalated (rounds P modules escalated n)) u in
              After [] r' v')
      more (ok true) u h rest = h
      more (ok false) u h rest = rest u h
      more (err e) u h rest = h

  history-waiting :
      (history : List (String × String)) (query : String)
      → waiting
          (some [])
          (map (λ (h : String × String). earlier (h.0) (h.1)) history ++ (user query ∷ []))
        ≡ some []
  unfolding waiting
  history-waiting [] query = refl
  history-waiting (h ∷ hs) query = history-waiting hs query

  opening-Clear :
      (history : List (String × String)) (query : String)
      → escalated ≡ false
      → All
          (ClearMessage P modules escalated)
          (map (λ (h : String × String). earlier (h.0) (h.1)) history ++ (user query ∷ []))
  opening-Clear [] query e = (tt, tt)
  opening-Clear (h ∷ hs) query e = (e, opening-Clear hs query e)

  start-Owes :
      (b : Bool) (context : String) (history : List (String × String)) (query : String)
      → escalated ≡ b
      → (waiting (some []) (
            if b
            then opening system_prompt [] query
            else opening (system_prompt <> "\n\n" <> context) history query)
          ≡ some [])
        × All (ClearMessage P modules escalated) (
            if b
            then opening system_prompt [] query
            else opening (system_prompt <> "\n\n" <> context) history query)
  unfolding waiting
  start-Owes true context history query e = (refl, (rw e refl, (tt, tt)))
  start-Owes false context history query e =
      (history-waiting history query, (rw e tt, opening-Clear history query e))

  left-proper :
      (r : Result Fault Bool) (t : Talk P) → After [] r t → AllProper P modules escalated t
  left-proper (ok last) t h = h.sent
  left-proper (err e) t h = h

  -- Whatever the model, the commands and the helper do, in however many rounds: in each conversation
  -- that is sent to the model, every call of a tool is answered, in the order of the calls and before
  -- anything else is said; and if the query is escalated, it goes with the plain system prompt,
  -- without the context and without earlier turns, and each answer of a tool has been scrubbed.
  pub rounds-AreProper :
      (n : ℕ) (context : String) (history : List (String × String)) (query : String)
      (g : Gate P.outside)
      → AllProper P modules escalated
          (rounds P modules escalated n (start P modules escalated context history query g)).1
  unfolding start
  rounds-AreProper n context history query g =
      let h = start-Owes escalated context history query refl in
      left-proper _ _ (
        rounds-After n (start P modules escalated context history query g)
          (record { waits = h.0; clear = h.1; sent = tt }))

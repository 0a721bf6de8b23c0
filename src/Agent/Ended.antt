-- ===== src/Agent/Ended.antt =====
-- When the loop of src/nixadmin/llm/remote.py ends: the code sets no limit to the rounds.
use nixadmin.Prelude.{ℕ, ◌+◌, ◌≡◌, ◌≢◌, Bool, true, false, List, [], ◌∷◌}
use nixadmin.Prelude.Result.{Result, ok, err}
use nixadmin.Sdk.{Module}
use nixadmin.Agent.{nothing_read, read_chunks, Message, assistant, Fault, Platform, Talk, calls_of}
use nixadmin.Agent.Answers.{Answers}

-- The rounds in which tools were called.
pub turns : List Message → ℕ
turns [] = 0
turns (assistant content calls ∷ ms) = turns ms + 1
turns (other ∷ ms) = turns ms

module _ (P : Platform) (modules : List Module) (escalated : Bool) where
  -- How many rounds with calls there have been, unless an exception ended the conversation.
  abbrev Turns : {A : Type 0} → ℕ → Result Fault A → Talk P → Type 0
  Turns k (ok a) t = turns t.messages ≡ k
  Turns k (err e) t = Unit

  -- A round that is not the last one: tools were called in it.
  abbrev View : Talk P → Result Fault Bool → Talk P → Type 0
  View t (ok true) u = Unit
  View t (err e) u = Unit
  View t (ok false) u =
      (turns u.messages ≡ turns t.messages + 1)
      × (calls_of P modules escalated
            (read_chunks (P.complete t.messages t.gate.world).0.0 nothing_read)
          ≢ [])

  -- A loop that has not returned after `n` rounds.
  abbrev pub GoesOn : ℕ → Talk P → Result Fault Bool → Talk P → Type 0
  GoesOn n t (ok false) u = turns u.messages ≡ turns t.messages + n
  GoesOn n t other u = Unit

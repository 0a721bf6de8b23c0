-- ===== src/Tests/Remote.antt =====
-- The remote chain, with a model that asks for a test of the configuration and for a fetcher, and
-- then answers.
use nixadmin.Prelude.{
  ℕ, zero, suc, ◌≡◌, refl, String, true, false, none, some, List, [], ◌∷◌, contains, string_eq,
  nat_eq, ◌||◌, ◌==◌,
}
use nixadmin.Prelude.Dict.{lookup}
use nixadmin.Prelude.Int.{pos}
use nixadmin.Json.{dumps, obj, str, int, field, end}
use nixadmin.Safety.{Outside, Gate, line, eof, fresh}
use nixadmin.Safety.Gated.{tested}
use nixadmin.Sdk.{Fetcher, Module, build_tools, tool_cmds, is_given}
use nixadmin.Sdk.Tools.{tool_names, build_tools-runnable}
use nixadmin.Agent.{Fragment, Chunk, Platform, Talk, rounds, start}
use nixadmin.Agent.Guarded.{IsGuarded, rounds-IsGuarded}
use nixadmin.Agent.Answers.{AllProper}
use nixadmin.Agent.Paired.{rounds-AreProper}
use nixadmin.Agent.Ended.{turns}

abbrev fetcher : Fetcher
fetcher = record {
  name = "usage";
  cmd = "df -h";
  description = "Disk usage";
  timeout = 15;
  expose_as_tool = true;
}

abbrev disk : Module
disk = record { name = "disk"; description = "disks"; fetchers = fetcher ∷ []; monitors = [] }

abbrev modules : List Module
modules = disk ∷ []

abbrev call : ℕ → String → String → String → Fragment
call index id name args = record {
  index = index;
  id = some id;
  function = some (some name, some args);
}

abbrev first_turn : List Chunk
first_turn =
    record { content = some "Let me look."; tool_calls = [] }
    ∷ record { content = none; tool_calls = call 0 "a" "nixadmin_rebuild" "{\"action\":" ∷ [] }
    ∷ record {
      content = none;
      tool_calls =
          record { index = 0; id = none; function = some (none, some "\"test\"}") }
          ∷ call 1 "b" "disk_usage" ""
          ∷ [];
    }
    ∷ []

abbrev turn : ℕ → List Chunk
turn zero = first_turn
turn (suc n) = record { content = some "All is well."; tool_calls = [] } ∷ []

abbrev outside : Outside
outside = record {
  World = Unit {0};
  converse = λ request w. ((line (dumps (obj (field "exit" (int (pos 0)) end))) ∷ [], eof), w);
  confirm = λ prompt w. (true, w);
  monotonic = λ w. 0;
}

abbrev platform : Platform
platform = record {
  outside = outside;
  complete = λ ms w. ((turn (turns ms), false), w);
  loads = λ s. some (obj (field "action" (str "test") end));
  run_blocking = λ cmd w. (some "12% used by alice", w);
  scrub = λ s. "[scrubbed]";
}

abbrev gate : Gate outside
gate = record { session = fresh; journal = []; world = tt }

abbrev begun : Talk platform
begun = start platform modules true "grounding" (("user", "hi") ∷ []) "is my disk full?" gate

build_tools-runnable_example : contains (tool_names (build_tools modules)) "disk_usage" ≡ (
    is_given (lookup "disk_usage" (tool_cmds modules))
    || (let name : String = "disk_usage" in name == "nixadmin_rebuild"))
build_tools-runnable_example = build_tools-runnable modules "disk_usage"

begun-IsGuarded : IsGuarded platform modules true begun
unfolding start tested
begun-IsGuarded = record { gated = record { remembers = refl; gated = tt }; exposed_only = tt }

rounds-IsGuarded_example : IsGuarded platform modules true (rounds platform modules true 3 begun).1
rounds-IsGuarded_example = rounds-IsGuarded platform modules true 3 begun begun-IsGuarded

rounds-AreProper_example : AllProper platform modules true (rounds platform modules true 3 begun).1
rounds-AreProper_example =
    rounds-AreProper platform modules true 3 "grounding" (("user", "hi") ∷ []) "is my disk full?"
      gate

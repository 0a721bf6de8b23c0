-- ===== src/Tests/Choosing.antt =====
-- The choices of the local model, at a model that replies with a sentence.
use nixadmin.Prelude.{◌≡◌, refl, String, true, none, some, List, [], ◌∷◌, contains, string_eq, ◌⊎◌}
use nixadmin.Prelude.Case.{lower}
use nixadmin.Prelude.Split.{behind}
use nixadmin.Prelude.Words.{is_in}
use nixadmin.Json.{obj, str, field, end, get, dumps, malformed}
use nixadmin.LocalModel.{Ollama, suggest_package, choose, find_exact, find_within}
use nixadmin.LocalModel.Stream.{summarize, line, blank, finished, escaped}
use nixadmin.LocalModel.Choices.{suggest_package-IsReal}

abbrev ollama : Ollama
ollama = record {
  World = Unit {0};
  generate = λ prompt w. (some (obj (field "response" (str " Most likely Steam-Run. ") end)), w);
  loaded = λ w. (none, w);
  nearest = λ query names. names;
}

abbrev packages : List String
packages = "htop" ∷ "steam-run" ∷ []

suggest_package-IsReal_example :
    ((suggest_package ollama "Steam" packages tt).0 ≡ "")
    ⊎ (contains packages (suggest_package ollama "Steam" packages tt).0 ≡ true)
suggest_package-IsReal_example = suggest_package-IsReal ollama "Steam" packages tt (λ q ns c h. h)

chosen : choose packages "most likely steam-run." ≡ "steam-run"
unfolding choose find_exact find_within lower is_in string_eq behind
chosen = refl

-- A line that is no JSON leaves the loop by an exception of its own.
cut_short :
    summarize
      (line (dumps (obj (field "message" (obj (field "content" (str "All ") end)) end)))
        ∷ blank
        ∷ line malformed
        ∷ [])
      finished
    ≡ ("All " ∷ [], escaped)
unfolding summarize get string_eq
cut_short = refl

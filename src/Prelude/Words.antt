-- ===== src/Prelude/Words.antt =====
-- str.split(), str.split(None, n), `in` between texts, and suffixes.
use Prim.Native.Char.{code}
use Prim.Native.String.{String, ◌++◌ as ◌<>◌}
use Prim.Native.Nat.{ℕ, ◌+◌, ◌-◌}
use mathlib.Core.Bool.{Bool, true, false, ◌||◌}
use mathlib.Core.Option.{Option, none, some}
use mathlib.Core.List.{List, [], ◌∷◌}
use nixadmin.Prelude.Tests.{eqb}
use nixadmin.Prelude.Text.{is_space}
use nixadmin.Prelude.Split.{behind}

-- The words of a text; `word` is the one that is being read, and `n` the splits that are left. The
-- rest behind the last split stays whole.
read_words : ℕ → Option String → String → List String
read_words n none String.[] = []
read_words n (some word) String.[] = word ∷ []
read_words n none (String.◌∷◌ c s) = elim (is_space (code c)) [
  | true ↦ read_words n none s
  | false ↦ elim (eqb n 0) [
    | true ↦ String.◌∷◌ c s ∷ []
    | false ↦ read_words n (some (String.◌∷◌ c String.[])) s
  ]
]
read_words n (some word) (String.◌∷◌ c s) = elim (is_space (code c)) [
  | true ↦ word ∷ read_words (n - 1) none s
  | false ↦ read_words n (some (word <> String.◌∷◌ c String.[])) s
]

-- s.split(None, n)
unfoldable pub split_max : ℕ → String → List String
unfolding read_words
split_max n s = read_words n none s

size : String → ℕ
size String.[] = 0
size (String.◌∷◌ c s) = size s + 1

-- s.split(): a text has no more words than characters
unfoldable pub words : String → List String
unfolding size split_max
words s = split_max (size s) s

abbrev is_some : {A : Type 0} → Option A → Bool
is_some none = false
is_some (some a) = true

-- part in s
unfoldable pub is_in : String → String → Bool
is_in part String.[] = is_some (behind part String.[])
is_in part (String.◌∷◌ c s) =
    let later = is_in part s in is_some (behind part (String.◌∷◌ c s)) || later

abbrev is_empty : Option String → Bool
is_empty none = false
is_empty (some String.[]) = true
is_empty (some (String.◌∷◌ c s)) = false

abbrev with_head : String → Option String → Option String
with_head c none = none
with_head c (some s) = some (c <> s)

-- What stands before a suffix, or none if the text does not end so.
unfoldable pub before : String → String → Option String
before suffix String.[] = elim (is_empty (behind suffix String.[])) [
  | true ↦ some ""
  | false ↦ none
]
before suffix (String.◌∷◌ c s) =
    let rest = before suffix s in
    elim (is_empty (behind suffix (String.◌∷◌ c s))) [
      | true ↦ some ""
      | false ↦ with_head (String.◌∷◌ c String.[]) rest
    ]

-- ===== src/Prefetch.antt =====
-- src/nixadmin/prefetch.py: the commands of matched modules, and the text that is made of their output.
-- What a command gives is a parameter, by the place of its fetcher, since all run at once.
pub mod Grounding
use Prim.Native.Char.{code}
use nixadmin.Prelude.{
  ℕ, zero, suc, ◌+◌, ◌-◌, String, ◌<>◌, Bool, true, false, ◌&&◌, ◌||◌, Option, none, some, List, [],
  ◌∷◌, ◌++◌, ◌==◌, string_eq, if◌then◌else◌, map, eqb, leb,
}
use nixadmin.Prelude.Int.{ℤ}
use nixadmin.Prelude.Text.{join, strip, show_int}
use nixadmin.Prelude.Slice.{size, first}
use nixadmin.Sdk.{Fetcher, Module}

-- `MAX_FETCHER_OUTPUT_CHARS`
abbrev pub max_fetcher_output_chars : ℕ
max_fetcher_output_chars = 6000

-- `MAX_PREFETCH_CHARS`
abbrev pub max_prefetch_chars : ℕ
max_prefetch_chars = 16000

-- What check_output does: it prints, it raises CalledProcessError with an output and an exit code, or
-- TimeoutExpired, or something else with a text.
pub data Ran : Type 0 where
  printed failed : String → Ran
  exited : String → ℤ → Ran
  timed_out : Ran

-- a or b
abbrev pub or_text : String → String → String
or_text a b = if a == "" then b else a

-- `_run`, with `_run_blocking`
unfoldable pub run : Ran → String
run (printed out) = strip out
run (failed e) = "(error: " <> e <> ")"
run (exited out code) = or_text (strip out) ("(exit " <> show_int code <> ")")
run timed_out = "(timed out)"

abbrev pub is_within : ℕ → ℕ → ℕ → Bool
is_within a b c = leb a c && leb c b

abbrev pub more : ℕ → Option ℕ → Option ℕ
more n none = none
more n (some k) = some (k + n)

-- [ -/]*[@-~]: the length of a match
unfoldable pub csi_end : String → Option ℕ
csi_end String.[] = none
csi_end (String.◌∷◌ c s) =
    let rest = csi_end s in
    if is_within 32 47 (code c)
    then more 1 rest
    else if is_within 64 126 (code c)
    then some 1
    else none

-- [0-?]*[ -/]*[@-~]
unfoldable pub csi : String → Option ℕ
csi String.[] = none
csi (String.◌∷◌ c s) =
    let rest = csi s in if is_within 48 63 (code c) then more 1 rest else csi_end (String.◌∷◌ c s)

-- [^\x07]*\x07, up to the first bell
unfoldable pub to_bell : String → Option ℕ
to_bell String.[] = none
to_bell (String.◌∷◌ c s) = let rest = to_bell s in if eqb (code c) 7 then some 1 else more 1 rest

abbrev pub begins_with : ℕ → String → Bool
begins_with n String.[] = false
begins_with n (String.◌∷◌ c s) = eqb (code c) n

abbrev pub or_here : Option ℕ → Bool → Option ℕ
or_here (some k) here = some (k + 1)
or_here none true = some 2
or_here none false = none

-- [^\x07]*\x1b\\ in a text without a bell, up to the last terminator
unfoldable pub to_terminator : String → Option ℕ
to_terminator String.[] = none
to_terminator (String.◌∷◌ c s) = or_here (to_terminator s) (eqb (code c) 27 && begins_with 92 s)

abbrev pub or_else : Option ℕ → Option ℕ → Option ℕ
or_else (some k) later = some k
or_else none later = later

-- `_ANSI_ESCAPE` behind its first character
unfoldable pub escape_length : String → Option ℕ
escape_length String.[] = none
escape_length (String.◌∷◌ c s) =
    if eqb (code c) 91
    then more 1 (csi s)
    else if eqb (code c) 93
    then more 1 (or_else (to_bell s) (to_terminator s))
    else none

-- `_ANSI_ESCAPE.sub("", text)`, of which so many characters are still in a match
unfoldable pub without_escapes : ℕ → String → String
without_escapes n String.[] = ""
without_escapes (suc n) (String.◌∷◌ c s) = without_escapes n s
without_escapes zero (String.◌∷◌ c s) =
    let kept = without_escapes zero s in
    if eqb (code c) 27
    then elim (escape_length s) [ none ↦ String.◌∷◌ c kept | some k ↦ without_escapes k s ]
    else String.◌∷◌ c kept

-- text.replace("\x00", "")
unfoldable pub without_nul : String → String
without_nul String.[] = ""
without_nul (String.◌∷◌ c s) =
    let rest = without_nul s in if eqb (code c) 0 then rest else String.◌∷◌ c rest

abbrev pub marker : String → String
marker source = "\n[… output truncated: " <> source <> " …]"

-- `_truncate`
unfoldable pub truncate : String → ℕ → String → String
truncate text limit source =
    if leb (size text) limit
    then text
    else if leb limit (size (marker source))
    then first limit (marker source)
    else first (limit - size (marker source)) text <> marker source

-- The label of a section
unfoldable pub label_of : Module → Fetcher → String
label_of m f =
    let label = m.name <> "/" <> f.name in
    if f.description == "" then label else label <> " — " <> f.description

-- `_format_result`
unfoldable pub format_result : Module → Fetcher → String → String
format_result m f output =
    "## "
    <> label_of m f
    <> "\n"
    <> truncate (without_nul (without_escapes 0 output)) max_fetcher_output_chars (label_of m f)

-- `selected`
unfoldable pub selected : List Module → List (Module × Fetcher)
selected [] = []
selected (m ∷ ms) = map (λ f. (m, f)) m.fetchers ++ selected ms

module _ (ran : ℕ → Fetcher → Ran) where
  -- `sections`, from a place on
  unfoldable pub sections : ℕ → List (Module × Fetcher) → List String
  sections n [] = []
  sections n ((m, f) ∷ rest) = format_result m f (run (ran n f)) ∷ sections (n + 1) rest

  -- The text that is made of what is selected
  unfoldable pub fetched : List (Module × Fetcher) → String
  fetched [] = ""
  fetched (one ∷ others) =
      truncate (join "\n\n" (sections 0 (one ∷ others))) max_prefetch_chars "prefetch context"

  -- `prefetch`
  abbrev pub prefetch : List Module → String
  prefetch modules = fetched (selected modules)

-- ===== src/LocalModel/Stream.antt =====
-- `summarize` of src/nixadmin/llm/local.py: the lines of a streamed answer.
use nixadmin.Prelude.{
  String, Bool, true, false, not, Option, none, some, List, [], ◌∷◌, ◌==◌, eqb, string_eq,
  if◌then◌else◌,
}
use nixadmin.Prelude.Int.{pos, negsuc}
use nixadmin.Json.{
  Json, null, bool, int, real, field, str, arr, obj, nil, cons, end, get, JsonText, dumps,
}

-- A line of the stream of `summarize`, and how the stream ends: at its end, by an `httpx.HTTPError`,
-- or by another exception.
pub data ChatLine : Type 0 where
  blank : ChatLine
  line : JsonText → ChatLine

pub data Ending : Type 0 where
  finished http_error escaped : Ending

-- The truth of a value.
abbrev pub truth : Json → Bool
truth null = false
truth (bool b) = b
truth (int (pos n)) = not (eqb n 0)
truth (int (negsuc n)) = true
truth (real n) = not (eqb n 0)
truth (str s) = not (s == "")
truth (arr nil) = false
truth (arr (cons v vs)) = true
truth (obj end) = false
truth (obj (field k v d)) = true

-- What a chunk says: nothing, a text, or a value that is none, which the caller cannot add; and
-- whether it is the last one.
pub data Said : Type 0 where
  silent broken : Said
  said : String → Said

abbrev pub said_by : Option Json → Said
said_by none = silent
said_by (some (str s)) = if s == "" then silent else said s
said_by (some v) = if truth v then broken else silent

abbrev pub content_in : Option Json → Said
content_in none = silent
content_in (some (obj message)) = said_by (get "content" message)
content_in (some other) = broken

abbrev pub is_done : Option Json → Bool
is_done none = false
is_done (some v) = truth v

abbrev pub read_chunk : JsonText → Said × Bool
read_chunk (dumps (obj chunk)) = (content_in (get "message" chunk), is_done (get "done" chunk))
read_chunk other = (broken, false)

abbrev pub then_said : Said × Bool → List String × Ending → List String × Ending
then_said (broken, last) rest = ([], escaped)
then_said (silent, true) rest = ([], finished)
then_said (silent, false) rest = rest
then_said (said s, true) rest = (s ∷ [], finished)
then_said (said s, false) (texts, ending) = (s ∷ texts, ending)

-- `summarize`: what is yielded, and what ends it
unfoldable pub summarize : List ChatLine → Ending → List String × Ending
summarize [] ending = ([], ending)
summarize (blank ∷ ls) ending = summarize ls ending
summarize (line t ∷ ls) ending = then_said (read_chunk t) (summarize ls ending)

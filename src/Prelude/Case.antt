-- ===== src/Prelude/Case.antt =====
-- s.lower() and s.upper(), for the letters of ASCII; other characters stay as they are.
use Prim.Native.Char.{Char, code}
use Prim.Native.String.{String}
use nixadmin.Prelude.Tests.{eqb, if◌then◌else◌}

-- The character of the second text where the first has the given one.
translate : String → String → Char → Char
translate String.[] to c = c
translate (String.◌∷◌ d from) String.[] c = c
translate (String.◌∷◌ d from) (String.◌∷◌ e to) c =
    let rest = translate from to c in if eqb (code c) (code d) then e else rest

unfoldable pub lower : String → String
unfolding translate
lower String.[] = ""
lower (String.◌∷◌ c s) =
    String.◌∷◌ (translate "ABCDEFGHIJKLMNOPQRSTUVWXYZ" "abcdefghijklmnopqrstuvwxyz" c) (lower s)

unfoldable pub upper : String → String
unfolding translate
upper String.[] = ""
upper (String.◌∷◌ c s) =
    String.◌∷◌ (translate "abcdefghijklmnopqrstuvwxyz" "ABCDEFGHIJKLMNOPQRSTUVWXYZ" c) (upper s)

-- ===== src/Prelude/Text.antt =====
-- str(n) for a natural number, sep.join(xs), and s.strip().
use Prim.Native.Char.{Char, code}
use mathlib.Core.Bool.{Bool, true, false, ◌&&◌, ◌||◌}
use nixadmin.Prelude.Int.{ℤ, pos, negsuc}
use nixadmin.Prelude.Tests.{leb, if◌then◌else◌, eqb}
use Prim.Native.Nat.{ℕ, zero, suc, ◌/◌, ◌%◌}
use mathlib.Core.List.{List, [], ◌∷◌}
use mathlib.Core.Path.{◌≡◌, refl, sym, ap, ◌∙◌}
use mathlib.Core.Logic.{◌≢◌}
use text.Mathlib.TextLemmas.{cons-ne-nil}
use Prim.Native.String.{String, ◌++◌ as ◌<>◌}

digit : ℕ → String
digit n =
    if eqb n 0
    then "0"
    else if eqb n 1
    then "1"
    else if eqb n 2
    then "2"
    else if eqb n 3
    then "3"
    else if eqb n 4
    then "4"
    else if eqb n 5
    then "5"
    else if eqb n 6
    then "6"
    else if eqb n 7
    then "7"
    else if eqb n 8
    then "8"
    else "9"

-- A number below the fuel is written out in full: each digit divides it by ten.
digits : ℕ → ℕ → String → String
digits zero n acc = acc
digits (suc fuel) n acc =
    let more = digits fuel (n / 10) (digit (n % 10) <> acc) in
    if eqb (n / 10) 0 then digit (n % 10) <> acc else more

unfoldable pub decimal : ℕ → String
unfolding digit digits
decimal n = digits (suc n) n ""

-- str(z)
unfoldable pub show_int : ℤ → String
unfolding decimal
show_int (pos n) = decimal n
show_int (negsuc n) = "-" <> decimal (suc n)

unfoldable pub join : String → List String → String
join sep [] = ""
join sep (x ∷ []) = x
join sep (x ∷ y ∷ xs) = x <> sep <> join sep (y ∷ xs)

-- str.isspace of one character, by its code point
unfoldable pub is_space : ℕ → Bool
is_space c =
    (leb 9 c && leb c 13)
    || (leb 28 c && leb c 32)
    || eqb c 133
    || eqb c 160
    || eqb c 5760
    || (leb 8192 c && leb c 8202)
    || eqb c 8232
    || eqb c 8233
    || eqb c 8239
    || eqb c 8287
    || eqb c 12288

unfoldable pub lstrip : String → String
lstrip String.[] = ""
lstrip (String.◌∷◌ c s) = let rest = lstrip s in if is_space (code c) then rest else String.◌∷◌ c s

is_empty : String → Bool
is_empty String.[] = true
is_empty (String.◌∷◌ c s) = false

rstrip : String → String
rstrip String.[] = ""
rstrip (String.◌∷◌ c s) =
    let rest = rstrip s in if is_space (code c) && is_empty rest then "" else String.◌∷◌ c rest

unfoldable pub strip : String → String
unfolding is_space lstrip is_empty rstrip
strip s = rstrip (lstrip s)

lstrip-cons :
    (c : Char) (s : String) → is_space (code c) ≡ false → lstrip (String.◌∷◌ c s) ≡ String.◌∷◌ c s
unfolding lstrip
lstrip-cons c s h = rw h refl

rstrip-cons :
    (c : Char) (s : String)
    → is_space (code c) ≡ false
    → rstrip (String.◌∷◌ c s) ≡ String.◌∷◌ c (rstrip s)
unfolding rstrip
rstrip-cons c s h = rw h refl

-- A text that begins with no space is not blank.
pub strip-cons : (c : Char) (s : String) → is_space (code c) ≡ false → strip (String.◌∷◌ c s) ≢ ""
unfolding strip
strip-cons c s h e =
    cons-ne-nil c (rstrip s) (sym (ap rstrip (lstrip-cons c s h) ∙ rstrip-cons c s h) ∙ e)

-- ===== src/Prelude/Number.antt =====
-- int(s), for the digits of ASCII: space around, a sign, and single underscores between digits.
use Prim.Native.Char.{code}
use Prim.Native.String.{String}
use Prim.Native.Nat.{ℕ, ◌+◌, ◌-◌, ◌*◌}
use mathlib.Core.Bool.{Bool, true, false, ◌&&◌}
use mathlib.Core.Option.{Option, none, some}
use nixadmin.Prelude.Int.{ℤ, pos, negsuc}
use nixadmin.Prelude.Tests.{eqb, leb, if◌then◌else◌}
use nixadmin.Prelude.Text.{strip}

abbrev is_digit : ℕ → Bool
is_digit c = leb b'0' c && leb c b'9'

-- The digits behind what was read; `after` says that the last character was a digit.
read_digits : String → ℕ → Bool → Option ℕ
read_digits String.[] n after = if after then some n else none
read_digits (String.◌∷◌ c s) n after =
    let more = read_digits s (n * 10 + (code c - b'0')) true in
    let skipped = read_digits s n false in
    if is_digit (code c) then more else if eqb (code c) b'_' && after then skipped else none

abbrev negated : ℕ → ℤ
negated n = if eqb n 0 then pos 0 else negsuc (n - 1)

abbrev signed : (ℕ → ℤ) → Option ℕ → Option ℤ
signed sign none = none
signed sign (some n) = some (sign n)

read_sign : String → Option ℤ
read_sign String.[] = none
read_sign (String.◌∷◌ c s) =
    if eqb (code c) b'-'
    then signed negated (read_digits s 0 false)
    else if eqb (code c) b'+'
    then signed pos (read_digits s 0 false)
    else signed pos (read_digits (String.◌∷◌ c s) 0 false)

unfoldable pub parse_int : String → Option ℤ
unfolding read_sign read_digits
parse_int s = read_sign (strip s)

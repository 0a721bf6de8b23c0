-- ===== src/Helper/UnitName.antt =====
-- `_UNIT_RE` of nix/nixadmin-helper.py: ^[A-Za-z0-9@._:\\-]+\.(service|socket|timer|target|path|mount)$
use Prim.Native.Char.{code}
use nixadmin.Prelude.{
  ℕ, ◌≡◌, refl, String, Bool, true, false, ◌&&◌, ◌||◌, List, [], ◌∷◌, contains, string_eq, nat_eq,
  eqb, leb,
}

-- The class [A-Za-z0-9@._:\\-] on code points.
unfoldable pub is_safe : ℕ → Bool
is_safe c =
    (leb b'A' c && leb c b'Z')
    || (leb b'a' c && leb c b'z')
    || (leb b'0' c && leb c b'9')
    || eqb c b'@'
    || eqb c b'.'
    || eqb c b'_'
    || eqb c b':'
    || eqb c b'\\'
    || eqb c b'-'

-- (service|socket|timer|target|path|mount)$, where `$` also matches before a last newline
abbrev pub endings : List String
endings =
    ".service" ∷ ".socket" ∷ ".timer" ∷ ".target" ∷ ".path" ∷ ".mount" ∷ ".service\n" ∷ ".socket\n"
    ∷ ".timer\n" ∷ ".target\n" ∷ ".path\n" ∷ ".mount\n" ∷ []

unfoldable pub is_ending : String → Bool
is_ending s = contains endings s

-- The rest of a match after at least one safe character: an ending here, or one more of them.
unfoldable pub matches_rest : String → Bool
matches_rest String.[] = false
matches_rest (String.◌∷◌ c s) =
    let rest = matches_rest s in is_ending (String.◌∷◌ c s) || (is_safe (code c) && rest)

-- `_UNIT_RE.match(unit)`
unfoldable pub matches_unit : String → Bool
matches_unit String.[] = false
matches_unit (String.◌∷◌ c s) = is_safe (code c) && matches_rest s

backup : matches_unit "nixadmin-backup.service" ≡ true
unfolding matches_unit matches_rest is_safe is_ending string_eq
backup = refl

no_shell : matches_unit "a;b.service" ≡ false
unfolding matches_unit matches_rest is_safe is_ending string_eq
no_shell = refl

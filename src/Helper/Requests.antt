-- ===== src/Helper/Requests.antt =====
-- Which commands a client can make the helper run as root.
use Prim.Native.Char.{code}
use nixadmin.Prelude.{
  ◌≡◌, ◌≢◌, refl, ℕ, ◌≤◌, String, Bool, true, false, ◌&&◌, ◌||◌, Option, none, some, List, [], ◌∷◌,
  contains, string_eq, ◌==◌, eqb, All, arith, if◌then◌else◌, length, Bool-cases, inl, inr,
}
use nixadmin.Json.{Json, str, obj, Fields, JsonText, dumps, malformed, get}
use nixadmin.Helper.{
  Machine, Command, rebuild, restart, Answer, allowed_actions, build_cmd, valid_unit,
  handle_restart, handle_rebuild, handle_action, handle_client,
}
use nixadmin.Helper.UnitName.{is_safe, is_ending, endings, matches_rest, matches_unit}

-- A command that the helper may start: an allowed rebuild of the configured flake, or the restart
-- of a valid unit.
abbrev pub IsAllowed : Machine → Command → Type 0
IsAllowed m (rebuild cmd) =
    (action : String) × (contains allowed_actions action ≡ true)
    × (cmd ≡ build_cmd action m.flake_dir m.hostname)
IsAllowed m (restart unit) = valid_unit unit ≡ true

-- An answer that starts one command at most, which is allowed.
abbrev pub IsCareful : Machine → Answer → Type 0
IsCareful m a = All (IsAllowed m) a.commands × (length a.commands ≤ 1)

handle_restart-IsCareful : (m : Machine) (unit : Option Json) → IsCareful m (handle_restart m unit)
unfolding handle_restart
handle_restart-IsCareful m none = (tt, omega arith)
handle_restart-IsCareful m (some (str unit)) = elim (Bool-cases (valid_unit unit)) [
  | inl e ↦ rw e ((e, tt), omega arith)
  | inr e ↦ rw e (tt, omega arith)
]
handle_restart-IsCareful m (some other) = (tt, omega arith)

if-IsCareful :
    (m : Machine) (b : Bool) (x y : Answer)
    → (b ≡ true → IsCareful m x)
    → (b ≡ false → IsCareful m y)
    → IsCareful m (if b then x else y)
if-IsCareful m true x y p q = p refl
if-IsCareful m false x y p q = q refl

handle_rebuild-IsCareful : (m : Machine) (action : String) → IsCareful m (handle_rebuild m action)
unfolding handle_rebuild
handle_rebuild-IsCareful m action =
    if-IsCareful m (contains allowed_actions action) _ _
      (λ e. (((action, e, refl), tt), omega arith)) (λ e. (tt, omega arith))

handle_action-IsCareful :
    (m : Machine) (req : Fields) (action : Option Json) → IsCareful m (handle_action m req action)
unfolding handle_action
handle_action-IsCareful m req none = handle_rebuild-IsCareful m ""
handle_action-IsCareful m req (some (str action)) = elim (Bool-cases (action == "restart")) [
  | inl e ↦ rw e (handle_restart-IsCareful m (get "unit" req))
  | inr e ↦ rw e (handle_rebuild-IsCareful m action)
]
handle_action-IsCareful m req (some other) = (tt, omega arith)

-- Whatever a client sends, an unreadable line, a value that is no object, an unknown action or a
-- wrong type included, the helper starts at most one command, and that is a rebuild for an allowed
-- action with the configured flake and host, or the restart of a valid unit.
pub handle_client-IsCareful :
    (m : Machine) (raw : Option JsonText) → IsCareful m (handle_client m raw)
unfolding handle_client
handle_client-IsCareful m none = (tt, omega arith)
handle_client-IsCareful m (some malformed) = (tt, omega arith)
handle_client-IsCareful m (some (dumps (obj req))) =
    handle_action-IsCareful m req (get "action" req)
handle_client-IsCareful m (some (dumps other)) = (tt, omega arith)

-- Every character of a text meets a test.
unfoldable pub all_chars : (ℕ → Bool) → String → Bool
all_chars p String.[] = true
all_chars p (String.◌∷◌ c s) = let rest = all_chars p s in p (code c) && rest

unfoldable pub all_texts : (String → Bool) → List String → Bool
all_texts p [] = true
all_texts p (x ∷ xs) = let rest = all_texts p xs in p x && rest

-- A character of a unit name, or the newline that `$` lets through at the end.
unfoldable pub is_harmless : ℕ → Bool
is_harmless c = is_safe c || eqb c b'\n'

contains-all :
    (p : String → Bool) (xs : List String) (s : String)
    → contains xs s ≡ true
    → all_texts p xs ≡ true
    → p s ≡ true
unfolding all_texts
contains-all p [] s h k = cc
contains-all p (x ∷ xs) s h k = elim (Bool-cases (s == x)) [
  | inl e ↦ ground (arith, e, h, k)
  | inr e ↦ contains-all p xs s (ground (arith, e, h)) (ground (arith, k))
]

endings-harmless : all_texts (all_chars is_harmless) endings ≡ true
unfolding all_texts all_chars is_harmless is_safe
endings-harmless = refl

is_ending-harmless : (s : String) → is_ending s ≡ true → all_chars is_harmless s ≡ true
unfolding is_ending
is_ending-harmless s h = contains-all (all_chars is_harmless) endings s h endings-harmless

safe-harmless : (c : ℕ) → is_safe c ≡ true → is_harmless c ≡ true
unfolding is_harmless
safe-harmless c h = ground arith

matches_rest-harmless : (s : String) → matches_rest s ≡ true → all_chars is_harmless s ≡ true
unfolding matches_rest all_chars
matches_rest-harmless String.[] h = refl
matches_rest-harmless (String.◌∷◌ c s) h = elim (Bool-cases (is_ending (String.◌∷◌ c s))) [
  | inl e ↦ is_ending-harmless (String.◌∷◌ c s) e
  | inr e ↦ ground (arith, e, h, matches_rest-harmless s, safe-harmless (code c))
]

-- A unit that may be restarted has no character that could start a second argument or a second
-- command: each is of the safe class or is the newline that the pattern's end lets through; and it
-- is not the helper's own name.
pub valid_unit-harmless :
    (unit : String)
    → valid_unit unit ≡ true
    → (all_chars is_harmless unit ≡ true) × (unit ≢ "nixadmin-helper.service")
unfolding valid_unit matches_unit
valid_unit-harmless String.[] h = absurd (ground arith)
valid_unit-harmless (String.◌∷◌ c s) h = (
  unfold all_chars in ground (arith, h, matches_rest-harmless s, safe-harmless (code c)),
  λ e. ground (arith, h, e),
)

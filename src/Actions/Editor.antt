-- ===== src/Actions/Editor.antt =====
-- `edit_packages` of src/nixadmin/actions.py: a bare package name put into, or taken out of, the list
-- `home.packages = … [ … ];`.
use Prim.Native.Char.{code}
use nixadmin.Prelude.{
  ℕ, suc, ◌-◌, ◌≡◌, refl, ◌+◌, String, ◌<>◌, Bool, true, false, not, ◌&&◌, ◌||◌, Option, none, some,
  List, [], ◌∷◌, ◌++◌, ◌==◌, string_eq, if◌then◌else◌, eqb, leb, ltb, take, drop, keep, some_of,
}
use nixadmin.Prelude.Text.{strip, lstrip, join}
use nixadmin.Prelude.Result.{Result, ok, err}

-- A character at which splitlines ends a line.
unfoldable pub is_break : ℕ → Bool
is_break c =
    (leb 10 c && leb c 13) || (leb 28 c && leb c 30) || eqb c 133 || eqb c 8232 || eqb c 8233

unfoldable pub starts_with_newline : String → Bool
starts_with_newline String.[] = false
starts_with_newline (String.◌∷◌ c s) = eqb (code c) 10

-- A line's first character, before the rest of it.
unfoldable pub extend : String → List String → List String
extend c [] = c ∷ []
extend c (line ∷ lines) = (c <> line) ∷ lines

-- text.splitlines(keepends=True)
unfoldable pub splitlines : String → List String
splitlines String.[] = []
splitlines (String.◌∷◌ c s) =
    let lines = splitlines s in
    if is_break (code c) && not (eqb (code c) 13 && starts_with_newline s)
    then (String.◌∷◌ c "") ∷ lines
    else extend (String.◌∷◌ c "") lines

-- What follows a prefix, if the text has it.
unfoldable pub after : String → String → Option String
after String.[] s = some s
after (String.◌∷◌ c p) String.[] = none
after (String.◌∷◌ c p) (String.◌∷◌ d s) =
    let rest = after p s in if eqb (code c) (code d) then rest else none

unfoldable pub has_bracket : String → Bool
has_bracket String.[] = false
has_bracket (String.◌∷◌ c s) = let rest = has_bracket s in eqb (code c) b'[' || rest

-- \s*=.*\[ right here
unfoldable pub is_assigned : Option String → Bool
is_assigned none = false
is_assigned (some s) = elim (after "=" (lstrip s)) [ none ↦ false | some t ↦ has_bracket t ]

-- home\.packages\s*=.*\[ somewhere in the line
unfoldable pub opens : String → Bool
opens String.[] = false
opens (String.◌∷◌ c s) =
    let rest = opens s in is_assigned (after "home.packages" (String.◌∷◌ c s)) || rest

-- ^\s*\]; at the start of the line
unfoldable pub closes : String → Bool
closes line = elim (after "];" (lstrip line)) [ none ↦ false | some rest ↦ true ]

-- `_find`, from the line `i` on
unfoldable pub find : (String → Bool) → ℕ → List String → Option ℕ
find p i [] = none
find p i (line ∷ lines) =
    let rest = find p (i - 1) lines in
    if eqb i 0 && p line then some 0 else elim rest [ none ↦ none | some n ↦ some (suc n) ]

-- lines[start + 1:end]
unfoldable pub between : ℕ → ℕ → List String → List String
between start end lines = drop (start + 1) (take end lines)

unfoldable pub line_at : ℕ → List String → String
line_at i lines = elim (drop i lines) [ [] ↦ "" | line ∷ rest ↦ line ]

-- line[:len(line) - len(line.lstrip())]
unfoldable pub indent_of : String → String
indent_of String.[] = ""
indent_of (String.◌∷◌ c s) =
    let rest = indent_of s in
    if lstrip (String.◌∷◌ c s) == String.◌∷◌ c s then "" else String.◌∷◌ c "" <> rest

unfoldable pub ends_with_crlf : String → Bool
ends_with_crlf String.[] = false
ends_with_crlf (String.◌∷◌ c s) = let rest = ends_with_crlf s in String.◌∷◌ c s == "\r\n" || rest

-- The line that is inserted before the line `end`.
unfoldable pub new_line : String → ℕ → ℕ → List String → String
new_line pkg start end lines =
    (elim (keep (λ line. not (strip line == "")) (between start end lines)) [
      | [] ↦ indent_of (line_at end lines) <> "  "
      | entry ∷ rest ↦ indent_of entry
    ])
    <> pkg
    <> (if some_of ends_with_crlf lines then "\r\n" else "\n")

-- [ln for i, ln in enumerate(lines) if not (start < i < end and ln.strip() == pkg)], from `i` on
unfoldable pub without : String → ℕ → ℕ → ℕ → List String → List String
without pkg start end i [] = []
without pkg start end i (line ∷ lines) =
    let rest = without pkg start end (i + 1) lines in
    if ltb start i && ltb i end && strip line == pkg then rest else line ∷ rest

-- The edit between the lines `start` and `end`.
unfoldable pub edit_between : String → String → Bool → ℕ → ℕ → List String → Result String String
edit_between text pkg add start end lines =
    let present = some_of (λ line. strip line == pkg) (between start end lines) in
    if add
    then (if present
        then ok text
        else ok (join "" (take end lines ++ (new_line pkg start end lines ∷ drop end lines))))
    else if present
    then ok (join "" (without pkg start end 0 lines))
    else err (pkg <> " is not in the package list")

-- `edit_packages`; the error is the text of the `NixadminError`
unfoldable pub edit_packages : String → String → Bool → Result String String
edit_packages text pkg add =
    let lines = splitlines text in
    elim (find opens 0 lines) [
      | none ↦ err "couldn't locate the home.packages list to edit"
      | some start ↦ elim (find closes (start + 1) lines) [
        | none ↦ err "couldn't find the end of the home.packages list"
        | some end ↦ edit_between text pkg add start end lines
      ]
    ]

abbrev config : String
config = "{\n  home.packages = with pkgs; [\n    htop\n    steam\n  ];\n}\n"

added :
    edit_packages config "vim" true
    ≡ ok "{\n  home.packages = with pkgs; [\n    htop\n    steam\n    vim\n  ];\n}\n"
unfolding edit_packages edit_between splitlines is_break starts_with_newline extend find opens
    closes after is_assigned has_bracket between line_at indent_of new_line ends_with_crlf lstrip
    strip join string_eq
added = refl

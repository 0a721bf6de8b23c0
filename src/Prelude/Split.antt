-- ===== src/Prelude/Split.antt =====
-- str.partition, str.rpartition and str.removeprefix, and how their parts join again.
use Prim.Native.Char.{Char, code}
use Prim.Native.String.{String, ◌++◌ as ◌<>◌}
use mathlib.Core.Path.{◌≡◌, refl, ap, sym, ◌∙◌}
use mathlib.Core.Bool.{Bool, true, false}
use mathlib.Core.Option.{Option, none, some, some-injective}
use native.Mathlib.Omega.{arith}
use text.Mathlib.TextEquality.{Char-path}
use text.Mathlib.TextLemmas.{nil-append, cons-append}
use nixadmin.Prelude.Tests.{eqb, if◌then◌else◌}

-- The text behind a prefix, or none if it is no prefix.
unfoldable pub behind : String → String → Option String
behind String.[] s = some s
behind (String.◌∷◌ c p) String.[] = none
behind (String.◌∷◌ c p) (String.◌∷◌ d s) =
    let rest = behind p s in if eqb (code c) (code d) then rest else none

-- The middle of the three parts is a Boolean here, as it is the separator or empty.
pub record Parts : Type 0 where
  pub before : String
  pub found : Bool
  pub after : String

abbrev cut_here : Char → Option String → Parts → Parts
cut_here c none parts = record {
  before = String.◌∷◌ c parts.before;
  found = parts.found;
  after = parts.after;
}
cut_here c (some rest) parts = record { before = ""; found = true; after = rest }

-- s.partition(sep), for a separator that is not empty
unfoldable pub partition : String → String → Parts
partition sep String.[] = record { before = ""; found = false; after = "" }
partition sep (String.◌∷◌ c s) =
    let parts = partition sep s in cut_here c (behind sep (String.◌∷◌ c s)) parts

abbrev cut_alone : Char → String → Option String → Parts
cut_alone c s none = record { before = ""; found = false; after = String.◌∷◌ c s }
cut_alone c s (some rest) = record { before = ""; found = true; after = rest }

abbrev cut_last : Char → String → Option String → Parts → Parts
cut_last c s rest parts =
    if parts.found
    then record { before = String.◌∷◌ c parts.before; found = true; after = parts.after }
    else cut_alone c s rest

-- s.rpartition(sep), for a separator that is not empty
unfoldable pub rpartition : String → String → Parts
rpartition sep String.[] = record { before = ""; found = false; after = "" }
rpartition sep (String.◌∷◌ c s) =
    let parts = rpartition sep s in cut_last c s (behind sep (String.◌∷◌ c s)) parts

unfoldable pub joined : String → Parts → String
joined sep parts =
    if parts.found then parts.before <> sep <> parts.after else parts.before <> parts.after

pub behind-append : (p s rest : String) → behind p s ≡ some rest → s ≡ p <> rest
unfolding behind
behind-append String.[] s rest h = some-injective s rest h ∙ sym (nil-append rest)
behind-append (String.◌∷◌ c p) String.[] rest h = cc
behind-append (String.◌∷◌ c p) (String.◌∷◌ d s) rest h =
    ground (arith, Char-path c d, behind-append p s rest, cons-append c p rest)

prepend-joined :
    (c : Char) (s sep before after : String) (found : Bool)
    → s ≡ joined sep (record { before = before; found = found; after = after })
    → String.◌∷◌ c s
      ≡ joined sep (record { before = String.◌∷◌ c before; found = found; after = after })
unfolding joined
prepend-joined c s sep before after true h =
    ap (String.◌∷◌ c) h ∙ sym (cons-append c before (sep <> after))
prepend-joined c s sep before after false h = ap (String.◌∷◌ c) h ∙ sym (cons-append c before after)

cut_here-joined :
    (c : Char) (s sep : String) (rest : Option String) (parts : Parts)
    → s ≡ joined sep parts
    → ((r : String) → rest ≡ some r → String.◌∷◌ c s ≡ sep <> r)
    → String.◌∷◌ c s ≡ joined sep (cut_here c rest parts)
unfolding joined
cut_here-joined c s sep none parts h k =
    prepend-joined c s sep parts.before parts.after parts.found h
cut_here-joined c s sep (some r) parts h k = k r refl ∙ sym (nil-append (sep <> r))

pub partition-joined : (sep s : String) → s ≡ joined sep (partition sep s)
unfolding partition joined
partition-joined sep String.[] = sym (nil-append "")
partition-joined sep (String.◌∷◌ c s) =
    let whole = String.◌∷◌ c s in
    cut_here-joined c s sep (behind sep whole) (partition sep s) (partition-joined sep s)
      (behind-append sep whole)

cut_here_absent :
    (c : Char) (rest : Option String) (parts : Parts)
    → (parts.found ≡ false → parts.after ≡ "")
    → (cut_here c rest parts).found ≡ false
    → (cut_here c rest parts).after ≡ ""
cut_here_absent c none parts ih h = ih h
cut_here_absent c (some r) parts ih h = cc

pub partition_absent :
    (sep s : String) → (partition sep s).found ≡ false → (partition sep s).after ≡ ""
unfolding partition
partition_absent sep String.[] h = refl
partition_absent sep (String.◌∷◌ c s) h =
    cut_here_absent c (behind sep (String.◌∷◌ c s)) (partition sep s) (partition_absent sep s) h

cut_last-joined :
    (c : Char) (s sep : String) (rest : Option String) (before after : String) (found : Bool)
    → s ≡ joined sep (record { before = before; found = found; after = after })
    → ((r : String) → rest ≡ some r → String.◌∷◌ c s ≡ sep <> r)
    → String.◌∷◌ c s
      ≡ joined sep (cut_last c s rest (record { before = before; found = found; after = after }))
unfolding joined
cut_last-joined c s sep rest before after true h k = prepend-joined c s sep before after true h
cut_last-joined c s sep none before after false h k = sym (nil-append (String.◌∷◌ c s))
cut_last-joined c s sep (some r) before after false h k = k r refl ∙ sym (nil-append (sep <> r))

pub rpartition-joined : (sep s : String) → s ≡ joined sep (rpartition sep s)
unfolding rpartition joined
rpartition-joined sep String.[] = sym (nil-append "")
rpartition-joined sep (String.◌∷◌ c s) =
    let whole = String.◌∷◌ c s in
    let parts = rpartition sep s in
    cut_last-joined c s sep (behind sep whole) parts.before parts.after parts.found
      (rpartition-joined sep s) (behind-append sep whole)

cut_last_absent :
    (c : Char) (s : String) (rest : Option String) (parts : Parts)
    → (cut_last c s rest parts).found ≡ false
    → (cut_last c s rest parts).before ≡ ""
cut_last_absent c s none parts h = ground (arith)
cut_last_absent c s (some r) parts h = ground (arith)

pub rpartition_absent :
    (sep s : String) → (rpartition sep s).found ≡ false → (rpartition sep s).before ≡ ""
unfolding rpartition
rpartition_absent sep String.[] h = refl
rpartition_absent sep (String.◌∷◌ c s) h =
    cut_last_absent c s (behind sep (String.◌∷◌ c s)) (rpartition sep s) h

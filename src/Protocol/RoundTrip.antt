-- ===== src/Protocol/RoundTrip.antt =====
-- Reading back what `encode` of src/nixadmin/protocol.py writes.
use nixadmin.Prelude.{
  ◌≡◌, refl, ◌∙◌, ap, String, Bool, true, false, not, ◌&&◌, none, some, List, [], ◌∷◌, contains,
  string_eq, map, arith,
}
use nixadmin.Prelude.Result.{ok}
use nixadmin.Json.{Json, null, str, obj, Fields, field, get, dumps}
use nixadmin.Protocol.{
  Class, query, Field, type_of, fields_of, Message, is_null, pack, encode, class_named, classes,
  class_of, pop, build, construct, decode,
}

abbrev pub names : List Field → List String
names = map (λ f. f.name)

-- A value for each field, which is only null where null is the default.
abbrev pub IsFilled : List Field → List Json → Type 0
IsFilled [] [] = Unit
IsFilled (f ∷ fs) (v ∷ vs) = (is_null v ≡ true → f.default ≡ some null) × IsFilled fs vs
IsFilled fs vs = ⊥

-- No name occurs twice.
distinct : List String → Bool
distinct [] = true
distinct (x ∷ xs) = not (contains xs x) && distinct xs

fields_distinct : (c : Class) → distinct ("type" ∷ names (fields_of c)) ≡ true
unfolding distinct fields_of string_eq
fields_distinct query = refl
fields_distinct other = refl

pub class_named-type_of : (c : Class) → class_named (type_of c) classes ≡ some c
unfolding class_named type_of string_eq
class_named-type_of query = refl
class_named-type_of other = refl

get-pack :
    (k : String) (fs : List Field) (vs : List Json)
    → contains (names fs) k ≡ false
    → get k (pack fs vs) ≡ none
unfolding get pack
get-pack k [] vs h = refl
get-pack k (f ∷ fs) [] h = refl
get-pack k (f ∷ fs) (v ∷ vs) h = ground (arith, h, get-pack k fs vs)

-- A field that the class does not have is not looked at.
pub build-field :
    (fs : List Field) (k : String) (v : Json) (raw : Fields)
    → contains (names fs) k ≡ false
    → build fs (field k v raw) ≡ build fs raw
unfolding build get
build-field [] k v raw h = refl
build-field (f ∷ fs) k v raw h = ground (arith, h, build-field fs k v raw)

pop-pack :
    (k : String) (fs : List Field) (vs : List Json)
    → contains (names fs) k ≡ false
    → pop k (pack fs vs) ≡ pack fs vs
unfolding pop pack
pop-pack k [] vs h = refl
pop-pack k (f ∷ fs) [] h = refl
pop-pack k (f ∷ fs) (v ∷ vs) h = ground (arith, h, pop-pack k fs vs)

build-pack :
    (fs : List Field) (vs : List Json)
    → distinct (names fs) ≡ true
    → IsFilled fs vs
    → build fs (pack fs vs) ≡ some vs
unfolding build pack distinct get
build-pack [] [] d h = refl
build-pack [] (v ∷ vs) d h = elim h [ ]
build-pack (f ∷ fs) [] d h = elim h [ ]
build-pack (f ∷ fs) (null ∷ vs) d h =
    ground (arith, d, h.0 refl, get-pack f.name fs vs, build-pack fs vs (ground arith) h.1)
build-pack (f ∷ fs) (v ∷ vs) d h =
    ground (arith, d, build-field fs f.name v (pack fs vs), build-pack fs vs (ground arith) h.1)

fields-apart :
    (c : Class)
    → (contains (names (fields_of c)) "type" ≡ false) × (distinct (names (fields_of c)) ≡ true)
unfolding distinct
fields-apart c = ground (arith, fields_distinct c)

decode-parts :
    (c : Class) (fs : Fields)
    → decode (dumps (obj (field "type" (str (type_of c)) fs)))
      ≡ construct c (build (fields_of c) (pop "type" fs))
unfolding decode class_of get pop
decode-parts c fs = ground (arith, class_named-type_of c)

-- Each message, of any class, whose values are null only where null is the field's default is read
-- back from its line as it was.
pub decode-encode : (m : Message) → IsFilled (fields_of m.cls) m.values → decode (encode m) ≡ ok m
unfolding encode
decode-encode m h =
    let fs = fields_of m.cls in
    decode-parts m.cls (pack fs m.values)
    ∙ ap (λ raw. construct m.cls (build fs raw))
        (pop-pack "type" fs m.values (fields-apart m.cls).0)
    ∙ ap (construct m.cls) (build-pack fs m.values (fields-apart m.cls).1 h)

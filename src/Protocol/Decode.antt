-- ===== src/Protocol/Decode.antt =====
-- What `decode` of src/nixadmin/protocol.py makes of any line.
use nixadmin.Prelude.{
  ℕ, suc, ◌≡◌, refl, ◌↔◌, String, false, Option, none, some, List, [], ◌∷◌, ◌==◌, contains,
  string_eq, length, arith,
}
use nixadmin.Prelude.Result.{Result, ok, err}
use nixadmin.Json.{Json, str, arr, obj, Fields, field, get, JsonText, dumps, malformed}
use nixadmin.Protocol.{
  Class, Field, type_of, fields_of, Message, Refusal, unhashable, unknown_type, class_named,
  classes, class_of, pop, or_default, prepend, build, construct, of_class, decode,
}
use nixadmin.Protocol.RoundTrip.{names, build-field, class_named-type_of}

-- A JSON value that Python cannot hash.
abbrev pub IsContainer : Option Json → Type 0
IsContainer (some (arr items)) = Unit
IsContainer (some (obj fields)) = Unit
IsContainer other = ⊥

-- The line is an object whose type is an array or an object.
abbrev pub IsTypedByContainer : JsonText → Type 0
IsTypedByContainer (dumps (obj raw)) = IsContainer (get "type" raw)
IsTypedByContainer other = ⊥

construct-ne-unhashable :
    (c : Class) (vs : Option (List Json)) → construct c vs ≡ err unhashable → ⊥
construct-ne-unhashable c none h = cc
construct-ne-unhashable c (some vs) h = cc

named-ne-unhashable :
    (raw : Fields) (o : Option Class)
    → of_class raw (elim o [ none ↦ err unknown_type | some c ↦ ok c ]) ≡ err unhashable
    → ⊥
named-ne-unhashable raw none h = cc
named-ne-unhashable raw (some c) h = construct-ne-unhashable c _ h

of_class-unhashable :
    (raw : Fields) (type : Option Json)
    → (of_class raw (class_of type) ≡ err unhashable) ↔ IsContainer type
unfolding class_of
of_class-unhashable raw none = (λ h. cc, λ h. absurd h)
of_class-unhashable raw (some (str name)) =
    (λ h. absurd (named-ne-unhashable raw (class_named name classes) h), λ h. absurd h)
of_class-unhashable raw (some (arr items)) = (λ h. tt, λ h. refl)
of_class-unhashable raw (some (obj fields)) = (λ h. tt, λ h. refl)
of_class-unhashable raw (some other) = (λ h. cc, λ h. absurd h)

-- Of all lines, malformed ones included, exactly the objects whose type is an array or an object
-- make `decode` raise something else than a `ProtocolError`.
pub decode-unhashable : (line : JsonText) → (decode line ≡ err unhashable) ↔ IsTypedByContainer line
unfolding decode
decode-unhashable malformed = (λ h. cc, λ h. absurd h)
decode-unhashable (dumps (obj raw)) = of_class-unhashable raw (get "type" raw)
decode-unhashable (dumps other) = (λ h. cc, λ h. absurd h)

pop-field :
    (k : String) (v : Json) (raw : Fields)
    → (k == "type") ≡ false
    → pop "type" (field k v raw) ≡ field k v (pop "type" raw)
unfolding pop
pop-field k v raw h = ground arith

get-field :
    (k : String) (v : Json) (raw : Fields)
    → (k == "type") ≡ false
    → get "type" (field k v raw) ≡ get "type" raw
unfolding get
get-field k v raw h = ground arith

class_of-type_of : (c : Class) → class_of (some (str (type_of c))) ≡ ok c
unfolding class_of
class_of-type_of c = ground (arith, class_named-type_of c)

-- A key that neither is the type nor names a field of the message's class changes nothing: newer
-- peers may add fields.
decode-field :
    (c : Class) (k : String) (v : Json) (raw : Fields)
    → get "type" raw ≡ some (str (type_of c))
    → contains ("type" ∷ names (fields_of c)) k ≡ false
    → decode (dumps (obj (field k v raw))) ≡ decode (dumps (obj raw))
unfolding decode
decode-field c k v raw typed unknown =
    let apart : (k == "type") ≡ false = ground arith in
    let other : contains (names (fields_of c)) k ≡ false = ground arith in
    rw (
      get-field k v raw apart,
      typed,
      class_of-type_of c,
      pop-field k v raw apart,
      build-field (fields_of c) k v (pop "type" raw) other,
    )

length-prepend :
    (given : Option Json) (rest : Option (List Json)) (vs : List Json) (n : ℕ)
    → ((ws : List Json) → rest ≡ some ws → length ws ≡ n)
    → prepend given rest ≡ some vs
    → length vs ≡ suc n
length-prepend none rest vs n ih h = cc
length-prepend (some v) none vs n ih h = cc
length-prepend (some v) (some ws) vs n ih h = ground (arith, ih ws refl)

length-build :
    (fs : List Field) (raw : Fields) (vs : List Json)
    → build fs raw ≡ some vs
    → length vs ≡ length fs
unfolding build
length-build [] raw vs h = ground arith
length-build (f ∷ fs) raw vs h =
    length-prepend (or_default (get f.name raw) f.default) (build fs raw) vs (length fs)
      (length-build fs raw) h

-- A message with one value for each field of its class.
abbrev IsWhole : Result Refusal Message → Type 0
IsWhole (ok m) = length m.values ≡ length (fields_of m.cls)
IsWhole (err e) = Unit

construct-IsWhole :
    (c : Class) (vs : Option (List Json))
    → ((ws : List Json) → vs ≡ some ws → length ws ≡ length (fields_of c))
    → IsWhole (construct c vs)
construct-IsWhole c none h = tt
construct-IsWhole c (some vs) h = h vs refl

of_class-IsWhole : (raw : Fields) (c : Result Refusal Class) → IsWhole (of_class raw c)
of_class-IsWhole raw (err e) = tt
of_class-IsWhole raw (ok c) = construct-IsWhole c _ (length-build (fields_of c) (pop "type" raw))

-- Whatever line is decoded, a message that comes of it has one value for each field of its class.
decode-IsWhole : (line : JsonText) → IsWhole (decode line)
unfolding decode
decode-IsWhole malformed = tt
decode-IsWhole (dumps (obj raw)) = of_class-IsWhole raw (class_of (get "type" raw))
decode-IsWhole (dumps other) = tt

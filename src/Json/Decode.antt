-- ===== src/Json/Decode.antt =====
-- `json.Unmarshal` into a struct. A member goes to the field whose name it spells, up to case; a
-- later member overwrites an earlier one; null leaves a field as it is. The callers drop the value
-- when there is an error, so the first error ends the decoding here.
use raider_worker.Base.{
  Bool, Text, bool_eq, decimal, if◌then◌else◌, int_eq, leb_ℤ, list_eq, max_int64, min_int64, nat_eq,
  text, to_lower, unit_eq, ℤ, ◌&&◌, ◌++◌, ◌==◌,
}
use raider_worker.Json.Value.{Json, Members, Payload}

pub data Decoded {ℓ} (A : Type ℓ) : Type ℓ where
  decoded : A → Decoded A
  malformed : Text → Decoded A

abbrev pub bind_decoded {ℓ κ} : {A : Type ℓ} {B : Type κ} → Decoded A → (A → Decoded B) → Decoded B
bind_decoded (decoded a) f = f a
bind_decoded (malformed e) f = malformed e

-- A member's name against a field's, whose lower-case spelling is given.
abbrev pub same_name : Text → Text → Bool
same_name name field = to_lower name == field

unfoldable pub kind_of : Json → Text
kind_of Json.null = text "null"
kind_of (Json.bool b) = text "bool"
kind_of (Json.int n) = text "number " ++ decimal n
kind_of (Json.real s) = text "number " ++ s
kind_of (Json.str s) = text "string"
kind_of (Json.arr xs) = text "array"
kind_of (Json.obj ms) = text "object"

-- The message of an UnmarshalTypeError; `place` says what was decoded, with its Go type.
unfoldable pub type_error : Json → Text → Text
unfolding kind_of
type_error j place = text "json: cannot unmarshal " ++ (kind_of j ++ (text " into Go " ++ place))

abbrev pub in_range : ℤ → Bool
in_range n = leb_ℤ min_int64 n && leb_ℤ n max_int64

-- Into an `int` field that holds `old`.
unfoldable pub decode_int : Text → Json → ℤ → Decoded ℤ
decode_int place Json.null old = decoded old
decode_int place (Json.int n) old =
    if in_range n then decoded n else malformed (type_error (Json.int n) place)
decode_int place j old = malformed (type_error j place)

-- Into a `string` field that holds `old`.
unfoldable pub decode_string : Text → Json → Text → Decoded Text
decode_string place Json.null old = decoded old
decode_string place (Json.str s) old = decoded s
decode_string place j old = malformed (type_error j place)

-- The members of an object, in their order; `set_field` sets the field that a member names.
unfoldable pub decode_members {ℓ} :
    {S : Type ℓ} → (Text → Json → S → Decoded S) → Members → S → Decoded S
decode_members set_field Members.end s = decoded s
decode_members set_field (Members.member name j ms) s =
    bind_decoded (set_field name j s) (decode_members set_field ms)

-- A whole message into a struct; `blank` is the struct before, `place` its Go type.
unfoldable pub decode_struct {ℓ} :
    {S : Type ℓ} → (Text → Json → S → Decoded S) → Text → S → Payload → Decoded S
unfolding decode_members type_error
decode_struct set_field place blank Payload.absent = malformed (text "unexpected end of JSON input")
decode_struct set_field place blank (Payload.garbage bytes problem) = malformed problem
decode_struct set_field place blank (Payload.json Json.null) = decoded blank
decode_struct set_field place blank (Payload.json (Json.obj ms)) = decode_members set_field ms blank
decode_struct set_field place blank (Payload.json j) = malformed (type_error j place)

-- A field's new value, put into its struct.
abbrev pub decode_into {ℓ κ} : {A : Type ℓ} {S : Type κ} → (A → S) → Decoded A → Decoded S
decode_into put_field (decoded a) = decoded (put_field a)
decode_into put_field (malformed e) = malformed e

-- ===== src/Json.antt =====
-- The part of encoding/json that the worker uses, over JSON values: the text of a value is not
-- modelled, so two texts of one value are one, and a text that is no JSON is kept as it is.
mod Value
mod Decode
pub use Value.{Json, Members, Items, Payload}
pub use Decode.{Decoded, decoded, malformed, bind_decoded, decode_into, same_name, in_range}
unfoldable pub use Decode.{
  decode_int, decode_string, decode_members, decode_struct, type_error, kind_of,
}

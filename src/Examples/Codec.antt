-- ===== src/Examples/Codec.antt =====
-- A codec over whole numbers for floats, for concrete runs: a body of one byte decodes into an
-- object with that number at "n", and a body is encoded as the empty text.
use wavefront.Base.{ℕ, [], ◌∷◌, Option, none, some, if◌then◌else◌, ◌==◌, eqb}
use wavefront.Json.{JsonCodec, Json, num, obj, end, field, Bytes}

abbrev decode_byte : Bytes → Option (Json ℕ)
decode_byte [] = none
decode_byte (b ∷ bs) = some (obj (field "n" (num b) end))

abbrev pub codec : JsonCodec
codec = record {
  Float = ℕ;
  format_float = λ x. if eqb x 1 then "1" else "2";
  parse_float = λ s. if s == "1" then some 1 else none;
  unmarshal = decode_byte;
  marshal = λ v. some [];
}

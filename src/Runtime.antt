-- ===== src/Runtime.antt =====
-- What the program uses of Go's standard library and of protobuf: the parameters of the model.
use wavefront.Base.{ℕ, String, Bool, Option}
use wavefront.Json.{Bytes, JsonCodec}
use wavefront.Bundle.Ops.{Descriptors}
use wavefront.Headers.{Header}
use wavefront.Wireerror.Write.{Response}

-- The protobuf library on the messages of a bundle's descriptors: the number of a message's
-- fields, proto.Unmarshal and proto.Marshal, protojson.Unmarshal and protojson.Marshal.
pub record Protobuf (d : Descriptors) : Type 1 where
  pub Dynamic : Type 0
  pub field_count : d.Message → ℕ
  pub unmarshal : d.Message → Bytes → Option Dynamic
  pub marshal : Dynamic → Option Bytes
  pub unmarshal_json : d.Message → Bytes → Option Dynamic
  pub marshal_json : Dynamic → Option Bytes

-- `canonical_key` is http.CanonicalHeaderKey, `parse_media_type` the type that
-- mime.ParseMediaType returns, `equal_fold` strings.EqualFold, `status_text` http.StatusText,
-- `itoa` strconv.Itoa, `text_of` a text of bytes with invalid UTF-8 replaced, `marshal_strings`
-- the encoding of a message with two text fields, numbered 1 and 2, and `can_request` whether
-- http.NewRequestWithContext accepts a method and a URL, and `http_error` the response of
-- http.Error to a header, a text and a status.
pub record Runtime : Type 1 where
  pub codec : JsonCodec
  pub descriptors : Descriptors
  pub protobuf : Protobuf descriptors
  pub canonical_key : String → String
  pub parse_media_type : String → Option String
  pub equal_fold : String → String → Bool
  pub status_text : ℕ → String
  pub itoa : ℕ → String
  pub text_of : Bytes → String
  pub marshal_strings : String → String → Bytes
  pub can_request : String → String → Bool
  pub http_error : Header → String → ℕ → Response

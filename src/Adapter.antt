-- ===== src/Adapter.antt =====
-- internal/adapter/adapter.go, ProtoJSON: the codec between protobuf and the upstream's JSON.
pub mod Errors
use wavefront.Base.{
  ℕ, zero, suc, ◌-◌, ◌<◌, pos, String, ◌<>◌, not, [], Option, none, some, Result, ok, err, ◌>>=◌,
  ◌>>◌,
}
use wavefront.Json.{Bytes}
use wavefront.Runtime.{Runtime}
use wavefront.Bundle.{Contract, error_message}
use wavefront.Wireerror.{Error, media_type_protobuf, decode_failed_error, upstream_error_error}

pub record UpstreamCall : Type 0 where
  pub method : String
  pub path : String
  pub raw_query : String
  pub body : Bytes
  pub content_type : String

-- A Go value and an error, where only `err` is read.
abbrev pub or_error {ℓ} : {A : Type ℓ} → Error → Option A → Result Error A
or_error e none = err e
or_error e (some a) = ok a

module _ (rt : Runtime) where
  open rt use {descriptors, protobuf, itoa}
  open descriptors use {Message, find_message}
  open protobuf use {field_count, unmarshal, marshal, unmarshal_json, marshal_json}

  module _ {F : Type 0} where
    abbrev upstream_call : Contract F → Bytes → String → UpstreamCall
    upstream_call c body content_type = record {
      method = c.method;
      path = c.route;
      raw_query = "";
      body = body;
      content_type = content_type;
    }

    -- A message without a field is the bodyless call.
    decode_into : Contract F → Bytes → Message → ℕ → Result Error UpstreamCall
    decode_into c body md zero = ok (upstream_call c [] "")
    decode_into c body md (suc n) = do
      msg ←
          or_error
            (decode_failed_error ("request body is not valid protobuf for " <> c.request_message))
            (unmarshal md body)
      json ← or_error (decode_failed_error "could not re-encode request as JSON") (marshal_json msg)
      ok (upstream_call c json "application/json")

    -- ProtoJSON.DecodeRequest
    unfoldable pub decode_request : Contract F → Bytes → Result Error UpstreamCall
    unfolding decode_into
    decode_request c body = do
      md ←
          or_error
            (decode_failed_error ("request_message " <> c.request_message <> " is not resolvable"))
            (find_message c.request_message)
      decode_into c body md (field_count md)

  encode_into : String → Bytes → Message → ℕ → Result Error (Bytes × String)
  encode_into name json md zero = ok ([], media_type_protobuf)
  encode_into name json md (suc n) = do
    msg ←
        or_error (upstream_error_error ("upstream body did not match " <> name))
          (unmarshal_json md json)
    out ← or_error (upstream_error_error "could not encode upstream response") (marshal msg)
    ok (out, media_type_protobuf)

  -- ProtoJSON.encodeMessage
  unfoldable pub encode_message : String → Bytes → Result Error (Bytes × String)
  unfolding encode_into
  encode_message name json = do
    md ←
        or_error (upstream_error_error ("message " <> name <> " is not resolvable"))
          (find_message name)
    encode_into name json md (field_count md)

  module _ {F : Type 0} where
    -- ProtoJSON.EncodeResponse
    unfoldable pub encode_response : Contract F → Bytes → Result Error (Bytes × String)
    encode_response c json = encode_message c.response_message json

    -- ProtoJSON.EncodeError
    unfoldable pub encode_error : Contract F → ℕ → Bytes → Result Error (Bytes × String)
    encode_error c status json = do
      name ←
          or_error (upstream_error_error ("no declared error message for status " <> itoa status))
            (error_message c (pos status))
      encode_message name json

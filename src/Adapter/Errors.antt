-- ===== src/Adapter/Errors.antt =====
-- The failures of the codec, internal/adapter/adapter.go.
use wavefront.Base.{ℕ, zero, suc, pos, String, ◌≡◌, refl, Option, none, some, Fails, Fails->>=}
use wavefront.Json.{Bytes}
use wavefront.Runtime.{Runtime}
use wavefront.Bundle.{Contract, error_message}
use wavefront.Wireerror.{Error, decode_failed, upstream_error}
use wavefront.Adapter.{
  or_error, decode_into, decode_request, encode_into, encode_message, encode_error,
}

abbrev pub IsDecodeFailed : Error → Type 0
IsDecodeFailed e = (e.code ≡ decode_failed) × (e.status ≡ 400)

abbrev pub IsUpstreamError : Error → Type 0
IsUpstreamError e = (e.code ≡ upstream_error) × (e.status ≡ 502)

pub Fails-or_error :
    {A : Type 0} (P : Error → Type 0) (e : Error) (m : Option A) → P e → Fails P (or_error e m)
Fails-or_error P e none h = h
Fails-or_error P e (some a) h = tt

module _ (rt : Runtime) where
  open rt use {descriptors, protobuf}
  open descriptors use {Message, find_message}
  open protobuf use {field_count, unmarshal, marshal, unmarshal_json, marshal_json}

  encode_into-Fails :
      (name : String) (json : Bytes) (md : Message) (n : ℕ)
      → Fails IsUpstreamError (encode_into rt name json md n)
  unfolding encode_into
  encode_into-Fails name json md zero = tt
  encode_into-Fails name json md (suc n) =
      Fails->>= IsUpstreamError (or_error _ (unmarshal_json md json)) _
        (Fails-or_error IsUpstreamError _ (unmarshal_json md json) (refl, refl))
        (λ msg.
          Fails->>= IsUpstreamError (or_error _ (marshal msg)) _
            (Fails-or_error IsUpstreamError _ (marshal msg) (refl, refl)) (λ _. tt))

  pub encode_message-Fails :
      (name : String) (json : Bytes) → Fails IsUpstreamError (encode_message rt name json)
  unfolding encode_message
  encode_message-Fails name json =
      Fails->>= IsUpstreamError (or_error _ (find_message name)) _
        (Fails-or_error IsUpstreamError _ (find_message name) (refl, refl))
        (λ md. encode_into-Fails name json md (field_count md))

  module _ {F : Type 0} where
    decode_into-Fails :
        (c : Contract F) (body : Bytes) (md : Message) (n : ℕ)
        → Fails IsDecodeFailed (decode_into rt c body md n)
    unfolding decode_into
    decode_into-Fails c body md zero = tt
    decode_into-Fails c body md (suc n) =
        Fails->>= IsDecodeFailed (or_error _ (unmarshal md body)) _
          (Fails-or_error IsDecodeFailed _ (unmarshal md body) (refl, refl))
          (λ msg.
            Fails->>= IsDecodeFailed (or_error _ (marshal_json msg)) _
              (Fails-or_error IsDecodeFailed _ (marshal_json msg) (refl, refl)) (λ _. tt))

    pub decode_request-Fails :
        (c : Contract F) (body : Bytes) → Fails IsDecodeFailed (decode_request rt c body)
    unfolding decode_request
    decode_request-Fails c body =
        Fails->>= IsDecodeFailed (or_error _ (find_message c.request_message)) _
          (Fails-or_error IsDecodeFailed _ (find_message c.request_message) (refl, refl))
          (λ md. decode_into-Fails c body md (field_count md))

    pub encode_error-Fails :
        (c : Contract F) (status : ℕ) (json : Bytes)
        → Fails IsUpstreamError (encode_error rt c status json)
    unfolding encode_error
    encode_error-Fails c status json =
        Fails->>= IsUpstreamError (or_error _ (error_message c (pos status))) _
          (Fails-or_error IsUpstreamError _ (error_message c (pos status)) (refl, refl))
          (λ name. encode_message-Fails name json)

-- ===== src/Server/Request.antt =====
-- internal/server/http.go: what the proxy reads and copies of HTTP headers.
pub mod Forwarded
use wavefront.Base.{
  ◌-◌, ℤ, pos, ◌==ℤ◌, String, Bool, false, not, ◌&&◌, ◌||◌, List, [], ◌∷◌, Option, none, some, ◌==◌,
  any,
}
use wavefront.Base.Text.{split, trim_space, has_prefix}
use wavefront.Base.Dict.{values}
use wavefront.Headers.{Header, get, copy_where}
use wavefront.Json.{Bytes}
use wavefront.Wireerror.{media_type_protobuf}

-- What reading the body through http.MaxBytesReader gives.
pub data BodyRead : Type 0 where
  over_limit broken : BodyRead
  complete : Bytes → BodyRead

-- An inbound request; `read_body` reads its body under a limit.
pub record Request : Type 0 where
  pub method : String
  pub path : String
  pub raw_query : String
  pub header : Header
  pub content_length : ℤ
  pub transfer_encoding : List String
  pub read_body : ℤ → BodyRead

abbrev pub hop_by_hop : List String
hop_by_hop =
    "Connection" ∷ "Keep-Alive" ∷ "Proxy-Authenticate" ∷ "Proxy-Authorization" ∷ "Te" ∷ "Trailer"
    ∷ "Transfer-Encoding" ∷ "Upgrade" ∷ "Host" ∷ "Content-Length" ∷ "Content-Type" ∷ []

abbrev pub is_hop_by_hop : String → Bool
is_hop_by_hop k = any (λ h. h == k) hop_by_hop

module _ (canonical_key : String → String) where
  -- A token of the Connection header names a header to be skipped.
  abbrev pub names : String → String → Bool
  names k token =
      not (canonical_key (trim_space token) == "") && (canonical_key (trim_space token) == k)

  -- skip[k]
  unfoldable pub is_skipped : Header → String → Bool
  is_skipped src k = any (λ c. any (names k) (split b',' c)) (values ◌==◌ "Connection" src)

  abbrev pub is_forwarded : Header → String → Bool
  is_forwarded src k = not (is_hop_by_hop k || is_skipped src k)

  -- forwardClientHeaders
  unfoldable pub forward_client_headers : Header → Header → Header
  forward_client_headers dst src = copy_where (is_forwarded src) src dst

-- hasRequestBody
unfoldable pub has_request_body : Request → Bool
has_request_body r =
    not (r.content_length ==ℤ pos 0)
    || any (λ te. not (te == "identity") && not (te == "")) r.transfer_encoding

abbrev pub names_protobuf : (String → String → Bool) → Option String → Bool
names_protobuf equal_fold none = false
names_protobuf equal_fold (some media_type) = equal_fold media_type media_type_protobuf

-- isProtobufContentType
unfoldable pub is_protobuf_content_type :
    (String → Option String) → (String → String → Bool) → String → Bool
is_protobuf_content_type parse_media_type equal_fold v =
    not (v == "") && names_protobuf equal_fold (parse_media_type v)

-- isCORSPreflight
unfoldable pub is_cors_preflight : Request → Bool
is_cors_preflight r =
    r.method == "OPTIONS"
    && not (get "Origin" r.header == "")
    && not (get "Access-Control-Request-Method" r.header == "")

abbrev pub is_cors_key : String → Bool
is_cors_key k = k == "Vary" || has_prefix k "Access-Control-"

-- copyCORSHeaders
unfoldable pub copy_cors_headers : Header → Header → Header
copy_cors_headers dst src = copy_where is_cors_key src dst

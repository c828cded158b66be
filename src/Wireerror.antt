-- ===== src/Wireerror.antt =====
-- internal/wireerror/wireerror.go: the typed failures that wavefront originates. The codes are a
-- data type; `code_name` has their texts on the wire.
pub mod Write
use wavefront.Base.{ℕ, String, Bool, ◌||◌, ◌&&◌, if◌then◌else◌, ◌==◌, leb, eqb, ◌<>◌}

pub data Code : Type 0 where
  unsupported_contract_version decode_failed request_body_too_large upstream_timeout : Code
  upstream_error transform_failed internal_error unknown_route upstream_status : Code
  unsupported_media_type unavailable : Code

unfoldable pub code_name : Code → String
code_name unsupported_contract_version = "unsupported_contract_version"
code_name decode_failed = "decode_failed"
code_name request_body_too_large = "request_body_too_large"
code_name upstream_timeout = "upstream_timeout"
code_name upstream_error = "upstream_error"
code_name transform_failed = "transform_failed"
code_name internal_error = "internal_error"
code_name unknown_route = "unknown_route"
code_name upstream_status = "upstream_status"
code_name unsupported_media_type = "unsupported_media_type"
code_name unavailable = "unavailable"

abbrev pub media_type_protobuf : String
media_type_protobuf = "application/protobuf"

pub record Error : Type 0 where
  pub code : Code
  pub message : String
  pub status : ℕ
  pub retry_after : String

-- An empty value changes nothing.
unfoldable pub with_retry_after : Error → String → Error
with_retry_after e v = if v == "" then e else record e { retry_after = v }

unfoldable pub msg_or : String → String → String
msg_or msg def = if msg == "" then def else msg

abbrev make : Code → ℕ → String → String → Error
make code status msg def = record {
  code = code;
  message = msg_or msg def;
  status = status;
  retry_after = "";
}

abbrev pub unsupported_contract_version_error : String → Error
unsupported_contract_version_error msg =
    make unsupported_contract_version 400 msg "unknown or missing contract version"

abbrev pub decode_failed_error : String → Error
decode_failed_error msg = make decode_failed 400 msg "request body failed to decode"

abbrev pub request_body_too_large_error : String → Error
request_body_too_large_error msg =
    make request_body_too_large 413 msg "request body exceeds the configured limit"

abbrev pub upstream_timeout_error : String → Error
upstream_timeout_error msg = make upstream_timeout 504 msg "upstream timed out"

abbrev pub upstream_error_error : String → Error
upstream_error_error msg = make upstream_error 502 msg "upstream error"

abbrev pub transform_failed_request : String → Error
transform_failed_request msg =
    make transform_failed 422 msg "request could not be transformed to the internal contract"

abbrev pub transform_failed_response : String → Error
transform_failed_response msg =
    make transform_failed 502 msg
      "upstream response could not be transformed to the client contract"

abbrev pub internal_error_error : String → Error
internal_error_error msg = make internal_error 500 msg "internal server error"

abbrev pub unknown_route_error : String → Error
unknown_route_error msg =
    make unknown_route 404 msg "no contract binds this request's path and method"

abbrev pub unsupported_media_type_error : String → Error
unsupported_media_type_error msg =
    make unsupported_media_type 415 msg "request Content-Type is not application/protobuf"

abbrev pub unavailable_error : String → Error
unavailable_error msg = make unavailable 503 msg "service unavailable"

-- 206, 207, 208, 226 and every 3xx
unfoldable pub is_capability_ceiling : ℕ → Bool
is_capability_ceiling status =
    eqb status 206
    || eqb status 207
    || eqb status 208
    || eqb status 226
    || (leb 300 status && leb status 399)

-- `status_text` is net/http's table of reason phrases.
abbrev pub upstream_status_error : (ℕ → String) → ℕ → String → Error
upstream_status_error status_text status msg =
    make upstream_status status msg ("upstream returned " <> status_text status)

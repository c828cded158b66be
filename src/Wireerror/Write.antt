-- ===== src/Wireerror/Write.antt =====
-- internal/wireerror: the response that a failure becomes.
pub mod Shown
use wavefront.Base.{ℕ, ◌-◌, String, Bool, true, false, List, [], ◌∷◌, if◌then◌else◌, ◌==◌}
use wavefront.Json.{Bytes}
use wavefront.Headers.{Header, set}
use wavefront.Wireerror.{Error, Code, code_name, media_type_protobuf, upstream_timeout}

pub record Response : Type 0 where
  pub status : ℕ
  pub header : Header
  pub body : Bytes

abbrev pub version_unknown : String
version_unknown = "unknown"

abbrev is_timeout : Code → Bool
is_timeout upstream_timeout = true
is_timeout _ = false

retry_header : Bool → String → Header → Header
retry_header true retry_after h = set "Retry-After" "0" h
retry_header false retry_after h = if retry_after == "" then h else set "Retry-After" retry_after h

-- Error.Headers
unfoldable pub headers : Error → Header
unfolding retry_header
headers e =
    retry_header (is_timeout e.code) e.retry_after (set "Content-Type" media_type_protobuf [])

-- The inner loop: w.Header().Set(k, v) for every value.
set_each : String → List String → Header → Header
set_each k [] w = w
set_each k (v ∷ vs) w = set_each k vs (set k v w)

set_all : Header → Header → Header
unfolding set_each
set_all [] w = w
set_all ((k, vs) ∷ h) w = set_all h (set_each k vs w)

-- `marshal_strings` encodes a message of two text fields; the texts are valid UTF-8 here.
module _ (marshal_strings : String → String → Bytes) where
  unfoldable pub marshal_error : Code → String → Bytes
  marshal_error code message = marshal_strings (code_name code) message

  -- Error.ProtoBody
  unfoldable pub proto_body : Error → Bytes
  proto_body e = marshal_error e.code e.message

  -- Write, on a response whose header is `w` so far.
  unfoldable pub write : Header → Error → String → Response
  unfolding set_all
  write w werr contract_version =
      let version = if contract_version == "" then version_unknown else contract_version in
      record {
        status = werr.status;
        header =
            set "X-Wavefront-Contract-Version" version
              (set "X-Wavefront-Error" (code_name werr.code) (set_all (headers werr) w));
        body = proto_body werr;
      }

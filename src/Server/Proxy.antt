-- ===== src/Server/Proxy.antt =====
-- internal/server/http.go: the request handler, up to the call of the upstream.
use wavefront.Base.{
  ℕ, ℤ, pos, negsuc, String, ◌<>◌, Bool, true, false, not, ◌&&◌, ◌||◌, List, [], ◌∷◌, Option, none,
  some, Result, ok, err, ◌>>=◌, ◌>>◌, if◌then◌else◌, ◌==◌, ltb, fail_if,
}
use wavefront.Base.Text.{trim_space, trim_end}
use wavefront.Base.Dict.{lookup}
use wavefront.Headers.{Header, get, set}
use wavefront.Json.{Bytes}
use wavefront.Runtime.{Runtime}
use wavefront.Adapter.{UpstreamCall, or_error}
use wavefront.Bundle.{Bundle, Contract, Resolved, Selectors, lookup_route}
use wavefront.Negotiate.{resolve}
use wavefront.Transform.Apply.{apply_request}
use wavefront.Wireerror.{
  Error, with_retry_after, unavailable_error, unknown_route_error, unsupported_media_type_error,
  request_body_too_large_error, decode_failed_error, upstream_error_error, media_type_protobuf,
}
use wavefront.Wireerror.Write.{version_unknown}
use wavefront.Server.Request.{
  Request, BodyRead, over_limit, broken, complete, has_request_body, is_protobuf_content_type,
  forward_client_headers,
}

pub record Config : Type 0 where
  pub contract_version_header : String
  pub profile_header : String
  pub tenant_header : String
  pub cohort_header : String
  pub max_body_bytes : ℤ
  pub upstream_base_url : String
  pub targets : List (String × String)

-- Config.TargetURL of internal/config/config.go
unfoldable pub target_url : Config → String → Option String
target_url cfg name =
    if name == "" then some cfg.upstream_base_url else lookup ◌==◌ name cfg.targets

pub record UpstreamRequest : Type 0 where
  pub method : String
  pub url : String
  pub header : Header
  pub body : Bytes

-- The variables of the handler that its deferred function and `fail` read, the header of the
-- response so far and the calls of the upstream.
pub record Session : Type 0 where
  pub version : String
  pub response_version : String
  pub route : String
  pub target : String
  pub resolution_kind : String
  pub upstream_status : ℕ
  pub header : Header
  pub calls : List UpstreamRequest

-- A call of `fail`: the error, the transform outcome, and the variables at that moment.
pub record Failed : Type 0 where
  pub session : Session
  pub error : Error
  pub transform_outcome : String

-- `if werr != nil { fail(werr, tout); return }`
abbrev pub catch {ℓ} : {A : Type ℓ} → Session → String → Result Error A → Result Failed A
catch s tout (ok a) = ok a
catch s tout (err e) = err (record { session = s; error = e; transform_outcome = tout })

abbrev pub positive : ℤ → Bool
positive (pos n) = ltb 0 n
positive (negsuc n) = false

abbrev pub exceeds : ℤ → ℤ → Bool
exceeds (pos m) (pos n) = ltb n m
exceeds (pos m) (negsuc n) = true
exceeds (negsuc m) (pos n) = false
exceeds (negsuc m) (negsuc n) = ltb m n

-- strings.TrimRight(base, "/") + path, with the query as it came
abbrev pub upstream_url : String → String → String → String
upstream_url base path raw_query =
    (trim_end b'/' base <> path) <> (if raw_query == "" then "" else "?" <> raw_query)

abbrev pub or_unknown : String → String
or_unknown v = if v == "" then version_unknown else v

abbrev pub body_or_error : BodyRead → Result Error Bytes
body_or_error over_limit = err (request_body_too_large_error "")
body_or_error broken = err (decode_failed_error "could not read request body")
body_or_error (complete body) = ok body

abbrev is_empty {ℓ} : {A : Type ℓ} → List A → Bool
is_empty [] = true
is_empty (x ∷ xs) = false

-- describeResolution
unfoldable pub describe_resolution : {F : Type 0} → Contract F → String
describe_resolution c =
    if not (is_empty c.request_ops)
      || not (is_empty c.response_ops)
      || not (c.transform_target == "")
    then "transform"
    else "route"

-- The last contract of a chain. A resolved chain is not empty and starts with its contract.
unfoldable pub terminal : {F : Type 0} → Contract F → List (Contract F) → Contract F
terminal c [] = c
terminal c (link ∷ rest) = terminal link rest

module _ (rt : Runtime) (cfg : Config) where
  open rt use {canonical_key, parse_media_type, equal_fold, can_request, codec}
  open codec use {Float}

  abbrev pub header_of : String → Request → String
  header_of name r = get (canonical_key name) r.header

  -- The variables before the first check.
  unfoldable pub start : Request → Session
  start r = record {
    version = version_unknown;
    response_version = or_unknown (header_of cfg.contract_version_header r);
    route = "";
    target = "";
    resolution_kind = "";
    upstream_status = 0;
    header = [];
    calls = [];
  }

  unfoldable pub loaded : Option (Bundle Float) → Result Error (Bundle Float)
  loaded none = err (with_retry_after (unavailable_error "bundle not loaded") "1")
  loaded (some b) = ok b

  abbrev pub is_bound : Option (Resolved Float) → Bool
  is_bound none = false
  is_bound (some c) = true

  -- The gates in front of the negotiation: the bundle and the body of the request.
  unfoldable pub admit : Option (Bundle Float) → Request → Result Error (Bundle Float × Bytes)
  unfolding loaded
  admit bundle r = do
    b ← loaded bundle
    fail_if (not (is_bound (lookup_route b r.path r.method)))
        (unknown_route_error ("no contract binds " <> r.method <> " " <> r.path))
    fail_if
        (has_request_body r
          && not
              (is_protobuf_content_type parse_media_type equal_fold (get "Content-Type" r.header)))
        (unsupported_media_type_error ("request Content-Type is not " <> media_type_protobuf))
    fail_if (positive r.content_length && exceeds r.content_length cfg.max_body_bytes)
        (request_body_too_large_error "")
    body ← body_or_error (r.read_body cfg.max_body_bytes)
    ok (b, body)

  abbrev request_selectors : Request → Selectors
  request_selectors r = record {
    profile = trim_space (header_of cfg.profile_header r);
    tenant = trim_space (header_of cfg.tenant_header r);
    cohort = trim_space (header_of cfg.cohort_header r);
  }

  -- negotiate.Resolve on the headers of the request.
  unfoldable pub negotiated : Bundle Float → Request → Result Error (Resolved Float)
  negotiated b r =
      resolve b r.path r.method (header_of cfg.contract_version_header r) (request_selectors r)

  -- The variables once a contract is resolved.
  unfoldable pub resolved_session : Contract Float → Session → Session
  resolved_session c s = record s {
    version = c.contract_version;
    response_version = c.contract_version;
    route = c.route;
    resolution_kind = describe_resolution c;
  }

  -- The loop over the chain with the request transforms.
  unfoldable pub forward_through : List (Contract Float) → Bytes → Result Error Bytes
  forward_through [] body = ok body
  forward_through (link ∷ chain) body = do
    body' ← apply_request codec link.request_ops body
    forward_through chain body'

  abbrev set_content_type : String → Header → Header
  set_content_type content_type h =
      if content_type == "" then h else set "Content-Type" content_type h

  -- The upstream request, if the base URL of the target is known and the request can be built.
  unfoldable pub upstream_request :
      Request → Contract Float → UpstreamCall → Bytes → Result Error UpstreamRequest
  upstream_request r last call body = do
    base ←
        or_error (upstream_error_error ("unknown backend target " <> last.target))
          (target_url cfg last.target)
    fail_if (not (can_request call.method (upstream_url base call.path r.raw_query)))
        (upstream_error_error "could not build upstream request")
    ok (record {
      method = call.method;
      url = upstream_url base call.path r.raw_query;
      header =
          set_content_type call.content_type (forward_client_headers canonical_key [] r.header);
      body = body;
    })

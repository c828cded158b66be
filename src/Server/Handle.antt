-- ===== src/Server/Handle.antt =====
-- internal/server/http.go: the whole handler, and what it leaves behind.
pub mod Calls
mod Gates
mod Envelope
pub mod Protocol
pub mod Failures
pub mod Marked
use wavefront.Base.{
  ℕ, String, not, List, [], ◌∷◌, Option, Result, ok, err, ◌>>=◌, ◌>>◌, if◌then◌else◌, ◌==◌,
}
use wavefront.Headers.{Header, get, set}
use wavefront.Json.{Bytes}
use wavefront.Runtime.{Runtime}
use wavefront.Adapter.{UpstreamCall, decode_request}
use wavefront.Bundle.{Bundle, Resolved}
use wavefront.Wireerror.{
  Code, code_name, transform_failed, upstream_error_error, upstream_timeout_error,
}
use wavefront.Wireerror.Write.{Response, write}
use wavefront.Server.Request.{Request, is_cors_preflight, forward_client_headers, copy_cors_headers}
use wavefront.Server.Proxy.{
  Config, UpstreamRequest, Session, Failed, catch, upstream_url, start, admit, negotiated,
  resolved_session, forward_through, terminal, upstream_request,
}
use wavefront.Server.Respond.{status_case, Reply, respond}

-- The outcome of `s.client.Do` and of reading the body of the answer; a body that cannot be read
-- to its end has the part that was.
pub data Outcome : Type 0 where
  timed_out unreachable : Outcome
  unreadable answered : ℕ → Header → Bytes → Outcome

pub data Level : Type 0 where
  info warn error_level : Level

pub record LogLine : Type 0 where
  pub level : Level
  pub contract_version : String
  pub route : String
  pub target : String
  pub resolution_kind : String
  pub upstream_status : ℕ
  pub outcome : String

-- What one request leaves behind: the response, the calls of the upstream, the labels of the
-- increments of the request counter and of the error counter, the log lines and the transform
-- outcome of the span.
pub record Exchange : Type 0 where
  pub response : Response
  pub calls : List UpstreamRequest
  pub requests : List String
  pub errors : List (String × String × String)
  pub log : List LogLine
  pub transform_outcome : String

abbrev level_of : Code → Level
level_of transform_failed = error_level
level_of _ = warn

abbrev log_line : Session → Level → String → LogLine
log_line s level outcome = record {
  level = level;
  contract_version = s.version;
  route = s.route;
  target = s.target;
  resolution_kind = s.resolution_kind;
  upstream_status = s.upstream_status;
  outcome = outcome;
}

-- The response, the deferred function and, on a failure, writeError.
unfoldable pub conclude : (String → String → Bytes) → Result Failed Reply → Exchange
conclude marshal_strings (ok reply) = record {
  response = record { status = reply.status; header = reply.session.header; body = reply.body };
  calls = reply.session.calls;
  requests = reply.session.version ∷ [];
  errors = [];
  log = log_line reply.session info "ok" ∷ [];
  transform_outcome = "";
}
conclude marshal_strings (err failed) = record {
  response =
      write marshal_strings failed.session.header failed.error failed.session.response_version;
  calls = failed.session.calls;
  requests = failed.session.version ∷ [];
  errors = (code_name failed.error.code, failed.session.version, failed.transform_outcome) ∷ [];
  log = log_line failed.session (level_of failed.error.code) (code_name failed.error.code) ∷ [];
  transform_outcome = failed.transform_outcome;
}

module _ (rt : Runtime) (cfg : Config) where
  open rt use {canonical_key, can_request, codec, marshal_strings, http_error}
  open codec use {Float}

  abbrev answered_session : Session → ℕ → Session
  answered_session s status = record s { upstream_status = status }

  -- Behind the call of the upstream.
  unfoldable pub on_outcome : Session → Resolved Float → Outcome → Result Failed Reply
  on_outcome s c timed_out = catch s "" (err (upstream_timeout_error ""))
  on_outcome s c unreachable = catch s "" (err (upstream_error_error "upstream unreachable"))
  on_outcome s c (unreadable status header body) =
      catch (answered_session s status) ""
        (err (upstream_error_error "could not read upstream response"))
  on_outcome s c (answered status header body) =
      respond rt (record s { upstream_status = status; header = copy_cors_headers s.header header })
        c status header body (status_case c.contract status)

  -- From the decoded call to the call of the upstream; `s` is the session of the contract.
  unfoldable pub call_upstream :
      (UpstreamRequest → Outcome)
      → Request
      → Session
      → Resolved Float
      → UpstreamCall
      → Result Failed Reply
  call_upstream upstream r s c call = do
    body ← catch s "request" (forward_through rt cfg c.chain call.body)
    (let last = terminal c.contract c.chain in
        let t = record s { target = last.target } in
        catch t "" (upstream_request rt cfg r last call body) >>= λ ureq.
        on_outcome (record t { calls = ureq ∷ [] }) c (upstream ureq))

  -- From the resolved contract on.
  unfoldable pub serve :
      (UpstreamRequest → Outcome) → Request → Session → Resolved Float → Bytes → Result Failed Reply
  serve upstream r s c body = do
    call ← catch s "" (decode_request rt c.contract body)
    call_upstream upstream r s c call

  -- The handler of a request that is no preflight, in front of its deferred function.
  unfoldable pub handle :
      Option (Bundle Float) → (UpstreamRequest → Outcome) → Request → Result Failed Reply
  handle bundle upstream r = do
    admitted ← catch (start rt cfg r) "" (admit rt cfg bundle r)
    c ← catch (start rt cfg r) "" (negotiated rt cfg admitted.0 r)
    serve upstream r (resolved_session rt cfg c.contract (start rt cfg r)) c admitted.1

  abbrev silent : Response → List UpstreamRequest → Exchange
  silent response calls = record {
    response = response;
    calls = calls;
    requests = [];
    errors = [];
    log = [];
    transform_outcome = "";
  }

  abbrev set_allow : String → Header → Header
  set_allow allow h = if allow == "" then h else set "Allow" allow h

  abbrev relayed_answer : ℕ → Header → Bytes → Response
  relayed_answer status header body = record {
    status = status;
    header = set_allow (get "Allow" header) (copy_cors_headers [] header);
    body = body;
  }

  abbrev preflight_response : Outcome → Response
  preflight_response timed_out = http_error [] "preflight upstream unreachable" 502
  preflight_response unreachable = http_error [] "preflight upstream unreachable" 502
  preflight_response (unreadable status header body) = relayed_answer status header body
  preflight_response (answered status header body) = relayed_answer status header body

  abbrev preflight_request : Request → UpstreamRequest
  preflight_request r = record {
    method = "OPTIONS";
    url = upstream_url cfg.upstream_base_url r.path r.raw_query;
    header = forward_client_headers canonical_key [] r.header;
    body = [];
  }

  -- proxyPreflight
  unfoldable pub proxy_preflight : (UpstreamRequest → Outcome) → Request → Exchange
  proxy_preflight upstream r =
      let ureq = preflight_request r in
      if can_request ureq.method ureq.url
      then silent (preflight_response (upstream ureq)) (ureq ∷ [])
      else silent (http_error [] "preflight request build failed" 502) []

  -- Server.proxy
  unfoldable pub proxy : Option (Bundle Float) → (UpstreamRequest → Outcome) → Request → Exchange
  proxy bundle upstream r =
      if is_cors_preflight r
      then proxy_preflight upstream r
      else conclude marshal_strings (handle bundle upstream r)

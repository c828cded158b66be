-- ===== src/Server/Respond.antt =====
-- internal/server/http.go: how the upstream's answer becomes the response.
pub mod Dispatch
pub mod Order
use wavefront.Base.{
  ℕ, ◌-◌, ◌<◌, pos, String, ◌<>◌, Bool, true, false, ◌&&◌, ◌||◌, List, [], ◌∷◌, Option, none, some,
  Result, ok, err, ◌>>=◌, ◌>>◌, if◌then◌else◌, ◌==◌, leb, eqb,
}
use wavefront.Headers.{Header, get, set}
use wavefront.Json.{Bytes}
use wavefront.Runtime.{Runtime}
use wavefront.Adapter.{encode_response, encode_error}
use wavefront.Bundle.{Contract, Resolved, error_message, error_response_ops}
use wavefront.Transform.Apply.{Op, apply_response}
use wavefront.Wireerror.{
  Error, with_retry_after, upstream_error_error, upstream_status_error, media_type_protobuf,
  is_capability_ceiling,
}
use wavefront.Server.Proxy.{Session, Failed, catch}

-- The cases of the switch on the upstream's status.
pub data StatusCase : Type 0 where
  success no_body ceiling declared undeclared_strict aid : StatusCase

abbrev pub is_declared : Option String → Bool
is_declared none = false
is_declared (some name) = true

unfoldable pub status_case : {F : Type 0} → Contract F → ℕ → StatusCase
status_case c status =
    if leb 200 status && leb status 203
    then success
    else if eqb status 204 || eqb status 205
    then no_body
    else if is_capability_ceiling status
    then ceiling
    else if is_declared (error_message c (pos status))
    then declared
    else if c.strict
    then undeclared_strict
    else aid

-- A response that is no failure of wavefront's.
pub record Reply : Type 0 where
  pub session : Session
  pub status : ℕ
  pub body : Bytes

module _ (rt : Runtime) where
  open rt use {codec, status_text, itoa, text_of}
  open codec use {Float}

  -- A loop `for i := len(chain) - 1; i >= 0; i--` with response transforms.
  unfoldable pub back_through :
      (Contract Float → List (Op Float)) → List (Contract Float) → Bytes → Result Error Bytes
  back_through ops [] body = ok body
  back_through ops (link ∷ chain) body = do
    body' ← back_through ops chain body
    apply_response codec (ops link) body'

  abbrev pub with_type : String → String
  with_type content_type = if content_type == "" then media_type_protobuf else content_type

  abbrev reply : Session → ℕ → Bytes × String → Reply
  reply s status encoded = record {
    session = record s {
      header = set "X-Wavefront-Contract-Version" s.version (set "Content-Type" encoded.1 s.header);
    };
    status = status;
    body = encoded.0;
  }

  -- werr.WithRetryAfter(uresp.Header.Get("Retry-After")) on 429
  abbrev pub relayed : ℕ → Header → Error → Error
  relayed status upstream_header e =
      if eqb status 429 then with_retry_after e (get "Retry-After" upstream_header) else e

  -- The response to an answer with this status, header and body.
  unfoldable pub respond :
      Session → Resolved Float → ℕ → Header → Bytes → StatusCase → Result Failed Reply
  respond s c status upstream_header body success = do
    body' ← catch s "response" (back_through (λ link. link.response_ops) c.chain body)
    encoded ← catch s "" (encode_response rt c.contract body')
    ok (reply s status encoded)
  respond s c status upstream_header body no_body = ok (record {
    session = record s { header = set "X-Wavefront-Contract-Version" s.version s.header };
    status = status;
    body = [];
  })
  respond s c status upstream_header body ceiling =
      catch s ""
        (err (upstream_error_error ("upstream returned unsupported status " <> itoa status)))
  respond s c status upstream_header body declared = do
    body' ←
        catch s "response"
          (back_through (λ link. error_response_ops link (pos status)) c.chain body)
    encoded ← catch s "" (encode_error rt c.contract status body')
    ok (reply s status (encoded.0, with_type encoded.1))
  respond s c status upstream_header body undeclared_strict = catch s "" (
      err (
        upstream_error_error
          ("upstream returned undeclared status " <> itoa status <> " (strict)")))
  respond s c status upstream_header body aid = catch s "" (
      err
        (relayed status upstream_header (upstream_status_error status_text status (text_of body))))

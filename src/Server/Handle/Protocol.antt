-- ===== src/Server/Handle/Protocol.antt =====
-- What the protocol says of a failure, and the phases that keep it, internal/server/http.go.
use wavefront.Base.{
  ℕ, String, ◌<>◌, ◌≡◌, ◌≢◌, ◌⊎◌, refl, sym, true, false, not, ◌&&◌, List, [], ◌∷◌, Option, none,
  some, Result, ok, err, ◌>>=◌, leb, arith, Fails, Fails->>=, Fails-fail_if, Fails-intro, subst,
  inl, inr,
}
use wavefront.Headers.{get}
use wavefront.Json.{Bytes}
use wavefront.Runtime.{Runtime}
use wavefront.Bundle.{lookup_route, Bundle, Contract}
use wavefront.Negotiate.{resolve}
use wavefront.Negotiate.Binds.{resolve-refusal}
use wavefront.Transform.Apply.{Op, apply, apply_request, apply_response}
use wavefront.Transform.Apply.Errors.{apply-error}
use wavefront.Wireerror.{
  Error, Code, unsupported_contract_version, decode_failed, request_body_too_large,
  upstream_timeout, upstream_error, transform_failed, internal_error, unknown_route,
  upstream_status, unsupported_media_type, unavailable, is_capability_ceiling, with_retry_after,
  unknown_route_error, unsupported_media_type_error, media_type_protobuf,
  request_body_too_large_error,
}
use wavefront.Server.Request.{
  has_request_body, is_protobuf_content_type, Request, BodyRead, over_limit, broken, complete,
}
use wavefront.Server.Proxy.{
  positive, exceeds, is_bound, Config, UpstreamRequest, Session, Failed, catch, start, loaded,
  body_or_error, admit, negotiated, forward_through,
}
use wavefront.Server.Respond.{aid, Reply, status_case, back_through}

-- A status that the aid envelope relays: the upstream's, no success and no capability ceiling.
abbrev pub IsRelayed : ℕ → ℕ → Type 0
IsRelayed upstream status =
    (status ≡ upstream)
    × ((leb 200 status && leb status 205) ≡ false)
    × (is_capability_ceiling status ≡ false)

-- What the protocol says of a failure: the status of its code, and where it can arise. The
-- arguments are the status, the transform outcome, the upstream's status and the calls.
abbrev pub Protocol : Code → ℕ → String → ℕ → List UpstreamRequest → Type 0
Protocol unsupported_contract_version status tout upstream calls =
    (status ≡ 400) × (tout ≡ "") × (calls ≡ [])
Protocol decode_failed status tout upstream calls = (status ≡ 400) × (tout ≡ "") × (calls ≡ [])
Protocol request_body_too_large status tout upstream calls =
    (status ≡ 413) × (tout ≡ "") × (calls ≡ [])
Protocol upstream_timeout status tout upstream calls = (status ≡ 504) × (tout ≡ "") × (calls ≢ [])
Protocol upstream_error status tout upstream calls = (status ≡ 502) × (tout ≡ "")
Protocol transform_failed status tout upstream calls =
    ((status ≡ 422) × (tout ≡ "request") × (calls ≡ []))
    ⊎ ((status ≡ 502) × (tout ≡ "response") × (calls ≢ []))
Protocol internal_error status tout upstream calls = ⊥
Protocol unknown_route status tout upstream calls = (status ≡ 404) × (tout ≡ "") × (calls ≡ [])
Protocol upstream_status status tout upstream calls =
    IsRelayed upstream status × (tout ≡ "") × (calls ≢ [])
Protocol unsupported_media_type status tout upstream calls =
    (status ≡ 415) × (tout ≡ "") × (calls ≡ [])
Protocol unavailable status tout upstream calls = (status ≡ 503) × (tout ≡ "") × (calls ≡ [])

abbrev pub Fits : Session → String → Error → Type 0
Fits s tout e = Protocol e.code e.status tout s.upstream_status s.calls

abbrev pub IsProtocol : Failed → Type 0
IsProtocol failed = Fits failed.session failed.transform_outcome failed.error

pub Fails-catch :
    {A : Type 0} (s : Session) (tout : String) (m : Result Error A) (f : A → Result Failed Reply)
    → Fails (Fits s tout) m
    → ((a : A) → Fails IsProtocol (f a))
    → Fails IsProtocol (catch s tout m >>= f)
Fails-catch s tout (ok a) f h k = k a
Fails-catch s tout (err e) f h k = h

pub status_case-aid :
    {F : Type 0} (c : Contract F) (status : ℕ)
    → status_case c status ≡ aid
    → IsRelayed status status
unfolding status_case
status_case-aid c status e = (refl, ground arith, ground arith)

module _ (rt : Runtime) (cfg : Config) where
  open rt use {codec}
  open codec use {Float}

  body_or_error-Fails :
      (r : Request) (read : BodyRead) → Fails (Fits (start rt cfg r) "") (body_or_error read)
  unfolding start
  body_or_error-Fails r over_limit = (refl, refl, refl)
  body_or_error-Fails r broken = (refl, refl, refl)
  body_or_error-Fails r (complete body) = tt

  pub admit-Fails :
      (bundle : Option (Bundle Float)) (r : Request)
      → Fails (Fits (start rt cfg r) "") (admit rt cfg bundle r)
  unfolding admit loaded start with_retry_after
  admit-Fails none r = (refl, refl, refl)
  admit-Fails (some b) r =
      let P : Error → Type 0 = Fits (start rt cfg r) "" in
      Fails-fail_if P (not (is_bound rt cfg (lookup_route b r.path r.method)))
        (unknown_route_error ("no contract binds " <> r.method <> " " <> r.path)) _
        (refl, refl, refl)
        (λ _.
          Fails-fail_if P
            (has_request_body r
              && not (
                  is_protobuf_content_type rt.parse_media_type rt.equal_fold
                    (get "Content-Type" r.header)))
            (unsupported_media_type_error ("request Content-Type is not " <> media_type_protobuf)) _
            (refl, refl, refl)
            (λ _.
              Fails-fail_if P
                (positive r.content_length && exceeds r.content_length cfg.max_body_bytes)
                (request_body_too_large_error "") _ (refl, refl, refl)
                (λ _.
                  Fails->>= P (body_or_error (r.read_body cfg.max_body_bytes)) _
                    (body_or_error-Fails r (r.read_body cfg.max_body_bytes)) (λ _. tt))))

  pub negotiated-Fails :
      (s : Session) (b : Bundle Float) (r : Request)
      → s.calls ≡ []
      → Fails (Fits s "") (negotiated rt cfg b r)
  unfolding negotiated
  negotiated-Fails s b r h = Fails-intro (Fits s "") (resolve b r.path r.method _ _) (λ e k.
      let (c, t) = resolve-refusal b r.path r.method _ _ e k in
      subst (λ code. Protocol code e.status "" s.upstream_status s.calls) (sym c) (t, refl, h))

  apply_request-Fails :
      (s : Session) (ops : List (Op Float)) (body : Bytes)
      → s.calls ≡ []
      → Fails (Fits s "request") (apply_request codec ops body)
  unfolding apply_request
  apply_request-Fails s ops body h =
      Fails-intro (Fits s "request") (apply codec ops body true) (λ e k.
        let (c, t) = apply-error codec ops body true e k in
        subst (λ code. Protocol code e.status "request" s.upstream_status s.calls) (sym c)
          (inl (t, refl, h)))

  apply_response-Fails :
      (s : Session) (ops : List (Op Float)) (body : Bytes)
      → s.calls ≢ []
      → Fails (Fits s "response") (apply_response codec ops body)
  unfolding apply_response
  apply_response-Fails s ops body h =
      Fails-intro (Fits s "response") (apply codec ops body false) (λ e k.
        let (c, t) = apply-error codec ops body false e k in
        subst (λ code. Protocol code e.status "response" s.upstream_status s.calls) (sym c)
          (inr (t, refl, h)))

  pub forward_through-Fails :
      (s : Session) (chain : List (Contract Float)) (body : Bytes)
      → s.calls ≡ []
      → Fails (Fits s "request") (forward_through rt cfg chain body)
  unfolding forward_through
  forward_through-Fails s [] body h = tt
  forward_through-Fails s (link ∷ chain) body h =
      Fails->>= (Fits s "request") (apply_request codec link.request_ops body) _
        (apply_request-Fails s link.request_ops body h)
        (λ body'. forward_through-Fails s chain body' h)

  pub back_through-Fails :
      (s : Session) (ops : Contract Float → List (Op Float)) (chain : List (Contract Float))
      (body : Bytes)
      → s.calls ≢ []
      → Fails (Fits s "response") (back_through rt ops chain body)
  unfolding back_through
  back_through-Fails s ops [] body h = tt
  back_through-Fails s ops (link ∷ chain) body h =
      Fails->>= (Fits s "response") (back_through rt ops chain body) _
        (back_through-Fails s ops chain body h) (λ body'. apply_response-Fails s (ops link) body' h)

-- ===== src/Server/Handle/Failures.antt =====
-- The failures that the handler ends in, internal/server/http.go.
use wavefront.Base.{
  ℕ, pos, String, ◌<>◌, ◌≡◌, ◌≢◌, refl, sym, not, [], Option, Result, ok, err, ◌==◌, eqb, Fails,
  Fails->>=, Fails-fail_if, subst, Fails_elim, inl, inr, Bool-cases,
}
use wavefront.Headers.{Header, get}
use wavefront.Json.{Bytes}
use wavefront.Runtime.{Runtime}
use wavefront.Adapter.{UpstreamCall, or_error, decode_request, encode_response, encode_error}
use wavefront.Adapter.Errors.{
  IsDecodeFailed, IsUpstreamError, Fails-or_error, decode_request-Fails, encode_message-Fails,
  encode_error-Fails,
}
use wavefront.Bundle.{Bundle, Contract, Resolved, error_response_ops}
use wavefront.Wireerror.{Error, with_retry_after, upstream_status_error, upstream_error_error}
use wavefront.Server.Request.{Request}
use wavefront.Server.Proxy.{
  upstream_url, target_url, Config, UpstreamRequest, Session, Failed, start, admit, negotiated,
  resolved_session, forward_through, terminal, upstream_request,
}
use wavefront.Server.Respond.{
  StatusCase, success, no_body, ceiling, declared, undeclared_strict, aid, status_case, respond,
  back_through, relayed,
}
use wavefront.Server.Handle.{
  Outcome, timed_out, unreachable, unreadable, answered, on_outcome, call_upstream, serve, handle,
}
use wavefront.Server.Handle.Protocol.{
  IsRelayed, Protocol, Fits, IsProtocol, Fails-catch, status_case-aid, admit-Fails,
  negotiated-Fails, forward_through-Fails, back_through-Fails,
}

module _ (rt : Runtime) (cfg : Config) where
  open rt use {codec}
  open codec use {Float}

  upstream_error-Fits : (s : Session) (e : Error) → IsUpstreamError e → Fits s "" e
  upstream_error-Fits s e (c, t) =
      subst (λ code. Protocol code e.status "" s.upstream_status s.calls) (sym c) (t, refl)

  decode_failed-Fits : (s : Session) → s.calls ≡ [] → (e : Error) → IsDecodeFailed e → Fits s "" e
  decode_failed-Fits s h e (c, t) =
      subst (λ code. Protocol code e.status "" s.upstream_status s.calls) (sym c) (t, refl, h)

  weaken :
      {A : Type 0} (P Q : Error → Type 0) (m : Result Error A)
      → ((e : Error) → P e → Q e)
      → Fails P m
      → Fails Q m
  weaken P Q (ok a) f h = tt
  weaken P Q (err e) f h = f e h

  relayed-Fits :
      (s : Session) (status : ℕ) (header : Header) (message : String)
      → IsRelayed s.upstream_status status
      → s.calls ≢ []
      → Fits s "" (relayed rt status header (upstream_status_error rt.status_text status message))
  unfolding with_retry_after
  relayed-Fits s status header message r h = elim (Bool-cases (eqb status 429)) [
    | inl e ↦ rw e (elim (Bool-cases (get "Retry-After" header == "")) [
      | inl f ↦ rw f (r, refl, h)
      | inr f ↦ rw f (r, refl, h)
    ])
    | inr e ↦ rw e (r, refl, h)
  ]

  respond-Fails :
      (s : Session) (c : Resolved Float) (status : ℕ) (header : Header) (body : Bytes)
      (k : StatusCase)
      → s.upstream_status ≡ status
      → s.calls ≢ []
      → status_case c.contract status ≡ k
      → Fails IsProtocol (respond rt s c status header body k)
  unfolding respond encode_response
  respond-Fails s c status header body success u h e =
      Fails-catch s "response" (back_through rt (λ link. link.response_ops) c.chain body) _
        (back_through-Fails rt cfg s (λ link. link.response_ops) c.chain body h)
        (λ out.
          Fails-catch s "" (encode_response rt c.contract out) _
            (weaken IsUpstreamError (Fits s "") (encode_response rt c.contract out)
              (upstream_error-Fits s) (encode_message-Fails rt c.contract.response_message out))
            (λ _. tt))
  respond-Fails s c status header body no_body u h e = tt
  respond-Fails s c status header body ceiling u h e = (refl, refl)
  respond-Fails s c status header body declared u h e =
      Fails-catch s "response"
        (back_through rt (λ link. error_response_ops link (pos status)) c.chain body) _
        (back_through-Fails rt cfg s (λ link. error_response_ops link (pos status)) c.chain body h)
        (λ out.
          Fails-catch s "" (encode_error rt c.contract status out) _
            (weaken IsUpstreamError (Fits s "") (encode_error rt c.contract status out)
              (upstream_error-Fits s) (encode_error-Fails rt c.contract status out))
            (λ _. tt))
  respond-Fails s c status header body undeclared_strict u h e = (refl, refl)
  respond-Fails s c status header body aid u h e =
      relayed-Fits s status header (rt.text_of body)
        (subst (λ n. IsRelayed n status) (sym u) (status_case-aid c.contract status e)) h

  on_outcome-Fails :
      (s : Session) (c : Resolved Float) (o : Outcome)
      → s.calls ≢ []
      → Fails IsProtocol (on_outcome rt cfg s c o)
  unfolding on_outcome
  on_outcome-Fails s c timed_out h = (refl, refl, h)
  on_outcome-Fails s c unreachable h = (refl, refl)
  on_outcome-Fails s c (unreadable status header body) h = (refl, refl)
  on_outcome-Fails s c (answered status header body) h =
      respond-Fails _ c status header body (status_case c.contract status) refl h refl

  upstream_request-Fails :
      (s : Session) (r : Request) (last : Contract Float) (call : UpstreamCall) (body : Bytes)
      → Fails (Fits s "") (upstream_request rt cfg r last call body)
  unfolding upstream_request
  upstream_request-Fails s r last call body =
      Fails->>= (Fits s "")
        (or_error (upstream_error_error ("unknown backend target " <> last.target))
          (target_url cfg last.target))
        _
        (Fails-or_error (Fits s "")
          (upstream_error_error ("unknown backend target " <> last.target))
          (target_url cfg last.target) (refl, refl))
        (λ base.
          Fails-fail_if (Fits s "")
            (not (rt.can_request call.method (upstream_url base call.path r.raw_query)))
            (upstream_error_error "could not build upstream request") _ (refl, refl) (λ _. tt))

  handle-Fails :
      (bundle : Option (Bundle Float)) (upstream : UpstreamRequest → Outcome) (r : Request)
      → Fails IsProtocol (handle rt cfg bundle upstream r)
  unfolding handle serve call_upstream start resolved_session
  handle-Fails bundle upstream r =
      Fails-catch (start rt cfg r) "" (admit rt cfg bundle r) _ (admit-Fails rt cfg bundle r)
        (λ (b, body).
          Fails-catch (start rt cfg r) "" (negotiated rt cfg b r) _
            (negotiated-Fails rt cfg (start rt cfg r) b r refl)
            (λ c.
              let s = resolved_session rt cfg c.contract (start rt cfg r) in
              Fails-catch s "" (decode_request rt c.contract body) _
                (weaken IsDecodeFailed (Fits s "") (decode_request rt c.contract body)
                  (decode_failed-Fits s refl) (decode_request-Fails rt c.contract body))
                (λ call.
                  Fails-catch s "request" (forward_through rt cfg c.chain call.body) _
                    (forward_through-Fails rt cfg s c.chain call.body refl)
                    (λ sent.
                      let last = terminal c.contract c.chain in
                      Fails-catch (record s { target = last.target }) ""
                        (upstream_request rt cfg r last call sent) _
                        (upstream_request-Fails (record s { target = last.target }) r last call
                          sent)
                        (λ ureq. on_outcome-Fails _ c (upstream ureq) (λ e. cc))))))

  -- Every failure of a request that is no preflight follows the protocol: the status is the one of
  -- its code, or, for upstream_status, the upstream's, which is then no success and no capability
  -- ceiling; a failed transform is 422 on the way in and 502 on the way back; and a failure of
  -- the request's own is found before any call of the upstream.
  pub handle-IsProtocol :
      (bundle : Option (Bundle Float)) (upstream : UpstreamRequest → Outcome) (r : Request)
      (failed : Failed)
      → handle rt cfg bundle upstream r ≡ err failed
      → IsProtocol failed
  handle-IsProtocol bundle upstream r failed e =
      Fails_elim IsProtocol (handle rt cfg bundle upstream r) (handle-Fails bundle upstream r) e

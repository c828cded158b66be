-- ===== src/Server/Respond/Dispatch.antt =====
-- The status of the response to an upstream's answer, internal/server/http.go.
use wavefront.Base.{
  ℕ, pos, String, ◌≡◌, ◌⊎◌, refl, sym, true, false, ◌||◌, List, [], ◌∷◌, Result, ok, err, ◌>>=◌,
  eqb, arith, Fails, Fails->>=, Fails-intro, subst, inl, inr,
}
use wavefront.Headers.{Header}
use wavefront.Json.{Bytes}
use wavefront.Runtime.{Runtime}
use wavefront.Adapter.{encode_response, encode_error}
use wavefront.Adapter.Errors.{IsUpstreamError, encode_message-Fails, encode_error-Fails}
use wavefront.Bundle.{Contract, Resolved, error_response_ops}
use wavefront.Transform.Apply.{Op, apply, apply_response}
use wavefront.Transform.Apply.Errors.{apply-error}
use wavefront.Wireerror.{Error, is_capability_ceiling, with_retry_after, upstream_status_error}
use wavefront.Server.Proxy.{Session, Failed, catch}
use wavefront.Server.Respond.{
  StatusCase, success, no_body, ceiling, declared, undeclared_strict, aid, Reply, status_case,
  respond, back_through, relayed,
}

status_case-ceiling :
    {F : Type 0} (c : Contract F) (status : ℕ)
    → is_capability_ceiling status ≡ true
    → status_case c status ≡ ceiling
unfolding status_case is_capability_ceiling
status_case-ceiling c status h = ground (arith, h)

status_case-no_body :
    {F : Type 0} (c : Contract F) (status : ℕ)
    → (eqb status 204 || eqb status 205) ≡ true
    → status_case c status ≡ no_body
unfolding status_case
status_case-no_body c status h = ground (arith, h)

-- The status and the body that the client sees.
abbrev pub shown_status : Result Failed Reply → ℕ
shown_status (ok reply) = reply.status
shown_status (err failed) = failed.error.status

abbrev IsGateway : Error → Type 0
IsGateway e = e.status ≡ 502

-- The upstream's status or 502.
abbrev pub KeepsStatus : ℕ → Result Failed Reply → Type 0
KeepsStatus status m = (shown_status m ≡ status) ⊎ (shown_status m ≡ 502)

KeepsStatus-catch :
    {A : Type 0} (status : ℕ) (s : Session) (tout : String) (m : Result Error A)
    (f : A → Result Failed Reply)
    → Fails IsGateway m
    → ((a : A) → KeepsStatus status (f a))
    → KeepsStatus status (catch s tout m >>= f)
KeepsStatus-catch status s tout (ok a) f h k = k a
KeepsStatus-catch status s tout (err e) f h k = inr h

gateway : {A : Type 0} (m : Result Error A) → Fails IsUpstreamError m → Fails IsGateway m
gateway (ok a) h = tt
gateway (err e) (c, t) = t

abbrev pub IsEmptyReply : ℕ → Result Failed Reply → Type 0
IsEmptyReply status (ok reply) = (reply.status ≡ status) × (reply.body ≡ [])
IsEmptyReply status (err failed) = ⊥

abbrev pub IsUpstreamFailure : Result Failed Reply → Type 0
IsUpstreamFailure (ok reply) = ⊥
IsUpstreamFailure (err failed) = IsUpstreamError failed.error

module _ (rt : Runtime) where
  open rt use {codec}
  open codec use {Float}

  back_through-IsGateway :
      (ops : Contract Float → List (Op Float)) (chain : List (Contract Float)) (body : Bytes)
      → Fails IsGateway (back_through rt ops chain body)
  unfolding back_through apply_response
  back_through-IsGateway ops [] body = tt
  back_through-IsGateway ops (link ∷ chain) body =
      Fails->>= IsGateway (back_through rt ops chain body) _ (back_through-IsGateway ops chain body)
        (λ body'.
          Fails-intro IsGateway (apply codec (ops link) body' false)
            (λ e k. (apply-error codec (ops link) body' false e k).1))

  -- The body of an aid envelope keeps the status.
  relayed-status :
      (status : ℕ) (header : Header) (e : Error) → (relayed rt status header e).status ≡ e.status
  unfolding with_retry_after
  relayed-status status header e = ground arith

  respond-KeepsStatus :
      (s : Session) (c : Resolved Float) (status : ℕ) (header : Header) (body : Bytes)
      (k : StatusCase)
      → KeepsStatus status (respond rt s c status header body k)
  unfolding respond encode_response
  respond-KeepsStatus s c status header body success =
      KeepsStatus-catch status s "response"
        (back_through rt (λ link. link.response_ops) c.chain body) _
        (back_through-IsGateway (λ link. link.response_ops) c.chain body)
        (λ out.
          KeepsStatus-catch status s "" (encode_response rt c.contract out) _
            (gateway (encode_response rt c.contract out)
              (encode_message-Fails rt c.contract.response_message out))
            (λ _. inl refl))
  respond-KeepsStatus s c status header body no_body = inl refl
  respond-KeepsStatus s c status header body ceiling = inr refl
  respond-KeepsStatus s c status header body declared =
      KeepsStatus-catch status s "response"
        (back_through rt (λ link. error_response_ops link (pos status)) c.chain body) _
        (back_through-IsGateway (λ link. error_response_ops link (pos status)) c.chain body)
        (λ out.
          KeepsStatus-catch status s "" (encode_error rt c.contract status out) _
            (gateway (encode_error rt c.contract status out)
              (encode_error-Fails rt c.contract status out))
            (λ _. inl refl))
  respond-KeepsStatus s c status header body undeclared_strict = inr refl
  respond-KeepsStatus s c status header body aid =
      inl (
        relayed-status status header
          (upstream_status_error rt.status_text status (rt.text_of body)))

  -- An answer of the upstream reaches the client with its own status or as a 502, never with
  -- another status. A capability ceiling is an upstream_error with 502, whatever the contract
  -- declares and however strict it is, and 204 and 205 keep their status and have no body.
  pub respond-status :
      (s : Session) (c : Resolved Float) (status : ℕ) (header : Header) (body : Bytes)
      → KeepsStatus status (respond rt s c status header body (status_case c.contract status))
        × (is_capability_ceiling status ≡ true
            → IsUpstreamFailure (respond rt s c status header body (status_case c.contract status)))
        × ((eqb status 204 || eqb status 205) ≡ true
            → IsEmptyReply status
                (respond rt s c status header body (status_case c.contract status)))
  unfolding respond
  respond-status s c status header body = (
    respond-KeepsStatus s c status header body (status_case c.contract status),
    λ h.
        subst (λ k. IsUpstreamFailure (respond rt s c status header body k))
          (sym (status_case-ceiling c.contract status h)) (refl, refl),
    λ h.
        subst (λ k. IsEmptyReply status (respond rt s c status header body k))
          (sym (status_case-no_body c.contract status h)) (refl, refl),
  )

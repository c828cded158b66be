-- ===== src/Server/Handle/Calls.antt =====
-- Which calls the handler makes, internal/server/http.go.
use wavefront.Base.{ℕ, pos, String, ◌≡◌, ◌⊎◌, refl, List, [], ◌∷◌, Option, Result, ok, err, ◌>>=◌}
use wavefront.Headers.{Header, set}
use wavefront.Json.{Bytes}
use wavefront.Runtime.{Runtime}
use wavefront.Adapter.{UpstreamCall, decode_request, encode_response, encode_error}
use wavefront.Bundle.{Contract, Bundle, Resolved, error_response_ops}
use wavefront.Wireerror.{Error}
use wavefront.Server.Request.{Request}
use wavefront.Server.Proxy.{
  Config, UpstreamRequest, Session, Failed, catch, negotiated, forward_through,
}
use wavefront.Server.Respond.{
  StatusCase, success, no_body, ceiling, declared, undeclared_strict, aid, Reply, respond,
  back_through, with_type,
}
use wavefront.Server.Handle.Envelope.{IsPreflight}
use wavefront.Server.Handle.Gates.{IsAdmitted, IsSent, IsLast, IsRelayed}

-- The session in which a request ended.
abbrev pub last_session : Result Failed Reply → Session
last_session (ok reply) = reply.session
last_session (err failed) = failed.session

-- A property of the session in which a request ended.
abbrev pub Ended : (Session → Type 0) → Result Failed Reply → Type 0
Ended P (ok reply) = P reply.session
Ended P (err failed) = P failed.session

pub Ended->>= :
    {A : Type 0} (P : Session → Type 0) (s : Session) (tout : String) (m : Result Error A)
    (f : A → Result Failed Reply)
    → P s
    → ((a : A) → m ≡ ok a → Ended P (f a))
    → Ended P (catch s tout m >>= f)
Ended->>= P s tout (ok a) f h k = k a refl
Ended->>= P s tout (err e) f h k = h

module _ (rt : Runtime) (cfg : Config) where
  open rt use {codec}
  open codec use {Float}

  -- What stands behind a call of the upstream: the request passed every gate, a contract was
  -- negotiated, the body was decoded and went through the whole chain, and the call sends what
  -- the chain made of it.
  pub record IsCleared (bundle : Option (Bundle Float)) (r : Request) (ureq : UpstreamRequest)
      : Type 0 where
    pub live_bundle : Bundle Float
    pub body : Bytes
    pub admitted : IsAdmitted rt cfg bundle r (live_bundle, body)
    pub resolved : Resolved Float
    pub is_negotiated : negotiated rt cfg live_bundle r ≡ ok resolved
    pub call : UpstreamCall
    pub is_decoded : decode_request rt resolved.contract body ≡ ok call
    pub sent : Bytes
    pub transformed : forward_through rt cfg resolved.chain call.body ≡ ok sent
    pub last : Contract Float
    pub is_last : IsLast resolved.contract resolved.chain last
    pub built : IsSent rt cfg r last call sent ureq

  -- No call, or one that is cleared.
  abbrev pub OneCleared : Option (Bundle Float) → Request → List UpstreamRequest → Type 0
  OneCleared bundle r calls =
      (calls ≡ []) ⊎ ((ureq : UpstreamRequest) × (calls ≡ ureq ∷ []) × IsCleared bundle r ureq)

  -- What holds of the session, and with the headers that a reply sets, holds at the end.
  pub respond-Ended :
      (P : Session → Type 0) (s : Session) (c : Resolved Float) (status : ℕ) (header : Header)
      (body : Bytes) (k : StatusCase)
      → P s
      → P (record s { header = set "X-Wavefront-Contract-Version" s.version s.header })
      → ((content_type : String)
          → P (record s {
            header =
                set "X-Wavefront-Contract-Version" s.version
                  (set "Content-Type" content_type s.header);
          }))
      → Ended P (respond rt s c status header body k)
  unfolding respond
  respond-Ended P s c status header body success h v f =
      Ended->>= P s "response" (back_through rt (λ link. link.response_ops) c.chain body) _ h
        (λ out _.
          Ended->>= P s "" (encode_response rt c.contract out) _ h (λ encoded _. f encoded.1))
  respond-Ended P s c status header body no_body h v f = v
  respond-Ended P s c status header body ceiling h v f = h
  respond-Ended P s c status header body declared h v f =
      Ended->>= P s "response"
        (back_through rt (λ link. error_response_ops link (pos status)) c.chain body) _ h
        (λ out _.
          Ended->>= P s "" (encode_error rt c.contract status out) _ h
            (λ encoded _. f (with_type rt encoded.1)))
  respond-Ended P s c status header body undeclared_strict h v f = h
  respond-Ended P s c status header body aid h v f = h

  -- The calls of a request: none, or the one of a cleared request, or the one of a preflight.
  abbrev pub Allowed : Option (Bundle Float) → Request → List UpstreamRequest → Type 0
  Allowed bundle r calls =
      OneCleared bundle r calls
      ⊎ (IsPreflight r
          × ((calls ≡ [])
              ⊎ ((ureq : UpstreamRequest) × (calls ≡ ureq ∷ []) × IsRelayed rt cfg r ureq)))

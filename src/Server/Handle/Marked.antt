-- ===== src/Server/Handle/Marked.antt =====
-- How a response is marked and labelled, internal/server/http.go.
use wavefront.Base.{String, ◌≡◌, ◌⊎◌, refl, ◌∙◌, false, [], ◌∷◌, Option, Result, ok, err, inl, inr}
use wavefront.Base.Dict.{values}
use wavefront.Base.Text.{has_prefix}
use wavefront.Headers.{Header, get, set}
use wavefront.Headers.Copy.{get-set, get-copy_where}
use wavefront.Json.{Bytes}
use wavefront.Runtime.{Runtime}
use wavefront.Adapter.{decode_request}
use wavefront.Bundle.{Bundle, Resolved}
use wavefront.Wireerror.{Code, code_name}
use wavefront.Wireerror.Write.{version_unknown}
use wavefront.Wireerror.Write.Shown.{write-shown}
use wavefront.Server.Request.{Request, is_cors_preflight, is_cors_key, copy_cors_headers}
use wavefront.Server.Proxy.{
  Config, UpstreamRequest, Session, Failed, or_unknown, header_of, start, admit, negotiated,
  resolved_session, forward_through, terminal, upstream_request,
}
use wavefront.Server.Respond.{Reply, status_case}
use wavefront.Server.Handle.{
  Outcome, timed_out, unreachable, unreadable, answered, Exchange, on_outcome, call_upstream, serve,
  handle, conclude, proxy,
}
use wavefront.Server.Handle.Calls.{Ended, Ended->>=, respond-Ended}

-- The error counter and the mark of the response, of an exchange in the session `s`.
abbrev pub IsMarked : Session → Exchange → Type 0
IsMarked s x =
    ((x.errors ≡ []) × (get "X-Wavefront-Error" x.response.header ≡ ""))
    ⊎ ((code : Code) × (tout : String) × (x.errors ≡ (code_name code, s.version, tout) ∷ [])
        × (get "X-Wavefront-Error" x.response.header ≡ code_name code))

module _ (rt : Runtime) (cfg : Config) where
  open rt use {codec}
  open codec use {Float}

  -- The labels of a request: before the negotiation, "unknown" for the metrics and what the
  -- client sent for the response; behind it, the contract's version for both.
  abbrev pub IsLabelled : Option (Bundle Float) → Request → Session → Type 0
  IsLabelled bundle r s =
      ((s.version ≡ version_unknown)
        × (s.response_version ≡ or_unknown (header_of rt cfg cfg.contract_version_header r)))
      ⊎ ((b : Bundle Float) × (body : Bytes) × (c : Resolved Float) × (admit rt cfg bundle r
            ≡ ok (b, body))
          × (negotiated rt cfg b r ≡ ok c)
          × (s.version ≡ c.contract.contract_version)
          × (s.response_version ≡ c.contract.contract_version))

  -- No failure is marked in the header so far.
  abbrev IsUnmarked : Session → Type 0
  IsUnmarked s = get "X-Wavefront-Error" s.header ≡ ""

  abbrev Kept : Option (Bundle Float) → Request → Session → Type 0
  Kept bundle r s = IsUnmarked s × IsLabelled bundle r s

  unmarked_reply :
      (h : Header) (version : String)
      → get "X-Wavefront-Error" h ≡ ""
      → get "X-Wavefront-Error" (set "X-Wavefront-Contract-Version" version h) ≡ ""
  unmarked_reply h version e =
      get-set "X-Wavefront-Contract-Version" "X-Wavefront-Error" version h ∙ e

  unmarked_typed :
      (h : Header) (content_type version : String)
      → get "X-Wavefront-Error" h ≡ ""
      → get "X-Wavefront-Error"
          (set "X-Wavefront-Contract-Version" version (set "Content-Type" content_type h))
        ≡ ""
  unmarked_typed h content_type version e =
      unmarked_reply _ version (get-set "Content-Type" "X-Wavefront-Error" content_type h ∙ e)

  unmarked_copy :
      (dst src : Header)
      → get "X-Wavefront-Error" dst ≡ ""
      → get "X-Wavefront-Error" (copy_cors_headers dst src) ≡ ""
  unfolding copy_cors_headers has_prefix
  unmarked_copy dst src e = get-copy_where is_cors_key "X-Wavefront-Error" src dst refl ∙ e

  on_outcome-Kept :
      (bundle : Option (Bundle Float)) (r : Request) (s : Session) (c : Resolved Float)
      (o : Outcome)
      → Kept bundle r s
      → Ended (Kept bundle r) (on_outcome rt cfg s c o)
  unfolding on_outcome
  on_outcome-Kept bundle r s c timed_out h = h
  on_outcome-Kept bundle r s c unreachable h = h
  on_outcome-Kept bundle r s c (unreadable status header body) h = h
  on_outcome-Kept bundle r s c (answered status header body) (m, l) =
      let u = unmarked_copy s.header header m in
      respond-Ended rt cfg (Kept bundle r) _ c status header body (status_case c.contract status)
        (u, l) (unmarked_reply _ s.version u, l)
        (λ content_type. (unmarked_typed _ content_type s.version u, l))

  handle-Kept :
      (bundle : Option (Bundle Float)) (upstream : UpstreamRequest → Outcome) (r : Request)
      → Ended (Kept bundle r) (handle rt cfg bundle upstream r)
  unfolding handle serve call_upstream start resolved_session get values
  handle-Kept bundle upstream r =
      let P : Session → Type 0 = Kept bundle r in
      let unknown : P (start rt cfg r) = (refl, inl (refl, refl)) in
      Ended->>= P (start rt cfg r) "" (admit rt cfg bundle r) _ unknown (λ (b, body) a.
        Ended->>= P (start rt cfg r) "" (negotiated rt cfg b r) _ unknown (λ c n.
          let s = resolved_session rt cfg c.contract (start rt cfg r) in
          let known : P s = (refl, inr (b, body, c, a, n, refl, refl)) in
          Ended->>= P s "" (decode_request rt c.contract body) _ known (λ call _.
            Ended->>= P s "request" (forward_through rt cfg c.chain call.body) _ known (λ sent _.
              Ended->>= P _ "" (upstream_request rt cfg r (terminal c.contract c.chain) call sent) _
                known (λ ureq _. on_outcome-Kept bundle r _ c (upstream ureq) known)))))

  conclude-IsMarked :
      (bundle : Option (Bundle Float)) (r : Request) (m : Result Failed Reply)
      → Ended (Kept bundle r) m
      → (s : Session) × IsLabelled bundle r s
        × ((conclude rt.marshal_strings m).requests ≡ s.version ∷ [])
        × IsMarked s (conclude rt.marshal_strings m)
  unfolding conclude
  conclude-IsMarked bundle r (ok reply) (u, l) = (reply.session, l, refl, inl (refl, u))
  conclude-IsMarked bundle r (err failed) (u, l) = (
    failed.session,
    l,
    refl,
    inr (
      failed.error.code,
      failed.transform_outcome,
      refl,
      (write-shown rt.marshal_strings failed.session.header failed.error
          failed.session.response_version "X-Wavefront-Error").0,
    ),
  )

  -- A request that is no preflight counts once, under "unknown" or, once a contract is
  -- negotiated, under that contract's version. The response carries X-Wavefront-Error exactly
  -- when the error counter counts a failure, once, and it names the code that was counted; no
  -- header of the upstream's can forge it.
  pub proxy-IsMarked :
      (bundle : Option (Bundle Float)) (upstream : UpstreamRequest → Outcome) (r : Request)
      → is_cors_preflight r ≡ false
      → (s : Session) × IsLabelled bundle r s
        × ((proxy rt cfg bundle upstream r).requests ≡ s.version ∷ [])
        × IsMarked s (proxy rt cfg bundle upstream r)
  unfolding proxy
  proxy-IsMarked bundle upstream r e =
      rw e (
        conclude-IsMarked bundle r (handle rt cfg bundle upstream r)
          (handle-Kept bundle upstream r))

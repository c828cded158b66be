-- ===== src/Server/Handle/Gates.antt =====
-- What the phases of the handler let pass, internal/server/http.go.
use wavefront.Base.{
  ◌≢◌, ap, sym, List, ◌∷◌, Bool-cases, branch, some-injective, String, ◌≡◌, ◌⊎◌, refl, true, false,
  not, ◌&&◌, [], ◌++◌, Option, none, some, ok, inl, inr, if◌then◌else◌, ◌==◌, arith, eq_iff,
  Returns, Returns->>=, Returns-fail_if,
}
use wavefront.Base.Dict.{lookup}
use wavefront.Headers.{get, set}
use wavefront.Json.{Bytes}
use wavefront.Runtime.{Runtime}
use wavefront.Adapter.{UpstreamCall, or_error}
use wavefront.Bundle.{Bundle, Contract, Resolved, lookup_route}
use wavefront.Wireerror.{Error, media_type_protobuf, upstream_error_error}
use wavefront.Server.Request.{
  Request, BodyRead, over_limit, broken, complete, has_request_body, names_protobuf,
  is_protobuf_content_type, forward_client_headers,
}
use wavefront.Server.Proxy.{
  Config, UpstreamRequest, admit, upstream_request, loaded, body_or_error, is_bound, target_url,
  upstream_url, terminal,
}
use wavefront.Server.Handle.Envelope.{
  IsBodyless, IsWithin, IsUrlOf, has_request_body-IsBodyless, length-IsWithin, ne_empty,
  upstream_url-IsUrlOf,
}

module _ (rt : Runtime) (cfg : Config) where
  open rt use {codec, canonical_key, parse_media_type, equal_fold}
  open codec use {Float}

  -- What the gates in front of the negotiation let pass: a bundle is loaded and binds the path
  -- and the method, a request with a body says that it is protobuf, the announced length is
  -- within the limit, and the body was read to its end within the limit.
  pub record IsAdmitted (bundle : Option (Bundle Float)) (r : Request)
      (admitted : Bundle Float × Bytes) : Type 0 where
    pub is_loaded : bundle ≡ some admitted.0
    pub is_bound_to : (c : Resolved Float) × (lookup_route admitted.0 r.path r.method ≡ some c)
    pub is_typed :
        IsBodyless r
        ⊎ ((media_type : String) × (parse_media_type (get "Content-Type" r.header)
              ≡ some media_type)
            × (equal_fold media_type media_type_protobuf ≡ true))
    pub is_announced : IsWithin r.content_length cfg.max_body_bytes
    pub is_read : r.read_body cfg.max_body_bytes ≡ complete admitted.1

  body_or_error-complete :
      (read : BodyRead) → Returns (λ body. read ≡ complete body) (body_or_error read)
  body_or_error-complete over_limit = tt
  body_or_error-complete broken = tt
  body_or_error-complete (complete body) = refl

  named_protobuf :
      (found : Option String)
      → names_protobuf equal_fold found ≡ true
      → (media_type : String) × (found ≡ some media_type)
        × (equal_fold media_type media_type_protobuf ≡ true)
  named_protobuf none h = absurd cc
  named_protobuf (some media_type) h = (media_type, refl, h)

  typed_body :
      (r : Request)
      → (has_request_body r
          && not
              (is_protobuf_content_type parse_media_type equal_fold (get "Content-Type" r.header)))
        ≡ false
      → IsBodyless r
        ⊎ ((media_type : String) × (parse_media_type (get "Content-Type" r.header)
              ≡ some media_type)
            × (equal_fold media_type media_type_protobuf ≡ true))
  unfolding is_protobuf_content_type
  typed_body r h = elim (Bool-cases (has_request_body r)) [
    | inl e ↦
        inr (named_protobuf (parse_media_type (get "Content-Type" r.header)) (ground (arith, h, e)))
    | inr e ↦ inl (has_request_body-IsBodyless r e)
  ]

  is_bound-some :
      (found : Option (Resolved Float))
      → not (is_bound rt cfg found) ≡ false
      → (c : Resolved Float) × (found ≡ some c)
  is_bound-some none h = absurd cc
  is_bound-some (some c) h = (c, refl)

  pub admit-IsAdmitted :
      (bundle : Option (Bundle Float)) (r : Request)
      → Returns (IsAdmitted bundle r) (admit rt cfg bundle r)
  unfolding admit loaded
  admit-IsAdmitted none r = tt
  admit-IsAdmitted (some b) r =
      let P = IsAdmitted (some b) r in
      Returns-fail_if P _ _ _ (λ bound. Returns-fail_if P _ _ _ (λ typed.
        Returns-fail_if P _ _ _ (λ announced.
          Returns->>= (λ body. r.read_body cfg.max_body_bytes ≡ complete body) P
            (body_or_error (r.read_body cfg.max_body_bytes)) _
            (body_or_error-complete (r.read_body cfg.max_body_bytes))
            (λ body read.
              let gates : P (b, body) = record {
                is_loaded = refl;
                is_bound_to = is_bound-some (lookup_route b r.path r.method) bound;
                is_typed = typed_body r typed;
                is_announced = length-IsWithin r.content_length cfg.max_body_bytes announced;
                is_read = read;
              } in
              gates))))

  -- The base URL of a target by its name; no name is the default target.
  abbrev pub IsBase : String → String → Type 0
  IsBase name base =
      ((name ≡ "") × (base ≡ cfg.upstream_base_url))
      ⊎ ((name ≢ "") × (lookup ◌==◌ name cfg.targets ≡ some base))

  target_url-IsBase : (name base : String) → target_url cfg name ≡ some base → IsBase name base
  unfolding target_url
  target_url-IsBase name base h = elim (branch (name == "") h) [
    | inl (e, f) ↦ inl ((eq_iff name "").0 e, sym (some-injective f))
    | inr (e, f) ↦ inr (ne_empty name e, f)
  ]

  -- The upstream request that is made of a decoded call and a transformed body: the base URL is
  -- the one of the target that the last contract names.
  pub record IsSent (r : Request) (last : Contract Float) (call : UpstreamCall) (sent : Bytes)
      (ureq : UpstreamRequest) : Type 0 where
    pub base : String
    pub is_target : IsBase last.target base
    pub is_method : ureq.method ≡ call.method
    pub is_url : IsUrlOf base call.path r.raw_query ureq.url
    pub is_body : ureq.body ≡ sent
    pub is_header : ureq.header ≡ (
        if call.content_type == ""
        then forward_client_headers canonical_key [] r.header
        else set "Content-Type" call.content_type
            (forward_client_headers canonical_key [] r.header))

  abbrev request_to : Request → UpstreamCall → Bytes → String → UpstreamRequest
  request_to r call sent base =
      let header = forward_client_headers canonical_key [] r.header in
      record {
        method = call.method;
        url = upstream_url base call.path r.raw_query;
        header =
            if call.content_type == "" then header else set "Content-Type" call.content_type header;
        body = sent;
      }

  or_error-some : {A : Type 0} (e : Error) (o : Option A) → Returns (λ a. o ≡ some a) (or_error e o)
  or_error-some e none = tt
  or_error-some e (some a) = refl

  pub upstream_request-IsSent :
      (r : Request) (last : Contract Float) (call : UpstreamCall) (sent : Bytes)
      → Returns (IsSent r last call sent) (upstream_request rt cfg r last call sent)
  unfolding upstream_request
  upstream_request-IsSent r last call sent =
      let P = IsSent r last call sent in
      Returns->>= (λ base. target_url cfg last.target ≡ some base) P
        (or_error _ (target_url cfg last.target)) _ (or_error-some _ (target_url cfg last.target))
        (λ base found.
          let built : P (request_to r call sent base) = record {
            base = base;
            is_target = target_url-IsBase last.target base found;
            is_method = refl;
            is_url = upstream_url-IsUrlOf base call.path r.raw_query;
            is_body = refl;
            is_header = refl;
          } in
          Returns-fail_if {E = Error} P
            (not (rt.can_request call.method (upstream_url base call.path r.raw_query)))
            (upstream_error_error "could not build upstream request")
            (ok (request_to r call sent base)) (λ _. built))

  -- A preflight goes to the default target as it came, without a body.
  pub record IsRelayed (r : Request) (ureq : UpstreamRequest) : Type 0 where
    pub is_method : ureq.method ≡ r.method
    pub is_url : IsUrlOf cfg.upstream_base_url r.path r.raw_query ureq.url
    pub is_header : ureq.header ≡ forward_client_headers canonical_key [] r.header
    pub is_body : ureq.body ≡ []

-- The last contract of a chain; of an empty one, the contract itself.
abbrev pub IsLast : {F : Type 0} → Contract F → List (Contract F) → Contract F → Type 0
IsLast {F} c chain last =
    ((chain ≡ []) × (last ≡ c)) ⊎ ((links : List (Contract F)) × (chain ≡ links ++ last ∷ []))

pub terminal-IsLast :
    {F : Type 0} (c : Contract F) (chain : List (Contract F)) → IsLast c chain (terminal c chain)
unfolding terminal
terminal-IsLast c [] = inl (refl, refl)
terminal-IsLast c (link ∷ []) = inr ([], refl)
terminal-IsLast c (link ∷ next ∷ chain) = elim (terminal-IsLast link (next ∷ chain)) [
  | inl (e, f) ↦ absurd cc
  | inr (links, e) ↦ inr (link ∷ links, ap (λ x. link ∷ x) e)
]

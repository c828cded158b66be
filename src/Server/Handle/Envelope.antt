-- ===== src/Server/Handle/Envelope.antt =====
-- What the handler reads of a request and writes into a URL, internal/server/http.go.
use wavefront.Base.{
  ◌∙◌, ℤ, pos, negsuc, ◌≤◌, ◌≢◌, ◌<>◌, ◌==ℤ◌, ap, List, ◌∷◌, All, any, Bool-cases, String, ◌≡◌, ◌⊎◌,
  refl, true, false, not, ◌&&◌, [], inl, inr, ◌==◌, arith, eq_iff,
}
use text.Mathlib.TextLemmas.{cons-append}
use wavefront.Base.Text.{trim_end}
use wavefront.Headers.{get}
use wavefront.Server.Request.{Request, is_cors_preflight, has_request_body}
use wavefront.Server.Proxy.{positive, exceeds, upstream_url}

-- A preflight is OPTIONS with an origin and a requested method.
pub record IsPreflight (r : Request) : Type 0 where
  pub is_options : r.method ≡ "OPTIONS"
  pub has_origin : (get "Origin" r.header == "") ≡ false
  pub has_method : (get "Access-Control-Request-Method" r.header == "") ≡ false

pub is_cors_preflight-IsPreflight : (r : Request) → is_cors_preflight r ≡ true → IsPreflight r
unfolding is_cors_preflight
is_cors_preflight-IsPreflight r h = record {
  is_options = (eq_iff r.method "OPTIONS").0 (ground (arith, h));
  has_origin = ground (arith, h);
  has_method = ground (arith, h);
}

-- A request without a body: its length is 0 and no transfer encoding says otherwise.
pub record IsBodyless (r : Request) : Type 0 where
  pub is_empty : r.content_length ≡ pos 0
  pub is_plain : All (λ te. (te ≡ "identity") ⊎ (te ≡ "")) r.transfer_encoding

-- The announced length is within the limit; a length that is not announced is negative.
abbrev pub IsWithin : ℤ → ℤ → Type 0
IsWithin (pos m) (pos n) = m ≤ n
IsWithin (pos m) (negsuc n) = m ≡ 0
IsWithin (negsuc m) n = Unit

-- The URL of a target, a path and the query of the client.
abbrev pub IsUrlOf : String → String → String → String → Type 0
IsUrlOf base path query url =
    ((query ≡ "") × (url ≡ trim_end b'/' base <> path))
    ⊎ ((query ≢ "") × (url ≡ (trim_end b'/' base <> path) <> ("?" <> query)))

plain-All :
    (encodings : List String)
    → any (λ te. not (te == "identity") && not (te == "")) encodings ≡ false
    → All (λ te. (te ≡ "identity") ⊎ (te ≡ "")) encodings
plain-All [] h = tt
plain-All (te ∷ encodings) h = (
  elim (Bool-cases (te == "identity")) [
    | inl e ↦ inl ((eq_iff te "identity").0 e)
    | inr e ↦ inr ((eq_iff te "").0 (ground (arith, h, e)))
  ],
  plain-All encodings (ground (arith, h)),
)

zero-length : (n : ℤ) → (n ==ℤ pos 0) ≡ true → n ≡ pos 0
zero-length (pos n) h = let e : n ≡ 0 = ground (arith, h) in ap pos e
zero-length (negsuc n) h = absurd cc

pub has_request_body-IsBodyless : (r : Request) → has_request_body r ≡ false → IsBodyless r
unfolding has_request_body
has_request_body-IsBodyless r h = record {
  is_empty = zero-length r.content_length (ground (arith, h));
  is_plain = plain-All r.transfer_encoding (ground (arith, h));
}

pub length-IsWithin : (m n : ℤ) → (positive m && exceeds m n) ≡ false → IsWithin m n
length-IsWithin (pos m) (pos n) h = ground (arith, h)
length-IsWithin (pos m) (negsuc n) h = ground (arith, h)
length-IsWithin (negsuc m) n h = tt

pub ne_empty : (s : String) → (s == "") ≡ false → s ≢ ""
ne_empty s h e = let same : (s == "") ≡ true = (eq_iff s "").1 e in absurd (ground (arith, h, same))

append-empty : (s : String) → s <> "" ≡ s
append-empty String.[] = refl
append-empty (String.◌∷◌ c s) = cons-append c s "" ∙ ap (String.◌∷◌ c) (append-empty s)

pub upstream_url-IsUrlOf :
    (base path query : String) → IsUrlOf base path query (upstream_url base path query)
upstream_url-IsUrlOf base path query = elim (Bool-cases (query == "")) [
  | inl e ↦ inl ((eq_iff query "").0 e, rw e (append-empty (trim_end b'/' base <> path)))
  | inr e ↦ inr (ne_empty query e, rw e refl)
]

-- ===== src/Server/Respond/Order.antt =====
-- The order of the transforms along a chain, internal/server/http.go.
use wavefront.Base.{◌≡◌, refl, sym, ap, ◌∙◌, List, [], ◌∷◌, ◌++◌, map, Result, ok, err, ◌>>=◌}
use wavefront.Json.{Bytes}
use wavefront.Runtime.{Runtime}
use wavefront.Bundle.{Contract}
use wavefront.Transform.Apply.{Op, apply_request, apply_response}
use wavefront.Wireerror.{Error}
use wavefront.Server.Proxy.{Config, forward_through}
use wavefront.Server.Respond.{back_through}

abbrev Stage : Type 0
Stage = Bytes → Result Error Bytes

-- One stage after the other, up to the first error.
abbrev pub through : List Stage → Stage
through [] body = ok body
through (f ∷ fs) body = f body >>= through fs

abbrev pub reversed : List Stage → List Stage
reversed [] = []
reversed (f ∷ fs) = reversed fs ++ f ∷ []

bind-ok : (m : Result Error Bytes) → (m >>= λ out. ok out) ≡ m
bind-ok (ok out) = refl
bind-ok (err e) = refl

bind-last : (m : Result Error Bytes) (f : Stage) → (m >>= through (f ∷ [])) ≡ (m >>= f)
bind-last (ok out) f = bind-ok (f out)
bind-last (err e) f = refl

bind-through :
    (m : Result Error Bytes) (h : Stage) (fs gs : List Stage)
    → ((body : Bytes) → h body ≡ (through fs body >>= through gs))
    → (m >>= h) ≡ ((m >>= through fs) >>= through gs)
bind-through (ok out) h fs gs k = k out
bind-through (err e) h fs gs k = refl

through-append :
    (fs gs : List Stage) (body : Bytes) → through (fs ++ gs) body ≡ (through fs body >>= through gs)
through-append [] gs body = refl
through-append (f ∷ fs) gs body =
    bind-through (f body) (through (fs ++ gs)) fs gs (λ out. through-append fs gs out)

module _ (rt : Runtime) (cfg : Config) where
  open rt use {codec}
  open codec use {Float}

  back_through-reversed :
      (ops : Contract Float → List (Op Float)) (chain : List (Contract Float)) (body : Bytes)
      → back_through rt ops chain body
        ≡ through (reversed (map (λ link. apply_response codec (ops link)) chain)) body
  unfolding back_through
  back_through-reversed ops [] body = refl
  back_through-reversed ops (link ∷ chain) body =
      let stages = map (λ link. apply_response codec (ops link)) chain in
      let last = apply_response codec (ops link) in
      ap (λ m. m >>= last) (back_through-reversed ops chain body)
      ∙ sym (bind-last (through (reversed stages) body) last)
      ∙ sym (through-append (reversed stages) (last ∷ []) body)

  bind-stage :
      (m : Result Error Bytes) (f g : Stage)
      → ((body : Bytes) → f body ≡ g body)
      → (m >>= f) ≡ (m >>= g)
  bind-stage (ok out) f g k = k out
  bind-stage (err e) f g k = refl

  forward_through-stages :
      (chain : List (Contract Float)) (body : Bytes)
      → forward_through rt cfg chain body
        ≡ through (map (λ link. apply_request codec link.request_ops) chain) body
  unfolding forward_through
  forward_through-stages [] body = refl
  forward_through-stages (link ∷ chain) body =
      bind-stage (apply_request codec link.request_ops body) _ _
        (λ out. forward_through-stages chain out)

  -- The request transforms of a chain run from the client's contract to the terminal one, and the
  -- response transforms back in the reverse order, each on what the one before it made, and the
  -- first failure ends the run.
  pub transforms-order :
      (chain : List (Contract Float)) (ops : Contract Float → List (Op Float)) (body : Bytes)
      → (forward_through rt cfg chain body
          ≡ through (map (λ link. apply_request codec link.request_ops) chain) body)
        × (back_through rt ops chain body
            ≡ through (reversed (map (λ link. apply_response codec (ops link)) chain)) body)
  transforms-order chain ops body =
      (forward_through-stages chain body, back_through-reversed ops chain body)

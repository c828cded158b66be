-- ===== src/Examples/Serving.antt =====
-- internal/server, internal/negotiate and internal/wireerror at concrete inputs.
use wavefront.Base.{
  arith, String, ◌≡◌, ◌⊎◌, refl, true, false, [], ◌∷◌, ◌++◌, map, none, some, ◌==◌, All, eq_iff,
  inl, inr, Bool-cases,
}
use wavefront.Base.Text.{trim_space}
use wavefront.Base.Dict.{values}
use wavefront.Headers.{get}
use wavefront.Bundle.{
  ContractKey, Selectors, lookup_contract, find_binding, select_variant, find_variant, key_equal,
  first_of_version,
}
use wavefront.Negotiate.{resolve}
use wavefront.Negotiate.Binds.{HasKey, IsIndexed, resolve-binds, resolve-refusal}
use wavefront.Wireerror.{
  is_capability_ceiling, with_retry_after, unavailable_error, msg_or, Error,
  unsupported_contract_version, unsupported_contract_version_error, upstream_timeout_error,
}
use wavefront.Wireerror.Write.{write}
use wavefront.Wireerror.Write.Shown.{shown, write-shown}
use wavefront.Server.Request.{is_cors_preflight, forward_client_headers, copy_cors_headers}
use wavefront.Server.Request.Forwarded.{
  Stays, forward_client_headers-values, copy_cors_headers-values,
}
use wavefront.Server.Proxy.{Failed, admit, loaded, Session, start, forward_through}
use wavefront.Server.Respond.{respond, status_case, back_through}
use wavefront.Server.Respond.Dispatch.{KeepsStatus, IsUpstreamFailure, IsEmptyReply, respond-status}
use wavefront.Server.Respond.Order.{through, reversed, transforms-order}
use wavefront.Transform.Apply.{apply_request, apply_response}
use wavefront.Server.Handle.{proxy, handle}
use wavefront.Server.Handle.Protocol.{IsProtocol}
use wavefront.Server.Handle.Failures.{handle-IsProtocol}
use wavefront.Server.Handle.Marked.{IsLabelled, IsMarked, proxy-IsMarked}
use wavefront.Server.StatusLine.{parse_status_line, status_line, parse_status_line-status_line}
use wavefront.Examples.Codec.{codec}
use wavefront.Examples.Platform.{
  runtime, config, bundle, resolved, contract, request, upstream, upstream_headers, client_headers,
}

proxy-IsMarked_example :
    (s : Session) × IsLabelled runtime config (some bundle) request s
    × ((proxy runtime config (some bundle) upstream request).requests ≡ s.version ∷ [])
    × IsMarked s (proxy runtime config (some bundle) upstream request)
unfolding is_cors_preflight
proxy-IsMarked_example = proxy-IsMarked runtime config (some bundle) upstream request refl

forward_client_headers-values_example :
    (Stays (λ k. k) client_headers "Accept"
      × (values ◌==◌ "Accept" (forward_client_headers (λ k. k) [] client_headers) ≡ []))
    ⊎ (¬ Stays (λ k. k) client_headers "Accept"
        × (values ◌==◌ "Accept" (forward_client_headers (λ k. k) [] client_headers)
            ≡ values ◌==◌ "Accept" client_headers))
forward_client_headers-values_example =
    forward_client_headers-values (λ k. k) client_headers "Accept"
      (refl, (refl, (refl, (refl, (refl, tt)))))

copy_cors_headers-values_example :
    values ◌==◌ "Vary" (copy_cors_headers [] upstream_headers)
    ≡ values ◌==◌ "Vary" [] ++ ("Origin" ∷ [])
unfolding values
copy_cors_headers-values_example =
    copy_cors_headers-values [] upstream_headers "Vary" (refl, (refl, tt))

write-shown_example :
    (get "Retry-After" (write (λ a b. []) [] (upstream_timeout_error "") "v1").header
      ≡ shown (upstream_timeout_error "") "v1" [] "Retry-After")
    × ((write (λ a b. []) [] (upstream_timeout_error "") "v1").status ≡ 504)
write-shown_example = write-shown (λ a b. []) [] (upstream_timeout_error "") "v1" "Retry-After"

abbrev session : Session
session = start runtime config request

respond-status_example :
    KeepsStatus 206 (respond runtime session resolved 206 [] [] (status_case contract 206))
    × (is_capability_ceiling 206 ≡ true
        → IsUpstreamFailure (respond runtime session resolved 206 [] [] (status_case contract 206)))
    × (false ≡ true
        → IsEmptyReply 206 (respond runtime session resolved 206 [] [] (status_case contract 206)))
respond-status_example = respond-status runtime session resolved 206 [] []

transforms-order_example :
    (forward_through runtime config (contract ∷ contract ∷ []) (7 ∷ [])
      ≡ through
          (map (λ link. apply_request codec link.request_ops) (contract ∷ contract ∷ []))
          (7 ∷ []))
    × (back_through runtime (λ link. link.response_ops) (contract ∷ contract ∷ []) (7 ∷ [])
        ≡ through
            (reversed
              (map (λ link. apply_response codec link.response_ops) (contract ∷ contract ∷ [])))
            (7 ∷ []))
transforms-order_example =
    transforms-order runtime config (contract ∷ contract ∷ []) (λ link. link.response_ops) (7 ∷ [])

by_version_indexed :
    (v : String) → All (λ c. c.contract.contract_version ≡ v) (values ◌==◌ v bundle.by_version)
unfolding values
by_version_indexed v = elim (Bool-cases ("v1" == v)) [
  | inl e ↦ rw e ((eq_iff "v1" v).0 e, tt)
  | inr e ↦ rw e tt
]

variants_indexed :
    (k : ContractKey)
    → All (λ (rule, c). HasKey k c.contract) (values key_equal k bundle.selector_variants)
unfolding values
variants_indexed k = tt

bundle-IsIndexed : IsIndexed bundle
bundle-IsIndexed = record { by_version = by_version_indexed; variants = variants_indexed }

abbrev no_selectors : Selectors
no_selectors = record { profile = ""; tenant = ""; cohort = "" }

resolve-binds_example :
    (contract.contract_version ≡ trim_space " v1")
    × (contract.route ≡ "/pay")
    × (contract.method ≡ "POST")
    × ((trim_space " v1" == "") ≡ false)
unfolding resolve lookup_contract find_binding select_variant find_variant values trim_space
    first_of_version
resolve-binds_example =
    resolve-binds bundle "/pay" "POST" " v1" no_selectors resolved bundle-IsIndexed refl

abbrev refusal : Error
refusal = unsupported_contract_version_error "missing contract-version header"

resolve-refusal_example : (refusal.code ≡ unsupported_contract_version) × (refusal.status ≡ 400)
unfolding resolve trim_space msg_or
resolve-refusal_example = resolve-refusal bundle "/pay" "POST" "" no_selectors refusal refl

abbrev not_loaded : Failed
not_loaded = record {
  session = session;
  error = with_retry_after (unavailable_error "bundle not loaded") "1";
  transform_outcome = "";
}

handle-IsProtocol_example : IsProtocol not_loaded
unfolding handle admit loaded
handle-IsProtocol_example = handle-IsProtocol runtime config none upstream request not_loaded refl

-- "HTTP/1.1 400 "
parse_status_line-status_line_example :
    parse_status_line (status_line (b'1' ∷ b'.' ∷ b'1' ∷ []) 4 0 0 (b' ' ∷ [])) ≡ 400
parse_status_line-status_line_example =
    parse_status_line-status_line (b'1' ∷ b'.' ∷ b'1' ∷ []) (b' ' ∷ []) 4 0 0 refl (ground arith)
      (ground arith) (ground arith) (ground arith)

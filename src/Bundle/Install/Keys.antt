-- ===== src/Bundle/Install/Keys.antt =====
-- applyResolution, bundle.go: the version, the route and the method stay.
use wavefront.Base.{String, ◌≡◌, refl, Option, none, some, Returns, Returns-then}
use wavefront.Bundle.{Contract, key_of}
use wavefront.Bundle.Ops.{Descriptors, request, response, to_ops}
use wavefront.Bundle.Resolution.{YamlTransform, YamlResolution}
use wavefront.Bundle.Install.{
  apply_resolution, install_rule, install_transform, message_descriptor, error_ops_of,
}

module _ (d : Descriptors) {F : Type 0} where
  install_transform-key :
      (c : Contract F) (t : YamlTransform F)
      → Returns (λ c'. key_of c' ≡ key_of c) (install_transform d c t)
  unfolding install_transform
  install_transform-key c t =
      let P : Contract F → Type 0 = λ c'. key_of c' ≡ key_of c in
      let cv = c.contract_version in
      Returns-then P (message_descriptor d cv c.request_message) _ (λ req.
        Returns-then P (message_descriptor d cv c.response_message) _ (λ resp.
          Returns-then P (to_ops d F cv request req resp t.request) _ (λ req_ops.
            Returns-then P (to_ops d F cv response req resp t.response) _ (λ resp_ops.
              Returns-then P (error_ops_of d c req t.error_responses) _ (λ error_ops. refl)))))

  install_rule-key :
      (c : Contract F) (route : Option String) (t : Option (YamlTransform F))
      → Returns (λ c'. key_of c' ≡ key_of c) (install_rule d c route t)
  unfolding install_rule
  install_rule-key c route none = refl
  install_rule-key c route (some t) = install_transform-key c t

  pub apply_resolution-key :
      (c : Contract F) (ov : YamlResolution F)
      → Returns (λ c'. key_of c' ≡ key_of c) (apply_resolution d c ov)
  unfolding apply_resolution
  apply_resolution-key c ov = install_rule-key c ov.route ov.transform

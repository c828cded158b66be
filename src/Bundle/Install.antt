-- ===== src/Bundle/Install.antt =====
-- internal/bundle/bundle.go, applyResolution: one resolution rule is installed on a contract.
pub mod Keys
use wavefront.Base.{
  ◌<◌, ℤ, ◌==ℤ◌, String, ◌<>◌, not, List, [], ◌∷◌, Option, none, some, Result, ok, err, ◌>>=◌, ◌>>◌,
  ◌==◌,
}
use wavefront.Base.Dict.{put}
use wavefront.Base.Text.{trim_space, atoi}
use wavefront.Transform.Apply.{Op}
use wavefront.Bundle.{Contract, error_message}
use wavefront.Bundle.Failure.{LoadError, validation, because, message_not_found}
use wavefront.Bundle.Ops.{Descriptors, request, response, YamlOp, to_ops}
use wavefront.Bundle.Resolution.{YamlTransform, YamlResolution}

refuse_response : String → String → LoadError
refuse_response cv reason = validation cv "transform.error_responses" (because reason)

-- A status key that is a number, and the name that the contract binds to it.
status_or_error : String → String → Option ℤ → Result LoadError ℤ
unfolding refuse_response
status_or_error cv code none =
    err (refuse_response cv ("status key " <> code <> " is not a number"))
status_or_error cv code (some status) = ok status

name_or_error : String → String → Option String → Result LoadError String
unfolding refuse_response
name_or_error cv code none =
    err (refuse_response cv ("status " <> code <> " has no error_messages binding to transform"))
name_or_error cv code (some name) = ok name

abbrev empty_target : Option String → String
empty_target none = ""
empty_target (some t) = trim_space t

module _ (d : Descriptors) where
  open d use {Message, find_message}

  abbrev found_message : String → String → Option Message → Result LoadError Message
  found_message cv name none = err (message_not_found cv name)
  found_message cv name (some md) = ok md

  -- messageDescriptor
  unfoldable pub message_descriptor : String → String → Result LoadError Message
  message_descriptor cv name = found_message cv name (find_message name)

  -- Bundle.Message; its error names no contract.
  unfoldable pub bundle_message : String → Result LoadError Message
  bundle_message full_name = message_descriptor "" full_name

  module _ {F : Type 0} where
    -- The loop over the error responses of a transform; `ops` are those installed so far.
    unfoldable pub install_error_responses :
        Contract F
        → Message
        → List (String × List (YamlOp F))
        → List (ℤ × List (Op F))
        → Result LoadError (List (ℤ × List (Op F)))
    unfolding status_or_error name_or_error
    install_error_responses c req [] ops = ok ops
    install_error_responses c req ((code, raw) ∷ rest) ops = do
      status ← status_or_error c.contract_version code (atoi (trim_space code))
      name ← name_or_error c.contract_version code (error_message c status)
      err_desc ← message_descriptor c.contract_version name
      error_ops ← to_ops d F c.contract_version response req err_desc raw
      install_error_responses c req rest (put ◌==ℤ◌ status error_ops ops)

    -- Without an error response the contract keeps its map; else the map is made anew.
    error_ops_of :
        Contract F
        → Message
        → List (String × List (YamlOp F))
        → Result LoadError (List (ℤ × List (Op F)))
    error_ops_of c req [] = ok c.error_response_ops
    error_ops_of c req (entry ∷ rest) = install_error_responses c req (entry ∷ rest) []

    install_transform : Contract F → YamlTransform F → Result LoadError (Contract F)
    unfolding error_ops_of
    install_transform c t = do
      req ← message_descriptor c.contract_version c.request_message
      resp ← message_descriptor c.contract_version c.response_message
      req_ops ← to_ops d F c.contract_version request req resp t.request
      resp_ops ← to_ops d F c.contract_version response req resp t.response
      error_ops ← error_ops_of c req t.error_responses
      ok (record c {
        request_ops = req_ops;
        response_ops = resp_ops;
        transform_target = trim_space t.target;
        error_response_ops = error_ops;
      })

    -- A rule without a transform has a route: `loadResolution` admits no other.
    install_rule :
        Contract F → Option String → Option (YamlTransform F) → Result LoadError (Contract F)
    unfolding install_transform
    install_rule c route none = ok (record c { target = empty_target route })
    install_rule c route (some t) = install_transform c t

    -- applyResolution
    unfoldable pub apply_resolution : Contract F → YamlResolution F → Result LoadError (Contract F)
    unfolding install_rule
    apply_resolution c ov = install_rule c ov.route ov.transform

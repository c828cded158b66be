-- ===== src/Examples/Bundles.antt =====
-- internal/bundle at concrete inputs.
use wavefront.Base.{
  ℕ, pos, String, ◌≡◌, ◌≢◌, ◌↔◌, refl, true, false, List, [], ◌∷◌, none, some, ok, ◌==◌, All,
}
use wavefront.Base.Text.{split, trim_space, begins_with, ends_with, atoi, to_upper}
use wavefront.Base.Dict.{values, lookup, append_at, put}
use wavefront.Bundle.{Contract, Selectors, selector_matches, selector_overlap, selector_empty}
use wavefront.Bundle.Matching.{selector_overlap_iff}
use wavefront.Bundle.Contracts.{
  YamlContract, validate_contract, IsValidContract, validate_contract-IsValid,
}
use wavefront.Bundle.Resolution.{
  text, unset, YamlResolution, load_resolution, add_overrides, add_override, resolution_selectors,
  selectors_of,
}
use wavefront.Wireerror.{is_capability_ceiling}
use wavefront.Bundle.Resolution.Unambiguous.{IsUnambiguous, load_resolution-IsUnambiguous}
use wavefront.Bundle.Chains.{
  resolve_chain, find_candidate, next_link, walk_chain, indexed, candidate_of, bound,
}
use wavefront.Bundle.Chains.Terminates.{resolve_chain-done}
use wavefront.Bundle.Chains.Linked.{IsChain, resolve_chain-IsChain}
use wavefront.Bundle.Ops.{YamlOp, request, validate_path, to_ops, to_op, external}
use wavefront.Bundle.Ops.Fits.{Fits, validate_path_iff}
use wavefront.Bundle.Ops.Valid.{IsValidOp, to_ops-IsValid}
use wavefront.Transform.Path.{parse_path}
use wavefront.Transform.Apply.{coerce}
use wavefront.Transform.Apply.Coverage.{key}
use wavefront.Examples.Platform.{descriptors, contract_of}

abbrev gold : Selectors
gold = record { profile = "gold"; tenant = ""; cohort = "" }

abbrev acme : Selectors
acme = record { profile = ""; tenant = "acme"; cohort = "" }

selector_overlap_iff_example :
    (selector_overlap gold acme ≡ true)
    ↔ ((r : Selectors) × (selector_matches gold r ≡ true) × (selector_matches acme r ≡ true))
selector_overlap_iff_example = selector_overlap_iff gold acme

abbrev index : List (String × List (Contract ℕ))
index = ("v1", contract_of "v1" "v2" ∷ []) ∷ ("v2", contract_of "v2" "" ∷ []) ∷ []

resolve_chain-done_example : resolve_chain index (contract_of "v1" "v2") ≢ none
resolve_chain-done_example = resolve_chain-done index (contract_of "v1" "v2")

resolve_chain-IsChain_example :
    IsChain index
      (contract_of "v1" "v2")
      []
      (contract_of "v1" "v2")
      (contract_of "v1" "v2" ∷ contract_of "v2" "" ∷ [])
unfolding resolve_chain find_candidate next_link walk_chain lookup candidate_of bound indexed
resolve_chain-IsChain_example =
    resolve_chain-IsChain index (contract_of "v1" "v2")
      (contract_of "v1" "v2" ∷ contract_of "v2" "" ∷ []) refl

validate_path_iff_example :
    (validate_path descriptors 1 (record { name = "groups"; array = true } ∷ key "id" ∷ []) "Pay"
      ≡ ok tt)
    ↔ Fits descriptors (record { name = "groups"; array = true } ∷ key "id" ∷ []) "Pay"
validate_path_iff_example =
    validate_path_iff descriptors 1 (record { name = "groups"; array = true } ∷ key "id" ∷ []) "Pay"

abbrev stanza : YamlOp ℕ
stanza = record {
  rename_verb = none;
  default_verb = none;
  optionalize_verb = none;
  coerce_verb = some ("n", "string");
}

to_ops-IsValid_example :
    All (IsValidOp descriptors ℕ "v1" request "Pay" "Pay") (coerce (key "n" ∷ []) "string" ∷ [])
unfolding to_ops to_op external validate_path parse_path split begins_with ends_with
to_ops-IsValid_example =
    to_ops-IsValid descriptors ℕ "v1" request "Pay" "Pay" (stanza ∷ [])
      (coerce (key "n" ∷ []) "string" ∷ []) refl

abbrev entry : YamlContract
entry = record {
  contract_version = "v1";
  route = "/pay";
  method = "post";
  request_message = "Pay";
  response_message = "Pay";
  error_messages = ("404", "Missing") ∷ [];
  strict = false;
}

abbrev accepted : Contract ℕ
accepted = record (contract_of "v1" "") {
  request_ops = [];
  error_messages = (pos 404, "Missing") ∷ [];
}

validate_contract-IsValid_example : IsValidContract accepted
unfolding validate_contract trim_space atoi begins_with to_upper put is_capability_ceiling
validate_contract-IsValid_example = validate_contract-IsValid entry accepted refl

abbrev rule : String → YamlResolution ℕ
rule profile = record {
  contract_version = "v1";
  profile = text profile;
  tenant = unset;
  cohort = unset;
  transform = none;
  route = some "blue";
}

load_resolution-IsUnambiguous_example :
    IsUnambiguous (values ◌==◌ "v1" (("v1", rule "gold" ∷ rule "iron" ∷ []) ∷ []))
unfolding load_resolution add_overrides add_override resolution_selectors selectors_of trim_space
    append_at values selector_empty selector_overlap
load_resolution-IsUnambiguous_example =
    load_resolution-IsUnambiguous (pos 1) (rule "gold" ∷ rule "iron" ∷ [])
      (("v1", rule "gold" ∷ rule "iron" ∷ []) ∷ []) refl "v1"

-- ===== src/Examples/Loaded.antt =====
-- Load, internal/bundle, at a concrete input: two layers, a rule from one to the other, a variant.
use wavefront.Base.{Option, none, some}
use wavefront.Base.{
  ℕ, pos, String, ◌≡◌, All, ◌↔◌, refl, false, List, [], ◌∷◌, none, some, ok, ◌==◌, Occurs,
}
use wavefront.Base.Text.{trim_space, begins_with, to_upper}
use wavefront.Base.Dict.{values, lookup, append_at, put}
use wavefront.Bundle.{
  Bundle, Contract, Resolved, ContractKey, key_equal, key_of, selector_empty, find_binding,
}
use wavefront.Bundle.Contracts.{YamlContract, validate_contract}
use wavefront.Bundle.Resolution.{YamlResolution, selectors_of, resolution_selectors, text, unset}
use wavefront.Bundle.Install.{apply_resolution, message_descriptor}
use wavefront.Bundle.Ops.{Descriptors, to_ops}
use wavefront.Bundle.Chains.{
  resolve_chain, find_candidate, next_link, walk_chain, candidate_of, bound, indexed,
}
use wavefront.Bundle.Load.{
  resolve_layers, with_files, Layer, load, check_versions, add_layers, add_contracts, add_contract,
  check_names, check_known, index_from, materialize, install_rules, install_one, assemble,
  chains_of, chain_of, outcome_of, variant_chains, add_variants, index_variants, index_resolved,
}
use wavefront.Bundle.Load.Found.{load-find_binding}
use wavefront.Bundle.Merge.{FileProto, merge_descriptors, add_files, add_file, add_known}
use wavefront.Bundle.Merge.Union.{DistinctNames, IsFound, merge_descriptors-union}
use wavefront.Base.Text.Sort.{sort_strings}
use wavefront.Bundle.Collisions.{
  contributions, add_contribution, package_owners, package_of, set_add, set_union, colliding,
  check_package_collisions,
}
use wavefront.Examples.Platform.{descriptors, contract_of}

abbrev entry : String → YamlContract
entry version = record {
  contract_version = version;
  route = "/pay";
  method = "post";
  request_message = "Pay";
  response_message = "Pay";
  error_messages = [];
  strict = false;
}

abbrev shared : FileProto
shared = record { name = "shared.proto"; package_name = "shared"; encoded = some "s" }

abbrev own : FileProto
own = record { name = "v2.proto"; package_name = "wavefront.gen.v2"; encoded = some "t" }

abbrev new_files : List FileProto → Option Descriptors
new_files files = some descriptors

abbrev layers : List Layer
layers =
    record { name = "v1"; fdps = shared ∷ []; version = pos 1; contracts = entry "v1" ∷ [] }
    ∷ record { name = "v2"; fdps = own ∷ shared ∷ []; version = pos 1; contracts = entry "v2" ∷ [] }
    ∷ []

abbrev to_v2 : YamlResolution ℕ
to_v2 = record {
  contract_version = "v1";
  profile = unset;
  tenant = unset;
  cohort = unset;
  transform = some (record { request = []; response = []; error_responses = []; target = "v2" });
  route = none;
}

abbrev gold_route : YamlResolution ℕ
gold_route = record to_v2 { profile = text "gold"; transform = none; route = some "canary" }

abbrev bare : String → String → String → Contract ℕ
bare version target transform_target = record (contract_of version transform_target) {
  request_ops = [];
  target = target;
}

abbrev r1 : Resolved ℕ
r1 = record { contract = bare "v1" "" "v2"; chain = bare "v1" "" "v2" ∷ bare "v2" "" "" ∷ [] }

abbrev r2 : Resolved ℕ
r2 = record { contract = bare "v2" "" ""; chain = bare "v2" "" "" ∷ [] }

abbrev variant : Resolved ℕ
variant = record { contract = bare "v1" "canary" ""; chain = bare "v1" "canary" "" ∷ [] }

abbrev k1 : ContractKey
k1 = record { version = "v1"; route = "/pay"; method = "POST" }

abbrev read_bundle : Bundle ℕ
read_bundle = record {
  contracts = r1 ∷ r2 ∷ [];
  by_version = ("v1", r1 ∷ []) ∷ ("v2", r2 ∷ []) ∷ [];
  selector_variants =
      (k1, (record { profile = "gold"; tenant = ""; cohort = "" }, variant) ∷ []) ∷ [];
}

abbrev rules : List (String × List (YamlResolution ℕ))
rules = ("v1", to_v2 ∷ gold_route ∷ []) ∷ []

load-layers : load new_files layers rules ≡ ok read_bundle
unfolding load with_files resolve_layers check_package_collisions contributions add_contribution
    package_owners package_of set_add set_union colliding sort_strings merge_descriptors add_files
    add_file add_known put check_versions add_layers add_contracts add_contract check_names
    check_known index_from materialize install_rules install_one assemble chains_of chain_of
    outcome_of variant_chains add_variants index_variants index_resolved validate_contract
    trim_space begins_with to_upper message_descriptor key_equal append_at values apply_resolution
    to_ops selectors_of resolution_selectors selector_empty resolve_chain find_candidate next_link
    walk_chain lookup candidate_of bound indexed
load-layers = refl

load-find_binding_example :
    ((find_binding "/pay" "POST" (values ◌==◌ "v1" read_bundle.by_version) ≡ some r1)
      ↔ (Occurs r1 read_bundle.contracts × (key_of r1.contract ≡ k1)))
    × All (λ (s, v). key_of v.contract ≡ k1) (values key_equal k1 read_bundle.selector_variants)
load-find_binding_example = load-find_binding new_files layers rules read_bundle k1 r1 load-layers

merge_descriptors-union_example :
    DistinctNames (shared ∷ own ∷ [])
    × All (All (IsFound (shared ∷ own ∷ []))) ((shared ∷ []) ∷ (own ∷ shared ∷ []) ∷ [])
unfolding merge_descriptors add_files add_file add_known lookup put
merge_descriptors-union_example =
    merge_descriptors-union ((shared ∷ []) ∷ (own ∷ shared ∷ []) ∷ [])
      (record { seen = ("shared.proto", "s") ∷ ("v2.proto", "t") ∷ []; files = shared ∷ own ∷ [] })
      refl

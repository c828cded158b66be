-- ===== src/Bundle/Load.antt =====
-- internal/bundle/bundle.go, Load, on what was read and decoded: layers in the order of their
-- names, the rules of `loadResolution`, and the registry that protodesc.NewFiles makes, a parameter.
pub mod Index
pub mod Keys
pub mod Indexed
pub mod Found
use wavefront.Base.{Option, none, some, err}
use wavefront.Base.{
  ◌+◌, ◌-◌, ℤ, pos, ◌==ℤ◌, String, ◌≢◌, refl, Bool, true, false, not, List, [], ◌∷◌, ◌++◌, map,
  none, some, Result, ok, ◌>>=◌, ◌>>◌, ◌==◌, any, fail_if,
}
use wavefront.Base.Dict.{values, append_at}
use wavefront.Bundle.{
  Bundle, Contract, ContractKey, Resolved, Selectors, key_equal, key_of, selector_empty,
}
use wavefront.Bundle.Merge.{FileProto, merge_descriptors, no_files}
use wavefront.Bundle.Collisions.{check_package_collisions}
use wavefront.Bundle.Failure.{LoadError, parse_error, validation, because, unsupported_version}
use wavefront.Bundle.Ops.{Descriptors}
use wavefront.Bundle.Contracts.{YamlContract, validate_contract}
use wavefront.Bundle.Resolution.{YamlResolution, selectors_of}
use wavefront.Bundle.Install.{message_descriptor, apply_resolution}
use wavefront.Bundle.Chains.{resolve_chain, Outcome}
use wavefront.Bundle.Chains.Terminates.{resolve_chain-done}

pub record Layer : Type 0 where
  pub name : String
  pub fdps : List FileProto
  pub version : ℤ
  pub contracts : List YamlContract

-- A contract with its version-only rule installed, and its selector variants.
pub record Materialized (F : Type 0) : Type 0 where
  pub canonical : Contract F
  pub variants : List (Selectors × Contract F)

unfoldable pub check_versions : List Layer → Result LoadError (Unit {0})
check_versions [] = ok tt
check_versions (l ∷ layers) = do
  fail_if (not (l.version ==ℤ pos 1)) (unsupported_version l.version)
  check_versions layers

abbrev no_contracts : List YamlContract → Bool
no_contracts [] = true
no_contracts (yc ∷ ycs) = false

module _ {F : Type 0} where
  -- seen[k]: a key is seen once its contract was added.
  abbrev pub has_contract : ContractKey → List (Contract F) → Bool
  has_contract k cs = any (λ c. key_equal (key_of c) k) cs

  -- byVersion, one append for every contract.
  unfoldable pub index_from :
      List (String × List (Contract F)) → List (Contract F) → List (String × List (Contract F))
  index_from by_version [] = by_version
  index_from by_version (c ∷ cs) = index_from (append_at ◌==◌ c.contract_version c by_version) cs

  abbrev is_known : List (String × List (Contract F)) → String → Bool
  is_known by_version cv = any (λ (v, cs). v == cv) by_version

  -- Every rule names a version of the bundle.
  unfoldable pub check_known :
      List (String × List (Contract F))
      → List (String × List (YamlResolution F))
      → Result LoadError (Unit {0})
  check_known by_version [] = ok tt
  check_known by_version ((cv, rules) ∷ rest) = do
    fail_if (not (is_known by_version cv)) (
        validation cv "contract_version"
          (because "resolution override names an unknown contract version"))
    check_known by_version rest

  -- The walk ends, so there is an outcome.
  unfoldable pub outcome_of : (o : Outcome F) → o ≢ none → Result LoadError (List (Contract F))
  outcome_of none h = absurd (h refl)
  outcome_of (some r) h = r

  unfoldable pub chain_of :
      List (String × List (Contract F)) → Contract F → Result LoadError (Resolved F)
  chain_of by_version c = do
    chain ← outcome_of (resolve_chain by_version c) (resolve_chain-done by_version c)
    ok (record { contract = c; chain = chain })

  unfoldable pub chains_of :
      List (String × List (Contract F)) → List (Contract F) → Result LoadError (List (Resolved F))
  chains_of by_version [] = ok []
  chains_of by_version (c ∷ cs) = do
    r ← chain_of by_version c
    rs ← chains_of by_version cs
    ok (r ∷ rs)

  -- The variants of one contract, under its key.
  unfoldable pub variant_chains :
      List (String × List (Contract F))
      → List (Selectors × Contract F)
      → Result LoadError (List (Selectors × Resolved F))
  variant_chains by_version [] = ok []
  variant_chains by_version ((selectors, v) ∷ vs) = do
    r ← chain_of by_version v
    rs ← variant_chains by_version vs
    ok ((selectors, r) ∷ rs)

  unfoldable pub add_variants :
      ContractKey
      → List (Selectors × Resolved F)
      → List (ContractKey × List (Selectors × Resolved F))
      → List (ContractKey × List (Selectors × Resolved F))
  add_variants k [] out = out
  add_variants k (v ∷ vs) out = add_variants k vs (append_at key_equal k v out)

  -- selectorVariants, with the chains of the variants.
  unfoldable pub index_variants :
      List (String × List (Contract F))
      → List (Materialized F)
      → List (ContractKey × List (Selectors × Resolved F))
      → Result LoadError (List (ContractKey × List (Selectors × Resolved F)))
  index_variants by_version [] out = ok out
  index_variants by_version (m ∷ ms) out = do
    vs ← variant_chains by_version m.variants
    index_variants by_version ms (add_variants (key_of m.canonical) vs out)

  unfoldable pub index_resolved :
      List (String × List (Resolved F)) → List (Resolved F) → List (String × List (Resolved F))
  index_resolved by_version [] = by_version
  index_resolved by_version (r ∷ rs) =
      index_resolved (append_at ◌==◌ r.contract.contract_version r by_version) rs

  -- resolveChains on the contracts and their variants, and the bundle.
  unfoldable pub assemble : List (Materialized F) → Result LoadError (Bundle F)
  assemble ms =
      let by_version = index_from [] (map (λ m. m.canonical) ms) in
      do
        rs ← chains_of by_version (map (λ m. m.canonical) ms)
        variants ← index_variants by_version ms []
        ok (record {
          contracts = rs;
          by_version = index_resolved [] rs;
          selector_variants = variants;
        })

module _ (d : Descriptors) where
  unfoldable pub check_names : String → List (ℤ × String) → Result LoadError (Unit {0})
  check_names cv [] = ok tt
  check_names cv ((status, name) ∷ names) = do
    md ← message_descriptor d cv name
    check_names cv names

  module _ {F : Type 0} where
    -- One round of the loop over the contracts of a layer.
    unfoldable pub add_contract :
        List (Contract F) → YamlContract → Result LoadError (List (Contract F))
    add_contract cs yc = do
      c ← validate_contract yc
      fail_if (has_contract (key_of c) cs) (
          validation c.contract_version "contract_version"
            (because "duplicate (version, route, method) across layers"))
      req ← message_descriptor d c.contract_version c.request_message
      resp ← message_descriptor d c.contract_version c.response_message
      check_names c.contract_version c.error_messages
      ok (cs ++ c ∷ [])

    unfoldable pub add_contracts :
        List (Contract F) → List YamlContract → Result LoadError (List (Contract F))
    add_contracts cs [] = ok cs
    add_contracts cs (yc ∷ ycs) = do cs' ← add_contract cs yc; add_contracts cs' ycs

    unfoldable pub add_layers :
        List (Contract F) → List Layer → Result LoadError (List (Contract F))
    add_layers cs [] = ok cs
    add_layers cs (l ∷ layers) = do
      fail_if (no_contracts l.contracts) (validation "" "" (because "layer has no contracts"))
      cs' ← add_contracts cs l.contracts
      add_layers cs' layers

    -- One rule: the version-only rule goes onto the contract, any other makes a variant of `raw`.
    unfoldable pub install_one :
        Contract F → Materialized F → YamlResolution F → Bool → Result LoadError (Materialized F)
    install_one raw m ov true = do
      c ← apply_resolution d m.canonical ov
      ok (record m { canonical = c })
    install_one raw m ov false = do
      v ← apply_resolution d raw ov
      ok (record m { variants = m.variants ++ (selectors_of ov, v) ∷ [] })

    unfoldable pub install_rules :
        Contract F → List (YamlResolution F) → Materialized F → Result LoadError (Materialized F)
    install_rules raw [] m = ok m
    install_rules raw (ov ∷ rules) m = do
      m' ← install_one raw m ov (selector_empty (selectors_of ov))
      install_rules raw rules m'

    unfoldable pub materialize :
        List (String × List (YamlResolution F))
        → List (Contract F)
        → Result LoadError (List (Materialized F))
    materialize rules [] = ok []
    materialize rules (c ∷ cs) = do
      m ←
          install_rules c (values ◌==◌ c.contract_version rules)
            (record { canonical = c; variants = [] })
      ms ← materialize rules cs
      ok (m ∷ ms)

    -- Load, from the merged descriptors on
    unfoldable pub resolve_layers :
        List Layer → List (String × List (YamlResolution F)) → Result LoadError (Bundle F)
    resolve_layers layers rules = do
      cs ← add_layers [] layers
      check_known (index_from [] cs) rules
      ms ← materialize rules cs
      assemble ms

module _ (new_files : List FileProto → Option Descriptors) {F : Type 0} where
  -- protodesc.NewFiles, on the merged files
  unfoldable pub with_files :
      List Layer
      → List (String × List (YamlResolution F))
      → Option Descriptors
      → Result LoadError (Bundle F)
  with_files layers rules none = err (parse_error "descriptors.binpb" "")
  with_files layers rules (some d) = resolve_layers d layers rules

  -- Load, on the layers and the rules that were read and decoded
  unfoldable pub load :
      List Layer → List (String × List (YamlResolution F)) → Result LoadError (Bundle F)
  load layers rules = do
    check_versions layers
    check_package_collisions (map (λ l. (l.name, l.fdps)) layers)
    merged ← merge_descriptors no_files (map (λ l. l.fdps) layers)
    with_files layers rules (new_files merged.files)

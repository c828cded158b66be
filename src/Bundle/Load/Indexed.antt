-- ===== src/Bundle/Load/Indexed.antt =====
-- Load, bundle.go: the indexes of a loaded bundle hold what their keys say.
use wavefront.Base.{Option, none, some}
use wavefront.Base.{
  String, ◌≡◌, refl, sym, ap, ◌∙◌, List, [], ◌∷◌, map, ok, ◌==◌, All, Returns, Returns->>=,
  Returns_elim, Returns-then, Returns-next, subst, eq_iff, All-filter,
}
use wavefront.Base.Dict.{values}
use wavefront.Bundle.{Bundle, Contract, ContractKey, Resolved, Selectors, key_equal, key_of}
use wavefront.Bundle.Ops.{Descriptors}
use wavefront.Bundle.Merge.{FileProto, merge_descriptors, no_files}
use wavefront.Bundle.Collisions.{check_package_collisions}
use wavefront.Bundle.Resolution.{YamlResolution}
use wavefront.Bundle.Chains.{resolve_chain}
use wavefront.Bundle.Chains.Terminates.{resolve_chain-done}
use wavefront.Bundle.Load.{
  Layer, Materialized, index_from, index_resolved, outcome_of, chain_of, chains_of, variant_chains,
  add_variants, index_variants, assemble, check_versions, check_known, add_layers, materialize,
  load, resolve_layers, with_files,
}
use wavefront.Bundle.Load.Index.{of_version, values-index_resolved, values-add_variants}
use wavefront.Bundle.Load.Keys.{
  Distinct, keys, OwnVariants, canonicals, add_layers-Distinct, materialize-keys,
}
use wavefront.Negotiate.Binds.{HasKey, IsIndexed}

-- A loaded bundle: a list of contracts under different keys, and two indexes that follow from it.
pub record IsLoaded {F : Type 0} (b : Bundle F) : Type 0 where
  pub distinct : Distinct (map (λ r. key_of r.contract) b.contracts)
  pub by_version : b.by_version ≡ index_resolved [] b.contracts
  pub variants :
      (k : ContractKey)
      → All (λ (s, r). key_of r.contract ≡ k) (values key_equal k b.selector_variants)

module _ {F : Type 0} where
  chain_of-contract :
      (by_version : List (String × List (Contract F))) (c : Contract F)
      → Returns (λ r. r.contract ≡ c) (chain_of by_version c)
  unfolding chain_of
  chain_of-contract by_version c =
      Returns-then (λ r. r.contract ≡ c)
        (outcome_of (resolve_chain by_version c) (resolve_chain-done by_version c)) _
        (λ chain. refl)

  chains_of-contracts :
      (by_version : List (String × List (Contract F))) (cs : List (Contract F))
      → Returns (λ rs. map (λ r. key_of r.contract) rs ≡ keys cs) (chains_of by_version cs)
  unfolding chains_of
  chains_of-contracts by_version [] = refl
  chains_of-contracts by_version (c ∷ cs) =
      Returns->>= (λ r. r.contract ≡ c) _ (chain_of by_version c) _ (chain_of-contract by_version c)
        (λ r e.
          Returns->>= (λ rs. map (λ r. key_of r.contract) rs ≡ keys cs) _ (chains_of by_version cs)
            _ (chains_of-contracts by_version cs) (λ rs k. λ i. key_of (e i) ∷ k i))

  abbrev Keyed : ContractKey → Selectors × Resolved F → Type 0
  Keyed k (s, r) = key_of r.contract ≡ k

  variant_chains-Keyed :
      (by_version : List (String × List (Contract F))) (k : ContractKey)
      (vs : List (Selectors × Contract F))
      → All (λ (s, v). key_of v ≡ k) vs
      → Returns (All (Keyed k)) (variant_chains by_version vs)
  unfolding variant_chains
  variant_chains-Keyed by_version k [] h = tt
  variant_chains-Keyed by_version k ((s, v) ∷ vs) (a, h) =
      Returns->>= (λ r. r.contract ≡ v) _ (chain_of by_version v) _ (chain_of-contract by_version v)
        (λ r e.
          Returns->>= (All (Keyed k)) _ (variant_chains by_version vs) _
            (variant_chains-Keyed by_version k vs h) (λ rs j. (ap key_of e ∙ a, j)))

  abbrev KeyedIndex : List (ContractKey × List (Selectors × Resolved F)) → Type 0
  KeyedIndex out = (k : ContractKey) → All (Keyed k) (values key_equal k out)

  index_variants-Keyed :
      (by_version : List (String × List (Contract F))) (ms : List (Materialized F))
      (out : List (ContractKey × List (Selectors × Resolved F)))
      → All OwnVariants ms
      → KeyedIndex out
      → Returns KeyedIndex (index_variants by_version ms out)
  unfolding index_variants
  index_variants-Keyed by_version [] out h o = o
  index_variants-Keyed by_version (m ∷ ms) out (a, h) o =
      let k = key_of m.canonical in
      Returns->>= (All (Keyed k)) _ (variant_chains by_version m.variants) _
        (variant_chains-Keyed by_version k m.variants a)
        (λ vs j.
          index_variants-Keyed by_version ms (add_variants k vs out) h
            (values-add_variants Keyed k vs out j o))

  assemble-IsLoaded :
      (ms : List (Materialized F))
      → Distinct (keys (canonicals ms))
      → All OwnVariants ms
      → Returns IsLoaded (assemble ms)
  unfolding assemble values
  assemble-IsLoaded ms d h =
      let by_version = index_from [] (canonicals ms) in
      Returns->>= (λ rs. map (λ r. key_of r.contract) rs ≡ keys (canonicals ms)) _
        (chains_of by_version (canonicals ms)) _ (chains_of-contracts by_version (canonicals ms))
        (λ rs e.
          Returns->>= KeyedIndex _ (index_variants by_version ms []) _
            (index_variants-Keyed by_version ms [] h (λ k. tt))
            (λ vs k. record {
              distinct = subst Distinct (sym e) d;
              by_version = refl;
              variants = k;
            }))

  resolve_layers-IsLoaded :
      (d : Descriptors) (layers : List Layer) (rules : List (String × List (YamlResolution F)))
      → Returns IsLoaded (resolve_layers d layers rules)
  unfolding resolve_layers
  resolve_layers-IsLoaded d layers rules =
      Returns->>= (λ cs. Distinct (keys cs)) IsLoaded (add_layers d [] layers) _
        (add_layers-Distinct d [] layers tt)
        (λ cs a. Returns-next IsLoaded (check_known (index_from [] cs) rules) _ (
          Returns->>= (λ ms. (keys (canonicals ms) ≡ keys cs) × All OwnVariants ms) IsLoaded
            (materialize d rules cs) _ (materialize-keys d rules cs)
            (λ ms (k, h). assemble-IsLoaded ms (subst Distinct (sym k) a) h)))

  with_files-IsLoaded :
      (new_files : List FileProto → Option Descriptors) (layers : List Layer)
      (rules : List (String × List (YamlResolution F))) (files : Option Descriptors)
      → Returns IsLoaded (with_files new_files layers rules files)
  unfolding with_files
  with_files-IsLoaded new_files layers rules none = tt
  with_files-IsLoaded new_files layers rules (some d) = resolve_layers-IsLoaded d layers rules

  -- Whatever the layers and the rules are: in a bundle that Load returns no two contracts have one
  -- version, route and method, the index by version holds the list of contracts, and a selector
  -- variant has the version, the route and the method that it stands under.
  pub load-IsLoaded :
      (new_files : List FileProto → Option Descriptors) (layers : List Layer)
      (rules : List (String × List (YamlResolution F))) (b : Bundle F)
      → load new_files layers rules ≡ ok b
      → IsLoaded b
  unfolding load
  load-IsLoaded new_files layers rules b e =
      Returns_elim IsLoaded (load new_files layers rules)
        (Returns-next IsLoaded (check_versions layers) _ (
          Returns-next IsLoaded (check_package_collisions (map (λ l. (l.name, l.fdps)) layers)) _ (
            Returns-then IsLoaded (merge_descriptors no_files (map (λ l. l.fdps) layers)) _
              (λ merged. with_files-IsLoaded new_files layers rules (new_files merged.files)))))
        e

  key_of-HasKey :
      (k : ContractKey) (rs : List (Selectors × Resolved F))
      → All (Keyed k) rs
      → All (λ (s, r). HasKey k r.contract) rs
  key_of-HasKey k [] h = tt
  key_of-HasKey k ((s, r) ∷ rs) (a, h) =
      ((ap (λ j. j.version) a, ap (λ j. j.route) a, ap (λ j. j.method) a), key_of-HasKey k rs h)

  -- What negotiation asks of a bundle holds of every bundle that Load returns.
  load-IsIndexed :
      (new_files : List FileProto → Option Descriptors) (layers : List Layer)
      (rules : List (String × List (YamlResolution F))) (b : Bundle F)
      → load new_files layers rules ≡ ok b
      → IsIndexed b
  unfolding of_version values
  load-IsIndexed new_files layers rules b e =
      let l = load-IsLoaded new_files layers rules b e in
      record {
        by_version = λ v.
            subst (All (λ r. r.contract.contract_version ≡ v))
              (sym (ap (values ◌==◌ v) l.by_version ∙ values-index_resolved v [] b.contracts))
              (All-filter (λ r. r.contract.contract_version ≡ v)
                (λ r. r.contract.contract_version == v)
                (λ r h. (eq_iff r.contract.contract_version v).0 h) b.contracts);
        variants = λ k. key_of-HasKey k (values key_equal k b.selector_variants) (l.variants k);
      }

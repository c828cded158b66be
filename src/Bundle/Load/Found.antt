-- ===== src/Bundle/Load/Found.antt =====
-- Load and the lookups, bundle.go: a loaded bundle is a map from keys to contracts.
use wavefront.Base.{
  String, ◌≡◌, ◌↔◌, refl, sym, ap, ◌∙◌, false, List, [], ◌∷◌, map, Option, none, some, ok,
  if◌then◌else◌, ◌==◌, All, subst, inl, inr, pick, Bool-cases, Occurs,
}
use wavefront.Base.Dict.{values}
use wavefront.Bundle.{Bundle, ContractKey, Resolved, key_equal, key_of, find_binding}
use wavefront.Bundle.Ops.{Descriptors}
use wavefront.Bundle.Merge.{FileProto}
use wavefront.Bundle.Resolution.{YamlResolution}
use wavefront.Bundle.Load.{Layer, load}
use wavefront.Bundle.Load.Index.{of_version, key_equal_iff, values-index_resolved}
use wavefront.Bundle.Load.Keys.{Distinct, key_equal_sym}
use wavefront.Bundle.Load.Indexed.{load-IsLoaded}

module _ {F : Type 0} where
  -- The contract that a key stands for, when the list of contracts is read as a map.
  search : ContractKey → List (Resolved F) → Option (Resolved F)
  search k [] = none
  search k (r ∷ rs) = if key_equal (key_of r.contract) k then some r else search k rs

  search-index :
      (k : ContractKey) (rs : List (Resolved F))
      → find_binding k.route k.method (of_version k.version rs) ≡ search k rs
  unfolding search of_version find_binding key_equal
  search-index k [] = refl
  search-index k (r ∷ rs) = elim (Bool-cases (r.contract.contract_version == k.version)) [
    | inl e ↦ rw e (rw (search-index k rs) refl)
    | inr e ↦ rw e (search-index k rs)
  ]

  search-Occurs :
      (k : ContractKey) (r : Resolved F) (rs : List (Resolved F))
      → search k rs ≡ some r
      → Occurs r rs × (key_of r.contract ≡ k)
  unfolding search
  search-Occurs k r [] e = absurd cc
  search-Occurs k r (x ∷ rs) e = elim (pick (key_equal (key_of x.contract) k) e) [
    | inl (t, same) ↦ (
      inl same,
      subst (λ y. key_of y.contract ≡ k) same ((key_equal_iff (key_of x.contract) k).0 t),
    )
    | inr later ↦ let (o, h) = search-Occurs k r rs later in (inr o, h)
  ]

  key-Occurs :
      (r : Resolved F) (rs : List (Resolved F)) (k : ContractKey)
      → All (λ j. key_equal j k ≡ false) (map (λ r. key_of r.contract) rs)
      → Occurs r rs
      → key_equal (key_of r.contract) k ≡ false
  key-Occurs r [] k _ o = absurd o
  key-Occurs r (x ∷ rs) k (a, h) (inl e) = subst (λ y. key_equal (key_of y.contract) k ≡ false) e a
  key-Occurs r (x ∷ rs) k (a, h) (inr o) = key-Occurs r rs k h o

  Occurs-search :
      (r : Resolved F) (rs : List (Resolved F))
      → Distinct (map (λ r. key_of r.contract) rs)
      → Occurs r rs
      → search (key_of r.contract) rs ≡ some r
  unfolding search
  Occurs-search r [] _ o = absurd o
  Occurs-search r (x ∷ rs) (a, h) (inl e) =
      subst (λ y. search (key_of y.contract) (x ∷ rs) ≡ some y) e
        (rw ((key_equal_iff (key_of x.contract) (key_of x.contract)).1 refl) refl)
  Occurs-search r (x ∷ rs) (a, h) (inr o) =
      rw
        (key_equal_sym (key_of x.contract) (key_of r.contract)
          ∙ key-Occurs r rs (key_of x.contract) a o)
        (Occurs-search r rs h o)

  -- A loaded bundle refines a map from keys to contracts: by the index of the key's version, the
  -- lookup under a key finds exactly the contract of the bundle that has this key; and the selector
  -- variants under a key have the key's version, route and method.
  pub load-find_binding :
      (new_files : List FileProto → Option Descriptors) (layers : List Layer)
      (rules : List (String × List (YamlResolution F))) (b : Bundle F) (k : ContractKey)
      (r : Resolved F)
      → load new_files layers rules ≡ ok b
      → ((find_binding k.route k.method (values ◌==◌ k.version b.by_version) ≡ some r)
          ↔ (Occurs r b.contracts × (key_of r.contract ≡ k)))
        × All (λ (s, v). key_of v.contract ≡ k) (values key_equal k b.selector_variants)
  unfolding values
  load-find_binding new_files layers rules b k r e =
      let l = load-IsLoaded new_files layers rules b e in
      let found : find_binding k.route k.method (values ◌==◌ k.version b.by_version)
          ≡ search k b.contracts =
        ap (find_binding k.route k.method)
          (ap (values ◌==◌ k.version) l.by_version ∙ values-index_resolved k.version [] b.contracts)
        ∙ search-index k b.contracts in
      let mapped : (find_binding k.route k.method (values ◌==◌ k.version b.by_version) ≡ some r)
          ↔ (Occurs r b.contracts × (key_of r.contract ≡ k)) =
        (
          λ h. search-Occurs k r b.contracts (sym found ∙ h),
          λ (o, h).
              found
              ∙ subst (λ j. search j b.contracts ≡ some r) h
                  (Occurs-search r b.contracts l.distinct o),
        ) in
      (mapped, l.variants k)

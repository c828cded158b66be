-- ===== src/Negotiate/Binds.antt =====
-- What negotiation accepts, internal/negotiate/negotiate.go.
use wavefront.Base.{
  String, ◌≡◌, refl, false, List, [], ◌∷◌, Option, none, some, ok, err, ◌==◌, All, arith, Fails,
  Returns, Returns_elim, Returns-fail_if, Fails-fail_if, Fails_elim, eq_iff, inl, inr, Bool-cases,
}
use wavefront.Base.Text.{trim_space}
use wavefront.Base.Dict.{values}
use wavefront.Bundle.{
  Bundle, Contract, ContractKey, Resolved, Selectors, binds, key_equal, selector_matches,
  find_binding, find_variant, or_else, select_variant, lookup_contract, first_of_version,
}
use wavefront.Wireerror.{Error, unsupported_contract_version}
use wavefront.Negotiate.{resolve, found_or, miss}

module _ {F : Type 0} where
  -- A contract under a key of the variants has the version, the route and the method of the key.
  abbrev pub HasKey : ContractKey → Contract F → Type 0
  HasKey k c = (c.contract_version ≡ k.version) × (c.route ≡ k.route) × (c.method ≡ k.method)

  -- The index by version and the variants hold what their keys say.
  pub record IsIndexed (b : Bundle F) : Type 0 where
    pub by_version :
        (v : String) → All (λ c. c.contract.contract_version ≡ v) (values ◌==◌ v b.by_version)
    pub variants :
        (k : ContractKey)
        → All (λ (rule, c). HasKey k c.contract) (values key_equal k b.selector_variants)

  abbrev Found : (Resolved F → Type 0) → Option (Resolved F) → Type 0
  Found P none = Unit
  Found P (some c) = P c

  Found-map :
      (P Q : Resolved F → Type 0)
      → ((c : Resolved F) → P c → Q c)
      → (found : Option (Resolved F)) → Found P found
      → Found Q found
  Found-map P Q f none h = tt
  Found-map P Q f (some c) h = f c h

  find_variant-HasKey :
      (k : ContractKey) (selected : Selectors) (variants : List (Selectors × Resolved F))
      → All (λ (rule, c). HasKey k c.contract) variants
      → Found (λ c. HasKey k c.contract) (find_variant selected variants)
  unfolding find_variant
  find_variant-HasKey k selected [] h = tt
  find_variant-HasKey k selected ((rule, c) ∷ variants) (a, h) =
      elim (Bool-cases (selector_matches rule selected)) [
        | inl e ↦ rw e a
        | inr e ↦ rw e (find_variant-HasKey k selected variants h)
      ]

  find_binding-HasKey :
      (v path method : String) (cs : List (Resolved F))
      → All (λ c. c.contract.contract_version ≡ v) cs
      → Found
          (λ c. HasKey (record { version = v; route = path; method = method }) c.contract)
          (find_binding path method cs)
  unfolding find_binding
  find_binding-HasKey v path method [] h = tt
  find_binding-HasKey v path method (c ∷ cs) (a, h) =
      elim (Bool-cases (binds path method c.contract)) [
        | inl e ↦ rw e (
          a,
          (eq_iff c.contract.route path).0 (ground arith),
          (eq_iff c.contract.method method).0 (ground arith),
        )
        | inr e ↦ rw e (find_binding-HasKey v path method cs h)
      ]

  or_else-HasKey :
      (k : ContractKey) (found : Option (Resolved F)) (c : Resolved F)
      → Found (λ c. HasKey k c.contract) found
      → HasKey k c.contract
      → HasKey k (or_else found c).contract
  or_else-HasKey k none c h a = a
  or_else-HasKey k (some v) c h a = h

  select_variant-HasKey :
      (b : Bundle F) (k : ContractKey) (selected : Selectors) (found : Option (Resolved F))
      → IsIndexed b
      → Found (λ c. HasKey k c.contract) found
      → Found
          (λ c. HasKey k c.contract)
          (select_variant b k.route k.method k.version selected found)
  unfolding select_variant
  select_variant-HasKey b k selected none i h = tt
  select_variant-HasKey b k selected (some c) i h =
      or_else-HasKey k _ c
        (find_variant-HasKey k selected (values key_equal k b.selector_variants) (i.variants k)) h

  lookup_contract-HasKey :
      (b : Bundle F) (path method v : String) (selected : Selectors)
      → IsIndexed b
      → Found
          (λ c. HasKey (record { version = v; route = path; method = method }) c.contract)
          (lookup_contract b path method v selected)
  unfolding lookup_contract
  lookup_contract-HasKey b path method v selected i =
      select_variant-HasKey b (record { version = v; route = path; method = method }) selected
        (find_binding path method (values ◌==◌ v b.by_version)) i
        (find_binding-HasKey v path method (values ◌==◌ v b.by_version) (i.by_version v))

  found_or-Found :
      (P : Resolved F → Type 0) (e : Error) (found : Option (Resolved F))
      → Found P found
      → Returns P (found_or e found)
  found_or-Found P e none h = tt
  found_or-Found P e (some c) h = h

  -- On an indexed bundle, an accepted contract has the version that the header names, behind
  -- leading and trailing white space, which is not empty, and the request's path and method.
  pub resolve-binds :
      (b : Bundle F) (path method header_value : String) (selected : Selectors) (c : Resolved F)
      → IsIndexed b
      → resolve b path method header_value selected ≡ ok c
      → (c.contract.contract_version ≡ trim_space header_value)
        × (c.contract.route ≡ path)
        × (c.contract.method ≡ method)
        × ((trim_space header_value == "") ≡ false)
  unfolding resolve
  resolve-binds b path method header_value selected c i e =
      let v = trim_space header_value in
      let P : Resolved F → Type 0 = λ c.
        (c.contract.contract_version ≡ v)
        × (c.contract.route ≡ path)
        × (c.contract.method ≡ method)
        × ((v == "") ≡ false) in
      Returns_elim P (resolve b path method header_value selected)
        (Returns-fail_if P (v == "") _ _ (λ set.
          found_or-Found P _ (lookup_contract b path method v selected) (
            Found-map _ P (λ c (a, p, m). (a, p, m, set)) (lookup_contract b path method v selected)
              (lookup_contract-HasKey b path method v selected i))))
        e

  found_or-refusal :
      (path method v : String) (known found : Option (Resolved F))
      → Fails
          (λ x. (x.code ≡ unsupported_contract_version) × (x.status ≡ 400))
          (found_or (miss path method v known) found)
  found_or-refusal path method v known (some c) = tt
  found_or-refusal path method v none none = (refl, refl)
  found_or-refusal path method v (some c) none = (refl, refl)

  -- Every refusal is an unsupported_contract_version with status 400.
  pub resolve-refusal :
      (b : Bundle F) (path method header_value : String) (selected : Selectors) (e : Error)
      → resolve b path method header_value selected ≡ err e
      → (e.code ≡ unsupported_contract_version) × (e.status ≡ 400)
  unfolding resolve
  resolve-refusal b path method header_value selected e h =
      Fails_elim (λ x. (x.code ≡ unsupported_contract_version) × (x.status ≡ 400))
        (resolve b path method header_value selected)
        (Fails-fail_if (λ x. (x.code ≡ unsupported_contract_version) × (x.status ≡ 400))
          (trim_space header_value == "") _ _ (refl, refl)
          (λ _.
            found_or-refusal path method (trim_space header_value)
              (first_of_version b (trim_space header_value))
              (lookup_contract b path method (trim_space header_value) selected)))
        h

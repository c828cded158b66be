-- ===== src/Bundle/Load/Keys.antt =====
-- Load, bundle.go: no two contracts share a key, and rules keep the key of their contract.
use wavefront.Base.{
  String, ◌≡◌, refl, sym, ap, ◌∙◌, Bool, true, false, List, [], ◌∷◌, ◌++◌, map, ◌==◌, All,
  All-append, any, arith, Returns, Returns->>=, Returns-fail_if, Returns-then, Returns-next, subst,
  eq_iff,
}
use wavefront.Bundle.{Contract, ContractKey, Selectors, key_equal, key_of, selector_empty}
use wavefront.Bundle.Ops.{Descriptors}
use wavefront.Bundle.Contracts.{YamlContract, validate_contract}
use wavefront.Bundle.Resolution.{YamlResolution, selectors_of}
use wavefront.Base.Dict.{values}
use wavefront.Bundle.Install.{message_descriptor, apply_resolution}
use wavefront.Bundle.Install.Keys.{apply_resolution-key}
use wavefront.Bundle.Load.{
  Layer, Materialized, has_contract, add_contract, add_contracts, add_layers, check_names,
  install_one, install_rules, materialize, no_contracts,
}

-- No key occurs twice.
abbrev pub Distinct : List ContractKey → Type 0
Distinct [] = Unit
Distinct (k ∷ ks) = All (λ j. key_equal j k ≡ false) ks × Distinct ks

pub key_equal_sym : (a b : ContractKey) → key_equal a b ≡ key_equal b a
unfolding key_equal
key_equal_sym a b = ground (
  arith,
  eq_iff a.version b.version,
  eq_iff b.version a.version,
  eq_iff a.route b.route,
  eq_iff b.route a.route,
  eq_iff a.method b.method,
  eq_iff b.method a.method,
)

Distinct-append :
    (ks : List ContractKey) (k : ContractKey)
    → Distinct ks
    → any (λ j. key_equal j k) ks ≡ false
    → Distinct (ks ++ k ∷ [])
Distinct-append [] k h e = (tt, tt)
Distinct-append (j ∷ ks) k (a, h) e = (
  All-append (λ i. key_equal i j ≡ false) ks (k ∷ []) a (key_equal_sym k j ∙ ground arith, tt),
  Distinct-append ks k h (ground arith),
)

module _ {F : Type 0} where
  abbrev pub keys : List (Contract F) → List ContractKey
  keys cs = map (λ c. key_of c) cs

  keys-append : (cs ds : List (Contract F)) → keys (cs ++ ds) ≡ keys cs ++ keys ds
  keys-append [] ds = refl
  keys-append (c ∷ cs) ds = ap (λ l. key_of c ∷ l) (keys-append cs ds)

  any-keys :
      (k : ContractKey) (cs : List (Contract F))
      → any (λ j. key_equal j k) (keys cs) ≡ has_contract k cs
  any-keys k [] = refl
  any-keys k (c ∷ cs) = rw (any-keys k cs) refl

  -- The variants of a contract bind what the contract binds.
  abbrev pub OwnVariants : Materialized F → Type 0
  OwnVariants m = All (λ (s, v). key_of v ≡ key_of m.canonical) m.variants

  abbrev pub canonicals : List (Materialized F) → List (Contract F)
  canonicals ms = map (λ m. m.canonical) ms

module _ (d : Descriptors) {F : Type 0} where
  add_contract-Distinct :
      (cs : List (Contract F)) (yc : YamlContract)
      → Distinct (keys cs)
      → Returns (λ ds. Distinct (keys ds)) (add_contract d cs yc)
  unfolding add_contract
  add_contract-Distinct cs yc h =
      let P : List (Contract F) → Type 0 = λ ds. Distinct (keys ds) in
      Returns-then P (validate_contract yc) _ (λ c.
        Returns-fail_if P (has_contract (key_of c) cs) _ _ (λ fresh.
          Returns-then P (message_descriptor d c.contract_version c.request_message) _ (λ req.
            Returns-then P (message_descriptor d c.contract_version c.response_message) _ (λ resp.
              Returns-next P (check_names d c.contract_version c.error_messages) _ (
                subst Distinct (sym (keys-append cs (c ∷ [])))
                  (Distinct-append (keys cs) (key_of c) h (any-keys (key_of c) cs ∙ fresh)))))))

  add_contracts-Distinct :
      (cs : List (Contract F)) (ycs : List YamlContract)
      → Distinct (keys cs)
      → Returns (λ ds. Distinct (keys ds)) (add_contracts d cs ycs)
  unfolding add_contracts
  add_contracts-Distinct cs [] h = h
  add_contracts-Distinct cs (yc ∷ ycs) h =
      Returns->>= (λ ds. Distinct (keys ds)) _ (add_contract d cs yc) _
        (add_contract-Distinct cs yc h) (λ ds k. add_contracts-Distinct ds ycs k)

  pub add_layers-Distinct :
      (cs : List (Contract F)) (layers : List Layer)
      → Distinct (keys cs)
      → Returns (λ ds. Distinct (keys ds)) (add_layers d cs layers)
  unfolding add_layers
  add_layers-Distinct cs [] h = h
  add_layers-Distinct cs (l ∷ layers) h = Returns-fail_if _ (no_contracts l.contracts) _ _ (λ _.
      Returns->>= (λ ds. Distinct (keys ds)) _ (add_contracts d cs l.contracts) _
        (add_contracts-Distinct cs l.contracts h) (λ ds k. add_layers-Distinct ds layers k))

  abbrev CarriesKey : Contract F → Materialized F → Type 0
  CarriesKey c m = (key_of m.canonical ≡ key_of c) × All (λ (s, v). key_of v ≡ key_of c) m.variants

  install_one-CarriesKey :
      (c : Contract F) (m : Materialized F) (ov : YamlResolution F) (empty : Bool)
      → CarriesKey c m
      → Returns (CarriesKey c) (install_one d c m ov empty)
  unfolding install_one
  install_one-CarriesKey c m ov true (a, h) =
      Returns->>= (λ c'. key_of c' ≡ key_of m.canonical) _ (apply_resolution d m.canonical ov) _
        (apply_resolution-key d m.canonical ov) (λ c' k. (k ∙ a, h))
  install_one-CarriesKey c m ov false (a, h) =
      Returns->>= (λ v. key_of v ≡ key_of c) _ (apply_resolution d c ov) _
        (apply_resolution-key d c ov)
        (λ v k. (a, All-append _ m.variants ((selectors_of ov, v) ∷ []) h (k, tt)))

  install_rules-CarriesKey :
      (c : Contract F) (rules : List (YamlResolution F)) (m : Materialized F)
      → CarriesKey c m
      → Returns (CarriesKey c) (install_rules d c rules m)
  unfolding install_rules
  install_rules-CarriesKey c [] m h = h
  install_rules-CarriesKey c (ov ∷ rules) m h =
      Returns->>= (CarriesKey c) _ (install_one d c m ov (selector_empty (selectors_of ov))) _
        (install_one-CarriesKey c m ov (selector_empty (selectors_of ov)) h)
        (λ m' k. install_rules-CarriesKey c rules m' k)

  All-key :
      (k j : ContractKey) (vs : List (Selectors × Contract F))
      → k ≡ j
      → All (λ (s, v). key_of v ≡ j) vs
      → All (λ (s, v). key_of v ≡ k) vs
  All-key k j [] e h = tt
  All-key k j ((s, v) ∷ vs) e (a, h) = (a ∙ sym e, All-key k j vs e h)

  -- The rules leave the keys alone, and a variant has the key of its contract.
  pub materialize-keys :
      (rules : List (String × List (YamlResolution F))) (cs : List (Contract F))
      → Returns
          (λ ms. (keys (canonicals ms) ≡ keys cs) × All OwnVariants ms)
          (materialize d rules cs)
  unfolding materialize
  materialize-keys rules [] = (refl, tt)
  materialize-keys rules (c ∷ cs) =
      Returns->>= (CarriesKey c) _
        (install_rules d c (values ◌==◌ c.contract_version rules)
          (record { canonical = c; variants = [] }))
        _
        (install_rules-CarriesKey c (values ◌==◌ c.contract_version rules)
          (record { canonical = c; variants = [] }) (refl, tt))
        (λ m (a, h).
          Returns->>= (λ ms. (keys (canonicals ms) ≡ keys cs) × All OwnVariants ms) _
            (materialize d rules cs) _ (materialize-keys rules cs)
            (λ ms (e, k).
              ((λ i. a i ∷ e i), (All-key (key_of m.canonical) (key_of c) m.variants a h, k))))

-- ===== src/Bundle/Load/Index.antt =====
-- The indexes that Load builds, bundle.go: what they hold under a key.
use wavefront.Base.{
  String, ◌≡◌, ◌↔◌, refl, sym, true, List, [], ◌∷◌, ◌++◌, ◌==◌, All, All-append, arith, subst,
  eq_iff, eq_refl, inl, inr, append_assoc, append-nil, Bool-cases, filter,
}
use wavefront.Base.Dict.{values, append_at, values-append_at}
use wavefront.Bundle.{ContractKey, Resolved, Selectors, key_equal}
use wavefront.Bundle.Load.{index_resolved, add_variants}

pub key_equal_iff : (a b : ContractKey) → (key_equal a b ≡ true) ↔ (a ≡ b)
unfolding key_equal
key_equal_iff a b = (
  λ h.
      same a b ((eq_iff a.version b.version).0 (ground arith))
        ((eq_iff a.route b.route).0 (ground arith)) ((eq_iff a.method b.method).0 (ground arith)),
  λ h.
      subst (λ c. key_equal a c ≡ true) h
        (ground (arith, eq_refl a.version, eq_refl a.route, eq_refl a.method)),
)
  where
    same :
        (a b : ContractKey)
        → a.version ≡ b.version
        → a.route ≡ b.route
        → a.method ≡ b.method
        → a ≡ b
    same a b v r m = λ i. record { version = v i; route = r i; method = m i }

module _ {F : Type 0} where
  -- The contracts of a version, in their order.
  unfoldable pub of_version : String → List (Resolved F) → List (Resolved F)
  of_version v rs = filter (λ r. r.contract.contract_version == v) rs

  pub values-index_resolved :
      (v : String) (d : List (String × List (Resolved F))) (rs : List (Resolved F))
      → values ◌==◌ v (index_resolved d rs) ≡ values ◌==◌ v d ++ of_version v rs
  unfolding index_resolved of_version
  values-index_resolved v d [] = sym (append-nil (values ◌==◌ v d))
  values-index_resolved v d (r ∷ rs) = elim (Bool-cases (r.contract.contract_version == v)) [
    | inl e ↦ rw (values-index_resolved v (append_at ◌==◌ r.contract.contract_version r d) rs) (
        rw (values-append_at ◌==◌ eq_iff r.contract.contract_version v r d)
          (rw e (append_assoc (values ◌==◌ v d) (r ∷ []) (of_version v rs))))
    | inr e ↦
        rw (values-index_resolved v (append_at ◌==◌ r.contract.contract_version r d) rs)
          (rw (values-append_at ◌==◌ eq_iff r.contract.contract_version v r d) (rw e refl))
  ]

  -- What add_variants puts under a key has the key's version, route and method.
  pub values-add_variants :
      (P : ContractKey → Selectors × Resolved F → Type 0) (k : ContractKey)
      (vs : List (Selectors × Resolved F))
      (out : List (ContractKey × List (Selectors × Resolved F)))
      → All (P k) vs
      → ((j : ContractKey) → All (P j) (values key_equal j out))
      → (j : ContractKey) → All (P j) (values key_equal j (add_variants k vs out))
  unfolding add_variants
  values-add_variants P k [] out h o j = o j
  values-add_variants P k (v ∷ vs) out (a, h) o j =
      values-add_variants P k vs (append_at key_equal k v out) h
        (λ i.
          subst (All (P i)) (sym (values-append_at key_equal key_equal_iff k i v out))
            (elim (Bool-cases (key_equal k i)) [
              | inl e ↦ rw e (
                  All-append (P i) (values key_equal i out) (v ∷ []) (o i)
                    (subst (λ x. P x v) ((key_equal_iff k i).0 e) a, tt))
              | inr e ↦ rw e (o i)
            ]))
        j

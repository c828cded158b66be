-- ===== src/Bundle/Chains/Terminates.antt =====
-- The loop of resolveChains ends, internal/bundle/bundle.go.
use wavefront.Base.{
  pick, ℕ, zero, suc, ◌+◌, ◌≤◌, ◌<◌, String, ◌≡◌, ◌≢◌, refl, sym, Bool, true, false, ◌||◌, List, [],
  ◌∷◌, ◌++◌, Option, none, some, Result, ok, err, if◌then◌else◌, ◌==◌, any, length, arith, Returns,
  subst, eq_iff, eq_refl, inl, inr, Bool-cases,
}
use wavefront.Base.Dict.{lookup}
use wavefront.Bundle.{Contract, binds}
use wavefront.Bundle.Failure.{LoadError}
use wavefront.Bundle.Chains.{
  find_candidate, next_link, seen_version, prepend, extend, unless_seen, walk_chain, indexed,
  resolve_chain, Outcome,
}
use wavefront.Bundle.Chains.Follows.{IsLink, Follows, next_link-Follows}

module _ {F : Type 0} where
  -- How many contracts have a version that the walk has not met.
  abbrev unseen : List String → List (Contract F) → ℕ
  unseen seen [] = 0
  unseen seen (c ∷ cs) = (if seen_version c seen then 0 else 1) + unseen seen cs

  abbrev has_version : String → List (Contract F) → Bool
  has_version v cs = any (λ c. v == c.contract_version) cs

  has_version-append :
      (v : String) (cs ds : List (Contract F))
      → has_version v (cs ++ ds) ≡ (has_version v cs || has_version v ds)
  has_version-append v [] ds = refl
  has_version-append v (c ∷ cs) ds = ground (arith, has_version-append v cs ds)

  unseen_le : (seen : List String) (cs : List (Contract F)) → unseen seen cs ≤ length cs
  unseen_le seen [] = omega arith
  unseen_le seen (c ∷ cs) = ground (arith, unseen_le seen cs)

  unseen_mono :
      (v : String) (seen : List String) (cs : List (Contract F))
      → unseen (v ∷ seen) cs ≤ unseen seen cs
  unseen_mono v seen [] = omega arith
  unseen_mono v seen (c ∷ cs) = ground (arith, unseen_mono v seen cs)

  seen_version_mono :
      (v : String) (c : Contract F) (seen : List String)
      → seen_version c seen ≡ true
      → seen_version c (v ∷ seen) ≡ true
  seen_version_mono v c seen h = ground (arith, h)

  unseen_drop :
      (d : Contract F) (seen : List String) (cs : List (Contract F))
      → has_version d.contract_version cs ≡ true
      → seen_version d seen ≡ false
      → unseen (d.contract_version ∷ seen) cs < unseen seen cs
  unseen_drop d seen [] h k = cc
  unseen_drop d seen (c ∷ cs) h k = elim (Bool-cases (d.contract_version == c.contract_version)) [
    | inl e ↦
        let same = (eq_iff d.contract_version c.contract_version).0 e in
        let fresh : any (λ v. v == c.contract_version) seen ≡ false =
          subst (λ w. any (λ v. v == w) seen ≡ false) same k in
        ground (arith, e, fresh, unseen_mono d.contract_version seen cs)
    | inr e ↦ ground (arith, e, unseen_drop d seen cs (ground (arith, h, e)) k)
  ]

  find_candidate-has_version :
      (route method : String) (cs : List (Contract F)) (next : Contract F)
      → find_candidate route method cs ≡ some next
      → has_version next.contract_version cs ≡ true
  unfolding find_candidate
  find_candidate-has_version route method [] next e = cc
  find_candidate-has_version route method (c ∷ cs) next e = elim (pick (binds route method c) e) [
    | inl (b, same) ↦
        subst (λ d. has_version d.contract_version (c ∷ cs) ≡ true) same
          (ground (arith, eq_refl c.contract_version))
    | inr found ↦ ground (arith, find_candidate-has_version route method cs next found)
  ]

  lookup-has_version :
      (target v : String) (by_version : List (String × List (Contract F))) (cs : List (Contract F))
      → lookup ◌==◌ target by_version ≡ some cs
      → has_version v cs ≡ true
      → has_version v (indexed by_version) ≡ true
  unfolding lookup indexed
  lookup-has_version target v [] cs e h = cc
  lookup-has_version target v ((w, ds) ∷ by_version) cs e h = elim (pick (w == target) e) [
    | inl (b, same) ↦
        let hd : has_version v ds ≡ true = subst (λ l. has_version v l ≡ true) (sym same) h in
        ground (arith, has_version-append v ds (indexed by_version), hd)
    | inr found ↦ ground (
      arith,
      has_version-append v ds (indexed by_version),
      lookup-has_version target v by_version cs found h,
    )
  ]

  IsLink-has_version :
      (by_version : List (String × List (Contract F))) (c cur next : Contract F)
      → IsLink by_version c cur next
      → has_version next.contract_version (indexed by_version) ≡ true
  unfolding IsLink
  IsLink-has_version by_version c cur next (cs, l, e, r, m) =
      lookup-has_version cur.transform_target next.contract_version by_version cs l
        (find_candidate-has_version c.route c.method cs next e)

  prepend-done : (c : Contract F) (r : Outcome F) → r ≢ none → prepend c r ≢ none
  prepend-done c none h = h
  prepend-done c (some (ok chain)) h = λ e. cc
  prepend-done c (some (err x)) h = λ e. cc

  extend-done :
      (cur : Contract F) (P : Option (Contract F) → Type 0)
      (r : Result LoadError (Option (Contract F))) (k : Contract F → Outcome F)
      → Returns P r
      → ((next : Contract F) → P (some next) → k next ≢ none)
      → extend cur r k ≢ none
  extend-done cur P (err x) k h f = λ e. cc
  extend-done cur P (ok none) k h f = λ e. cc
  extend-done cur P (ok (some next)) k h f = prepend-done cur (k next) (f next h)

  unless_seen-done :
      (cur : Contract F) (b : Bool) (r : Outcome F)
      → (b ≡ false → r ≢ none)
      → unless_seen cur b r ≢ none
  unless_seen-done cur true r h = λ e. cc
  unless_seen-done cur false r h = h refl

  walk_chain-done :
      (n : ℕ) (by_version : List (String × List (Contract F))) (c : Contract F) (seen : List String)
      (cur : Contract F)
      → has_version cur.contract_version (indexed by_version) ≡ true
      → unseen seen (indexed by_version) < n
      → walk_chain n by_version c seen cur ≢ none
  unfolding walk_chain
  walk_chain-done zero by_version c seen cur h lt = ground arith
  walk_chain-done (suc n) by_version c seen cur h lt =
      unless_seen-done cur (seen_version cur seen) _ (λ fresh.
        extend-done cur (Follows by_version c cur) (next_link by_version c cur)
          (λ next. walk_chain n by_version c (cur.contract_version ∷ seen) next)
          (next_link-Follows by_version c cur)
          (λ next link.
            walk_chain-done n by_version c (cur.contract_version ∷ seen) next
              (IsLink-has_version by_version c cur next link)
              (omega (arith, unseen_drop cur seen (indexed by_version) h fresh, lt))))

  -- The walk along the targets of a contract ends, with a chain or with an error, whatever the
  -- contracts of the bundle and their targets are.
  pub resolve_chain-done :
      (by_version : List (String × List (Contract F))) (c : Contract F)
      → resolve_chain by_version c ≢ none
  unfolding resolve_chain walk_chain
  resolve_chain-done by_version c = unless_seen-done c (seen_version c []) _ (λ _.
      extend-done c (Follows by_version c c) (next_link by_version c c)
        (λ next.
          walk_chain (suc (length (indexed by_version))) by_version c (c.contract_version ∷ [])
            next)
        (next_link-Follows by_version c c)
        (λ next link.
          walk_chain-done (suc (length (indexed by_version))) by_version c (c.contract_version ∷ [])
            next (IsLink-has_version by_version c c next link)
            (omega (arith, unseen_le (c.contract_version ∷ []) (indexed by_version)))))

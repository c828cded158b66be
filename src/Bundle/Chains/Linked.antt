-- ===== src/Bundle/Chains/Linked.antt =====
-- The shape of a resolved chain, internal/bundle/bundle.go.
use wavefront.Base.{
  ℕ, zero, suc, String, ◌≡◌, refl, sym, Bool, true, false, List, [], ◌∷◌, Option, none, some,
  Result, ok, err, Returns, subst,
}
use wavefront.Bundle.{Contract}
use wavefront.Bundle.Failure.{LoadError}
use wavefront.Bundle.Chains.{
  next_link, seen_version, prepend, extend, unless_seen, walk_chain, resolve_chain, Outcome,
}
use wavefront.Bundle.Chains.Follows.{IsLink, Follows, next_link-Follows}

unwrap :
    {E A : Type 0} {a b : A} → ◌≡◌ {A = Option (Result E A)} (some (ok a)) (some (ok b)) → a ≡ b
unwrap e = cc

module _ {F : Type 0} where
  -- From `cur` on, every contract is the candidate of its predecessor's target that binds the
  -- route and the method of `c`, and the last one has no target.
  abbrev Linked :
      List (String × List (Contract F)) → Contract F → Contract F → List (Contract F) → Type 0
  Linked by_version c cur [] = cur.transform_target ≡ ""
  Linked by_version c cur (next ∷ rest) =
      IsLink by_version c cur next × Linked by_version c next rest

  -- No version occurs twice, and none is in `seen`.
  abbrev Fresh : List String → List (Contract F) → Type 0
  Fresh seen [] = Unit
  Fresh seen (c ∷ rest) = (seen_version c seen ≡ false) × Fresh (c.contract_version ∷ seen) rest

  -- A chain of `c` from `cur` on.
  abbrev pub IsChain :
      List (String × List (Contract F))
      → Contract F
      → List String
      → Contract F
      → List (Contract F)
      → Type 0
  IsChain by_version c seen cur chain =
      (rest : List (Contract F)) × (chain ≡ cur ∷ rest)
      × Linked by_version c cur rest
      × Fresh seen chain

  abbrev Chained : (List (Contract F) → Type 0) → Outcome F → Type 0
  Chained P none = Unit
  Chained P (some r) = Returns P r

  extend-IsChain :
      (by_version : List (String × List (Contract F))) (c : Contract F) (seen : List String)
      (cur : Contract F) (r : Result LoadError (Option (Contract F))) (k : Contract F → Outcome F)
      → seen_version cur seen ≡ false
      → Returns (Follows by_version c cur) r
      → ((next : Contract F)
          → Chained (IsChain by_version c (cur.contract_version ∷ seen) next) (k next))
      → Chained (IsChain by_version c seen cur) (extend cur r k)
  extend-IsChain by_version c seen cur (err e) k fresh h f = tt
  extend-IsChain by_version c seen cur (ok none) k fresh h f = ([], refl, h, (fresh, tt))
  extend-IsChain by_version c seen cur (ok (some next)) k fresh h f =
      prepend-IsChain by_version c seen cur next (k next) fresh h (f next)
    where
      prepend-IsChain :
          (by_version : List (String × List (Contract F))) (c : Contract F) (seen : List String)
          (cur next : Contract F) (r : Outcome F)
          → seen_version cur seen ≡ false
          → IsLink by_version c cur next
          → Chained (IsChain by_version c (cur.contract_version ∷ seen) next) r
          → Chained (IsChain by_version c seen cur) (prepend cur r)
      prepend-IsChain by_version c seen cur next none fresh link h = tt
      prepend-IsChain by_version c seen cur next (some (err e)) fresh link h = tt
      prepend-IsChain by_version c seen cur next (some (ok chain)) fresh link (rest, e, l, f) =
          (chain, refl, subst (λ t. Linked by_version c cur t) (sym e) (link, l), (fresh, f))

  unless_seen-IsChain :
      (P : List (Contract F) → Type 0) (cur : Contract F) (b : Bool) (r : Outcome F)
      → (b ≡ false → Chained P r)
      → Chained P (unless_seen cur b r)
  unless_seen-IsChain P cur true r h = tt
  unless_seen-IsChain P cur false r h = h refl

  walk_chain-IsChain :
      (n : ℕ) (by_version : List (String × List (Contract F))) (c : Contract F) (seen : List String)
      (cur : Contract F)
      → Chained (IsChain by_version c seen cur) (walk_chain n by_version c seen cur)
  unfolding walk_chain
  walk_chain-IsChain zero by_version c seen cur = tt
  walk_chain-IsChain (suc n) by_version c seen cur =
      unless_seen-IsChain (IsChain by_version c seen cur) cur (seen_version cur seen) _ (λ fresh.
        extend-IsChain by_version c seen cur (next_link by_version c cur)
          (λ next. walk_chain n by_version c (cur.contract_version ∷ seen) next) fresh
          (next_link-Follows by_version c cur)
          (λ next. walk_chain-IsChain n by_version c (cur.contract_version ∷ seen) next))

  Chained_elim :
      (P : List (Contract F) → Type 0) (r : Outcome F) (chain : List (Contract F))
      → Chained P r
      → r ≡ some (ok chain)
      → P chain
  Chained_elim P none chain h e = cc
  Chained_elim P (some (err x)) chain h e = cc
  Chained_elim P (some (ok chain')) chain h e = subst P (unwrap e) h

  -- A resolved chain starts with its contract and meets no version twice; each further contract
  -- is the one of the version that its predecessor's target names that binds the first one's
  -- route and method, and the last has no target.
  pub resolve_chain-IsChain :
      (by_version : List (String × List (Contract F))) (c : Contract F) (chain : List (Contract F))
      → resolve_chain by_version c ≡ some (ok chain)
      → IsChain by_version c [] c chain
  unfolding resolve_chain
  resolve_chain-IsChain by_version c chain e =
      Chained_elim (IsChain by_version c [] c) (resolve_chain by_version c) chain
        (walk_chain-IsChain (suc (suc _)) by_version c [] c) e

-- ===== src/Bundle/Chains/Follows.antt =====
-- The contract behind a link of a chain, internal/bundle/bundle.go.
use wavefront.Base.{
  String, ◌≡◌, refl, Bool, true, false, List, [], ◌∷◌, Option, none, some, Result, ◌==◌, arith,
  Returns, subst, eq_iff, inl, inr, pick,
}
use wavefront.Base.Dict.{lookup}
use wavefront.Bundle.{Contract, binds}
use wavefront.Bundle.Failure.{LoadError}
use wavefront.Bundle.Chains.{find_candidate, bound, candidate_of, unless_terminal, next_link}

module _ {F : Type 0} where
  find_candidate-binds :
      (route method : String) (cs : List (Contract F)) (next : Contract F)
      → find_candidate route method cs ≡ some next
      → (next.route ≡ route) × (next.method ≡ method)
  unfolding find_candidate
  find_candidate-binds route method [] next e = cc
  find_candidate-binds route method (c ∷ cs) next e = elim (pick (binds route method c) e) [
    | inl (b, same) ↦
        subst (λ d. (d.route ≡ route) × (d.method ≡ method)) same
          (
            (eq_iff c.route route).0 (ground (arith, b)),
            (eq_iff c.method method).0 (ground (arith, b)),
          )
    | inr found ↦ find_candidate-binds route method cs next found
  ]

  -- What the next link of a chain is.
  unfoldable pub IsLink :
      List (String × List (Contract F)) → Contract F → Contract F → Contract F → Type 0
  IsLink by_version c cur next =
      (cs : List (Contract F)) × (lookup ◌==◌ cur.transform_target by_version ≡ some cs)
      × (find_candidate c.route c.method cs ≡ some next)
      × (next.route ≡ c.route)
      × (next.method ≡ c.method)

  abbrev pub Follows :
      List (String × List (Contract F)) → Contract F → Contract F → Option (Contract F) → Type 0
  Follows by_version c cur none = cur.transform_target ≡ ""
  Follows by_version c cur (some next) = IsLink by_version c cur next

  bound-Follows :
      (by_version : List (String × List (Contract F))) (c cur : Contract F) (cs : List (Contract F))
      (found : Option (Contract F))
      → lookup ◌==◌ cur.transform_target by_version ≡ some cs
      → find_candidate c.route c.method cs ≡ found
      → Returns (Follows by_version c cur) (bound c cur found)
  unfolding bound IsLink
  bound-Follows by_version c cur cs none l e = tt
  bound-Follows by_version c cur cs (some next) l e =
      let (r, m) = find_candidate-binds c.route c.method cs next e in (cs, l, e, r, m)

  candidate_of-Follows :
      (by_version : List (String × List (Contract F))) (c cur : Contract F)
      (found : Option (List (Contract F)))
      → lookup ◌==◌ cur.transform_target by_version ≡ found
      → Returns (Follows by_version c cur) (candidate_of c cur found)
  unfolding candidate_of
  candidate_of-Follows by_version c cur none l = tt
  candidate_of-Follows by_version c cur (some cs) l =
      bound-Follows by_version c cur cs (find_candidate c.route c.method cs) l refl

  unless_terminal-Follows :
      (by_version : List (String × List (Contract F))) (c cur : Contract F)
      (r : Result LoadError (Option (Contract F))) (b : Bool)
      → (cur.transform_target == "") ≡ b
      → Returns (Follows by_version c cur) r
      → Returns (Follows by_version c cur) (unless_terminal b r)
  unless_terminal-Follows by_version c cur r true e h = (eq_iff cur.transform_target "").0 e
  unless_terminal-Follows by_version c cur r false e h = h

  pub next_link-Follows :
      (by_version : List (String × List (Contract F))) (c cur : Contract F)
      → Returns (Follows by_version c cur) (next_link by_version c cur)
  unfolding next_link
  next_link-Follows by_version c cur =
      unless_terminal-Follows by_version c cur _ (cur.transform_target == "") refl
        (candidate_of-Follows by_version c cur (lookup ◌==◌ cur.transform_target by_version) refl)

-- ===== src/Bundle/Chains.antt =====
-- internal/bundle/bundle.go, resolveChains: the walk along the transform targets of a contract.
pub mod Follows
pub mod Terminates
pub mod Linked
use wavefront.Base.{
  ℕ, zero, suc, ◌+◌, ◌<◌, String, ◌<>◌, Bool, true, false, not, List, [], ◌∷◌, ◌++◌, Option, none,
  some, Result, ok, err, if◌then◌else◌, ◌==◌, any, length,
}
use wavefront.Base.Dict.{lookup}
use wavefront.Bundle.{Contract, binds}
use wavefront.Bundle.Failure.{LoadError, validation, because}

-- An outcome of the loop, or `none` when the fuel does not reach.
abbrev pub Outcome : Type 0 → Type 0
Outcome F = Option (Result LoadError (List (Contract F)))

module _ {F : Type 0} where
  -- The loop over the candidates of the target version.
  unfoldable pub find_candidate : String → String → List (Contract F) → Option (Contract F)
  find_candidate route method [] = none
  find_candidate route method (c ∷ cs) =
      if binds route method c then some c else find_candidate route method cs

  unfoldable pub bound :
      Contract F → Contract F → Option (Contract F) → Result LoadError (Option (Contract F))
  bound c cur none = err (
      validation cur.contract_version "transform.target" (
        because ("transform target version does not bind (" <> c.route <> ", " <> c.method <> ")")))
  bound c cur (some next) = ok (some next)

  unfoldable pub candidate_of :
      Contract F → Contract F → Option (List (Contract F)) → Result LoadError (Option (Contract F))
  candidate_of c cur none = err (
      validation cur.contract_version "transform.target"
        (because "transform target names an unknown version"))
  candidate_of c cur (some candidates) = bound c cur (find_candidate c.route c.method candidates)

  abbrev unless_terminal :
      Bool → Result LoadError (Option (Contract F)) → Result LoadError (Option (Contract F))
  unless_terminal true r = ok none
  unless_terminal false r = r

  -- One round of the loop behind the test for a cycle; no link where the chain ends at `cur`.
  unfoldable pub next_link :
      List (String × List (Contract F))
      → Contract F
      → Contract F
      → Result LoadError (Option (Contract F))
  next_link by_version c cur =
      unless_terminal (cur.transform_target == "")
        (candidate_of c cur (lookup ◌==◌ cur.transform_target by_version))

  abbrev pub seen_version : Contract F → List String → Bool
  seen_version c seen = any (λ v. v == c.contract_version) seen

  abbrev prepend : Contract F → Outcome F → Outcome F
  prepend c none = none
  prepend c (some (err e)) = some (err e)
  prepend c (some (ok chain)) = some (ok (c ∷ chain))

  abbrev extend :
      Contract F → Result LoadError (Option (Contract F)) → (Contract F → Outcome F) → Outcome F
  extend cur (err e) k = some (err e)
  extend cur (ok none) k = some (ok (cur ∷ []))
  extend cur (ok (some next)) k = prepend cur (k next)

  abbrev unless_seen : Contract F → Bool → Outcome F → Outcome F
  unless_seen cur true r =
      some (
        err (validation cur.contract_version "transform.target" (because "transform chain cycles")))
  unless_seen cur false r = r

  -- The loop of `resolveChains` on one contract `c`: the chain from `cur` on.
  unfoldable pub walk_chain :
      ℕ → List (String × List (Contract F)) → Contract F → List String → Contract F → Outcome F
  walk_chain zero by_version c seen cur = none
  walk_chain (suc n) by_version c seen cur = unless_seen cur (seen_version cur seen) (
      extend cur (next_link by_version c cur)
        (λ next. walk_chain n by_version c (cur.contract_version ∷ seen) next))

  -- Every contract of the index.
  unfoldable pub indexed : List (String × List (Contract F)) → List (Contract F)
  indexed [] = []
  indexed ((v, cs) ∷ by_version) = cs ++ indexed by_version

  -- One round of the outer loop; the fuel is enough for one visit of every contract.
  unfoldable pub resolve_chain : List (String × List (Contract F)) → Contract F → Outcome F
  resolve_chain by_version c =
      walk_chain (suc (suc (length (indexed by_version)))) by_version c [] c

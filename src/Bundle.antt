-- ===== src/Bundle.antt =====
-- internal/bundle/bundle.go: the resolved contracts, and the lookups on a loaded bundle.
pub mod Matching
pub mod Failure
pub mod Contracts
pub mod Ops
pub mod Resolution
pub mod Chains
pub mod Install
pub mod Load
pub mod Merge
pub mod Collisions
use wavefront.Base.{
  ℤ, ◌==ℤ◌, String, Bool, ◌&&◌, ◌||◌, List, [], ◌∷◌, Option, none, some, if◌then◌else◌, ◌==◌,
}
use wavefront.Base.Dict.{lookup, values}
use wavefront.Base.Text.Sort.{sort_strings}
use wavefront.Transform.Apply.{Op}

-- Optional request attributes; "" is the absent value.
pub record Selectors : Type 0 where
  pub profile : String
  pub tenant : String
  pub cohort : String

-- A contract without its chain, which `Resolved` adds.
pub record Contract (F : Type 0) : Type 0 where
  pub contract_version : String
  pub route : String
  pub method : String
  pub request_message : String
  pub response_message : String
  pub request_ops : List (Op F)
  pub response_ops : List (Op F)
  pub target : String
  pub transform_target : String
  pub error_messages : List (ℤ × String)
  pub error_response_ops : List (ℤ × List (Op F))
  pub strict : Bool

pub record Resolved (F : Type 0) : Type 0 where
  pub contract : Contract F
  pub chain : List (Contract F)

pub record ContractKey : Type 0 where
  pub version : String
  pub route : String
  pub method : String

unfoldable pub key_equal : ContractKey → ContractKey → Bool
key_equal a b = a.version == b.version && a.route == b.route && a.method == b.method

abbrev pub key_of : {F : Type 0} → Contract F → ContractKey
key_of c = record { version = c.contract_version; route = c.route; method = c.method }

-- The bundle's FileDescriptorSet is a parameter of what reads it.
pub record Bundle (F : Type 0) : Type 0 where
  pub contracts : List (Resolved F)
  pub by_version : List (String × List (Resolved F))
  pub selector_variants : List (ContractKey × List (Selectors × Resolved F))

abbrev pub matches_axis : String → String → Bool
matches_axis rule request = rule == "" || rule == request

unfoldable pub selector_matches : Selectors → Selectors → Bool
selector_matches rule request =
    matches_axis rule.profile request.profile
    && matches_axis rule.tenant request.tenant
    && matches_axis rule.cohort request.cohort

abbrev pub overlap_axis : String → String → Bool
overlap_axis a b = a == "" || b == "" || a == b

unfoldable pub selector_overlap : Selectors → Selectors → Bool
selector_overlap a b =
    overlap_axis a.profile b.profile
    && overlap_axis a.tenant b.tenant
    && overlap_axis a.cohort b.cohort

unfoldable pub selector_empty : Selectors → Bool
selector_empty s = s.profile == "" && s.tenant == "" && s.cohort == ""

module _ {F : Type 0} where
  -- Contract.ErrorMessage
  unfoldable pub error_message : Contract F → ℤ → Option String
  error_message c status = lookup ◌==ℤ◌ status c.error_messages

  -- Contract.ErrorResponseOps
  unfoldable pub error_response_ops : Contract F → ℤ → List (Op F)
  error_response_ops c status = values ◌==ℤ◌ status c.error_response_ops

  abbrev pub binds : String → String → Contract F → Bool
  binds path method c = c.route == path && c.method == method

  abbrev first : List (Resolved F) → Option (Resolved F)
  first [] = none
  first (c ∷ cs) = some c

  -- Bundle.Contract
  unfoldable pub first_of_version : Bundle F → String → Option (Resolved F)
  first_of_version b version = first (values ◌==◌ version b.by_version)

  unfoldable pub find_binding : String → String → List (Resolved F) → Option (Resolved F)
  find_binding path method [] = none
  find_binding path method (c ∷ cs) =
      if binds path method c.contract then some c else find_binding path method cs

  -- Bundle.LookupRoute
  unfoldable pub lookup_route : Bundle F → String → String → Option (Resolved F)
  lookup_route b path method = find_binding path method b.contracts

  unfoldable pub find_variant : Selectors → List (Selectors × Resolved F) → Option (Resolved F)
  find_variant selected [] = none
  find_variant selected ((rule, c) ∷ variants) =
      if selector_matches rule selected then some c else find_variant selected variants

  abbrev pub or_else : Option (Resolved F) → Resolved F → Resolved F
  or_else none c = c
  or_else (some v) c = v

  -- The first variant of the contract that the selectors match, or the contract.
  unfoldable pub select_variant :
      Bundle F → String → String → String → Selectors → Option (Resolved F) → Option (Resolved F)
  select_variant b path method version selected none = none
  select_variant b path method version selected (some c) = some (
      or_else
        (find_variant selected (
          values key_equal (record { version = version; route = path; method = method })
            b.selector_variants))
        c)

  -- Bundle.Lookup
  unfoldable pub lookup_contract :
      Bundle F → String → String → String → Selectors → Option (Resolved F)
  lookup_contract b path method version selected =
      select_variant b path method version selected
        (find_binding path method (values ◌==◌ version b.by_version))

  abbrev keys_of : List (String × List (Resolved F)) → List String
  keys_of [] = []
  keys_of ((v, rs) ∷ by_version) = v ∷ keys_of by_version

  -- Bundle.Versions
  unfoldable pub versions : Bundle F → List String
  versions b = sort_strings (keys_of b.by_version)

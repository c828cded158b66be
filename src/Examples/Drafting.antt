-- ===== src/Examples/Drafting.antt =====
-- Drafts of transforms, internal/bundlegen, at concrete inputs.
use wavefront.Base.{
  ℕ, ◌+◌, ◌≤◌, String, ◌≡◌, false, List, [], ◌∷◌, if◌then◌else◌, ◌==◌, All, arith, subst, eq_iff,
  inl, inr, Bool-cases,
}
use wavefront.Bundle.Ops.{request}
use wavefront.Bundlegen.Schema.{Schema, leaf}
use wavefront.Bundlegen.Drift.{names_of}
use wavefront.Bundlegen.Drift.Pairs.{count, firsts, seconds}
use wavefront.Bundlegen.Drift.Draft.{plan_fields, draft_fields}
use wavefront.Bundlegen.Drift.Accounted.{IsMap, only_in, plan_fields-accounted}
use wavefront.Bundlegen.Drift.Typed.{IsTyped, draft_fields-IsTyped}
use wavefront.Bundlegen.Drift.Loads.{LoadsAsString, draft_fields-loads}
use wavefront.Examples.Platform.{descriptors}

-- Only the names of these fields are lowered.
abbrev to_lower : String → String
to_lower s = if s == "userName" then "username" else s

abbrev quote : String → String
quote s = s

abbrev from_fields : List (String × Schema)
from_fields =
    ("userName", leaf "" "string" "")
    ∷ ("age", leaf "" "string" "")
    ∷ ("old", leaf "" "boolean" "")
    ∷ []

abbrev to_fields : List (String × Schema)
to_fields = ("user_name", leaf "" "string" "") ∷ ("age", leaf "" "integer" "int64") ∷ []

to_fields-IsMap : IsMap to_fields
to_fields-IsMap n = elim (Bool-cases ("user_name" == n)) [
  | inl e ↦ subst (λ m. count m (names_of to_fields) ≤ 1) ((eq_iff "user_name" n).0 e) (omega arith)
  | inr e ↦ ground (arith, e)
]

plan_fields-accounted_example :
    let p = plan_fields to_lower quote from_fields to_fields false in
    (only_in "old" from_fields to_fields
      ≡ count "old" (firsts p.renames.pairs)
        + count "old" (firsts p.candidates.pairs)
        + count "old" p.candidates.unmatched)
    × (only_in "old" to_fields from_fields
        ≡ count "old" (seconds p.renames.pairs)
          + count "old" (seconds p.candidates.pairs)
          + count "old" p.unmatched_added)
plan_fields-accounted_example =
    plan_fields-accounted to_lower quote from_fields to_fields "old" false to_fields-IsMap

draft_fields-IsTyped_example :
    All
      (λ s. IsTyped to_lower quote from_fields to_fields s.args)
      (draft_fields to_lower quote from_fields to_fields "request" false).stanzas
draft_fields-IsTyped_example =
    draft_fields-IsTyped to_lower quote from_fields to_fields "request" false

draft_fields-loads_example :
    All
      (λ s. LoadsAsString descriptors ℕ "v1" request "Pay" "Pay" s.args)
      (draft_fields to_lower quote from_fields to_fields "request" false).stanzas
draft_fields-loads_example =
    draft_fields-loads descriptors ℕ "v1" request "Pay" "Pay" to_lower quote from_fields to_fields
      "request" false

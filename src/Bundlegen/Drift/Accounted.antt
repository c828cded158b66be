-- ===== src/Bundlegen/Drift/Accounted.antt =====
-- internal/bundlegen/drift.go: every field that the shapes do not share is accounted for once.
use wavefront.Base.{
  ◌+◌, ◌≤◌, ℕ, ◌∷◌, map, eqb, filter, if◌then◌else◌, String, ◌≡◌, refl, Bool, true, false, not,
  List, [], arith, inl, inr, Bool-cases,
}
use wavefront.Bundlegen.Schema.{Schema}
use wavefront.Bundlegen.Drift.{
  contains, Matching, unused, names_of, sorted_keys, match_case_renames, match_ambiguous_pairs,
}
use wavefront.Bundlegen.Drift.Pairs.{
  count, firsts, seconds, count-sort_strings, count-filter, count-contains, count-removed, IsTaken,
  match_removed-IsTaken,
}
use wavefront.Bundlegen.Drift.Draft.{
  Plan, plan_fields, renames_of, leftover, candidates_of, removed_fields, added_fields,
}

-- How often a shape has a field of that name.
abbrev pub fields_named : String → List (String × Schema) → ℕ
fields_named n fields = count n (map (λ f. f.0) fields)

-- How often a shape has a field of a name that the other shape does not have.
abbrev pub only_in : String → List (String × Schema) → List (String × Schema) → ℕ
only_in n fields others = if eqb (fields_named n others) 0 then fields_named n fields else 0

-- The fields of a shape have different names.
abbrev pub IsMap : List (String × Schema) → Type 0
IsMap fields = (n : String) → fields_named n fields ≤ 1

names_of-count :
    (n : String) (fields : List (String × Schema))
    → count n (names_of fields) ≡ fields_named n fields
names_of-count n [] = refl
names_of-count n ((m, s) ∷ fields) = omega (arith, names_of-count n fields)

-- The names that only one of two shapes has, as the drafter filters them.
filter-only_in :
    (n : String) (fields others : List (String × Schema))
    → count n (filter (λ m. not (contains m (sorted_keys others))) (sorted_keys fields))
      ≡ only_in n fields others
unfolding sorted_keys
filter-only_in n fields others = ground (
  arith,
  count-filter (λ m. not (contains m (sorted_keys others))) n (sorted_keys fields),
  count-sort_strings n (names_of fields),
  count-sort_strings n (names_of others),
  names_of-count n fields,
  names_of-count n others,
  count-contains n (sorted_keys others),
)

-- An added field is the second part of one pair, or not used.
abbrev Splits : String → List String → Matching → Type 0
Splits n added m = count n added ≡ count n (seconds m.pairs) + count n (unused m added)

IsTaken-Splits :
    (n : String) (added : List String) (m : Matching)
    → count n added ≤ 1
    → IsTaken n added [] m
    → Splits n added m
IsTaken-Splits n added m h t =
    let split = count-filter (λ a. not (contains a m.used)) n added in
    elim (Bool-cases (contains n m.used)) [
      | inl e ↦ ground (arith, e, split, t.counted, t.from_added e refl, count-contains n added, h)
      | inr e ↦ ground (arith, e, split, t.counted)
    ]

Splits-bound :
    (n : String) (added : List String) (m : Matching)
    → count n added ≤ 1
    → Splits n added m
    → count n (unused m added) ≤ 1
Splits-bound n added m h s = omega (arith, h, s)

module _ (to_lower quote : String → String) (from_fields to_fields : List (String × Schema)) where
  abbrev plan : Bool → Plan
  plan strict = plan_fields to_lower quote from_fields to_fields strict

  added-bound :
      (n : String)
      → IsMap to_fields
      → count n (added_fields to_lower quote from_fields to_fields) ≤ 1
  added-bound n h = ground (arith, filter-only_in n to_fields from_fields, h n)

  renames-Splits :
      (n : String) (strict : Bool)
      → IsMap to_fields
      → Splits n
          (added_fields to_lower quote from_fields to_fields)
          (renames_of to_lower quote from_fields to_fields strict)
  unfolding match_case_renames
  renames-Splits n true h =
      ground (arith, count-filter (λ a. true) n (added_fields to_lower quote from_fields to_fields))
  renames-Splits n false h =
      IsTaken-Splits n (added_fields to_lower quote from_fields to_fields) _ (added-bound n h)
        (match_removed-IsTaken _ _ n _ [] (removed_fields to_lower quote from_fields to_fields))

  renames-removed :
      (n : String) (strict : Bool)
      → let m = renames_of to_lower quote from_fields to_fields strict in
        count n (removed_fields to_lower quote from_fields to_fields)
        ≡ count n (firsts m.pairs) + count n m.unmatched
  unfolding match_case_renames
  renames-removed n true = omega arith
  renames-removed n false = count-removed _ _ n _ [] _

  -- If the fields of the to shape have different names, then for every name, strict or not: the
  -- from shape has it alone exactly as often as it is renamed, part of a candidate or left for a
  -- note, and the to shape has it alone exactly as often as it is the target of a rename, part of
  -- a candidate or left for a default.
  pub plan_fields-accounted :
      (n : String) (strict : Bool)
      → IsMap to_fields
      → let p = plan_fields to_lower quote from_fields to_fields strict in
        (only_in n from_fields to_fields
          ≡ count n (firsts p.renames.pairs)
            + count n (firsts p.candidates.pairs)
            + count n p.candidates.unmatched)
        × (only_in n to_fields from_fields
            ≡ count n (seconds p.renames.pairs)
              + count n (seconds p.candidates.pairs)
              + count n p.unmatched_added)
  unfolding plan_fields match_ambiguous_pairs
  plan_fields-accounted n strict h =
      let first = renames-Splits n strict h in
      let rest = leftover to_lower quote from_fields to_fields strict in
      let second : Splits n rest (candidates_of to_lower quote from_fields to_fields strict) =
        IsTaken-Splits n rest _
          (Splits-bound n _ (renames_of to_lower quote from_fields to_fields strict)
            (added-bound n h) first)
          (match_removed-IsTaken _ _ n rest [] _) in
      (
        omega (
          arith,
          filter-only_in n from_fields to_fields,
          renames-removed n strict,
          count-removed _ _ n rest []
              (renames_of to_lower quote from_fields to_fields strict).unmatched,
        ),
        omega (arith, filter-only_in n to_fields from_fields, first, second),
      )

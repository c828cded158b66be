-- ===== src/Bundlegen/Drift.antt =====
-- internal/bundlegen/drift.go: the fields that two shapes do not share are paired.
pub mod Pairs
pub mod Accounted
pub mod Typed
pub mod Loads
pub mod Draft
use wavefront.Base.{
  ℕ, ◌-◌, String, Bool, not, ◌&&◌, List, [], ◌∷◌, if◌then◌else◌, ◌==◌, eqb, any, filter,
}
use Prim.Native.Char.{code}
use Prim.Native.String
use wavefront.Base.Text.Sort.{sort_strings}
use wavefront.Bundlegen.Schema.{Schema, field_schema, primitive_type}

abbrev pub contains : String → List String → Bool
contains n names = any (λ x. x == n) names

-- strings.ReplaceAll(s, c, ""), for a text of one character
remove_char : ℕ → String → String
remove_char c String.[] = String.[]
remove_char c (String.◌∷◌ d s) =
    let rest = remove_char c s in if eqb (code d) c then rest else String.◌∷◌ d rest

abbrev pub names_of : List (String × Schema) → List String
names_of [] = []
names_of ((n, s) ∷ fields) = n ∷ names_of fields

-- sortedKeys
unfoldable pub sorted_keys : List (String × Schema) → List String
sorted_keys fields = sort_strings (names_of fields)

-- The pairs, the removed fields that found no peer, and the added fields that are taken.
pub record Matching : Type 0 where
  pub pairs : List (String × String)
  pub unmatched : List String
  pub used : List String

abbrev pub skip : String → Matching → Matching
skip r m = record m { unmatched = r ∷ m.unmatched }

abbrev pub pair : String → String → Matching → Matching
pair r a m = record m { pairs = (r, a) ∷ m.pairs }

abbrev pub mark : String → List String → List String
mark matched used = if matched == "" then used else matched ∷ used

-- The loops that matchCaseRenames and matchAmbiguousPairs share: a removed field that is
-- `eligible` is paired with the first added field that is not used and `fits` it.
module _ (eligible : String → Bool) (fits : String → String → Bool) where
  unfoldable pub find_match : List String → String → List String → String
  find_match used r [] = ""
  find_match used r (a ∷ added) =
      if not (contains a used) && fits r a then a else find_match used r added

  abbrev pub choose_added : List String → String → List String → String
  choose_added used r added = if eligible r then find_match used r added else ""

  unfoldable pub match_removed : List String → List String → List String → Matching
  match_removed added used [] = record { pairs = []; unmatched = []; used = used }
  match_removed added used (r ∷ removed) =
      let matched = choose_added used r added in
      let rest = match_removed added (mark matched used) removed in
      if matched == "" then skip r rest else pair r matched rest

-- What is not used of the added fields.
abbrev pub unused : Matching → List String → List String
unused m added = filter (λ a. not (contains a m.used)) added

module _ (to_lower : String → String) where
  -- normalizeFieldName
  unfoldable pub normalize_field_name : String → String
  unfolding remove_char
  normalize_field_name s = remove_char b'-' (remove_char b'_' (to_lower s))

  module _ (from_schemas to_schemas : List (String × Schema)) where
    abbrev pub from_type : String → String
    from_type r = primitive_type (field_schema r from_schemas)

    abbrev pub to_type : String → String
    to_type a = primitive_type (field_schema a to_schemas)

    abbrev pub has_type : String → Bool
    has_type r = not (from_type r == "")

    abbrev pub same_type : String → String → Bool
    same_type r a = not (to_type a == "") && to_type a == from_type r

    abbrev pub is_case_candidate : String → Bool
    is_case_candidate r = not (normalize_field_name r == "") && has_type r

    abbrev pub is_case_rename : String → String → Bool
    is_case_rename r a = normalize_field_name a == normalize_field_name r && same_type r a

    -- matchCaseRenames
    unfoldable pub match_case_renames : List String → List String → Matching
    match_case_renames removed added =
        match_removed is_case_candidate is_case_rename added [] removed

    -- matchAmbiguousPairs
    unfoldable pub match_ambiguous_pairs : List String → List String → Matching
    match_ambiguous_pairs removed added = match_removed has_type same_type added [] removed

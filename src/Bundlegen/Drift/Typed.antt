-- ===== src/Bundlegen/Drift/Typed.antt =====
-- internal/bundlegen/drift.go: what a drafted stanza says of the fields that it names.
use wavefront.Base.{
  String, ◌≡◌, ◌≢◌, refl, sym, Bool, true, false, not, List, [], ◌∷◌, ◌++◌, map, ◌==◌, All,
  All-append, arith, eq_iff, inl, inr, Bool-cases, filter, All-filter,
}
use wavefront.Bundlegen.Schema.{Schema, field_schema, primitive_type, zero_for_schema}
use wavefront.Bundlegen.Drift.{
  contains, choose_added, match_removed, match_case_renames, sorted_keys, normalize_field_name,
  is_case_candidate, is_case_rename,
}
use wavefront.Bundlegen.Drift.Pairs.{choose_added-IsChoice}
use wavefront.Bundlegen.Drift.Draft.{
  StanzaArgs, rename_args, default_args, optionalize_args, coerce_args, StanzaProposal, plan_fields,
  renames_of, added_fields, rename_stanza, default_stanza, coerce_stanzas, is_changed, stanzas_of,
  draft_fields, from_type_of, to_type_of,
}

All-of_filter :
    {A : Type 0} (P : A → Type 0) (p : A → Bool) (xs : List A) → All P xs → All P (filter p xs)
All-of_filter P p [] h = tt
All-of_filter P p (x ∷ xs) (a, h) = elim (Bool-cases (p x)) [
  | inl e ↦ rw e (a, All-of_filter P p xs h)
  | inr e ↦ rw e (All-of_filter P p xs h)
]

module _ (eligible : String → Bool) (fits : String → String → Bool) where
  pairs-fit :
      (added used removed : List String)
      → All
          (λ (r, a). (eligible r ≡ true) × (fits r a ≡ true))
          (match_removed eligible fits added used removed).pairs
  unfolding match_removed
  pairs-fit added used [] = tt
  pairs-fit added used (r ∷ removed) =
      let c = choose_added eligible fits used r added in
      elim (Bool-cases (c == "")) [
        | inl e ↦ rw e (pairs-fit added used removed)
        | inr e ↦
            let ((k, u, f), t) = choose_added-IsChoice eligible fits used r added c refl e in
            rw e ((t, f), pairs-fit added (c ∷ used) removed)
      ]

module _ (to_lower quote : String → String) (from_fields to_fields : List (String × Schema)) where
  abbrev SameType : String → String → Type 0
  SameType r a =
      (primitive_type (field_schema r from_fields) ≡ primitive_type (field_schema a to_fields))
      × (primitive_type (field_schema r from_fields) ≢ "")

  -- What a stanza promises: a rename joins fields of one primitive type whose names are the same up
  -- to case and separators, a default seeds a field that the from shape lacks with a zero of its
  -- schema, and a coercion names the new type of a field whose primitive type changed.
  abbrev pub IsTyped : StanzaArgs → Type 0
  IsTyped (rename_args r a) =
      SameType r a × (normalize_field_name to_lower a ≡ normalize_field_name to_lower r)
  IsTyped (default_args n value) =
      (contains n (sorted_keys from_fields) ≡ false)
      × (value ≡ zero_for_schema (field_schema n to_fields))
  IsTyped (optionalize_args n) = ⊥
  IsTyped (coerce_args n to) =
      (to ≡ primitive_type (field_schema n to_fields))
      × (to ≢ "")
      × (primitive_type (field_schema n from_fields) ≢ "")
      × (primitive_type (field_schema n from_fields) ≢ to)

  ne_of_eqb : (s t : String) → (s == t) ≡ false → s ≢ t
  ne_of_eqb s t h e = ground (arith, h, (eq_iff s t).1 e)

  fits-IsTyped :
      (r a : String)
      → (is_case_candidate to_lower from_fields to_fields r ≡ true)
        × (is_case_rename to_lower from_fields to_fields r a ≡ true)
      → IsTyped (rename_args r a)
  fits-IsTyped r a (e, f) =
      let x = from_type_of to_lower quote from_fields to_fields r in
      let y = to_type_of to_lower quote from_fields to_fields a in
      (
        (sym ((eq_iff y x).0 (ground (arith, f))), ne_of_eqb x "" (ground (arith, e))),
        (eq_iff (normalize_field_name to_lower a) (normalize_field_name to_lower r)).0
            (ground (arith, f)),
      )

  renames-IsTyped :
      (pairs : List (String × String))
      → All
          (λ (r, a).
            (is_case_candidate to_lower from_fields to_fields r ≡ true)
            × (is_case_rename to_lower from_fields to_fields r a ≡ true))
          pairs
      → All (λ s. IsTyped s.args) (map (rename_stanza to_lower quote from_fields to_fields) pairs)
  unfolding rename_stanza
  renames-IsTyped [] h = tt
  renames-IsTyped ((r, a) ∷ pairs) (f, h) = (fits-IsTyped r a f, renames-IsTyped pairs h)

  defaults-IsTyped :
      (names : List String)
      → All (λ n. contains n (sorted_keys from_fields) ≡ false) names
      → All (λ s. IsTyped s.args) (map (default_stanza to_lower quote from_fields to_fields) names)
  unfolding default_stanza
  defaults-IsTyped [] h = tt
  defaults-IsTyped (n ∷ names) (a, h) = ((a, refl), defaults-IsTyped names h)

  changed-IsTyped :
      (n : String)
      → is_changed to_lower quote from_fields to_fields n ≡ true
      → IsTyped (coerce_args n (to_type_of to_lower quote from_fields to_fields n))
  changed-IsTyped n h =
      let x = from_type_of to_lower quote from_fields to_fields n in
      let y = to_type_of to_lower quote from_fields to_fields n in
      (
        refl,
        ne_of_eqb y "" (ground (arith, h)),
        ne_of_eqb x "" (ground (arith, h)),
        ne_of_eqb x y (ground (arith, h)),
      )

  coerces-IsTyped :
      (names : List String)
      → All (λ s. IsTyped s.args) (coerce_stanzas to_lower quote from_fields to_fields names)
  unfolding coerce_stanzas
  coerces-IsTyped [] = tt
  coerces-IsTyped (n ∷ names) =
      elim (Bool-cases (is_changed to_lower quote from_fields to_fields n)) [
        | inl e ↦ rw e (changed-IsTyped n e, coerces-IsTyped names)
        | inr e ↦ rw e (coerces-IsTyped names)
      ]

  renamed-IsTyped :
      (strict : Bool)
      → All
          (λ s. IsTyped s.args)
          (map
            (rename_stanza to_lower quote from_fields to_fields)
            (renames_of to_lower quote from_fields to_fields strict).pairs)
  unfolding match_case_renames
  renamed-IsTyped true = tt
  renamed-IsTyped false = renames-IsTyped _ (pairs-fit _ _ _ [] _)

  added-new :
      All
        (λ n. contains n (sorted_keys from_fields) ≡ false)
        (added_fields to_lower quote from_fields to_fields)
  added-new =
      All-filter _ (λ n. not (contains n (sorted_keys from_fields))) (λ n h. ground (arith, h)) _

  -- Whatever the two shapes are, strict or not: a drafted rename joins fields of one primitive
  -- type whose names are the same up to case and separators, a drafted default seeds a field that
  -- the from shape lacks with the zero of its schema, a drafted coercion names the new type of a
  -- field whose primitive type changed, and no optionalize stanza is drafted.
  pub draft_fields-IsTyped :
      (side : String) (strict : Bool)
      → All
          (λ s. IsTyped s.args)
          (draft_fields to_lower quote from_fields to_fields side strict).stanzas
  unfolding draft_fields stanzas_of plan_fields
  draft_fields-IsTyped side strict =
      let P : StanzaProposal → Type 0 = λ s. IsTyped s.args in
      let New : String → Type 0 = λ n. contains n (sorted_keys from_fields) ≡ false in
      let p = plan_fields to_lower quote from_fields to_fields strict in
      let coercions =
        coerce_stanzas to_lower quote from_fields to_fields (sorted_keys from_fields) in
      All-append P (map (rename_stanza to_lower quote from_fields to_fields) p.renames.pairs)
        (map (default_stanza to_lower quote from_fields to_fields) p.unmatched_added ++ coercions)
        (renamed-IsTyped strict)
        (All-append P (map (default_stanza to_lower quote from_fields to_fields) p.unmatched_added)
          coercions
          (defaults-IsTyped p.unmatched_added (
            All-of_filter New (λ a. not (contains a p.candidates.used)) _
              (All-of_filter New (λ a. not (contains a p.renames.used)) _ added-new)))
          (coerces-IsTyped (sorted_keys from_fields)))

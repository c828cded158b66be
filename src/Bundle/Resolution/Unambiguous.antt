-- ===== src/Bundle/Resolution/Unambiguous.antt =====
-- The rules of a version never compete, internal/bundle/bundle.go.
use wavefront.Base.{
  ℤ, pos, ◌==ℤ◌, String, ◌≡◌, refl, true, false, not, ◌&&◌, List, [], ◌∷◌, ◌++◌, Result, ok, err,
  ◌==◌, All, All-append, arith, Returns, Returns->>=, Returns_elim, Returns-fail_if, Returns-mono,
  subst, eq_iff, inl, inr, Bool-cases,
}
use wavefront.Base.Text.{trim_space}
use wavefront.Base.Dict.{values, append_at, values-append_at}
use wavefront.Bundle.{Selectors, selector_matches, selector_overlap, selector_empty}
use wavefront.Bundle.Matching.{selector_overlap_iff}
use wavefront.Bundle.Resolution.{
  YamlResolution, resolution_selectors, or_zero, selectors_of, check_existing, read_selectors,
  add_override, same_bool, is_set, blank_target, add_overrides, load_resolution,
}

read_selectors-or_zero :
    (cv : String) (m : Result String Selectors) → Returns (λ s. s ≡ or_zero m) (read_selectors cv m)
unfolding read_selectors
read_selectors-or_zero cv (ok s) = refl
read_selectors-or_zero cv (err e) = tt

module _ {F : Type 0} where
  -- Two rules of a version: not both are version-only, and no request matches both unless one is.
  pub record Compatible (a b : YamlResolution F) : Type 0 where
    pub one_fallback : (selector_empty (selectors_of a) && selector_empty (selectors_of b)) ≡ false
    pub disjoint :
        (r : Selectors)
        → selector_empty (selectors_of a) ≡ false
        → selector_empty (selectors_of b) ≡ false
        → (selector_matches (selectors_of a) r && selector_matches (selectors_of b) r) ≡ false

  -- Every rule is compatible with every later one.
  abbrev pub IsUnambiguous : List (YamlResolution F) → Type 0
  IsUnambiguous [] = Unit
  IsUnambiguous (ov ∷ rest) = All (Compatible ov) rest × IsUnambiguous rest

  compatible :
      (a b : YamlResolution F)
      → (selector_empty (selectors_of a) && selector_empty (selectors_of b)) ≡ false
      → (not (selector_empty (selectors_of a))
          && not (selector_empty (selectors_of b))
          && selector_overlap (selectors_of a) (selectors_of b))
        ≡ false
      → Compatible b a
  compatible a b h k = record {
    one_fallback = ground arith;
    disjoint = λ r p q.
        elim (Bool-cases
          (selector_matches (selectors_of b) r && selector_matches (selectors_of a) r)) [
            | inl e ↦
                let both : (selector_matches (selectors_of a) r ≡ true)
                    × (selector_matches (selectors_of b) r ≡ true) =
                  ground arith in
                let over =
                  (selector_overlap_iff (selectors_of a) (selectors_of b)).1 (r, both.0, both.1) in
                ground arith
            | inr e ↦ e
          ];
  }

  check_existing-Compatible :
      (cv : String) (ov : YamlResolution F) (rules : List (YamlResolution F))
      → Returns
          (λ (_ : Unit {0}). All (λ old. Compatible old ov) rules)
          (check_existing cv (selectors_of ov) rules)
  unfolding check_existing
  check_existing-Compatible cv ov [] = tt
  check_existing-Compatible cv ov (old ∷ rules) =
      Returns-fail_if _ (selector_empty (selectors_of ov) && selector_empty (selectors_of old)) _ _
        (λ a.
          Returns-fail_if _
            (not (selector_empty (selectors_of ov))
              && not (selector_empty (selectors_of old))
              && selector_overlap (selectors_of ov) (selectors_of old))
            _ _
            (λ b.
              Returns-mono (λ (_ : Unit {0}). All (λ old. Compatible old ov) rules) _
                (check_existing cv (selectors_of ov) rules) (λ _ h. (compatible ov old a b, h))
                (check_existing-Compatible cv ov rules)))

  IsUnambiguous-append :
      (rules : List (YamlResolution F)) (ov : YamlResolution F)
      → IsUnambiguous rules
      → All (λ old. Compatible old ov) rules
      → IsUnambiguous (rules ++ ov ∷ [])
  IsUnambiguous-append [] ov u h = (tt, tt)
  IsUnambiguous-append (old ∷ rules) ov (c, u) (k, h) =
      (All-append (Compatible old) rules (ov ∷ []) c (k, tt), IsUnambiguous-append rules ov u h)

  abbrev Unambiguous : List (String × List (YamlResolution F)) → Type 0
  Unambiguous out = (cv : String) → IsUnambiguous (values ◌==◌ cv out)

  append_at-Unambiguous :
      (cv : String) (ov : YamlResolution F) (out : List (String × List (YamlResolution F)))
      → Unambiguous out
      → All (λ old. Compatible old ov) (values ◌==◌ cv out)
      → Unambiguous (append_at ◌==◌ cv ov out)
  append_at-Unambiguous cv ov out u h j = elim (Bool-cases (cv == j)) [
    | inl e ↦
        let same = (eq_iff cv j).0 e in
        rw (values-append_at ◌==◌ eq_iff cv j ov out, e)
          (IsUnambiguous-append (values ◌==◌ j out) ov (u j)
            (subst (λ k. All (λ old. Compatible old ov) (values ◌==◌ k out)) same h))
    | inr e ↦ rw (values-append_at ◌==◌ eq_iff cv j ov out, e) (u j)
  ]

  check_selectors-Compatible :
      (cv : String) (ov : YamlResolution F) (rules : List (YamlResolution F)) (s : Selectors)
      → s ≡ or_zero (resolution_selectors ov)
      → Returns (λ (_ : Unit {0}). All (λ old. Compatible old ov) rules) (check_existing cv s rules)
  unfolding selectors_of
  check_selectors-Compatible cv ov rules s e = rw (e) (check_existing-Compatible cv ov rules)

  add_override-Unambiguous :
      (out : List (String × List (YamlResolution F))) (ov : YamlResolution F)
      → Unambiguous out
      → Returns Unambiguous (add_override out ov)
  unfolding add_override
  add_override-Unambiguous out ov u =
      let cv = trim_space ov.contract_version in
      Returns-fail_if Unambiguous (cv == "") _ _ (λ _.
        Returns->>= _ Unambiguous (read_selectors cv (resolution_selectors ov)) _
          (read_selectors-or_zero cv (resolution_selectors ov))
          (λ s e.
            Returns->>= _ Unambiguous (check_existing cv s (values ◌==◌ cv out)) _
              (check_selectors-Compatible cv ov (values ◌==◌ cv out) s e)
              (λ _ h.
                Returns-fail_if Unambiguous (same_bool (is_set ov.transform) (is_set ov.route)) _ _
                  (λ _.
                    Returns-fail_if Unambiguous (blank_target ov.route) _ _
                      (λ _. append_at-Unambiguous cv ov out u h)))))

  add_overrides-Unambiguous :
      (out : List (String × List (YamlResolution F))) (overrides : List (YamlResolution F))
      → Unambiguous out
      → Returns Unambiguous (add_overrides out overrides)
  unfolding add_overrides
  add_overrides-Unambiguous out [] u = u
  add_overrides-Unambiguous out (ov ∷ overrides) u =
      Returns->>= Unambiguous Unambiguous (add_override out ov) _
        (add_override-Unambiguous out ov u) (λ out' u'. add_overrides-Unambiguous out' overrides u')

  -- When the overrides load, then of the rules of every version no two are both without a
  -- selector, and no request matches two rules that both have one.
  pub load_resolution-IsUnambiguous :
      (version : ℤ) (overrides : List (YamlResolution F))
      (out : List (String × List (YamlResolution F)))
      → load_resolution version overrides ≡ ok out
      → (cv : String) → IsUnambiguous (values ◌==◌ cv out)
  unfolding load_resolution values
  load_resolution-IsUnambiguous version overrides out e =
      Returns_elim Unambiguous (load_resolution version overrides)
        (Returns-fail_if Unambiguous (not (version ==ℤ pos 1)) _ _
          (λ _. add_overrides-Unambiguous [] overrides (λ cv. tt)))
        e

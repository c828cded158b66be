-- ===== src/Bundle/Matching.antt =====
-- Which requests the selector tuples of two rules match, internal/bundle/bundle.go.
use wavefront.Base.{String, ◌≡◌, ◌↔◌, Bool, true, ◌&&◌, if◌then◌else◌, ◌==◌, arith, eq_iff, eq_refl}
use wavefront.Bundle.{
  Selectors, matches_axis, overlap_axis, selector_matches, selector_overlap, selector_empty,
}

-- A value on one axis that both rules match.
common : String → String → String
common a b = if a == "" then b else a

common_matches :
    (a b : String)
    → overlap_axis a b ≡ true
    → (matches_axis a (common a b) ≡ true) × (matches_axis b (common a b) ≡ true)
unfolding common
common_matches a b h =
    ground (arith, eq_iff a "", eq_iff b "", eq_iff a b, eq_iff b a, eq_refl a, eq_refl b)

matches_overlap :
    (a b r : String) → matches_axis a r ≡ true → matches_axis b r ≡ true → overlap_axis a b ≡ true
matches_overlap a b r h k = ground (arith, eq_iff a r, eq_iff b r, eq_iff a b)

and_parts : (p q r : Bool) → (p && q && r) ≡ true → (p ≡ true) × (q ≡ true) × (r ≡ true)
and_parts p q r h = ground arith

-- Two selector tuples overlap exactly when some request matches both.
pub selector_overlap_iff :
    (a b : Selectors)
    → (selector_overlap a b ≡ true)
      ↔ ((r : Selectors) × (selector_matches a r ≡ true) × (selector_matches b r ≡ true))
unfolding selector_overlap selector_matches
selector_overlap_iff a b = (
  λ h.
      let (p, t, c) = and_parts _ _ _ h in
      (
        record {
          profile = common a.profile b.profile;
          tenant = common a.tenant b.tenant;
          cohort = common a.cohort b.cohort;
        },
        ground (
          arith,
          common_matches a.profile b.profile p,
          common_matches a.tenant b.tenant t,
          common_matches a.cohort b.cohort c,
        ),
        ground (
          arith,
          common_matches a.profile b.profile p,
          common_matches a.tenant b.tenant t,
          common_matches a.cohort b.cohort c,
        ),
      ),
  λ (r, h, k).
      let (p, t, c) = and_parts _ _ _ h in
      let (p', t', c') =
        and_parts (matches_axis b.profile r.profile) (matches_axis b.tenant r.tenant)
          (matches_axis b.cohort r.cohort) k in
      ground (
        arith,
        matches_overlap a.profile b.profile r.profile p p',
        matches_overlap a.tenant b.tenant r.tenant t t',
        matches_overlap a.cohort b.cohort r.cohort c c',
      ),
)

-- A tuple without a selector matches every request.
pub selector_matches_of_empty :
    (rule request : Selectors) → selector_empty rule ≡ true → selector_matches rule request ≡ true
unfolding selector_empty selector_matches
selector_matches_of_empty rule request h = ground arith

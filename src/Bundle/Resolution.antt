-- ===== src/Bundle/Resolution.antt =====
-- internal/bundle/bundle.go, loadResolution: the overrides of resolution.yaml, decoded.
pub mod Unambiguous
use wavefront.Base.{
  ◌-◌, ◌<◌, ℤ, pos, ◌==ℤ◌, String, ◌<>◌, Bool, true, false, not, ◌&&◌, List, [], ◌∷◌, Option, none,
  some, Result, ok, err, ◌>>=◌, ◌>>◌, ◌==◌, fail_if,
}
use wavefront.Base.Text.{trim_space}
use wavefront.Base.Dict.{values, append_at}
use wavefront.Bundle.{Selectors, selector_overlap, selector_empty}
use wavefront.Bundle.Failure.{LoadError, validation, because, unsupported_version}
use wavefront.Bundle.Ops.{YamlOp}

-- What the program observes of a yaml.Node: unset, a scalar that decodes into a text, or another.
pub data YamlNode : Type 0 where
  unset not_text : YamlNode
  text : String → YamlNode

-- The map of error responses is a list in the order of its iteration.
pub record YamlTransform (F : Type 0) : Type 0 where
  pub request : List (YamlOp F)
  pub response : List (YamlOp F)
  pub error_responses : List (String × List (YamlOp F))
  pub target : String

pub record YamlResolution (F : Type 0) : Type 0 where
  pub contract_version : String
  pub profile : YamlNode
  pub tenant : YamlNode
  pub cohort : YamlNode
  pub transform : Option (YamlTransform F)
  pub route : Option String

-- One round of the loop of `resolutionSelectors`.
selector_field : String → YamlNode → Result String String
selector_field name unset = ok ""
selector_field name not_text = err (name <> " must be a string")
selector_field name (text s) = do
  fail_if (trim_space s == "") (name <> " must not be blank when set")
  ok (trim_space s)

abbrev is_set {ℓ} : {A : Type ℓ} → Option A → Bool
is_set none = false
is_set (some a) = true

abbrev same_bool : Bool → Bool → Bool
same_bool true b = b
same_bool false b = not b

abbrev blank_target : Option String → Bool
blank_target none = false
blank_target (some t) = trim_space t == ""

abbrev or_zero : Result String Selectors → Selectors
or_zero (ok s) = s
or_zero (err e) = record { profile = ""; tenant = ""; cohort = "" }

read_selectors : String → Result String Selectors → Result LoadError Selectors
read_selectors cv (ok s) = ok s
read_selectors cv (err reason) = err (validation cv "selector" (because reason))

module _ {F : Type 0} where
  unfoldable pub resolution_selectors : YamlResolution F → Result String Selectors
  unfolding selector_field
  resolution_selectors ov = do
    profile ← selector_field "profile" ov.profile
    tenant ← selector_field "tenant" ov.tenant
    cohort ← selector_field "cohort" ov.cohort
    ok (record { profile = profile; tenant = tenant; cohort = cohort })

  -- `sel, _ := resolutionSelectors(ov)`
  unfoldable pub selectors_of : YamlResolution F → Selectors
  selectors_of ov = or_zero (resolution_selectors ov)

  -- The loop over the rules that the version has so far.
  check_existing : String → Selectors → List (YamlResolution F) → Result LoadError (Unit {0})
  check_existing cv selectors [] = ok tt
  check_existing cv selectors (existing ∷ rest) = do
    fail_if (selector_empty selectors && selector_empty (selectors_of existing))
        (validation cv "selector" (because "duplicate version-only resolution override"))
    fail_if
        (not (selector_empty selectors)
          && not (selector_empty (selectors_of existing))
          && selector_overlap selectors (selectors_of existing))
        (validation cv "selector"
          (because "ambiguous resolution overrides can match the same request"))
    check_existing cv selectors rest

  -- One round of the loop of `loadResolution`.
  unfoldable pub add_override :
      List (String × List (YamlResolution F))
      → YamlResolution F
      → Result LoadError (List (String × List (YamlResolution F)))
  unfolding check_existing read_selectors
  add_override out ov =
      let cv = trim_space ov.contract_version in
      do
        fail_if (cv == "") (
            validation "" "contract_version"
              (because "resolution override must name a contract version"))
        selectors ← read_selectors cv (resolution_selectors ov)
        check_existing cv selectors (values ◌==◌ cv out)
        fail_if (same_bool (is_set ov.transform) (is_set ov.route))
            (validation cv "override" (because "must set exactly one of transform or route"))
        fail_if (blank_target ov.route)
            (validation cv "route.target" (because "route.target must name a target"))
        ok (append_at ◌==◌ cv ov out)

  unfoldable pub add_overrides :
      List (String × List (YamlResolution F))
      → List (YamlResolution F)
      → Result LoadError (List (String × List (YamlResolution F)))
  add_overrides out [] = ok out
  add_overrides out (ov ∷ rest) = do out' ← add_override out ov; add_overrides out' rest

  -- The part of `loadResolution` behind the decoder; a file that is not there is no override.
  unfoldable pub load_resolution :
      ℤ → List (YamlResolution F) → Result LoadError (List (String × List (YamlResolution F)))
  load_resolution version overrides = do
    fail_if (not (version ==ℤ pos 1)) (unsupported_version version)
    add_overrides [] overrides

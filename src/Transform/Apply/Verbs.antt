-- ===== src/Transform/Apply/Verbs.antt =====
-- What the verbs do to the leaves that they reach, internal/transform/transform.go.
use wavefront.Base.{
  String, ◌≡◌, refl, sym, true, false, Result, ok, ◌==◌, Returns, Returns-all, subst, eq_iff, inl,
  inr, Bool-cases, Option-cases,
}
use wavefront.Json.{Json, bool, num, str, JsonCodec}
use wavefront.Transform.Apply.{coerce_to_string, coerce_to_number, coerce_to_bool, coerce_value}

-- The JSON type of a value, by the names that a coercion uses.
pub kind_of : {F : Type 0} → Json F → String
kind_of (str s) = "string"
kind_of (num x) = "number"
kind_of (bool b) = "bool"
kind_of v = "other"

module _ (c : JsonCodec) where
  open c use {Float}

  coerce_to_string-kind :
      (v : Json Float) → Returns (λ w. kind_of w ≡ "string") (coerce_to_string c v)
  unfolding coerce_to_string kind_of
  coerce_to_string-kind (str s) = refl
  coerce_to_string-kind (num s) = refl
  coerce_to_string-kind (bool s) = refl
  coerce_to_string-kind v = tt

  coerce_to_number-kind :
      (v : Json Float) → Returns (λ w. kind_of w ≡ "number") (coerce_to_number c v)
  unfolding coerce_to_number kind_of
  coerce_to_number-kind (num x) = refl
  coerce_to_number-kind (str s) = elim (Option-cases (c.parse_float s)) [
    | inl e ↦ rw e tt
    | inr (x, e) ↦ rw e refl
  ]
  coerce_to_number-kind v = tt

  coerce_to_bool-kind : (v : Json Float) → Returns (λ w. kind_of w ≡ "bool") (coerce_to_bool c v)
  unfolding coerce_to_bool kind_of
  coerce_to_bool-kind (bool b) = refl
  coerce_to_bool-kind (str s) = elim (Bool-cases (s == "true")) [
    | inl e ↦ rw e refl
    | inr e ↦ elim (Bool-cases (s == "false")) [ inl d ↦ rw (e, d) refl | inr d ↦ rw (e, d) tt ]
  ]
  coerce_to_bool-kind v = tt

  -- A choice of the target is a choice of the kind.
  chosen :
      (to name : String) (r : Result String (Json Float))
      → Returns (λ w. kind_of w ≡ name) r
      → (to == name) ≡ true
      → Returns (λ w. kind_of w ≡ to) r
  chosen to name r h e = subst (λ t. Returns (λ w. kind_of w ≡ t) r) (sym ((eq_iff to name).0 e)) h

  pub coerce_value-kind :
      (v : Json Float) (to : String) → Returns (λ w. kind_of w ≡ to) (coerce_value c v to)
  unfolding coerce_value
  coerce_value-kind v to = elim (Bool-cases (to == "string")) [
    | inl e ↦ rw e (chosen to "string" (coerce_to_string c v) (coerce_to_string-kind v) e)
    | inr e ↦ elim (Bool-cases (to == "number")) [
      | inl d ↦ rw (e, d) (chosen to "number" (coerce_to_number c v) (coerce_to_number-kind v) d)
      | inr d ↦ elim (Bool-cases (to == "bool")) [
        | inl b ↦ rw (e, d, b) (chosen to "bool" (coerce_to_bool c v) (coerce_to_bool-kind v) b)
        | inr b ↦ rw (e, d, b) tt
      ]
    ]
  ]

  -- A value of the target's type is left as it is.
  pub coerce_value_of_kind :
      (v : Json Float) (to : String)
      → kind_of v ≡ to
      → ((to == "other") ≡ false)
      → coerce_value c v to ≡ ok v
  unfolding coerce_value kind_of coerce_to_string coerce_to_number coerce_to_bool
  coerce_value_of_kind (str s) to e o = rw (← e)
  coerce_value_of_kind (num x) to e o = rw (← e)
  coerce_value_of_kind (bool b) to e o = rw (← e)
  coerce_value_of_kind v to e o = cc (rw (← e) at o)

  pub coerce_value-ne-other :
      (v : Json Float) (to : String) → Returns (λ _. (to == "other") ≡ false) (coerce_value c v to)
  unfolding coerce_value
  coerce_value-ne-other v to = elim (Bool-cases (to == "other")) [
    | inl e ↦ rw ((eq_iff to "other").0 e) tt
    | inr e ↦ Returns-all _ (coerce_value c v to) (λ _. e)
  ]

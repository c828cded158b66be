-- ===== src/Transform/Apply/Converts.antt =====
-- Which value a coercion makes of which, internal/transform/transform.go.
use wavefront.Base.{
  String, ◌≡◌, ◌⊎◌, refl, true, false, some, ◌==◌, Returns, Returns-mono, eq_iff, inl, inr,
  Bool-cases, Option-cases,
}
use wavefront.Json.{Json, bool, num, str, JsonCodec}
use wavefront.Transform.Apply.{coerce_to_string, coerce_to_number, coerce_to_bool, coerce_value}

module _ (c : JsonCodec) where
  open c use {Float, format_float, parse_float}

  -- A text stays; a number is formatted, a Boolean spelled.
  abbrev pub IsText : Json Float → Json Float → Type 0
  IsText (str s) w = w ≡ str s
  IsText (num x) w = w ≡ str (format_float x)
  IsText (bool true) w = w ≡ str "true"
  IsText (bool false) w = w ≡ str "false"
  IsText v w = ⊥

  -- A number stays; a text is parsed.
  abbrev pub IsNumber : Json Float → Json Float → Type 0
  IsNumber (num x) w = w ≡ num x
  IsNumber (str s) w = (x : Float) × (parse_float s ≡ some x) × (w ≡ num x)
  IsNumber v w = ⊥

  -- A Boolean stays; the two texts that spell one become it.
  abbrev pub IsBoolean : Json Float → Json Float → Type 0
  IsBoolean (bool b) w = w ≡ bool b
  IsBoolean (str s) w = ((s ≡ "true") × (w ≡ bool true)) ⊎ ((s ≡ "false") × (w ≡ bool false))
  IsBoolean v w = ⊥

  -- The second value is the first one, as a value of the target type.
  abbrev pub Converts : String → Json Float → Json Float → Type 0
  Converts to v w =
      ((to ≡ "string") × IsText v w)
      ⊎ (((to ≡ "number") × IsNumber v w) ⊎ ((to ≡ "bool") × IsBoolean v w))

  coerce_to_string-IsText : (v : Json Float) → Returns (IsText v) (coerce_to_string c v)
  unfolding coerce_to_string
  coerce_to_string-IsText (str s) = refl
  coerce_to_string-IsText (num x) = refl
  coerce_to_string-IsText (bool true) = refl
  coerce_to_string-IsText (bool false) = refl
  coerce_to_string-IsText v = tt

  coerce_to_number-IsNumber : (v : Json Float) → Returns (IsNumber v) (coerce_to_number c v)
  unfolding coerce_to_number
  coerce_to_number-IsNumber (num x) = refl
  coerce_to_number-IsNumber (str s) = elim (Option-cases (c.parse_float s)) [
    | inl e ↦ rw e tt
    | inr (x, e) ↦ rw e (x, e, refl)
  ]
  coerce_to_number-IsNumber v = tt

  coerce_to_bool-IsBoolean : (v : Json Float) → Returns (IsBoolean v) (coerce_to_bool c v)
  unfolding coerce_to_bool
  coerce_to_bool-IsBoolean (bool b) = refl
  coerce_to_bool-IsBoolean (str s) = elim (Bool-cases (s == "true")) [
    | inl e ↦ rw e (inl ((eq_iff s "true").0 e, refl))
    | inr e ↦ elim (Bool-cases (s == "false")) [
      | inl d ↦ rw (e, d) (inr ((eq_iff s "false").0 d, refl))
      | inr d ↦ rw (e, d) tt
    ]
  ]
  coerce_to_bool-IsBoolean v = tt

  pub coerce_value-Converts :
      (v : Json Float) (to : String) → Returns (Converts to v) (coerce_value c v to)
  unfolding coerce_value
  coerce_value-Converts v to = elim (Bool-cases (to == "string")) [
    | inl e ↦ rw e (
        Returns-mono (IsText v) (Converts to v) (coerce_to_string c v)
          (λ w h. inl ((eq_iff to "string").0 e, h)) (coerce_to_string-IsText v))
    | inr e ↦ elim (Bool-cases (to == "number")) [
      | inl d ↦
          rw (e, d)
            (Returns-mono (IsNumber v) (Converts to v) (coerce_to_number c v)
              (λ w h. inr (inl ((eq_iff to "number").0 d, h))) (coerce_to_number-IsNumber v))
      | inr d ↦ elim (Bool-cases (to == "bool")) [
        | inl b ↦
            rw (e, d, b)
              (Returns-mono (IsBoolean v) (Converts to v) (coerce_to_bool c v)
                (λ w h. inr (inr ((eq_iff to "bool").0 b, h))) (coerce_to_bool-IsBoolean v))
        | inr b ↦ rw (e, d, b) tt
      ]
    ]
  ]

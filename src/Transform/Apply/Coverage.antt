-- ===== src/Transform/Apply/Coverage.antt =====
-- Two consequences of how optionalized paths and injected values are represented.
use wavefront.Base.{
  ℤ, String, ◌<>◌, ◌≡◌, false, List, [], ◌∷◌, none, some, Result, err, ◌==◌, inl, inr, Bool-cases,
}
use wavefront.Json.{int, obj, Fields, find, JsonCodec}
use wavefront.Json.Laws.{find-set_self}
use wavefront.Transform.Path.{Segment, FieldPath, path_string, has_prefix_by_name}
use wavefront.Transform.Walk.{
  covers_by_name, walk_leaves, walk_leaves_ensure_objects, descend, absent_segment,
}
use wavefront.Transform.Apply.{
  of_int, default, optionalize, coerce, to_json, coerce_to_string, coerce_to_number, coerce_to_bool,
  coerce_value, defaulted, default_leaf, stored, coerced, coerce_leaf, apply_op, apply_ops,
}
use wavefront.Wireerror.{Error}

-- The segment of an object key.
abbrev pub key : String → Segment
key name = record { name = name; array = false }

module _ {F : Type 0} (fail : String → Error) where
  -- Below the top level the walker asks for coverage of the path that is left.
  walk_leaves-absent :
      (opts : List FieldPath) (fn : Fields F → String → Result Error (Fields F)) (a b leaf : String)
      (rest : FieldPath) (m sub : Fields F)
      → covers_by_name opts (key b ∷ key leaf ∷ rest) ≡ false
      → find a m ≡ some (obj sub)
      → find b sub ≡ none
      → walk_leaves fail opts fn (key a ∷ key b ∷ key leaf ∷ rest) m
        ≡ err (
            fail (
              "path "
              <> path_string (key b ∷ key leaf ∷ rest)
              <> ": segment "
              <> b
              <> " is absent"))
  unfolding walk_leaves descend absent_segment
  walk_leaves-absent opts fn a b leaf rest m sub uncovered found absent =
      rw (found, absent, uncovered)

module _ (c : JsonCodec) (fail : String → Error) where
  open c use {Float}

  -- An optionalized intermediate below the top level is not covered: after `optionalize a.b`, a
  -- coercion of a path that begins with `a.b` fails where the object at `a` lacks `b`, if `a` and
  -- `b` are different names.
  pub coerce-nested_optionalize :
      (a b leaf : String) (rest : FieldPath) (to : String) (m sub : Fields Float)
      → (a == b) ≡ false
      → find a m ≡ some (obj sub)
      → find b sub ≡ none
      → apply_ops c fail
          (optionalize (key a ∷ key b ∷ []) ∷ coerce (key a ∷ key b ∷ key leaf ∷ rest) to ∷ [])
          []
          m
        ≡ err (
            fail (
              "path "
              <> path_string (key b ∷ key leaf ∷ rest)
              <> ": segment "
              <> b
              <> " is absent"))
  unfolding apply_ops apply_op covers_by_name has_prefix_by_name
  coerce-nested_optionalize a b leaf rest to m sub differ found absent = rw (
      walk_leaves-absent fail ((key a ∷ key b ∷ []) ∷ []) _ a b leaf rest m sub (rw differ) found
        absent)

  coerce_value_int :
      (z : ℤ) (to : String) → (reason : String) × (coerce_value c (int z) to ≡ err reason)
  unfolding coerce_value coerce_to_string coerce_to_number coerce_to_bool
  coerce_value_int z to = elim (Bool-cases (to == "string")) [
    | inl e ↦ ("value is not a scalar", rw e)
    | inr e ↦ elim (Bool-cases (to == "number")) [
      | inl d ↦ ("value cannot become a number", rw (e, d))
      | inr d ↦ elim (Bool-cases (to == "bool")) [
        | inl b ↦ ("value cannot become a bool", rw (e, d, b))
        | inr b ↦ ("unknown coerce target " <> to, rw (e, d, b))
      ]
    ]
  ]

  -- A whole number that a default injects cannot be coerced: the run fails whatever the target,
  -- "string" and "number" included.
  pub default-coerce_int :
      (leaf : String) (z : ℤ) (to : String) (opts : List FieldPath) (m : Fields Float)
      → find leaf m ≡ none
      → (reason : String) × (apply_ops c fail
            (default (key leaf ∷ []) (of_int z) ∷ coerce (key leaf ∷ []) to ∷ [])
            opts
            m
          ≡ err (fail reason))
  unfolding apply_ops apply_op walk_leaves walk_leaves_ensure_objects default_leaf defaulted
      coerce_leaf coerced stored to_json
  default-coerce_int leaf z to opts m absent =
      let (reason, refused) = coerce_value_int z to in
      (
        "coerce field " <> path_string (key leaf ∷ []) <> ": " <> reason,
        rw (absent, find-set_self leaf (int z) m, refused),
      )

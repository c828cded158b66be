-- ===== src/Bundle/Ops.antt =====
-- internal/bundle: transform stanzas are parsed and checked against the message descriptors,
-- toOps of bundle.go and validatePathAgainstMessage of pathvalidate.go.
pub mod Fits
pub mod Siblings
pub mod Valid
pub mod Target
use wavefront.Base.{
  ℕ, ◌+◌, ◌-◌, ◌<◌, String, ◌<>◌, Bool, true, false, not, ◌&&◌, ◌||◌, List, [], ◌∷◌, Option, none,
  some, Result, ok, err, ◌>>=◌, ◌>>◌, if◌then◌else◌, ◌==◌, fail_if,
}
use wavefront.Json.{Json}
use wavefront.Transform.Path.{Segment, FieldPath, parse_path, segment_equal}
use wavefront.Transform.Apply.{
  Op, rename, default, optionalize, coerce, DefaultValue, new_default_value,
}
use wavefront.Bundle.Failure.{
  LoadError, validation, because, bad_path, bad_field, PathFault, no_field, not_repeated,
  must_iterate, scalar_intermediate,
}

-- What the program asks of protobuf descriptors. `find_message` is FindDescriptorByName with the
-- test that the descriptor is a message; `is_list` is a repeated field that is no map;
-- `sub_message` is the message of a field of message kind.
pub record Descriptors : Type 1 where
  pub Message : Type 0
  pub Field : Type 0
  pub find_message : String → Option Message
  pub by_name : Message → String → Option Field
  pub by_json_name : Message → String → Option Field
  pub is_list : Field → Bool
  pub sub_message : Field → Option Message

pub data Direction : Type 0 where
  request response : Direction

-- The role of a path in a stanza.
pub data Role : Type 0 where
  rename_from rename_to default_field optionalize_field coerce_field : Role

abbrev pub direction_name : Direction → String
direction_name request = "request"
direction_name response = "response"

-- A stanza as decoded: each verb is set or not.
pub record YamlOp (F : Type 0) : Type 0 where
  pub rename_verb : Option (String × String)
  pub default_verb : Option (String × Json F)
  pub optionalize_verb : Option String
  pub coerce_verb : Option (String × String)

-- Same length and parents, and different names at the leaf.
unfoldable pub same_parent_different_leaf : FieldPath → FieldPath → Bool
same_parent_different_leaf (a ∷ []) (b ∷ []) = not (a.name == b.name)
same_parent_different_leaf (a ∷ c ∷ p) (b ∷ d ∷ q) =
    segment_equal a b && same_parent_different_leaf (c ∷ p) (d ∷ q)
same_parent_different_leaf p q = false

abbrev pub is_coerce_target : String → Bool
is_coerce_target to = to == "string" || to == "number" || to == "bool"

-- An error wrapped in another.
abbrev reworded : {D E A : Type 0} → (D → E) → Result D A → Result E A
reworded wrap (ok a) = ok a
reworded wrap (err e) = err (wrap e)

abbrev is_last : FieldPath → Bool
is_last [] = true
is_last (seg ∷ rest) = false

module _ (d : Descriptors) where
  open d use {Message, Field, by_name, by_json_name, is_list, sub_message}

  abbrev or_field : Option Field → Option Field → Option Field
  or_field none other = other
  or_field (some fd) other = some fd

  -- A field by its name or by its JSON name.
  abbrev pub field_of : Message → String → Option Field
  field_of md name = or_field (by_name md name) (by_json_name md name)

  -- The rest of the path is checked against the field's message.
  abbrev enter :
      (Message → Result PathFault (Unit {0}))
      → ℕ
      → Segment
      → Option Message
      → Result PathFault (Unit {0})
  enter inner i seg none = err (scalar_intermediate seg.name i)
  enter inner i seg (some md) = inner md

  -- What the checks on one segment do with the rest of the path.
  check_field :
      (Message → Result PathFault (Unit {0}))
      → ℕ
      → Segment
      → Bool
      → Option Field
      → Result PathFault (Unit {0})
  check_field inner i seg last none = err (no_field seg.name i)
  check_field inner i seg last (some fd) = do
    fail_if (seg.array && not (is_list fd)) (not_repeated seg.name i)
    fail_if (not seg.array && is_list fd && not last) (must_iterate seg.name i)
    (if last then ok tt else enter inner i seg (sub_message fd))

  -- validatePathAgainstMessage, from the segment with index `i`.
  unfoldable pub validate_path : ℕ → FieldPath → Message → Result PathFault (Unit {0})
  unfolding check_field
  validate_path i [] md = ok tt
  validate_path i (seg ∷ rest) md =
      check_field (validate_path (i + 1) rest) i seg (is_last rest) (field_of md seg.name)

  -- The message that a path of this role addresses; `none` is the upstream's own shape.
  unfoldable pub external : Message → Message → Direction → Role → Option Message
  external req resp request rename_from = some req
  external req resp request coerce_field = some req
  external req resp request optionalize_field = some req
  external req resp response rename_to = some resp
  external req resp response default_field = some resp
  external req resp dir role = none

  module _ (F : Type 0) (cv : String) (dir : Direction) (req resp : Message) where
    invalid : String → String → LoadError
    invalid part reason = validation cv (direction_name dir <> part) (because reason)

    parsed : String → String → Result LoadError FieldPath
    parsed part text =
        reworded (λ e. validation cv (direction_name dir <> part) (bad_path e)) (parse_path text)

    checked_against : String → FieldPath → Option Message → Result LoadError (Unit {0})
    checked_against part p none = ok tt
    checked_against part p (some md) =
        reworded
          (λ fault.
            validation cv (direction_name dir <> part)
              (bad_field (direction_name dir <> part) fault))
          (validate_path 1 p md)

    rename_op : Option (String × String) → Result LoadError (Option (Op F))
    rename_op none = ok none
    rename_op (some (from, to)) = do
      fail_if (from == "" || to == "" || from == to)
          (invalid ".rename" "from/to must be non-empty and distinct")
      from_path ← parsed ".rename.from" from
      to_path ← parsed ".rename.to" to
      fail_if (not (same_parent_different_leaf from_path to_path)) (
          invalid ".rename"
            "from/to must share every non-final segment AND differ at the leaf (leaf-only rename)")
      checked_against ".rename.from" from_path (external req resp dir rename_from)
      checked_against ".rename.to" to_path (external req resp dir rename_to)
      ok (some (rename from_path to_path))

    scalar : Option (DefaultValue F) → Result LoadError (DefaultValue F)
    scalar none = err (invalid ".default.value" "default value must be a JSON scalar")
    scalar (some value) = ok value

    default_op : Option (String × Json F) → Result LoadError (Option (Op F))
    default_op none = ok none
    default_op (some (field, value)) = do
      fail_if (field == "") (invalid ".default" "field must be non-empty")
      path ← parsed ".default.field" field
      dv ← scalar (new_default_value value)
      checked_against ".default.field" path (external req resp dir default_field)
      ok (some (default path dv))

    optionalize_op : Option String → Result LoadError (Option (Op F))
    optionalize_op none = ok none
    optionalize_op (some field) = do
      fail_if (field == "") (invalid ".optionalize" "field must be non-empty")
      path ← parsed ".optionalize.field" field
      checked_against ".optionalize.field" path (external req resp dir optionalize_field)
      ok (some (optionalize path))

    coerce_op : Option (String × String) → Result LoadError (Option (Op F))
    coerce_op none = ok none
    coerce_op (some (field, to)) = do
      fail_if (field == "") (invalid ".coerce" "field must be non-empty")
      fail_if (not (is_coerce_target to)) (invalid ".coerce.to" "must be string|number|bool")
      path ← parsed ".coerce.field" field
      checked_against ".coerce.field" path (external req resp dir coerce_field)
      ok (some (coerce path to))

    -- `set` must be 1.
    only_one :
        Option (Op F) → Option (Op F) → Option (Op F) → Option (Op F) → Result LoadError (Op F)
    only_one (some op) none none none = ok op
    only_one none (some op) none none = ok op
    only_one none none (some op) none = ok op
    only_one none none none (some op) = ok op
    only_one _ _ _ _ = err (invalid "" "each transform op must set exactly one verb")

    unfoldable pub to_op : YamlOp F → Result LoadError (Op F)
    unfolding rename_op default_op optionalize_op coerce_op only_one parsed checked_against scalar
        invalid
    to_op o = do
      r ← rename_op o.rename_verb
      v ← default_op o.default_verb
      p ← optionalize_op o.optionalize_verb
      k ← coerce_op o.coerce_verb
      only_one r v p k

    unfoldable pub to_ops : List (YamlOp F) → Result LoadError (List (Op F))
    to_ops [] = ok []
    to_ops (o ∷ raw) = do op ← to_op o; ops ← to_ops raw; ok (op ∷ ops)

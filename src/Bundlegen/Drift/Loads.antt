-- ===== src/Bundlegen/Drift/Loads.antt =====
-- Which drafted coercions the bundle's loader accepts: internal/bundlegen/drift.go against toOps.
use wavefront.Base.{
  String, ◌≡◌, ◌≢◌, ◌∙◌, Bool, true, false, List, [], ◌∷◌, none, some, ok, if◌then◌else◌, ◌==◌, All,
  Returns_elim, subst, eq_iff, inl, inr, Bool-cases,
}
use wavefront.Bundle.Ops.{Descriptors, Direction, YamlOp, to_op, is_coerce_target}
use wavefront.Bundle.Ops.Target.{to_op-HasTarget}
use wavefront.Transform.Apply.{Op}
use wavefront.Bundlegen.Schema.{Schema, field_schema, primitive_type, no_schema, schema, token_of}
use wavefront.Bundlegen.Drift.Draft.{
  StanzaArgs, rename_args, default_args, optionalize_args, coerce_args, StanzaProposal,
  draft_fields,
}
use wavefront.Bundlegen.Drift.Typed.{IsTyped, draft_fields-IsTyped}

-- The stanza `- coerce: { field, to }` of a resolution file.
abbrev pub coercion : {F : Type 0} → String → String → YamlOp F
coercion field to = record {
  rename_verb = none;
  default_verb = none;
  optionalize_verb = none;
  coerce_verb = some (field, to);
}

no-boolean : is_coerce_target "boolean" ≢ true
no-boolean e = cc

no-token : is_coerce_target "" ≢ true
no-token e = cc

no-integer : (b : Bool) → is_coerce_target (if b then "int64" else "int32") ≢ true
no-integer true e = cc
no-integer false e = cc

no-number : (b : Bool) → is_coerce_target (if b then "float" else "double") ≢ true
no-number true e = cc
no-number false e = cc

token_of-target :
    (type_name format : String)
    → is_coerce_target (token_of type_name format) ≡ true
    → token_of type_name format ≡ "string"
token_of-target type_name format h = elim (Bool-cases (type_name == "string")) [
  | inl e ↦ rw e ((eq_iff type_name "string").0 e)
  | inr e ↦ elim (Bool-cases (type_name == "boolean")) [
    | inl f ↦
        let g = rw f at (rw e at h) in
        absurd
          (no-boolean (subst (λ t. is_coerce_target t ≡ true) ((eq_iff type_name "boolean").0 f) g))
    | inr f ↦ elim (Bool-cases (type_name == "integer")) [
      | inl g ↦ absurd (no-integer (format == "int64") (rw (e, f, g) at h))
      | inr g ↦ elim (Bool-cases (type_name == "number")) [
        | inl k ↦ absurd (no-number (format == "float") (rw (e, f, g, k) at h))
        | inr k ↦ absurd (no-token (rw (e, f, g, k) at h))
      ]
    ]
  ]
]

primitive_type-target :
    (s : Schema) → is_coerce_target (primitive_type s) ≡ true → primitive_type s ≡ "string"
unfolding primitive_type
primitive_type-target no_schema h = cc
primitive_type-target (schema ref type_name format _ _ _ _ _ _ _ _) h =
    elim (Bool-cases (ref == "")) [
      | inl e ↦ rw e (token_of-target type_name format (rw e at h))
      | inr e ↦ cc
    ]

module _ (d : Descriptors) (F : Type 0) (cv : String) (dir : Direction) where
  open d use {Message}

  module _ (req resp : Message) where
    -- The loader accepts the coercion only if it coerces to a string.
    abbrev pub LoadsAsString : StanzaArgs → Type 0
    LoadsAsString (coerce_args field to) =
        (op : Op F) → to_op d F cv dir req resp (coercion field to) ≡ ok op → to ≡ "string"
    LoadsAsString _ = Unit

    to_op-string :
        (field : String) (s : Schema) (op : Op F)
        → to_op d F cv dir req resp (coercion field (primitive_type s)) ≡ ok op
        → primitive_type s ≡ "string"
    to_op-string field s op e = primitive_type-target s (
        Returns_elim (λ op. is_coerce_target (primitive_type s) ≡ true)
          (to_op d F cv dir req resp (coercion field (primitive_type s)))
          (to_op-HasTarget d F cv dir req resp (coercion field (primitive_type s))) e)

    module _ (to_lower quote : String → String)
        (from_fields to_fields : List (String × Schema)) where
      IsTyped-LoadsAsString :
          (args : StanzaArgs)
          → IsTyped to_lower quote from_fields to_fields args
          → LoadsAsString args
      IsTyped-LoadsAsString (rename_args r a) h = tt
      IsTyped-LoadsAsString (default_args n value) h = tt
      IsTyped-LoadsAsString (optionalize_args n) h = tt
      IsTyped-LoadsAsString (coerce_args n to) (e, _, _, _) = λ op l.
          e
          ∙ to_op-string n (field_schema n to_fields) op
              (subst (λ t. to_op d F cv dir req resp (coercion n t) ≡ ok op) e l)

      All-LoadsAsString :
          (stanzas : List StanzaProposal)
          → All (λ s. IsTyped to_lower quote from_fields to_fields s.args) stanzas
          → All (λ s. LoadsAsString s.args) stanzas
      All-LoadsAsString [] h = tt
      All-LoadsAsString (s ∷ stanzas) (a, h) =
          (IsTyped-LoadsAsString s.args a, All-LoadsAsString stanzas h)

      -- A drafted coercion names the type token of the OpenAPI schema: of all coercions that the
      -- drafter can write, the bundle's loader accepts none but those to a string, on either side
      -- and for every message.
      pub draft_fields-loads :
          (side : String) (strict : Bool)
          → All
              (λ s. LoadsAsString s.args)
              (draft_fields to_lower quote from_fields to_fields side strict).stanzas
      draft_fields-loads side strict =
          All-LoadsAsString _
            (draft_fields-IsTyped to_lower quote from_fields to_fields side strict)

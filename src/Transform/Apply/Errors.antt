-- ===== src/Transform/Apply/Errors.antt =====
-- The failures of a transform, internal/transform/transform.go.
use wavefront.Base.{
  String, ◌≡◌, refl, Bool, true, false, List, [], ◌∷◌, Option, none, some, Result, ok, err,
  if◌then◌else◌, Fails, Fails->>=, Fails_elim, inl, inr, Bool-cases,
}
use wavefront.Json.{Json, null, obj, Fields, find, Bytes, JsonCodec}
use wavefront.Transform.Path.{FieldPath}
use wavefront.Transform.Walk.{covers_by_name, walk_leaves, walk_leaves_ensure_objects}
use wavefront.Transform.Walk.Errors.{walk_leaves-Fails, walk_leaves_ensure_objects-Fails}
use wavefront.Transform.Apply.{
  DefaultValue, Op, rename, default, optionalize, coerce, absent_leaf, renamed, rename_leaf,
  defaulted, default_leaf, stored, coerced, coerce_leaf, apply_op, apply_ops, decoded_object,
  encoded_body, apply_with, apply,
}
use wavefront.Wireerror.{
  Error, transform_failed, transform_failed_request, transform_failed_response,
}

module _ (c : JsonCodec) where
  open c use {Float, unmarshal, marshal}

  module _ (fail : String → Error) (P : Error → Type 0)
      (failed : (reason : String) → P (fail reason)) where
    absent_leaf-Fails :
        (opts : List FieldPath) (field : FieldPath) (m : Fields Float) (reason : String)
        → Fails P (absent_leaf c fail opts field m reason)
    unfolding absent_leaf
    absent_leaf-Fails opts field m reason = elim (Bool-cases (covers_by_name opts field)) [
      | inl e ↦ rw e tt
      | inr e ↦ rw e (failed reason)
    ]

    renamed-Fails :
        (opts : List FieldPath) (from to : FieldPath) (m : Fields Float) (leaf : String)
        (source target : Option (Json Float))
        → Fails P (renamed c fail opts from to m leaf source target)
    unfolding renamed
    renamed-Fails opts from to m leaf none target = absent_leaf-Fails opts from m _
    renamed-Fails opts from to m leaf (some v) (some w) = failed _
    renamed-Fails opts from to m leaf (some v) none = tt

    defaulted-Fails :
        (value : DefaultValue Float) (m : Fields Float) (leaf : String)
        (found : Option (Json Float))
        → Fails P (defaulted c fail value m leaf found)
    unfolding defaulted
    defaulted-Fails value m leaf none = tt
    defaulted-Fails value m leaf (some null) = tt
    defaulted-Fails value m leaf (some v) = tt

    stored-Fails :
        (field : FieldPath) (m : Fields Float) (leaf : String) (r : Result String (Json Float))
        → Fails P (stored c fail field m leaf r)
    unfolding stored
    stored-Fails field m leaf (ok v) = tt
    stored-Fails field m leaf (err reason) = failed _

    coerced-Fails :
        (opts : List FieldPath) (field : FieldPath) (to : String) (m : Fields Float) (leaf : String)
        (found : Option (Json Float))
        → Fails P (coerced c fail opts field to m leaf found)
    unfolding coerced
    coerced-Fails opts field to m leaf none = absent_leaf-Fails opts field m _
    coerced-Fails opts field to m leaf (some v) = stored-Fails field m leaf _

    rename_leaf-Fails :
        (opts : List FieldPath) (from to : FieldPath) (m : Fields Float) (leaf : String)
        → Fails P (rename_leaf c fail opts from to m leaf)
    unfolding rename_leaf
    rename_leaf-Fails opts from to m leaf = renamed-Fails opts from to m leaf _ _

    default_leaf-Fails :
        (value : DefaultValue Float) (m : Fields Float) (leaf : String)
        → Fails P (default_leaf c fail value m leaf)
    unfolding default_leaf
    default_leaf-Fails value m leaf = defaulted-Fails value m leaf (find leaf m)

    coerce_leaf-Fails :
        (opts : List FieldPath) (field : FieldPath) (to : String) (m : Fields Float) (leaf : String)
        → Fails P (coerce_leaf c fail opts field to m leaf)
    unfolding coerce_leaf
    coerce_leaf-Fails opts field to m leaf = coerced-Fails opts field to m leaf (find leaf m)

    apply_op-Fails :
        (op : Op Float) (opts : List FieldPath) (m : Fields Float)
        → Fails P (apply_op c fail op opts m)
    unfolding apply_op
    apply_op-Fails (optionalize field) opts m = tt
    apply_op-Fails (rename from to) opts m =
        Fails->>= P (walk_leaves fail opts (rename_leaf c fail opts from to) from m) _
          (walk_leaves-Fails fail P failed _ (rename_leaf-Fails opts from to) opts from m) (λ _. tt)
    apply_op-Fails (default field value) opts m =
        Fails->>= P (walk_leaves_ensure_objects fail (default_leaf c fail value) field m) _
          (walk_leaves_ensure_objects-Fails fail P failed _ (default_leaf-Fails value) field m)
          (λ _. tt)
    apply_op-Fails (coerce field to) opts m =
        Fails->>= P (walk_leaves fail opts (coerce_leaf c fail opts field to) field m) _
          (walk_leaves-Fails fail P failed _ (coerce_leaf-Fails opts field to) opts field m)
          (λ _. tt)

    apply_ops-Fails :
        (ops : List (Op Float)) (opts : List FieldPath) (m : Fields Float)
        → Fails P (apply_ops c fail ops opts m)
    unfolding apply_ops
    apply_ops-Fails [] opts m = tt
    apply_ops-Fails (op ∷ ops) opts m =
        Fails->>= P (apply_op c fail op opts m) _ (apply_op-Fails op opts m)
          (λ s. apply_ops-Fails ops s.0 s.1)

    decoded_object-Fails : (v : Option (Json Float)) → Fails P (decoded_object c fail v)
    unfolding decoded_object
    decoded_object-Fails none = failed _
    decoded_object-Fails (some (obj m)) = tt
    decoded_object-Fails (some v) = failed _

    encoded_body-Fails : (out : Option Bytes) → Fails P (encoded_body c fail out)
    unfolding encoded_body
    encoded_body-Fails none = failed _
    encoded_body-Fails (some out) = tt

    pub apply_with-Fails :
        (ops : List (Op Float)) (body : Bytes) → Fails P (apply_with c fail ops body)
    unfolding apply_with
    apply_with-Fails [] body = tt
    apply_with-Fails (op ∷ ops) body =
        Fails->>= P (decoded_object c fail (unmarshal body)) _
          (decoded_object-Fails (unmarshal body))
          (λ m.
            Fails->>= P (apply_ops c fail (op ∷ ops) [] m) _ (apply_ops-Fails (op ∷ ops) [] m)
              (λ out. encoded_body-Fails (marshal (obj out))))

  -- Every failure of a transform has the code transform_failed and the status of its direction:
  -- 422 for a request, 502 for a response.
  pub apply-error :
      (ops : List (Op Float)) (body : Bytes) (request : Bool) (e : Error)
      → apply c ops body request ≡ err e
      → (e.code ≡ transform_failed) × (e.status ≡ (if request then 422 else 502))
  unfolding apply
  apply-error ops body true e h =
      Fails_elim _ _
        (apply_with-Fails transform_failed_request
          (λ x. (x.code ≡ transform_failed) × (x.status ≡ 422)) (λ _. (refl, refl)) ops body)
        h
  apply-error ops body false e h =
      Fails_elim _ _
        (apply_with-Fails transform_failed_response
          (λ x. (x.code ≡ transform_failed) × (x.status ≡ 502)) (λ _. (refl, refl)) ops body)
        h

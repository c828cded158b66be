-- ===== src/Transform/Walk/Errors.antt =====
-- Every error of the two walkers is made by `fail` or by the callback.
use wavefront.Base.{
  String, Bool, true, false, List, [], ◌∷◌, Option, none, some, Result, Fails, Fails->>=, inl, inr,
  Bool-cases,
}
use wavefront.Json.{Json, null, arr, obj, Items, nil, cons, Fields, end, find}
use wavefront.Transform.Path.{Segment, FieldPath}
use wavefront.Transform.Walk.{
  each_object, covers_by_name, absent_segment, descend, walk_leaves, ensure,
  walk_leaves_ensure_objects,
}
use wavefront.Wireerror.{Error}

module _ {F : Type 0} (fail : String → Error) (P : Error → Type 0)
    (failed : (reason : String) → P (fail reason)) where
  each_object-Fails :
      (inner : Fields F → Result Error (Fields F)) (p : FieldPath) (seg : Segment)
      → ((m : Fields F) → Fails P (inner m))
      → (els : Items F) → Fails P (each_object fail inner p seg els)
  unfolding each_object
  each_object-Fails inner p seg h nil = tt
  each_object-Fails inner p seg h (cons (obj sub) els) = Fails->>= P (inner sub) _ (h sub) (λ sub'.
      Fails->>= P (each_object fail inner p seg els) _ (each_object-Fails inner p seg h els)
        (λ _. tt))
  each_object-Fails inner p seg h (cons el els) = failed _

  module _ (fn : Fields F → String → Result Error (Fields F))
      (fn_fails : (m : Fields F) (leaf : String) → Fails P (fn m leaf)) where
    absent_segment-Fails :
        (opts : List FieldPath) (p : FieldPath) (seg : Segment) (m : Fields F)
        → Fails P (absent_segment fail opts fn p seg m)
    unfolding absent_segment
    absent_segment-Fails opts p seg m = elim (Bool-cases (covers_by_name opts p)) [
      | inl e ↦ rw e tt
      | inr e ↦ rw e (failed _)
    ]

    descend-Fails :
        (opts : List FieldPath) (inner : Fields F → Result Error (Fields F)) (p : FieldPath)
        (seg : Segment) (m : Fields F)
        → ((m : Fields F) → Fails P (inner m))
        → (array : Bool) (found : Option (Json F))
        → Fails P (descend fail opts fn inner p seg m array found)
    unfolding descend
    descend-Fails opts inner p seg m h array none = absent_segment-Fails opts p seg m
    descend-Fails opts inner p seg m h array (some null) = absent_segment-Fails opts p seg m
    descend-Fails opts inner p seg m h true (some (arr els)) =
        Fails->>= P (each_object fail inner p seg els) _ (each_object-Fails inner p seg h els)
          (λ _. tt)
    descend-Fails opts inner p seg m h true (some val) = failed _
    descend-Fails opts inner p seg m h false (some (obj sub)) =
        Fails->>= P (inner sub) _ (h sub) (λ _. tt)
    descend-Fails opts inner p seg m h false (some val) = failed _

    pub walk_leaves-Fails :
        (opts : List FieldPath) (p : FieldPath) (m : Fields F)
        → Fails P (walk_leaves fail opts fn p m)
    unfolding walk_leaves
    walk_leaves-Fails opts [] m = failed _
    walk_leaves-Fails opts (seg ∷ []) m = fn_fails m seg.name
    walk_leaves-Fails opts (seg ∷ next ∷ rest) m =
        descend-Fails opts _ _ seg m (walk_leaves-Fails opts (next ∷ rest)) seg.array
          (find seg.name m)

    ensure-Fails :
        (inner : Fields F → Result Error (Fields F)) (p : FieldPath) (seg : Segment) (m : Fields F)
        → ((m : Fields F) → Fails P (inner m))
        → (array : Bool) (found : Option (Json F))
        → Fails P (ensure fail fn inner p seg m array found)
    unfolding ensure
    ensure-Fails inner p seg m h true none = failed _
    ensure-Fails inner p seg m h true (some null) = failed _
    ensure-Fails inner p seg m h true (some (arr els)) =
        Fails->>= P (each_object fail inner p seg els) _ (each_object-Fails inner p seg h els)
          (λ _. tt)
    ensure-Fails inner p seg m h true (some val) = failed _
    ensure-Fails inner p seg m h false none = Fails->>= P (inner end) _ (h end) (λ _. tt)
    ensure-Fails inner p seg m h false (some null) = Fails->>= P (inner end) _ (h end) (λ _. tt)
    ensure-Fails inner p seg m h false (some (obj sub)) =
        Fails->>= P (inner sub) _ (h sub) (λ _. tt)
    ensure-Fails inner p seg m h false (some val) = failed _

    pub walk_leaves_ensure_objects-Fails :
        (p : FieldPath) (m : Fields F) → Fails P (walk_leaves_ensure_objects fail fn p m)
    unfolding walk_leaves_ensure_objects
    walk_leaves_ensure_objects-Fails [] m = failed _
    walk_leaves_ensure_objects-Fails (seg ∷ []) m = fn_fails m seg.name
    walk_leaves_ensure_objects-Fails (seg ∷ next ∷ rest) m =
        ensure-Fails _ _ seg m (walk_leaves_ensure_objects-Fails (next ∷ rest)) seg.array
          (find seg.name m)

-- ===== src/Transform/Walk/Again.antt =====
-- A second walk with the same callback changes nothing, if a second call of the callback does not.
use wavefront.Base.{
  String, ◌≡◌, refl, Bool, true, false, List, [], ◌∷◌, Option, none, some, Result, ok, Returns,
  Returns->>=,
}
use wavefront.Json.{Json, null, arr, obj, Items, nil, cons, Fields, end, find, set}
use wavefront.Json.Laws.{find-set_self, set-set}
use wavefront.Transform.Path.{Segment, FieldPath}
use wavefront.Transform.Walk.{
  each_object, absent_segment, descend, walk_leaves, ensure, walk_leaves_ensure_objects,
}
use wavefront.Wireerror.{Error}
use wavefront.Transform.Walk.Leaves.{absent_segment-Returns}

module _ {F : Type 0} (fail : String → Error) where
  each_object-again :
      (inner : Fields F → Result Error (Fields F)) (p : FieldPath) (seg : Segment)
      → ((m : Fields F) → Returns (λ m'. inner m' ≡ ok m') (inner m))
      → (els : Items F)
      → Returns
          (λ els'. each_object fail inner p seg els' ≡ ok els')
          (each_object fail inner p seg els)
  unfolding each_object
  each_object-again inner p seg h nil = refl
  each_object-again inner p seg h (cons (obj sub) els) =
      Returns->>= (λ m'. inner m' ≡ ok m') _ (inner sub) _ (h sub)
        (λ sub' same.
          Returns->>= (λ els'. each_object fail inner p seg els' ≡ ok els') _
            (each_object fail inner p seg els) _ (each_object-again inner p seg h els)
            (λ els' more. rw (same, more)))
  each_object-again inner p seg h (cons el els) = tt

  module _ (fn : Fields F → String → Result Error (Fields F))
      (fn_again : (m : Fields F) (leaf : String)
        → Returns (λ m'. fn m' leaf ≡ ok m') (fn m leaf)) where
    descend-again :
        (opts : List FieldPath) (inner : Fields F → Result Error (Fields F)) (p : FieldPath)
        (seg : Segment) (m : Fields F)
        → ((m : Fields F) → Returns (λ m'. inner m' ≡ ok m') (inner m))
        → (array : Bool) (found : Option (Json F)) → find seg.name m ≡ found
        → Returns
            (λ m'. descend fail opts fn inner p seg m' array (find seg.name m') ≡ ok m')
            (descend fail opts fn inner p seg m array found)
    unfolding descend
    descend-again opts inner p seg m h array none e =
        absent_segment-Returns fail _ opts fn p seg m (λ c. rw e (unfold absent_segment in rw c))
    descend-again opts inner p seg m h array (some null) e =
        absent_segment-Returns fail _ opts fn p seg m (λ c. rw e (unfold absent_segment in rw c))
    descend-again opts inner p seg m h true (some (arr els)) e =
        Returns->>= (λ els'. each_object fail inner p seg els' ≡ ok els') _
          (each_object fail inner p seg els) _ (each_object-again inner p seg h els)
          (λ els' same.
            rw
              (find-set_self seg.name (arr els') m, same, set-set seg.name (arr els') (arr els') m))
    descend-again opts inner p seg m h true (some val) e = tt
    descend-again opts inner p seg m h false (some (obj sub)) e =
        Returns->>= (λ m'. inner m' ≡ ok m') _ (inner sub) _ (h sub)
          (λ sub' same.
            rw
              (find-set_self seg.name (obj sub') m, same, set-set seg.name (obj sub') (obj sub') m))
    descend-again opts inner p seg m h false (some val) e = tt

    pub walk_leaves-again :
        (opts : List FieldPath) (p : FieldPath) (m : Fields F)
        → Returns (λ m'. walk_leaves fail opts fn p m' ≡ ok m') (walk_leaves fail opts fn p m)
    unfolding walk_leaves
    walk_leaves-again opts [] m = tt
    walk_leaves-again opts (seg ∷ []) m = fn_again m seg.name
    walk_leaves-again opts (seg ∷ next ∷ rest) m =
        descend-again opts _ _ seg m (walk_leaves-again opts (next ∷ rest)) seg.array
          (find seg.name m) refl

    kept :
        (inner : Fields F → Result Error (Fields F)) (p : FieldPath) (seg : Segment)
        (m sub' : Fields F)
        → inner sub' ≡ ok sub'
        → ensure fail fn inner p seg
            (set seg.name (obj sub') m)
            false
            (find seg.name (set seg.name (obj sub') m))
          ≡ ok (set seg.name (obj sub') m)
    unfolding ensure
    kept inner p seg m sub' same =
        rw (find-set_self seg.name (obj sub') m, same, set-set seg.name (obj sub') (obj sub') m)

    ensure-again :
        (inner : Fields F → Result Error (Fields F)) (p : FieldPath) (seg : Segment) (m : Fields F)
        → ((m : Fields F) → Returns (λ m'. inner m' ≡ ok m') (inner m))
        → (array : Bool) (found : Option (Json F))
        → Returns
            (λ m'. ensure fail fn inner p seg m' array (find seg.name m') ≡ ok m')
            (ensure fail fn inner p seg m array found)
    unfolding ensure
    ensure-again inner p seg m h true none = tt
    ensure-again inner p seg m h true (some null) = tt
    ensure-again inner p seg m h true (some (arr els)) =
        Returns->>= (λ els'. each_object fail inner p seg els' ≡ ok els') _
          (each_object fail inner p seg els) _ (each_object-again inner p seg h els)
          (λ els' same.
            rw
              (find-set_self seg.name (arr els') m, same, set-set seg.name (arr els') (arr els') m))
    ensure-again inner p seg m h true (some val) = tt
    ensure-again inner p seg m h false none =
        Returns->>= (λ m'. inner m' ≡ ok m') _ (inner end) _ (h end)
          (λ sub' same. kept inner p seg m sub' same)
    ensure-again inner p seg m h false (some null) =
        Returns->>= (λ m'. inner m' ≡ ok m') _ (inner end) _ (h end)
          (λ sub' same. kept inner p seg m sub' same)
    ensure-again inner p seg m h false (some (obj sub)) =
        Returns->>= (λ m'. inner m' ≡ ok m') _ (inner sub) _ (h sub)
          (λ sub' same. kept inner p seg m sub' same)
    ensure-again inner p seg m h false (some val) = tt

    pub walk_leaves_ensure_objects-again :
        (p : FieldPath) (m : Fields F)
        → Returns
            (λ m'. walk_leaves_ensure_objects fail fn p m' ≡ ok m')
            (walk_leaves_ensure_objects fail fn p m)
    unfolding walk_leaves_ensure_objects
    walk_leaves_ensure_objects-again [] m = tt
    walk_leaves_ensure_objects-again (seg ∷ []) m = fn_again m seg.name
    walk_leaves_ensure_objects-again (seg ∷ next ∷ rest) m =
        ensure-again _ _ seg m (walk_leaves_ensure_objects-again (next ∷ rest)) seg.array
          (find seg.name m)

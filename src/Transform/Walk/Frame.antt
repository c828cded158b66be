-- ===== src/Transform/Walk/Frame.antt =====
-- A walk over more than one segment changes no key of the object but its first.
use wavefront.Base.{
  String, ◌≡◌, refl, Bool, true, false, List, ◌∷◌, Option, none, some, Result, ◌==◌, Returns,
  Returns->>=, Returns-all,
}
use wavefront.Json.{Json, null, arr, obj, Fields, end, find, set}
use wavefront.Json.Laws.{find-set}
use wavefront.Transform.Path.{Segment, FieldPath}
use wavefront.Transform.Walk.{each_object, descend, walk_leaves, ensure, walk_leaves_ensure_objects}
use wavefront.Wireerror.{Error}
use wavefront.Transform.Walk.Leaves.{absent_segment-Returns}

module _ {F : Type 0} (fail : String → Error) (k : String) (seg : Segment)
    (apart : (seg.name == k) ≡ false) where
  set-frame : (v : Json F) (m : Fields F) → find k (set seg.name v m) ≡ find k m
  set-frame v m = rw (find-set seg.name k v m, apart)

  module _ (fn : Fields F → String → Result Error (Fields F)) (m : Fields F) where
    descend-frame :
        (opts : List FieldPath) (inner : Fields F → Result Error (Fields F)) (p : FieldPath)
        (array : Bool) (found : Option (Json F))
        → Returns (λ m'. find k m' ≡ find k m) (descend fail opts fn inner p seg m array found)
    unfolding descend
    descend-frame opts inner p array none =
        absent_segment-Returns fail (λ m'. find k m' ≡ find k m) opts fn p seg m (λ _. refl)
    descend-frame opts inner p array (some null) =
        absent_segment-Returns fail (λ m'. find k m' ≡ find k m) opts fn p seg m (λ _. refl)
    descend-frame opts inner p true (some (arr els)) =
        Returns->>= (λ _. Unit) _ (each_object fail inner p seg els) _ (Returns-all _ _ (λ _. tt))
          (λ els' _. set-frame (arr els') m)
    descend-frame opts inner p true (some val) = tt
    descend-frame opts inner p false (some (obj sub)) =
        Returns->>= (λ _. Unit) _ (inner sub) _ (Returns-all _ _ (λ _. tt))
          (λ sub' _. set-frame (obj sub') m)
    descend-frame opts inner p false (some val) = tt

    ensure-frame :
        (inner : Fields F → Result Error (Fields F)) (p : FieldPath) (array : Bool)
        (found : Option (Json F))
        → Returns (λ m'. find k m' ≡ find k m) (ensure fail fn inner p seg m array found)
    unfolding ensure
    ensure-frame inner p true none = tt
    ensure-frame inner p true (some null) = tt
    ensure-frame inner p true (some (arr els)) =
        Returns->>= (λ _. Unit) _ (each_object fail inner p seg els) _ (Returns-all _ _ (λ _. tt))
          (λ els' _. set-frame (arr els') m)
    ensure-frame inner p true (some val) = tt
    ensure-frame inner p false none =
        Returns->>= (λ _. Unit) _ (inner end) _ (Returns-all _ _ (λ _. tt))
          (λ sub' _. set-frame (obj sub') m)
    ensure-frame inner p false (some null) =
        Returns->>= (λ _. Unit) _ (inner end) _ (Returns-all _ _ (λ _. tt))
          (λ sub' _. set-frame (obj sub') m)
    ensure-frame inner p false (some (obj sub)) =
        Returns->>= (λ _. Unit) _ (inner sub) _ (Returns-all _ _ (λ _. tt))
          (λ sub' _. set-frame (obj sub') m)
    ensure-frame inner p false (some val) = tt

    pub walk_leaves-frame :
        (opts : List FieldPath) (next : Segment) (rest : FieldPath)
        → Returns (λ m'. find k m' ≡ find k m) (walk_leaves fail opts fn (seg ∷ next ∷ rest) m)
    unfolding walk_leaves
    walk_leaves-frame opts next rest = descend-frame opts _ _ seg.array (find seg.name m)

    pub walk_leaves_ensure_objects-frame :
        (next : Segment) (rest : FieldPath)
        → Returns
            (λ m'. find k m' ≡ find k m)
            (walk_leaves_ensure_objects fail fn (seg ∷ next ∷ rest) m)
    unfolding walk_leaves_ensure_objects
    walk_leaves_ensure_objects-frame next rest = ensure-frame _ _ seg.array (find seg.name m)

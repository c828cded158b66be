-- ===== src/Transform/Walk.antt =====
-- internal/transform/walk.go: the two walkers, and the set of optionalized paths.
-- A Go callback that mutates its parent map returns the changed map here; the walkers put it back.
pub mod Errors
pub mod Leaves
pub mod Again
pub mod Frame
use wavefront.Base.{
  ◌-◌, ◌<◌, String, ◌<>◌, Bool, true, false, not, ◌||◌, List, [], ◌∷◌, Option, none, some, Result,
  ok, err, ◌>>=◌, ◌>>◌, if◌then◌else◌,
}
use wavefront.Json.{Json, null, arr, obj, Items, nil, cons, Fields, end, find, set}
use wavefront.Transform.Path.{Segment, FieldPath, path_string, has_prefix_by_name}
use wavefront.Wireerror.{Error}

-- optionalizedSet.coversByName
unfoldable pub covers_by_name : List FieldPath → FieldPath → Bool
covers_by_name [] p = false
covers_by_name (opt ∷ opts) p = has_prefix_by_name p opt || covers_by_name opts p

module _ {F : Type 0} (fail : String → Error) where
  -- The loop over the elements of the array at the first segment of `p`.
  unfoldable pub each_object :
      (Fields F → Result Error (Fields F)) → FieldPath → Segment → Items F → Result Error (Items F)
  each_object inner p seg nil = ok nil
  each_object inner p seg (cons (obj sub) els) = do
    sub' ← inner sub
    els' ← each_object inner p seg els
    ok (cons (obj sub') els')
  each_object inner p seg (cons el els) =
      err (
        fail ("path " <> path_string p <> ": array element at " <> seg.name <> " is not an object"))

  module _ (opts : List FieldPath) (fn : Fields F → String → Result Error (Fields F)) where
    -- `!present || val == nil`
    unfoldable pub absent_segment : FieldPath → Segment → Fields F → Result Error (Fields F)
    absent_segment p seg m =
        if covers_by_name opts p
        then ok m
        else err (fail ("path " <> path_string p <> ": segment " <> seg.name <> " is absent"))

    -- What the first segment of `p` does with the value found there; `inner` walks the rest.
    unfoldable pub descend :
        (Fields F → Result Error (Fields F))
        → FieldPath
        → Segment
        → Fields F
        → Bool
        → Option (Json F)
        → Result Error (Fields F)
    descend inner p seg m array none = absent_segment p seg m
    descend inner p seg m array (some null) = absent_segment p seg m
    descend inner p seg m true (some (arr els)) = do
      els' ← each_object inner p seg els
      ok (set seg.name (arr els') m)
    descend inner p seg m true (some val) =
        err (fail ("path " <> path_string p <> ": segment " <> seg.name <> " is not an array"))
    descend inner p seg m false (some (obj sub)) = do
      sub' ← inner sub
      ok (set seg.name (obj sub') m)
    descend inner p seg m false (some val) =
        err
          (fail ("path " <> path_string p <> ": intermediate " <> seg.name <> " is not an object"))

    -- Coverage is asked of the path that is left, as in the source.
    unfoldable pub walk_leaves : FieldPath → Fields F → Result Error (Fields F)
    walk_leaves [] m = err (fail "internal: empty path")
    walk_leaves (seg ∷ []) m = fn m seg.name
    walk_leaves (seg ∷ next ∷ rest) m =
        descend (walk_leaves (next ∷ rest)) (seg ∷ next ∷ rest) seg m seg.array (find seg.name m)

  module _ (fn : Fields F → String → Result Error (Fields F)) where
    -- The same where a missing or null object is created; an array is not.
    unfoldable pub ensure :
        (Fields F → Result Error (Fields F))
        → FieldPath
        → Segment
        → Fields F
        → Bool
        → Option (Json F)
        → Result Error (Fields F)
    ensure inner p seg m true none = err (
        fail (
          "path "
          <> path_string p
          <> ": array segment "
          <> seg.name
          <> " is absent and cannot be auto-created"))
    ensure inner p seg m true (some null) = err (
        fail (
          "path "
          <> path_string p
          <> ": array segment "
          <> seg.name
          <> " is absent and cannot be auto-created"))
    ensure inner p seg m true (some (arr els)) = do
      els' ← each_object inner p seg els
      ok (set seg.name (arr els') m)
    ensure inner p seg m true (some val) =
        err (fail ("path " <> path_string p <> ": segment " <> seg.name <> " is not an array"))
    ensure inner p seg m false none = do sub' ← inner end; ok (set seg.name (obj sub') m)
    ensure inner p seg m false (some null) = do sub' ← inner end; ok (set seg.name (obj sub') m)
    ensure inner p seg m false (some (obj sub)) = do
      sub' ← inner sub
      ok (set seg.name (obj sub') m)
    ensure inner p seg m false (some val) = err (
        fail (
          "path "
          <> path_string p
          <> ": intermediate "
          <> seg.name
          <> " exists as a non-object (cannot auto-create over it)"))

    unfoldable pub walk_leaves_ensure_objects : FieldPath → Fields F → Result Error (Fields F)
    walk_leaves_ensure_objects [] m = err (fail "internal: empty path")
    walk_leaves_ensure_objects (seg ∷ []) m = fn m seg.name
    walk_leaves_ensure_objects (seg ∷ next ∷ rest) m =
        ensure (walk_leaves_ensure_objects (next ∷ rest)) (seg ∷ next ∷ rest) seg m seg.array
          (find seg.name m)

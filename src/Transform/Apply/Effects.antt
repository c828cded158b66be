-- ===== src/Transform/Apply/Effects.antt =====
-- What the verbs do to the leaves that they reach, internal/transform/transform.go.
use wavefront.Base.{
  String, ◌≡◌, ◌≢◌, ◌⊎◌, refl, true, false, List, Option, none, some, Result, ok, err, ◌>>=◌, ◌==◌,
  Returns, subst, eq_refl, inl, inr, Bool-cases,
}
use wavefront.Json.{Json, null, Fields, find, set, remove, JsonCodec}
use wavefront.Json.Laws.{find-set, find-set_self, find-remove}
use wavefront.Transform.Path.{FieldPath, last_name}
use wavefront.Transform.Walk.{covers_by_name, walk_leaves, walk_leaves_ensure_objects}
use wavefront.Transform.Walk.Leaves.{
  IsCovered, covers_by_name-IsCovered, SameBut, set-SameBut, Skipped, Created, Leaves,
  walk_leaves-Leaves, walk_leaves_ensure_objects-Leaves,
}
use wavefront.Transform.Apply.{
  DefaultValue, of_null, of_bool, of_string, of_int, of_float, new_default_value, rename, default,
  coerce, to_json, coerce_value, absent_leaf, renamed, rename_leaf, defaulted, default_leaf, stored,
  coerced, coerce_leaf, apply_op,
}
use wavefront.Wireerror.{Error}
use wavefront.Transform.Apply.Converts.{Converts, coerce_value-Converts}

module _ {F : Type 0} where
  -- A leaf that a verb may leave absent: an optionalized path covers it, and nothing changes.
  abbrev pub IsLeft : List FieldPath → FieldPath → String → Fields F → Fields F → Type 0
  IsLeft opts field leaf m m' = (find leaf m ≡ none) × IsCovered opts field × (m' ≡ m)

  -- A default at a leaf: a value that is not null stays, and an absent or null one becomes the
  -- value that the loader read for the default.
  abbrev pub IsFilled : DefaultValue F → String → Fields F → Fields F → Type 0
  IsFilled value leaf m m' =
      ((v : Json F) × (find leaf m ≡ some v) × (v ≢ null) × (m' ≡ m))
      ⊎ (((find leaf m ≡ none) ⊎ (find leaf m ≡ some null))
          × ((w : Json F) × (new_default_value w ≡ some value) × (find leaf m' ≡ some w))
          × SameBut leaf m m')

  -- A rename at a leaf: its value is moved to the new name, which was absent.
  abbrev pub IsRenamed :
      List FieldPath → FieldPath → FieldPath → String → Fields F → Fields F → Type 0
  IsRenamed opts from to leaf m m' =
      ((v : Json F) × (find leaf m ≡ some v)
        × (find (last_name to) m ≡ none)
        × (find (last_name to) m' ≡ some v)
        × (find leaf m' ≡ none)
        × ((j : String) → (leaf == j) ≡ false → (last_name to == j) ≡ false → find j m' ≡ find j m))
      ⊎ IsLeft opts from leaf m m'

  new_default_value-to_json :
      (value : DefaultValue F) → new_default_value (to_json value) ≡ some value
  unfolding new_default_value to_json
  new_default_value-to_json of_null = refl
  new_default_value-to_json (of_bool b) = refl
  new_default_value-to_json (of_string s) = refl
  new_default_value-to_json (of_int z) = refl
  new_default_value-to_json (of_float x) = refl

module _ (c : JsonCodec) (fail : String → Error) where
  open c use {Float}

  -- A coercion at a leaf: its value is converted to the target type.
  abbrev pub IsCoerced :
      List FieldPath → FieldPath → String → String → Fields Float → Fields Float → Type 0
  IsCoerced opts field to leaf m m' =
      ((v : Json Float) × (w : Json Float) × (find leaf m ≡ some v)
        × Converts c to v w
        × (find leaf m' ≡ some w)
        × SameBut leaf m m')
      ⊎ IsLeft opts field leaf m m'

  pub absent_leaf-Returns :
      (R : Fields Float → Type 0) (opts : List FieldPath) (field : FieldPath) (m : Fields Float)
      (reason : String)
      → (covers_by_name opts field ≡ true → R m)
      → Returns R (absent_leaf c fail opts field m reason)
  unfolding absent_leaf
  absent_leaf-Returns R opts field m reason h = elim (Bool-cases (covers_by_name opts field)) [
    | inl e ↦ rw e (h e)
    | inr e ↦ rw e tt
  ]

  pub stored-Returns :
      (R : Fields Float → Type 0) (Q : Json Float → Type 0) (field : FieldPath) (m : Fields Float)
      (leaf : String) (r : Result String (Json Float))
      → Returns Q r
      → ((w : Json Float) → Q w → R (set leaf w m))
      → Returns R (stored c fail field m leaf r)
  unfolding stored
  stored-Returns R Q field m leaf (ok w) q h = h w q
  stored-Returns R Q field m leaf (err reason) q h = tt

  absent_leaf-IsLeft :
      (R : Fields Float → Type 0) (opts : List FieldPath) (field : FieldPath) (m : Fields Float)
      (leaf reason : String)
      → find leaf m ≡ none
      → (IsLeft opts field leaf m m → R m)
      → Returns R (absent_leaf c fail opts field m reason)
  absent_leaf-IsLeft R opts field m leaf reason e k =
      absent_leaf-Returns R opts field m reason
        (λ covered. k (e, covers_by_name-IsCovered opts field covered, refl))

  coerced-IsCoerced :
      (opts : List FieldPath) (field : FieldPath) (to : String) (m : Fields Float) (leaf : String)
      (found : Option (Json Float))
      → find leaf m ≡ found
      → Returns (IsCoerced opts field to leaf m) (coerced c fail opts field to m leaf found)
  unfolding coerced
  coerced-IsCoerced opts field to m leaf none e =
      absent_leaf-IsLeft _ opts field m leaf _ e (λ left. inr left)
  coerced-IsCoerced opts field to m leaf (some v) e =
      stored-Returns _ (Converts c to v) field m leaf (coerce_value c v to)
        (coerce_value-Converts c v to)
        (λ w k. inl (v, w, e, k, find-set_self leaf w m, set-SameBut leaf w m))

  coerce_leaf-IsCoerced :
      (opts : List FieldPath) (field : FieldPath) (to : String) (m : Fields Float) (leaf : String)
      → Returns (IsCoerced opts field to leaf m) (coerce_leaf c fail opts field to m leaf)
  unfolding coerce_leaf
  coerce_leaf-IsCoerced opts field to m leaf =
      coerced-IsCoerced opts field to m leaf (find leaf m) refl

  filled :
      (value : DefaultValue Float) (m : Fields Float) (leaf : String)
      → (find leaf m ≡ none) ⊎ (find leaf m ≡ some null)
      → IsFilled value leaf m (set leaf (to_json value) m)
  filled value m leaf h = inr (
    h,
    (to_json value, new_default_value-to_json value, find-set_self leaf (to_json value) m),
    set-SameBut leaf (to_json value) m,
  )

  defaulted-IsFilled :
      (value : DefaultValue Float) (m : Fields Float) (leaf : String) (found : Option (Json Float))
      → find leaf m ≡ found
      → Returns (IsFilled value leaf m) (defaulted c fail value m leaf found)
  unfolding defaulted
  defaulted-IsFilled value m leaf none e = filled value m leaf (inl e)
  defaulted-IsFilled value m leaf (some null) e = filled value m leaf (inr e)
  defaulted-IsFilled value m leaf (some v) e = inl (v, e, (λ n. cc), refl)

  default_leaf-IsFilled :
      (value : DefaultValue Float) (m : Fields Float) (leaf : String)
      → Returns (IsFilled value leaf m) (default_leaf c fail value m leaf)
  unfolding default_leaf
  default_leaf-IsFilled value m leaf = defaulted-IsFilled value m leaf (find leaf m) refl

  renamed-IsRenamed :
      (opts : List FieldPath) (from to : FieldPath) (m : Fields Float) (leaf : String)
      (source target : Option (Json Float))
      → find leaf m ≡ source
      → find (last_name to) m ≡ target
      → ((last_name to == leaf) ≡ false)
      → Returns (IsRenamed opts from to leaf m) (renamed c fail opts from to m leaf source target)
  unfolding renamed
  renamed-IsRenamed opts from to m leaf none target e t d =
      absent_leaf-IsLeft _ opts from m leaf _ e (λ left. inr left)
  renamed-IsRenamed opts from to m leaf (some v) (some w) e t d = tt
  renamed-IsRenamed opts from to m leaf (some v) none e t d = inl (
    v,
    e,
    t,
    find-set_self (last_name to) v (remove leaf m),
    rw (find-set (last_name to) leaf v (remove leaf m), d, find-remove leaf leaf m, eq_refl leaf),
    λ j a b. rw (find-set (last_name to) j v (remove leaf m), b, find-remove leaf j m, a),
  )

  rename_leaf-IsRenamed :
      (opts : List FieldPath) (from to : FieldPath) (m : Fields Float) (leaf : String)
      → (last_name to == leaf) ≡ false
      → Returns (IsRenamed opts from to leaf m) (rename_leaf c fail opts from to m leaf)
  unfolding rename_leaf
  rename_leaf-IsRenamed opts from to m leaf d =
      renamed-IsRenamed opts from to m leaf (find leaf m) _ refl refl d

  -- The value of a walk, out of the pair that a round of the loop returns.
  walked :
      (R : Fields Float → Type 0) (r : Result Error (Fields Float)) (opts opts' : List FieldPath)
      (m' : Fields Float)
      → Returns R r
      → ◌>>=◌ {B = List FieldPath × Fields Float} r (λ o. ok (opts, o)) ≡ ok (opts', m')
      → (opts' ≡ opts) × R m'
  walked R (ok o) opts opts' m' h e = let same : o ≡ m' = cc in (cc, subst R same h)
  walked R (err x) opts opts' m' h e = cc

  -- A coercion that succeeds converts the value of every leaf that its path reaches to the target
  -- type and changes nothing else. A leaf may be absent, and a segment absent or null, only where
  -- an optionalized path covers it, and then it stays so.
  pub coerce-Leaves :
      (field : FieldPath) (to : String) (opts opts' : List FieldPath) (m m' : Fields Float)
      → apply_op c fail (coerce field to) opts m ≡ ok (opts', m')
      → (opts' ≡ opts) × Leaves (Skipped opts) (IsCoerced opts field to) field m m'
  unfolding apply_op
  coerce-Leaves field to opts opts' m m' e =
      walked _ (walk_leaves fail opts (coerce_leaf c fail opts field to) field m) opts opts' m'
        (walk_leaves-Leaves fail (IsCoerced opts field to) (coerce_leaf c fail opts field to)
          (λ _. Unit) (λ o l _. coerce_leaf-IsCoerced opts field to o l) opts field tt m)
        e

  -- A default that succeeds gives its value to every leaf of its path that is absent or null,
  -- leaves every other one as it is and changes nothing else. A segment that is absent or null
  -- becomes an object, in which the default works like in an empty one.
  pub default-Leaves :
      (field : FieldPath) (value : DefaultValue Float) (opts opts' : List FieldPath)
      (m m' : Fields Float)
      → apply_op c fail (default field value) opts m ≡ ok (opts', m')
      → (opts' ≡ opts) × Leaves Created (IsFilled value) field m m'
  unfolding apply_op
  default-Leaves field value opts opts' m m' e =
      walked _ (walk_leaves_ensure_objects fail (default_leaf c fail value) field m) opts opts' m'
        (walk_leaves_ensure_objects-Leaves fail (IsFilled value) (default_leaf c fail value)
          (λ _. Unit) (λ o l _. default_leaf-IsFilled value o l) field tt m)
        e

  -- A rename to another leaf name that succeeds moves the value of every leaf that its path
  -- reaches to the new name, which was absent, and changes nothing else. A leaf may be absent, and
  -- a segment absent or null, only where an optionalized path covers it, and then it stays so.
  pub rename-Leaves :
      (from to : FieldPath) (opts opts' : List FieldPath) (m m' : Fields Float)
      → (last_name to == last_name from) ≡ false
      → apply_op c fail (rename from to) opts m ≡ ok (opts', m')
      → (opts' ≡ opts) × Leaves (Skipped opts) (IsRenamed opts from to) from m m'
  unfolding apply_op
  rename-Leaves from to opts opts' m m' d e =
      walked _ (walk_leaves fail opts (rename_leaf c fail opts from to) from m) opts opts' m'
        (walk_leaves-Leaves fail (IsRenamed opts from to) (rename_leaf c fail opts from to)
          (λ l. (last_name to == l) ≡ false) (λ o l h. rename_leaf-IsRenamed opts from to o l h)
          opts from d m)
        e

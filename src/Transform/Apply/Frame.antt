-- ===== src/Transform/Apply/Frame.antt =====
-- What the verbs leave alone, and what a second application does.
use wavefront.Base.{
  String, ◌≡◌, refl, ◌∙◌, false, List, [], ◌∷◌, Option, none, some, Result, ok, err, ◌>>=◌, ◌==◌,
  All, Returns, Returns->>=, Returns_elim, Returns-all, Returns-mono,
}
use wavefront.Json.{Json, null, Fields, find, remove, JsonCodec}
use wavefront.Json.Laws.{find-set, find-remove}
use wavefront.Transform.Path.{FieldPath, last_name}
use wavefront.Transform.Walk.{walk_leaves, walk_leaves_ensure_objects}
use wavefront.Transform.Apply.{
  DefaultValue, Op, rename, default, optionalize, coerce, to_json, coerce_value, renamed,
  rename_leaf, defaulted, default_leaf, coerced, coerce_leaf, apply_op, apply_ops,
}
use wavefront.Wireerror.{Error}
use wavefront.Transform.Walk.Frame.{walk_leaves-frame, walk_leaves_ensure_objects-frame}
use wavefront.Transform.Apply.Effects.{absent_leaf-Returns, stored-Returns}

-- The key is not the first segment of the path.
abbrev pub IsNotFirst : String → FieldPath → Type 0
IsNotFirst k [] = Unit
IsNotFirst k (seg ∷ rest) = (seg.name == k) ≡ false

-- The op names the key neither as the first segment of its path nor, if it renames a key of the
-- body itself, as the new name.
abbrev pub Spares : {F : Type 0} → String → Op F → Type 0
Spares k (optionalize field) = Unit
Spares k (rename (seg ∷ []) to) = ((seg.name == k) ≡ false) × ((last_name to == k) ≡ false)
Spares k (rename from to) = IsNotFirst k from
Spares k (default field value) = IsNotFirst k field
Spares k (coerce field to) = IsNotFirst k field

module _ (c : JsonCodec) (fail : String → Error) where
  open c use {Float}

  module _ (k : String) where
    abbrev Keeps : Fields Float → Fields Float → Type 0
    Keeps m m' = find k m' ≡ find k m

    rename_leaf-Keeps :
        (opts : List FieldPath) (from to : FieldPath) (m : Fields Float) (leaf : String)
        → (leaf == k) ≡ false
        → (last_name to == k) ≡ false
        → Returns (Keeps m) (rename_leaf c fail opts from to m leaf)
    unfolding rename_leaf renamed
    rename_leaf-Keeps opts from to m leaf a b = go (find leaf m) (find (last_name to) m)
      where
        go :
            (source target : Option (Json Float))
            → Returns (Keeps m) (renamed c fail opts from to m leaf source target)
        go none target = absent_leaf-Returns c fail (Keeps m) opts from m _ (λ _. refl)
        go (some v) (some w) = tt
        go (some v) none =
            rw (find-set (last_name to) k v (remove leaf m), b, find-remove leaf k m, a)

    default_leaf-Keeps :
        (value : DefaultValue Float) (m : Fields Float) (leaf : String)
        → (leaf == k) ≡ false
        → Returns (Keeps m) (default_leaf c fail value m leaf)
    unfolding default_leaf defaulted
    default_leaf-Keeps value m leaf a = go (find leaf m)
      where
        go : (found : Option (Json Float)) → Returns (Keeps m) (defaulted c fail value m leaf found)
        go none = rw (find-set leaf k (to_json value) m, a)
        go (some null) = rw (find-set leaf k (to_json value) m, a)
        go (some v) = refl

    coerce_leaf-Keeps :
        (opts : List FieldPath) (field : FieldPath) (to : String) (m : Fields Float) (leaf : String)
        → (leaf == k) ≡ false
        → Returns (Keeps m) (coerce_leaf c fail opts field to m leaf)
    unfolding coerce_leaf coerced
    coerce_leaf-Keeps opts field to m leaf a = go (find leaf m)
      where
        go :
            (found : Option (Json Float))
            → Returns (Keeps m) (coerced c fail opts field to m leaf found)
        go none = absent_leaf-Returns c fail (Keeps m) opts field m _ (λ _. refl)
        go (some v) =
            stored-Returns c fail (Keeps m) (λ _. Unit) field m leaf (coerce_value c v to)
              (Returns-all _ _ (λ _. tt)) (λ w _. rw (find-set leaf k w m, a))

    paired :
        (m : Fields Float) (opts : List FieldPath) (r : Result Error (Fields Float))
        → Returns (Keeps m) r
        → Returns
            (λ s. Keeps m s.1)
            (◌>>=◌ {B = List FieldPath × Fields Float} r (λ o. ok (opts, o)))
    paired m opts (ok o) h = h
    paired m opts (err e) h = tt

    apply_op-Keeps :
        (op : Op Float) (opts : List FieldPath) (m : Fields Float)
        → Spares k op
        → Returns (λ s. Keeps m s.1) (apply_op c fail op opts m)
    unfolding apply_op
    apply_op-Keeps (optionalize field) opts m s = refl
    apply_op-Keeps (rename [] to) opts m s = unfold walk_leaves in tt
    apply_op-Keeps (rename (seg ∷ []) to) opts m (a, b) =
        paired m opts (walk_leaves fail opts (rename_leaf c fail opts (seg ∷ []) to) (seg ∷ []) m)
          (unfold walk_leaves in rename_leaf-Keeps opts (seg ∷ []) to m seg.name a b)
    apply_op-Keeps (rename (seg ∷ next ∷ rest) to) opts m a =
        paired m opts _ (walk_leaves-frame fail k seg a _ m opts next rest)
    apply_op-Keeps (default [] value) opts m s = unfold walk_leaves_ensure_objects in tt
    apply_op-Keeps (default (seg ∷ []) value) opts m a =
        paired m opts (walk_leaves_ensure_objects fail (default_leaf c fail value) (seg ∷ []) m)
          (unfold walk_leaves_ensure_objects in default_leaf-Keeps value m seg.name a)
    apply_op-Keeps (default (seg ∷ next ∷ rest) value) opts m a =
        paired m opts _ (walk_leaves_ensure_objects-frame fail k seg a _ m next rest)
    apply_op-Keeps (coerce [] to) opts m s = unfold walk_leaves in tt
    apply_op-Keeps (coerce (seg ∷ []) to) opts m a =
        paired m opts (walk_leaves fail opts (coerce_leaf c fail opts (seg ∷ []) to) (seg ∷ []) m)
          (unfold walk_leaves in coerce_leaf-Keeps opts (seg ∷ []) to m seg.name a)
    apply_op-Keeps (coerce (seg ∷ next ∷ rest) to) opts m a =
        paired m opts _ (walk_leaves-frame fail k seg a _ m opts next rest)

    apply_ops-Keeps :
        (ops : List (Op Float)) (opts : List FieldPath) (m : Fields Float)
        → All (Spares k) ops
        → Returns (Keeps m) (apply_ops c fail ops opts m)
    unfolding apply_ops
    apply_ops-Keeps [] opts m h = refl
    apply_ops-Keeps (op ∷ ops) opts m (a, h) =
        Returns->>= (λ s. Keeps m s.1) (Keeps m) (apply_op c fail op opts m) _
          (apply_op-Keeps op opts m a)
          (λ s e.
            Returns-mono (Keeps s.1) (Keeps m) (apply_ops c fail ops s.0 s.1) (λ o same. same ∙ e)
              (apply_ops-Keeps ops s.0 s.1 h))

  -- A run of the verbs leaves every key alone that no op names.
  pub apply_ops-frame :
      (k : String) (ops : List (Op Float)) (opts : List FieldPath) (m m' : Fields Float)
      → All (Spares k) ops
      → apply_ops c fail ops opts m ≡ ok m'
      → find k m' ≡ find k m
  apply_ops-frame k ops opts m m' h e = Returns_elim _ _ (apply_ops-Keeps k ops opts m h) e

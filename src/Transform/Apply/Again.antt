-- ===== src/Transform/Apply/Again.antt =====
-- A second application of a default or of a coercion changes nothing.
use wavefront.Base.{
  String, ◌≡◌, ◌⊎◌, refl, sym, ap, ◌∙◌, false, List, Option, none, some, Result, ok, err, ◌>>=◌,
  ◌==◌, Returns, subst, inl, inr,
}
use wavefront.Json.{Json, null, Fields, find, set, JsonCodec}
use wavefront.Json.Laws.{find-set_self, set-set}
use wavefront.Transform.Path.{FieldPath}
use wavefront.Transform.Walk.{walk_leaves, walk_leaves_ensure_objects}
use wavefront.Transform.Walk.Again.{walk_leaves-again, walk_leaves_ensure_objects-again}
use wavefront.Transform.Apply.{
  Op, rename, optionalize, DefaultValue, of_null, of_bool, of_string, of_int, of_float, default,
  coerce, to_json, coerce_value, absent_leaf, defaulted, default_leaf, stored, coerced, coerce_leaf,
  apply_op,
}
use wavefront.Wireerror.{Error}
use wavefront.Transform.Apply.Verbs.{
  kind_of, coerce_value-kind, coerce_value_of_kind, coerce_value-ne-other,
}
use wavefront.Transform.Apply.Effects.{absent_leaf-Returns, stored-Returns}

module _ (c : JsonCodec) (fail : String → Error) where
  open c use {Float}

  -- A coerced value is left as it is by a second coercion.
  coerce_value-again :
      (v : Json Float) (to : String)
      → Returns (λ w. coerce_value c w to ≡ ok w) (coerce_value c v to)
  coerce_value-again v to =
      let kind = coerce_value-kind c v to in
      let known = coerce_value-ne-other c v to in go (coerce_value c v to) kind known
    where
      go :
          (r : Result String (Json Float))
          → Returns (λ w. kind_of w ≡ to) r
          → Returns (λ _. (to == "other") ≡ false) r
          → Returns (λ w. coerce_value c w to ≡ ok w) r
      go (ok w) k o = coerce_value_of_kind c w to k o
      go (err e) k o = tt

  coerced-again :
      (opts : List FieldPath) (field : FieldPath) (to : String) (m : Fields Float) (leaf : String)
      (found : Option (Json Float))
      → find leaf m ≡ found
      → Returns
          (λ m'. coerced c fail opts field to m' leaf (find leaf m') ≡ ok m')
          (coerced c fail opts field to m leaf found)
  unfolding coerced stored
  coerced-again opts field to m leaf none e =
      absent_leaf-Returns c fail _ opts field m _
        (λ covered. rw e (unfold absent_leaf in rw covered))
  coerced-again opts field to m leaf (some v) e =
      stored-Returns c fail _ (λ w. coerce_value c w to ≡ ok w) field m leaf (coerce_value c v to)
        (coerce_value-again v to) (λ w same. rw (find-set_self leaf w m, same, set-set leaf w w m))

  coerce_leaf-again :
      (opts : List FieldPath) (field : FieldPath) (to : String) (m : Fields Float) (leaf : String)
      → Returns
          (λ m'. coerce_leaf c fail opts field to m' leaf ≡ ok m')
          (coerce_leaf c fail opts field to m leaf)
  unfolding coerce_leaf
  coerce_leaf-again opts field to m leaf = coerced-again opts field to m leaf (find leaf m) refl

  default_again :
      (value : DefaultValue Float) (m : Fields Float) (leaf : String)
      → defaulted c fail value m leaf (some (to_json value)) ≡ ok m
        ⊎ (defaulted c fail value m leaf (some (to_json value)) ≡ ok (set leaf (to_json value) m))
  unfolding defaulted to_json
  default_again of_null m leaf = inr refl
  default_again (of_bool b) m leaf = inl refl
  default_again (of_string b) m leaf = inl refl
  default_again (of_int b) m leaf = inl refl
  default_again (of_float b) m leaf = inl refl

  filled_again :
      (value : DefaultValue Float) (m : Fields Float) (leaf : String)
      → defaulted c fail value
          (set leaf (to_json value) m)
          leaf
          (find leaf (set leaf (to_json value) m))
        ≡ ok (set leaf (to_json value) m)
  filled_again value m leaf = elim (default_again value (set leaf (to_json value) m) leaf) [
    | inl e ↦ rw (find-set_self leaf (to_json value) m) e
    | inr e ↦
        rw (find-set_self leaf (to_json value) m)
          (e ∙ ap ok (set-set leaf (to_json value) (to_json value) m))
  ]

  defaulted-again :
      (value : DefaultValue Float) (m : Fields Float) (leaf : String) (found : Option (Json Float))
      → find leaf m ≡ found
      → Returns
          (λ m'. defaulted c fail value m' leaf (find leaf m') ≡ ok m')
          (defaulted c fail value m leaf found)
  unfolding defaulted
  defaulted-again value m leaf none e = filled_again value m leaf
  defaulted-again value m leaf (some null) e = filled_again value m leaf
  defaulted-again value m leaf (some v) e = rw e

  default_leaf-again :
      (value : DefaultValue Float) (m : Fields Float) (leaf : String)
      → Returns (λ m'. default_leaf c fail value m' leaf ≡ ok m') (default_leaf c fail value m leaf)
  unfolding default_leaf
  default_leaf-again value m leaf = defaulted-again value m leaf (find leaf m) refl

  repeated :
      (f : Fields Float → Result Error (Fields Float)) (opts opts' : List FieldPath)
      (m m' : Fields Float)
      → Returns (λ o. f o ≡ ok o) (f m)
      → ◌>>=◌ {B = List FieldPath × Fields Float} (f m) (λ o. ok (opts, o)) ≡ ok (opts', m')
      → ◌>>=◌ {B = List FieldPath × Fields Float} (f m') (λ o. ok (opts', o)) ≡ ok (opts', m')
  repeated f opts opts' m m' h e = go (f m) h e
    where
      go :
          (r : Result Error (Fields Float))
          → Returns (λ o. f o ≡ ok o) r
          → ◌>>=◌ {B = List FieldPath × Fields Float} r (λ o. ok (opts, o)) ≡ ok (opts', m')
          → ◌>>=◌ {B = List FieldPath × Fields Float} (f m') (λ o. ok (opts', o)) ≡ ok (opts', m')
      go (ok o) same eq = let here : o ≡ m' = cc in rw (← here, same)
      go (err x) same eq = cc

  same_opts :
      (r : Result Error (Fields Float)) (opts opts' : List FieldPath) (m' : Fields Float)
      → ◌>>=◌ {B = List FieldPath × Fields Float} r (λ o. ok (opts, o)) ≡ ok (opts', m')
      → opts ≡ opts'
  same_opts (ok o) opts opts' m' e = cc
  same_opts (err x) opts opts' m' e = cc

  -- A default that succeeded succeeds again and changes nothing.
  default-again :
      (field : FieldPath) (value : DefaultValue Float) (opts opts' : List FieldPath)
      (m m' : Fields Float)
      → apply_op c fail (default field value) opts m ≡ ok (opts', m')
      → apply_op c fail (default field value) opts' m' ≡ ok (opts', m')
  unfolding apply_op
  default-again field value opts opts' m m' e =
      repeated (walk_leaves_ensure_objects fail (default_leaf c fail value) field) opts opts' m m'
        (walk_leaves_ensure_objects-again fail _ (default_leaf-again value) field m) e

  -- A coercion that succeeded succeeds again and changes nothing.
  coerce-again :
      (field : FieldPath) (to : String) (opts opts' : List FieldPath) (m m' : Fields Float)
      → apply_op c fail (coerce field to) opts m ≡ ok (opts', m')
      → apply_op c fail (coerce field to) opts' m' ≡ ok (opts', m')
  unfolding apply_op
  coerce-again field to opts opts' m m' e =
      let same =
        same_opts (walk_leaves fail opts (coerce_leaf c fail opts field to) field m) opts opts' m'
          e in
      subst (λ o. apply_op c fail (coerce field to) o m' ≡ ok (o, m')) same
        (repeated (walk_leaves fail opts (coerce_leaf c fail opts field to) field) opts opts m m'
          (walk_leaves-again fail _ (coerce_leaf-again opts field to) opts field m)
          (subst (λ o. apply_op c fail (coerce field to) opts m ≡ ok (o, m')) (sym same) e))

  -- The ops that are meant to be repeated: a coercion and a default.
  abbrev pub IsRepeatable : Op Float → Type 0
  IsRepeatable (coerce field to) = Unit
  IsRepeatable (default field value) = Unit
  IsRepeatable (rename from to) = ⊥
  IsRepeatable (optionalize field) = ⊥

  -- A coercion or a default that succeeded succeeds again on its own result and changes nothing.
  pub apply_op-again :
      (op : Op Float) (opts opts' : List FieldPath) (m m' : Fields Float)
      → IsRepeatable op
      → apply_op c fail op opts m ≡ ok (opts', m')
      → apply_op c fail op opts' m' ≡ ok (opts', m')
  apply_op-again (coerce field to) opts opts' m m' r e = coerce-again field to opts opts' m m' e
  apply_op-again (default field value) opts opts' m m' r e =
      default-again field value opts opts' m m' e
  apply_op-again (rename from to) opts opts' m m' r e = absurd r
  apply_op-again (optionalize field) opts opts' m m' r e = absurd r

-- ===== src/Bundle/Ops/Valid.antt =====
-- What holds of every op that toOps of internal/bundle/bundle.go accepts.
use wavefront.Base.{
  String, ◌≡◌, refl, Bool, true, false, not, ◌||◌, List, [], ◌∷◌, Option, none, some, Result, ok,
  err, ◌>>=◌, ◌>>◌, ◌==◌, All, Returns, Returns->>=, Returns_elim, Returns-intro, fail_if,
  Returns-fail_if, Returns-all,
}
use wavefront.Json.{Json}
use wavefront.Transform.Path.{FieldPath, parse_path}
use wavefront.Transform.Path.RoundTrip.{IsGrammatical, path_string-parse_path}
use wavefront.Transform.Apply.{Op, rename, default, optionalize, coerce, new_default_value}
use wavefront.Bundle.Failure.{LoadError}
use wavefront.Bundle.Ops.{
  Descriptors, Direction, rename_from, rename_to, default_field, optionalize_field, coerce_field,
  YamlOp, same_parent_different_leaf, is_coerce_target, reworded, validate_path, external, parsed,
  checked_against, rename_op, scalar, default_op, optionalize_op, coerce_op, only_one, to_op,
  to_ops,
}
use wavefront.Bundle.Ops.Siblings.{AreSiblings, same_parent_different_leaf-AreSiblings}
use wavefront.Bundle.Ops.Fits.{Fits, validate_path_sound}

Returns-reworded :
    {D E A : Type 0} (P : A → Type 0) (wrap : D → E) (r : Result D A)
    → Returns P r
    → Returns P (reworded wrap r)
Returns-reworded P wrap (ok a) h = h
Returns-reworded P wrap (err e) h = tt

not-false : {b : Bool} → not b ≡ false → b ≡ true
not-false {b = true} e = refl
not-false {b = false} e = cc

siblings : (p q : FieldPath) → not (same_parent_different_leaf p q) ≡ false → AreSiblings p q
siblings p q e = same_parent_different_leaf-AreSiblings p q (not-false e)

module _ (d : Descriptors) where
  open d use {Message}

  -- The path fits the message that its role addresses, if it addresses one.
  abbrev pub FitsRole : Option Message → FieldPath → Type 0
  FitsRole none p = Unit
  FitsRole (some md) p = Fits d p md

  module _ (F : Type 0) (cv : String) (dir : Direction) (req resp : Message) where
    -- An op that the runtime may meet.
    abbrev pub IsValidOp : Op F → Type 0
    IsValidOp (rename from to) =
        IsGrammatical from
        × IsGrammatical to
        × AreSiblings from to
        × FitsRole (external d req resp dir rename_from) from
        × FitsRole (external d req resp dir rename_to) to
    IsValidOp (default field value) =
        IsGrammatical field × FitsRole (external d req resp dir default_field) field
    IsValidOp (optionalize field) =
        IsGrammatical field × FitsRole (external d req resp dir optionalize_field) field
    IsValidOp (coerce field to) =
        IsGrammatical field
        × (is_coerce_target to ≡ true)
        × FitsRole (external d req resp dir coerce_field) field

    abbrev IsValidOption : Option (Op F) → Type 0
    IsValidOption none = Unit
    IsValidOption (some op) = IsValidOp op

    parsed-IsGrammatical :
        (part text : String) → Returns IsGrammatical (parsed d F cv dir req resp part text)
    unfolding parsed
    parsed-IsGrammatical part text =
        Returns-reworded _ _ (parse_path text) (
          Returns-intro IsGrammatical (parse_path text)
            (λ p e. (path_string-parse_path text p e).1))

    checked_against-FitsRole :
        (part : String) (p : FieldPath) (md : Option Message)
        → Returns (λ (_ : Unit {0}). FitsRole md p) (checked_against d F cv dir req resp part p md)
    unfolding checked_against
    checked_against-FitsRole part p none = tt
    checked_against-FitsRole part p (some md) =
        Returns-reworded _ _ (validate_path d 1 p md)
          (Returns-intro _ (validate_path d 1 p md) (λ u e. validate_path_sound d 1 p md e))

    -- The stages of a verb: a check, a parsed path, a path checked against its message.
    checked :
        (b : Bool) (e : LoadError) (m : Result LoadError (Option (Op F)))
        → (b ≡ false → Returns IsValidOption m)
        → Returns IsValidOption (fail_if b e >> m)
    checked b e m h = Returns-fail_if IsValidOption b e m h

    with_path :
        (part text : String) (f : FieldPath → Result LoadError (Option (Op F)))
        → ((p : FieldPath) → IsGrammatical p → Returns IsValidOption (f p))
        → Returns IsValidOption (parsed d F cv dir req resp part text >>= f)
    with_path part text f h =
        Returns->>= IsGrammatical IsValidOption (parsed d F cv dir req resp part text) f
          (parsed-IsGrammatical part text) h

    fitting :
        (part : String) (p : FieldPath) (md : Option Message) (m : Result LoadError (Option (Op F)))
        → (FitsRole md p → Returns IsValidOption m)
        → Returns IsValidOption (checked_against d F cv dir req resp part p md >> m)
    fitting part p md m h =
        Returns->>= (λ (_ : Unit {0}). FitsRole md p) IsValidOption
          (checked_against d F cv dir req resp part p md) (λ _. m)
          (checked_against-FitsRole part p md) (λ _ f. h f)

    rename_op-IsValid :
        (verb : Option (String × String))
        → Returns IsValidOption (rename_op d F cv dir req resp verb)
    unfolding rename_op
    rename_op-IsValid none = tt
    rename_op-IsValid (some (from, to)) = checked (from == "" || to == "" || from == to) _ _ (λ _.
        with_path _ from _ (λ p g. with_path _ to _ (λ q h.
          checked (not (same_parent_different_leaf p q)) _ _ (λ e.
            fitting _ p _ _
              (λ f. fitting _ q _ (ok (some (rename p q))) (λ t. (g, h, siblings p q e, f, t)))))))

    default_op-IsValid :
        (verb : Option (String × Json F))
        → Returns IsValidOption (default_op d F cv dir req resp verb)
    unfolding default_op
    default_op-IsValid none = tt
    default_op-IsValid (some (field, value)) = checked (field == "") _ _ (λ _.
        with_path _ field _ (λ p g.
          Returns->>= (λ _. Unit {0}) IsValidOption
            (scalar d F cv dir req resp (new_default_value value)) _ (Returns-all _ _ (λ _. tt))
            (λ dv _. fitting _ p _ (ok (some (default p dv))) (λ f. (g, f)))))

    optionalize_op-IsValid :
        (verb : Option String) → Returns IsValidOption (optionalize_op d F cv dir req resp verb)
    unfolding optionalize_op
    optionalize_op-IsValid none = tt
    optionalize_op-IsValid (some field) =
        checked (field == "") _ _ (λ _.
          with_path _ field _ (λ p g. fitting _ p _ (ok (some (optionalize p))) (λ f. (g, f))))

    coerce_op-IsValid :
        (verb : Option (String × String))
        → Returns IsValidOption (coerce_op d F cv dir req resp verb)
    unfolding coerce_op
    coerce_op-IsValid none = tt
    coerce_op-IsValid (some (field, to)) = checked (field == "") _ _ (λ _.
        checked (not (is_coerce_target to)) _ _ (λ e.
          with_path _ field _
            (λ p g. fitting _ p _ (ok (some (coerce p to))) (λ f. (g, not-false e, f)))))

    only_one-IsValid :
        (r v p k : Option (Op F))
        → IsValidOption r
        → IsValidOption v
        → IsValidOption p
        → IsValidOption k
        → Returns IsValidOp (only_one d F cv dir req resp r v p k)
    unfolding only_one
    only_one-IsValid (some op) none none none a b c e = a
    only_one-IsValid none (some op) none none a b c e = b
    only_one-IsValid none none (some op) none a b c e = c
    only_one-IsValid none none none (some op) a b c e = e
    only_one-IsValid _ _ _ _ a b c e = tt

    to_op-IsValid : (o : YamlOp F) → Returns IsValidOp (to_op d F cv dir req resp o)
    unfolding to_op
    to_op-IsValid o =
        Returns->>= IsValidOption IsValidOp (rename_op d F cv dir req resp o.rename_verb) _
          (rename_op-IsValid o.rename_verb)
          (λ r a.
            Returns->>= IsValidOption IsValidOp (default_op d F cv dir req resp o.default_verb) _
              (default_op-IsValid o.default_verb)
              (λ v b.
                Returns->>= IsValidOption IsValidOp
                  (optionalize_op d F cv dir req resp o.optionalize_verb) _
                  (optionalize_op-IsValid o.optionalize_verb)
                  (λ p c.
                    Returns->>= IsValidOption IsValidOp
                      (coerce_op d F cv dir req resp o.coerce_verb) _
                      (coerce_op-IsValid o.coerce_verb) (λ k e. only_one-IsValid r v p k a b c e))))

    pub to_ops-Returns :
        (raw : List (YamlOp F)) → Returns (All IsValidOp) (to_ops d F cv dir req resp raw)
    unfolding to_ops
    to_ops-Returns [] = tt
    to_ops-Returns (o ∷ raw) =
        Returns->>= IsValidOp (All IsValidOp) (to_op d F cv dir req resp o) _ (to_op-IsValid o)
          (λ op a.
            Returns->>= (All IsValidOp) (All IsValidOp) (to_ops d F cv dir req resp raw) _
              (to_ops-Returns raw) (λ ops h. (a, h)))

-- Every op that the loader accepts has paths of the grammar that fit the messages their roles
-- address; a rename keeps its parent and changes its leaf; a coercion has a known target.
pub to_ops-IsValid :
    (d : Descriptors) (F : Type 0) (cv : String) (dir : Direction) (req resp : d.Message)
    (raw : List (YamlOp F)) (ops : List (Op F))
    → to_ops d F cv dir req resp raw ≡ ok ops
    → All (IsValidOp d F cv dir req resp) ops
to_ops-IsValid d F cv dir req resp raw ops h =
    Returns_elim _ (to_ops d F cv dir req resp raw) (to_ops-Returns d F cv dir req resp raw) h

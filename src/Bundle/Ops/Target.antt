-- ===== src/Bundle/Ops/Target.antt =====
-- toOps, internal/bundle/bundle.go: the target of a coercion that the loader accepts.
use wavefront.Base.{
  String, ◌≡◌, true, not, Option, none, some, ◌==◌, arith, Returns, Returns->>=, Returns-fail_if,
  Returns-all, Returns-then,
}
use wavefront.Transform.Apply.{Op}
use wavefront.Bundle.Ops.{
  Descriptors, Direction, YamlOp, rename_op, default_op, optionalize_op, coerce_op, only_one, to_op,
  is_coerce_target,
}

module _ (d : Descriptors) where
  open d use {Message}

  module _ (F : Type 0) (cv : String) (dir : Direction) (req resp : Message) where
    abbrev pub HasTarget : Option (String × String) → Type 0
    HasTarget none = Unit
    HasTarget (some (field, to)) = is_coerce_target to ≡ true

    coerce_op-HasTarget :
        (verb : Option (String × String))
        → Returns (λ k. HasTarget verb) (coerce_op d F cv dir req resp verb)
    unfolding coerce_op
    coerce_op-HasTarget none = tt
    coerce_op-HasTarget (some (field, to)) =
        let P : Option (Op F) → Type 0 = λ k. is_coerce_target to ≡ true in
        Returns-fail_if P (field == "") _ _ (λ _.
          Returns-fail_if P (not (is_coerce_target to)) _ _
            (λ t. Returns-all P _ (λ k. ground (arith, t))))

    pub to_op-HasTarget :
        (o : YamlOp F) → Returns (λ op. HasTarget o.coerce_verb) (to_op d F cv dir req resp o)
    unfolding to_op
    to_op-HasTarget o =
        let P : Op F → Type 0 = λ op. HasTarget o.coerce_verb in
        Returns-then P (rename_op d F cv dir req resp o.rename_verb) _ (λ r.
          Returns-then P (default_op d F cv dir req resp o.default_verb) _ (λ v.
            Returns-then P (optionalize_op d F cv dir req resp o.optionalize_verb) _ (λ p.
              Returns->>= P' P (coerce_op d F cv dir req resp o.coerce_verb) _
                (coerce_op-HasTarget o.coerce_verb)
                (λ k t. Returns-all P (only_one d F cv dir req resp r v p k) (λ op. t)))))
      where
        P' : Option (Op F) → Type 0
        P' k = HasTarget o.coerce_verb

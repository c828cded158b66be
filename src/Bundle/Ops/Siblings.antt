-- ===== src/Bundle/Ops/Siblings.antt =====
-- Paths that differ in the leaf's name alone, internal/bundle/bundle.go.
use wavefront.Base.{◌≡◌, refl, ap, ◌∙◌, Bool, true, false, ◌&&◌, [], ◌∷◌, ◌==◌, arith, eq_iff}
use wavefront.Transform.Path.{Segment, FieldPath, segment_equal, last_name, same_flag}
use wavefront.Bundle.Ops.{same_parent_different_leaf}

-- The path without its leaf.
abbrev pub parent : FieldPath → FieldPath
parent [] = []
parent (seg ∷ []) = []
parent (seg ∷ next ∷ rest) = seg ∷ parent (next ∷ rest)

-- The parents are equal and the names of the leaves differ.
abbrev pub AreSiblings : FieldPath → FieldPath → Type 0
AreSiblings p q = (parent p ≡ parent q) × ((last_name p == last_name q) ≡ false)

same_flag_eq : (a b : Bool) → same_flag a b ≡ true → a ≡ b
same_flag_eq true true h = refl
same_flag_eq true false h = cc
same_flag_eq false true h = cc
same_flag_eq false false h = refl

segment_eq : (a b : Segment) → a.name ≡ b.name → a.array ≡ b.array → a ≡ b
segment_eq a b n f = cc

segment_equal_eq : (a b : Segment) → segment_equal a b ≡ true → a ≡ b
unfolding segment_equal
segment_equal_eq a b h =
    segment_eq a b ((eq_iff a.name b.name).0 (ground arith))
      (same_flag_eq a.array b.array (ground arith))

and_split : (x y : Bool) → (x && y) ≡ true → (x ≡ true) × (y ≡ true)
and_split true y h = (refl, h)
and_split false y h = cc

pub same_parent_different_leaf-AreSiblings :
    (p q : FieldPath) → same_parent_different_leaf p q ≡ true → AreSiblings p q
unfolding same_parent_different_leaf last_name
same_parent_different_leaf-AreSiblings (a ∷ []) (b ∷ []) h = (refl, ground (arith, h))
same_parent_different_leaf-AreSiblings (a ∷ c ∷ p) (b ∷ d ∷ q) h =
    let (same, below) =
      and_split (segment_equal a b) (same_parent_different_leaf (c ∷ p) (d ∷ q)) h in
    let (parents, leaves) = same_parent_different_leaf-AreSiblings (c ∷ p) (d ∷ q) below in
    (ap (λ s. s ∷ parent (c ∷ p)) (segment_equal_eq a b same) ∙ ap (λ t. b ∷ t) parents, leaves)
same_parent_different_leaf-AreSiblings [] q h = cc
same_parent_different_leaf-AreSiblings (a ∷ []) [] h = cc
same_parent_different_leaf-AreSiblings (a ∷ []) (b ∷ d ∷ q) h = cc
same_parent_different_leaf-AreSiblings (a ∷ c ∷ p) [] h = cc
same_parent_different_leaf-AreSiblings (a ∷ c ∷ p) (b ∷ []) h = cc

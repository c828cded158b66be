-- ===== src/Examples/Packages.antt =====
-- checkPackageCollisions, internal/bundle, at a concrete input.
use wavefront.Base.{
  String, ◌≡◌, ◌⊎◌, refl, sym, ap, ◌∙◌, true, false, List, [], ◌∷◌, some, ◌==◌, arith, eq_iff, inl,
  inr, Occurs, subst,
}
use wavefront.Base.Dict.{values, lookup, put}
use wavefront.Base.Text.Sort.{sort_strings}
use wavefront.Bundle.Merge.{FileProto}
use wavefront.Bundle.Collisions.{
  contributions, add_contribution, package_owners, package_of, package_in, set_add, set_union,
  colliding, check_package_collisions,
}
use wavefront.Bundle.Collisions.Sole.{HasFile, AreNamed, IsSole, check_package_collisions-IsSole}

-- Two layers with a package each; the second layer has two files of its package.
abbrev old : FileProto
old = record { name = "v1.proto"; package_name = "wavefront.gen.v1"; encoded = some "o" }

abbrev own : FileProto
own = record { name = "v2.proto"; package_name = "wavefront.gen.v2"; encoded = some "t" }

abbrev second : FileProto
second = record { name = "two.proto"; package_name = "wavefront.gen.v2"; encoded = some "u" }

abbrev owned_layers : List (String × List FileProto)
owned_layers = ("v1", old ∷ []) ∷ ("v2", own ∷ second ∷ []) ∷ []

apart : {A : Type 0} (a b : String) → (a == b) ≡ false → a ≡ b → A
apart a b h e = let same : (a == b) ≡ true = (eq_iff a b).1 e in absurd (ground (arith, h, same))

owned_layers-AreNamed : AreNamed owned_layers
owned_layers-AreNamed k fdps others (inl e) (inl f) = sym (ap (λ x. x.1) e) ∙ ap (λ x. x.1) f
owned_layers-AreNamed k fdps others (inr (inl e)) (inr (inl f)) =
    sym (ap (λ x. x.1) e) ∙ ap (λ x. x.1) f
owned_layers-AreNamed k fdps others (inl e) (inr (inl f)) =
    apart "v1" "v2" refl (ap (λ x. x.0) e ∙ sym (ap (λ x. x.0) f))
owned_layers-AreNamed k fdps others (inr (inl e)) (inl f) =
    apart "v1" "v2" refl (ap (λ x. x.0) f ∙ sym (ap (λ x. x.0) e))
owned_layers-AreNamed k fdps others (inr (inr e)) f = absurd e
owned_layers-AreNamed k fdps others e (inr (inr f)) = absurd f

-- The files of the layers.
files_of :
    (k : String) (g : FileProto)
    → HasFile owned_layers k g
    → (g ≡ old) ⊎ ((k ≡ "v2") × ((g ≡ own) ⊎ (g ≡ second)))
files_of k g (fdps, inl e, at) = first (subst (Occurs g) (sym (ap (λ x. x.1) e)) at)
  where
    first : Occurs g (old ∷ []) → (g ≡ old) ⊎ ((k ≡ "v2") × ((g ≡ own) ⊎ (g ≡ second)))
    first (inl same) = inl (sym same)
    first (inr x) = absurd x
files_of k g (fdps, inr (inl e), at) = later (subst (Occurs g) (sym (ap (λ x. x.1) e)) at)
  where
    later : Occurs g (own ∷ second ∷ []) → (g ≡ old) ⊎ ((k ≡ "v2") × ((g ≡ own) ⊎ (g ≡ second)))
    later (inl same) = inr (sym (ap (λ x. x.0) e), inl (sym same))
    later (inr (inl same)) = inr (sym (ap (λ x. x.0) e), inr (sym same))
    later (inr (inr x)) = absurd x
files_of k g (fdps, inr (inr e), at) = absurd e

own_alone :
    (k : String) (g : FileProto)
    → HasFile owned_layers k g
    → g.name ≡ "v2.proto"
    → (k ≡ "v2") × (g.package_name ≡ "wavefront.gen.v2") × (g.encoded ≡ own.encoded)
own_alone k g has_it named = elim (files_of k g has_it) [
  | inl e ↦ apart "v1.proto" "v2.proto" refl (sym (ap (λ x. x.name) e) ∙ named)
  | inr (at, inl e) ↦ (at, ap (λ x. x.package_name) e, ap (λ x. x.encoded) e)
  | inr (at, inr e) ↦ apart "two.proto" "v2.proto" refl (sym (ap (λ x. x.name) e) ∙ named)
]

second_alone :
    (k : String) (g : FileProto)
    → HasFile owned_layers k g
    → g.name ≡ "two.proto"
    → (k ≡ "v2") × (g.package_name ≡ "wavefront.gen.v2") × (g.encoded ≡ second.encoded)
second_alone k g has_it named = elim (files_of k g has_it) [
  | inl e ↦ apart "v1.proto" "two.proto" refl (sym (ap (λ x. x.name) e) ∙ named)
  | inr (at, inl e) ↦ apart "v2.proto" "two.proto" refl (sym (ap (λ x. x.name) e) ∙ named)
  | inr (at, inr e) ↦ (at, ap (λ x. x.package_name) e, ap (λ x. x.encoded) e)
]

own-IsSole : IsSole owned_layers "v2" "v2.proto" "wavefront.gen.v2"
own-IsSole = record {
  file = own;
  is_there = (own ∷ second ∷ [], inr (inl refl), inl refl);
  is_named = refl;
  has_package = apart "wavefront.gen.v2" "" refl;
  is_alone = own_alone;
}

second-IsSole : IsSole owned_layers "v2" "two.proto" "wavefront.gen.v2"
second-IsSole = record {
  file = second;
  is_there = (own ∷ second ∷ [], inr (inl refl), inr (inl refl));
  is_named = refl;
  has_package = apart "wavefront.gen.v2" "" refl;
  is_alone = second_alone;
}

check_package_collisions-IsSole_example : ◌≡◌ {A = String} "v2" "v2"
unfolding check_package_collisions contributions add_contribution lookup put package_owners
    package_of package_in set_add set_union colliding values sort_strings
check_package_collisions-IsSole_example =
    check_package_collisions-IsSole owned_layers "v2" "v2" "v2.proto" "two.proto" "wavefront.gen.v2"
      owned_layers-AreNamed refl own-IsSole second-IsSole

-- ===== src/Bundle/Collisions/Sole.antt =====
-- checkPackageCollisions, internal/bundle/bundle.go, in terms of the files of the layers.
use wavefront.Base.{
  String, ◌≡◌, ◌≢◌, refl, sym, ap, ◌∙◌, true, List, [], ◌∷◌, Option, none, some, ok, ◌==◌, arith,
  eq_iff, eq_refl, inl, inr, Bool-cases, Occurs, Returns_elim,
}
use wavefront.Base.Dict.{lookup}
use wavefront.Bundle.Merge.{FileProto}
use wavefront.Bundle.Collisions.{
  Contribution, Contributions, contributions, package_in, package_of, is_owned,
  check_package_collisions,
}
use wavefront.Bundle.Collisions.Owners.{Owns, check_package_collisions-Owns}
use wavefront.Bundle.Collisions.Entries.{lookup-Occurs, Entry, AllAlone, contributions-found}

-- The layer has the file.
abbrev pub HasFile : List (String × List FileProto) → String → FileProto → Type 0
HasFile per_layer layer f = (fdps : List FileProto) × Occurs (layer, fdps) per_layer × Occurs f fdps

-- A layer's name determines its files.
abbrev pub AreNamed : List (String × List FileProto) → Type 0
AreNamed per_layer =
    (k : String) (fdps others : List FileProto)
    → Occurs (k, fdps) per_layer
    → Occurs (k, others) per_layer
    → fdps ≡ others

-- The layer alone has a file of that name, always with the same encoding and in the package.
pub record IsSole (per_layer : List (String × List FileProto)) (layer name pkg : String)
    : Type 0 where
  pub file : FileProto
  pub is_there : HasFile per_layer layer file
  pub is_named : file.name ≡ name
  pub has_package : pkg ≢ ""
  pub is_alone :
      (k : String) (g : FileProto)
      → HasFile per_layer k g
      → g.name ≡ name
      → (k ≡ layer) × (g.package_name ≡ pkg) × (g.encoded ≡ file.encoded)

package_in-sole :
    (n p : String) (f : FileProto) (fdps : List FileProto)
    → Occurs f fdps
    → f.name ≡ n
    → ((g : FileProto) → Occurs g fdps → g.name ≡ n → g.package_name ≡ p)
    → package_in n fdps ≡ p
unfolding package_in
package_in-sole n p f [] at named all = absurd at
package_in-sole n p f (g ∷ fdps) (inl same) named all =
    let is_n : g.name ≡ n = ap (λ x. x.name) same ∙ named in
    rw ((eq_iff g.name n).1 is_n) (all g (inl refl) is_n)
package_in-sole n p f (g ∷ fdps) (inr at) named all = elim (Bool-cases (g.name == n)) [
  | inl t ↦ rw t (all g (inl refl) ((eq_iff g.name n).0 t))
  | inr t ↦ rw t (package_in-sole n p f fdps at named (λ x there. all x (inr there)))
]

package_of-sole :
    (l n : String) (fdps : List FileProto) (per_layer : List (String × List FileProto))
    → Occurs (l, fdps) per_layer
    → ((others : List FileProto) → Occurs (l, others) per_layer → others ≡ fdps)
    → package_of per_layer n (l ∷ []) ≡ package_in n fdps
unfolding package_of
package_of-sole l n fdps [] at named = absurd at
package_of-sole l n fdps ((j, others) ∷ per_layer) (inl same) named =
    let is_l : (l == j) ≡ true = (eq_iff l j).1 (sym (ap (λ x. x.0) same)) in
    rw is_l (ap (λ x. package_in n x.1) same)
package_of-sole l n fdps ((j, others) ∷ per_layer) (inr at) named = elim (Bool-cases (l == j)) [
  | inl t ↦ rw t (
      ap (λ x. package_in n x)
        (named others (inl (ap (λ k. (k, others)) (sym ((eq_iff l j).0 t))))))
  | inr t ↦ rw t (package_of-sole l n fdps per_layer at (λ x there. named x (inr there)))
]

single-owned :
    (c : Contribution) (l b p : String)
    → c.layers ≡ l ∷ []
    → c.contents ≡ b ∷ []
    → p ≢ ""
    → is_owned c p ≡ true
single-owned c l b p one two full = elim (Bool-cases (p == "")) [
  | inl e ↦ absurd (full ((eq_iff p "").0 e))
  | inr e ↦ rw (one, two, e) refl
]

-- A layer that alone has a file of a package owns the package.
IsSole-Owns :
    (per_layer : List (String × List FileProto)) (l n p : String) (contribs : Contributions)
    → AreNamed per_layer
    → IsSole per_layer l n p
    → contributions per_layer [] ≡ ok contribs
    → Owns per_layer contribs p l
IsSole-Owns per_layer l n p contribs distinct sole h =
    let (fdps, at, in_it) = sole.is_there in
    let alone : AllAlone l n sole.file.encoded per_layer = λ k files there g g_in named.
      let (a, _, b) = sole.is_alone k g (files, there, g_in) named in (a, b) in
    let found : Entry l n sole.file.encoded true (lookup ◌==◌ n contribs) =
      Returns_elim (λ r. Entry l n sole.file.encoded true (lookup ◌==◌ n r))
        (contributions per_layer [])
        (contributions-found l n sole.file.encoded l sole.file fdps per_layer [] at in_it
          sole.is_named alone (unfold lookup in refl))
        h in
    owned fdps at in_it (lookup ◌==◌ n contribs) refl found
  where
    owned :
        (fdps : List FileProto)
        → Occurs (l, fdps) per_layer
        → Occurs sole.file fdps
        → (o : Option Contribution) → lookup ◌==◌ n contribs ≡ o
        → Entry l n sole.file.encoded true o
        → Owns per_layer contribs p l
    owned fdps at in_it none e found = absurd cc
    owned fdps at in_it (some c) e (one, (b, _, two)) = (
      n,
      c,
      lookup-Occurs n c contribs e,
      rw one (
          package_of-sole l n fdps per_layer at (λ x there. distinct l x fdps there at)
          ∙ package_in-sole n p sole.file fdps in_it sole.is_named
              (λ g g_in named. (sole.is_alone l g (fdps, at, g_in) named).1)),
      single-owned c l b p one two sole.has_package,
      rw one (ground (arith, eq_refl l)),
    )

-- When checkPackageCollisions passes on layers with different names, no package has files of two
-- layers: two layers of which each alone has some file of the package, under that name with one
-- encoding only, are the same. The package is not the empty one.
pub check_package_collisions-IsSole :
    (per_layer : List (String × List FileProto)) (l k m n p : String)
    → AreNamed per_layer
    → check_package_collisions per_layer ≡ ok tt
    → IsSole per_layer l m p
    → IsSole per_layer k n p
    → l ≡ k
check_package_collisions-IsSole per_layer l k m n p distinct passes a b =
    let (contribs, h, apart) = check_package_collisions-Owns per_layer passes in
    apart p l k (IsSole-Owns per_layer l m p contribs distinct a h)
      (IsSole-Owns per_layer k n p contribs distinct b h)

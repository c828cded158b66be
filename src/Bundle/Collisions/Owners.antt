-- ===== src/Bundle/Collisions/Owners.antt =====
-- checkPackageCollisions, internal/bundle/bundle.go: what a bundle that passes guarantees.
use wavefront.Base.{
  ◌≤◌, String, ◌≡◌, ◌≢◌, refl, sym, ◌∙◌, true, ◌||◌, List, [], ◌∷◌, ◌++◌, Result, ok, err, ◌>>=◌,
  if◌then◌else◌, ◌==◌, ltb, length, arith, subst, eq_iff, eq_refl, inl, inr, branch, Bool-cases,
  Occurs,
}
use wavefront.Base.Dict.{put, values}
use wavefront.Base.Text.Sort.{sort_strings, insert, before}
use wavefront.Bundle.Failure.{LoadError}
use wavefront.Bundle.Merge.{FileProto}
use wavefront.Bundle.Collisions.{
  has, set_add, set_union, Contribution, Contributions, contributions, package_of, is_owned,
  package_owners, colliding, report, check_package_collisions,
}

has-append : (l s : String) (xs : List String) → has l (xs ++ s ∷ []) ≡ has l xs || s == l
has-append l s [] = ground arith
has-append l s (x ∷ xs) = ground (arith, has-append l s xs)

has-set_add : (l s : String) (xs : List String) → has l (set_add s xs) ≡ has l xs || s == l
unfolding set_add
has-set_add l s xs = elim (Bool-cases (has s xs)) [
  | inl e ↦ rw e (elim (Bool-cases (s == l)) [
    | inl f ↦
        let there : has l xs ≡ true = subst (λ k. has k xs ≡ true) ((eq_iff s l).0 f) e in
        ground (arith, f, there)
    | inr f ↦ ground (arith, f)
  ])
  | inr e ↦ rw e (has-append l s xs)
]

has-set_union : (l : String) (xs ys : List String) → has l (set_union xs ys) ≡ has l xs || has l ys
unfolding set_union
has-set_union l xs [] = ground arith
has-set_union l xs (y ∷ ys) = has-set_union l (set_add y xs) ys ∙ ground (arith, has-set_add l y xs)

Owners : Type 0
Owners = List (String × List String)

values-put :
    (k j : String) (v : List String) (d : List (String × List String))
    → values ◌==◌ j (put ◌==◌ k v d) ≡ (if k == j then v else values ◌==◌ j d)
unfolding values put
values-put k j v [] = ground arith
values-put k j v ((i, w) ∷ d) =
    ground (arith, eq_iff k j, eq_iff i k, eq_iff i j, values-put k j v d)

module _ (per_layer : List (String × List FileProto)) where
  abbrev own_step :
      String → Contribution → List (String × List String) → List (String × List String)
  own_step name c owners =
      let pkg = package_of per_layer name c.layers in
      if is_owned c pkg
      then put ◌==◌ pkg (set_union (values ◌==◌ pkg owners) c.layers) owners
      else owners

  -- An owner stays one.
  has-own_step :
      (name : String) (c : Contribution) (owners : List (String × List String)) (p l : String)
      → has l (values ◌==◌ p owners) ≡ true
      → has l (values ◌==◌ p (own_step name c owners)) ≡ true
  has-own_step name c owners p l h =
      let pkg = package_of per_layer name c.layers in
      elim (Bool-cases (is_owned c pkg)) [
        | inl e ↦ rw e (
            subst (λ xs. has l xs ≡ true)
              (sym (values-put pkg p (set_union (values ◌==◌ pkg owners) c.layers) owners))
              (elim (Bool-cases (pkg == p)) [
                | inl f ↦
                    let there : has l (values ◌==◌ pkg owners) ≡ true =
                      subst (λ k. has l (values ◌==◌ k owners) ≡ true) (sym ((eq_iff pkg p).0 f))
                        h in
                    rw f (has-set_union l (values ◌==◌ pkg owners) c.layers ∙ ground (arith, there))
                | inr f ↦ rw f h
              ]))
        | inr e ↦ rw e h
      ]

  has-package_owners :
      (contribs : Contributions) (owners : List (String × List String)) (p l : String)
      → has l (values ◌==◌ p owners) ≡ true
      → has l (values ◌==◌ p (package_owners per_layer contribs owners)) ≡ true
  unfolding package_owners
  has-package_owners [] owners p l h = h
  has-package_owners ((name, c) ∷ contribs) owners p l h =
      has-package_owners contribs (own_step name c owners) p l (has-own_step name c owners p l h)

  -- The layers of a file that is owned, in the package `p`.
  abbrev pub Owns : Contributions → String → String → Type 0
  Owns contribs p l =
      (name : String) × (c : Contribution) × Occurs (name, c) contribs
      × (package_of per_layer name c.layers ≡ p)
      × (is_owned c p ≡ true)
      × (has l c.layers ≡ true)

  added-own_step :
      (name : String) (c : Contribution) (owners : List (String × List String)) (l : String)
      → is_owned c (package_of per_layer name c.layers) ≡ true
      → has l c.layers ≡ true
      → has l (values ◌==◌ (package_of per_layer name c.layers) (own_step name c owners)) ≡ true
  added-own_step name c owners l o h =
      let pkg = package_of per_layer name c.layers in
      rw o (
        subst (λ xs. has l xs ≡ true)
          (sym (values-put pkg pkg (set_union (values ◌==◌ pkg owners) c.layers) owners))
          (rw (eq_refl pkg)
            (has-set_union l (values ◌==◌ pkg owners) c.layers ∙ ground (arith, h))))

  Owns-has :
      (contribs : Contributions) (owners : List (String × List String)) (p l : String)
      → Owns contribs p l
      → has l (values ◌==◌ p (package_owners per_layer contribs owners)) ≡ true
  unfolding package_owners
  Owns-has [] owners p l (name, c, o, _, _, _) = absurd o
  Owns-has ((n, d) ∷ contribs) owners p l (name, c, inl e, q, w, h) =
      let at : package_of per_layer n d.layers ≡ p =
        subst (λ x. package_of per_layer x.0 x.1.layers ≡ p) (sym e) q in
      let owned : is_owned d (package_of per_layer n d.layers) ≡ true =
        subst (λ k. is_owned d k ≡ true) (sym at) (subst (λ x. is_owned x.1 p ≡ true) (sym e) w) in
      let has_it : has l d.layers ≡ true = subst (λ x. has l x.1.layers ≡ true) (sym e) h in
      has-package_owners contribs (own_step n d owners) p l (
        subst (λ k. has l (values ◌==◌ k (own_step n d owners)) ≡ true) at
          (added-own_step n d owners l owned has_it))
  Owns-has ((n, d) ∷ contribs) owners p l (name, c, inr o, q, w, h) =
      Owns-has contribs (own_step n d owners) p l (name, c, o, q, w, h)

same_of_short :
    (l k : String) (xs : List String) → length xs ≤ 1 → has l xs ≡ true → has k xs ≡ true → l ≡ k
same_of_short l k [] b h i = absurd cc
same_of_short l k (x ∷ []) b h i =
    sym ((eq_iff x l).0 (ground (arith, h))) ∙ (eq_iff x k).0 (ground (arith, i))
same_of_short l k (x ∷ y ∷ xs) b h i = absurd (omega arith)

cons-ne-nil : {A : Type 0} {x : A} {xs : List A} → x ∷ xs ≢ []
cons-ne-nil e = cc

colliding-short :
    (owners : List (String × List String)) (p : String)
    → colliding owners ≡ []
    → length (values ◌==◌ p owners) ≤ 1
unfolding colliding values
colliding-short [] p e = omega arith
colliding-short ((q, layers) ∷ owners) p e = elim (branch (ltb 1 (length layers)) e) [
  | inl (t, more) ↦ absurd (cons-ne-nil more)
  | inr (t, rest) ↦ elim (Bool-cases (q == p)) [
    | inl f ↦ rw f (ground (arith, t))
    | inr f ↦ rw f (colliding-short owners p rest)
  ]
]

insert-ne-nil : (n : String) (names : List String) → insert n names ≢ []
unfolding insert
insert-ne-nil n [] e = cons-ne-nil e
insert-ne-nil n (m ∷ names) e = elim (branch (before n m) e) [
  | inl (t, x) ↦ cons-ne-nil x
  | inr (t, x) ↦ cons-ne-nil x
]

sort-nil : (names : List String) → sort_strings names ≡ [] → names ≡ []
unfolding sort_strings
sort-nil [] e = refl
sort-nil (n ∷ names) e = absurd (insert-ne-nil n (sort_strings names) e)

report-nil :
    (owners : List (String × List String)) (pkgs : List String)
    → report owners pkgs ≡ ok tt
    → pkgs ≡ []
report-nil owners [] e = refl
report-nil owners (p ∷ pkgs) e = absurd cc

-- What each file of each layer contributes, and that no two of those layers own files of one
-- package.
abbrev pub IsDisjoint : List (String × List FileProto) → Contributions → Type 0
IsDisjoint per_layer contribs =
    (p l k : String) → Owns per_layer contribs p l → Owns per_layer contribs p k → l ≡ k

-- When the check passes, the contributions were collected, and no two layers own files of one
-- package among them.
pub check_package_collisions-Owns :
    (per_layer : List (String × List FileProto))
    → check_package_collisions per_layer ≡ ok tt
    → (contribs : Contributions) × (contributions per_layer [] ≡ ok contribs)
      × IsDisjoint per_layer contribs
unfolding check_package_collisions
check_package_collisions-Owns per_layer e = passed (contributions per_layer []) refl e
  where
    passed :
        (r : Result LoadError Contributions)
        → contributions per_layer [] ≡ r
        → (r >>= λ contribs.
            report
              (package_owners per_layer contribs [])
              (sort_strings (colliding (package_owners per_layer contribs []))))
          ≡ ok tt
        → (contribs : Contributions) × (contributions per_layer [] ≡ ok contribs)
          × IsDisjoint per_layer contribs
    passed (err x) h e = absurd cc
    passed (ok contribs) h e =
        let owners = package_owners per_layer contribs [] in
        (
          contribs,
          h,
          λ p l k a b.
              same_of_short l k (values ◌==◌ p owners)
                (colliding-short owners p (
                  sort-nil (colliding owners)
                    (report-nil owners (sort_strings (colliding owners)) e)))
                (Owns-has per_layer contribs [] p l a) (Owns-has per_layer contribs [] p k b),
        )

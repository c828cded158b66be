-- ===== src/Bundle/Collisions/Entries.antt =====
-- internal/bundle/bundle.go, checkPackageCollisions: the contribution of a file that one layer has.
use wavefront.Base.{
  String, ◌≡◌, refl, sym, ap, ◌∙◌, Bool, true, false, List, [], ◌∷◌, Option, none, some, ◌==◌,
  subst, eq_iff, eq_refl, inl, inr, Bool-cases, Occurs, Returns, Returns->>=,
}
use wavefront.Base.Dict.{lookup, put, lookup-put}
use wavefront.Bundle.Merge.{FileProto, encoded_or}
use wavefront.Bundle.Collisions.{
  set_add, Contribution, Contributions, contribute, add_contribution, contributions,
}

pub lookup-Occurs :
    (n : String) (c : Contribution) (d : Contributions) → lookup ◌==◌ n d ≡ some c → Occurs (n, c) d
unfolding lookup
lookup-Occurs n c [] e = absurd cc
lookup-Occurs n c ((j, v) ∷ d) e = elim (Bool-cases (j == n)) [
  | inl f ↦
      let same : v ≡ c = cc (rw f at e) in
      inl (ap (λ k. (k, v)) ((eq_iff j n).0 f) ∙ ap (λ w. (n, w)) same)
  | inr f ↦ inr (lookup-Occurs n c d (rw f at e))
]

module _ (l n : String) (e : Option String) where
  -- The contribution of the file is that of one layer and one encoding.
  abbrev pub IsSingle : Contribution → Type 0
  IsSingle c = (c.layers ≡ l ∷ []) × ((b : String) × (e ≡ some b) × (c.contents ≡ b ∷ []))

  -- What is known of the entry of the file; `found` says that there is one.
  abbrev pub Entry : Bool → Option Contribution → Type 0
  Entry found none = found ≡ false
  Entry found (some c) = IsSingle c

  -- In the layer, only `l` has files of the name, with the encoding.
  abbrev pub AreAlone : String → List FileProto → Type 0
  AreAlone layer fdps = (g : FileProto) → Occurs g fdps → g.name ≡ n → (layer ≡ l) × (g.encoded ≡ e)

  contribute-IsSingle :
      (b : String) (o : Option Contribution)
      → e ≡ some b
      → Entry false o
      → IsSingle (contribute l b o)
  contribute-IsSingle b none h k = (refl, (b, h, refl))
  contribute-IsSingle b (some c) h (one, (b', h', two)) =
      let same : b' ≡ b = cc in
      (
        rw one (unfold set_add in rw (eq_refl l) refl),
        (b, h, rw (two, same) (unfold set_add in rw (eq_refl b) refl)),
      )

  Entry-false : (found : Bool) (o : Option Contribution) → Entry found o → Entry false o
  Entry-false found none h = refl
  Entry-false found (some c) h = h

  abbrev next : String → FileProto → String → Contributions → Contributions
  next layer f b d = put ◌==◌ f.name (contribute layer b (lookup ◌==◌ f.name d)) d

  next-found :
      (layer : String) (f : FileProto) (b : String) (d : Contributions)
      → f.encoded ≡ some b
      → (layer ≡ l) × (f.encoded ≡ e)
      → f.name ≡ n
      → Entry false (lookup ◌==◌ n d)
      → Entry true (lookup ◌==◌ n (next layer f b d))
  next-found layer f b d h (at, same) named k =
      let single : IsSingle (contribute layer b (lookup ◌==◌ f.name d)) =
        subst (λ x. IsSingle (contribute x b (lookup ◌==◌ f.name d))) (sym at)
          (contribute-IsSingle b (lookup ◌==◌ f.name d) (sym same ∙ h)
            (subst (λ x. Entry false (lookup ◌==◌ x d)) (sym named) k)) in
      rw
        (
          lookup-put ◌==◌ eq_iff f.name n (contribute layer b (lookup ◌==◌ f.name d)) d,
          (eq_iff f.name n).1 named,
        )
        single

  next-Entry :
      (found : Bool) (layer : String) (f : FileProto) (b : String) (d : Contributions)
      → f.encoded ≡ some b
      → (f.name ≡ n → (layer ≡ l) × (f.encoded ≡ e))
      → Entry found (lookup ◌==◌ n d)
      → Entry found (lookup ◌==◌ n (next layer f b d))
  next-Entry found layer f b d h alone k = elim (Bool-cases (f.name == n)) [
    | inl t ↦
        let named : f.name ≡ n = (eq_iff f.name n).0 t in
        weaken found (lookup ◌==◌ n (next layer f b d))
          (next-found layer f b d h (alone named) named (Entry-false found (lookup ◌==◌ n d) k))
    | inr t ↦
        rw (lookup-put ◌==◌ eq_iff f.name n (contribute layer b (lookup ◌==◌ f.name d)) d, t) k
  ]
    where
      weaken : (m : Bool) (o : Option Contribution) → Entry true o → Entry m o
      weaken m none x = absurd cc
      weaken m (some c) x = x

  encoded_or-some : (o : Option String) → Returns (λ b. o ≡ some b) (encoded_or o)
  encoded_or-some none = tt
  encoded_or-some (some b) = refl

  add_contribution-Entry :
      (found : Bool) (layer : String) (fdps : List FileProto) (d : Contributions)
      → AreAlone layer fdps
      → Entry found (lookup ◌==◌ n d)
      → Returns (λ r. Entry found (lookup ◌==◌ n r)) (add_contribution layer fdps d)
  unfolding add_contribution
  add_contribution-Entry found layer [] d alone k = k
  add_contribution-Entry found layer (f ∷ fdps) d alone k =
      Returns->>= (λ b. f.encoded ≡ some b) (λ r. Entry found (lookup ◌==◌ n r))
        (encoded_or f.encoded) _ (encoded_or-some f.encoded)
        (λ b h.
          add_contribution-Entry found layer fdps (next layer f b d) (λ g at. alone g (inr at))
            (next-Entry found layer f b d h (alone f (inl refl)) k))

  add_contribution-found :
      (layer : String) (f : FileProto) (fdps : List FileProto) (d : Contributions)
      → Occurs f fdps
      → f.name ≡ n
      → AreAlone layer fdps
      → Entry false (lookup ◌==◌ n d)
      → Returns (λ r. Entry true (lookup ◌==◌ n r)) (add_contribution layer fdps d)
  unfolding add_contribution
  add_contribution-found layer f [] d at named alone k = absurd at
  add_contribution-found layer f (g ∷ fdps) d (inl same) named alone k =
      let is_n : g.name ≡ n = ap (λ x. x.name) same ∙ named in
      Returns->>= (λ b. g.encoded ≡ some b) (λ r. Entry true (lookup ◌==◌ n r))
        (encoded_or g.encoded) _ (encoded_or-some g.encoded)
        (λ b h.
          add_contribution-Entry true layer fdps (next layer g b d) (λ x at. alone x (inr at))
            (next-found layer g b d h (alone g (inl refl) is_n) is_n k))
  add_contribution-found layer f (g ∷ fdps) d (inr at) named alone k =
      Returns->>= (λ b. g.encoded ≡ some b) (λ r. Entry true (lookup ◌==◌ n r))
        (encoded_or g.encoded) _ (encoded_or-some g.encoded)
        (λ b h.
          add_contribution-found layer f fdps (next layer g b d) at named
            (λ x there. alone x (inr there))
            (next-Entry false layer g b d h (alone g (inl refl)) k))

  abbrev pub AllAlone : List (String × List FileProto) → Type 0
  AllAlone per_layer =
      (k : String) (fdps : List FileProto) → Occurs (k, fdps) per_layer → AreAlone k fdps

  contributions-Entry :
      (found : Bool) (per_layer : List (String × List FileProto)) (d : Contributions)
      → AllAlone per_layer
      → Entry found (lookup ◌==◌ n d)
      → Returns (λ r. Entry found (lookup ◌==◌ n r)) (contributions per_layer d)
  unfolding contributions
  contributions-Entry found [] d alone k = k
  contributions-Entry found ((layer, fdps) ∷ per_layer) d alone k =
      Returns->>= (λ r. Entry found (lookup ◌==◌ n r)) (λ r. Entry found (lookup ◌==◌ n r))
        (add_contribution layer fdps d) _
        (add_contribution-Entry found layer fdps d (alone layer fdps (inl refl)) k)
        (λ r h. contributions-Entry found per_layer r (λ x y at. alone x y (inr at)) h)

  pub contributions-found :
      (layer : String) (f : FileProto) (fdps : List FileProto)
      (per_layer : List (String × List FileProto)) (d : Contributions)
      → Occurs (layer, fdps) per_layer
      → Occurs f fdps
      → f.name ≡ n
      → AllAlone per_layer
      → Entry false (lookup ◌==◌ n d)
      → Returns (λ r. Entry true (lookup ◌==◌ n r)) (contributions per_layer d)
  unfolding contributions
  contributions-found layer f fdps [] d at in_it named alone k = absurd at
  contributions-found layer f fdps ((j, others) ∷ per_layer) d (inl same) in_it named alone k =
      let there : Occurs f others = subst (λ x. Occurs f x.1) (sym same) in_it in
      Returns->>= (λ r. Entry true (lookup ◌==◌ n r)) (λ r. Entry true (lookup ◌==◌ n r))
        (add_contribution j others d) _
        (add_contribution-found j f others d there named (alone j others (inl refl)) k)
        (λ r h. contributions-Entry true per_layer r (λ x y at. alone x y (inr at)) h)
  contributions-found layer f fdps ((j, others) ∷ per_layer) d (inr at) in_it named alone k =
      Returns->>= (λ r. Entry false (lookup ◌==◌ n r)) (λ r. Entry true (lookup ◌==◌ n r))
        (add_contribution j others d) _
        (add_contribution-Entry false j others d (alone j others (inl refl)) k)
        (λ r h.
          contributions-found layer f fdps per_layer r at in_it named
            (λ x y there. alone x y (inr there)) h)

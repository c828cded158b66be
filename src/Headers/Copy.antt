-- ===== src/Headers/Copy.antt =====
-- What a copy of headers contains.
use wavefront.Base.{
  String, ◌≡◌, refl, ap, ◌∙◌, Bool, true, false, List, [], ◌∷◌, ◌++◌, if◌then◌else◌, ◌==◌, any,
  arith, subst, eq_iff, inl, inr, Bool-cases,
}
use wavefront.Base.Dict.{values, append_at, put, values-append_at}
use wavefront.Headers.{Header, get, set, add_all, copy_where}

-- The keys are distinct, as in a Go map.
abbrev pub has_key : String → Header → Bool
has_key k src = any (λ (j, vs). j == k) src

abbrev pub Distinct : Header → Type 0
Distinct [] = Unit
Distinct ((k, vs) ∷ src) = (has_key k src ≡ false) × Distinct src

append_nil : {A : Type 0} (xs : List A) → xs ++ [] ≡ xs
append_nil [] = refl
append_nil (x ∷ xs) = ap (λ ys. x ∷ ys) (append_nil xs)

append_assoc : {A : Type 0} (xs ys zs : List A) → (xs ++ ys) ++ zs ≡ xs ++ (ys ++ zs)
append_assoc [] ys zs = refl
append_assoc (x ∷ xs) ys zs = ap (λ l. x ∷ l) (append_assoc xs ys zs)

values-add_all :
    (k j : String) (vs : List String) (dst : Header)
    → values ◌==◌ j (add_all k vs dst)
      ≡ (if k == j then values ◌==◌ j dst ++ vs else values ◌==◌ j dst)
unfolding add_all
values-add_all k j [] dst = ground (arith, append_nil (values ◌==◌ j dst))
values-add_all k j (v ∷ vs) dst = ground (
  arith,
  values-add_all k j vs (append_at ◌==◌ k v dst),
  values-append_at ◌==◌ eq_iff k j v dst,
  append_assoc (values ◌==◌ j dst) (v ∷ []) vs,
)

values-missing : (k : String) (src : Header) → has_key k src ≡ false → values ◌==◌ k src ≡ []
unfolding values
values-missing k [] h = refl
values-missing k ((j, vs) ∷ src) h = ground (arith, h, values-missing k src)

-- A copy adds the values of the keys that pass the test, in their order, and nothing else.
pub values-copy_where :
    (p : String → Bool) (k : String) (src dst : Header)
    → Distinct src
    → values ◌==◌ k (copy_where p src dst)
      ≡ values ◌==◌ k dst ++ (if p k then values ◌==◌ k src else [])
unfolding copy_where values
values-copy_where p k [] dst u = ground (arith, append_nil (values ◌==◌ k dst))
values-copy_where p k ((j, vs) ∷ src) dst (new, u) = elim (Bool-cases (j == k)) [
  | inl e ↦
      let same = (eq_iff j k).0 e in
      let missing = values-missing k src (subst (λ i. has_key i src ≡ false) same new) in
      ground (
        arith,
        e,
        ap p same,
        missing,
        values-add_all j k vs dst,
        append_nil (values ◌==◌ k dst),
        append_nil (values ◌==◌ k dst ++ vs),
        values-copy_where p k src (if p j then add_all j vs dst else dst) u,
      )
  | inr e ↦ ground (
    arith,
    e,
    values-add_all j k vs dst,
    values-copy_where p k src (if p j then add_all j vs dst else dst) u,
  )
]

values-put :
    (j k : String) (vs : List String) (h : Header)
    → values ◌==◌ k (put ◌==◌ j vs h) ≡ (if j == k then vs else values ◌==◌ k h)
unfolding values put
values-put j k vs [] = refl
values-put j k vs ((i, ws) ∷ h) =
    ground (arith, eq_iff i j, eq_iff i k, eq_iff j k, values-put j k vs h)

-- What is read after a header was set.
pub get-set : (j k v : String) (h : Header) → get k (set j v h) ≡ (if j == k then v else get k h)
unfolding get set
get-set j k v h = ground (arith, values-put j k (v ∷ []) h)

untouched :
    (p : String → Bool) (k j : String) (vs : List String) (dst : Header) (b : Bool)
    → p k ≡ false
    → p j ≡ b
    → get k (if b then add_all j vs dst else dst) ≡ get k dst
unfolding get
untouched p k j vs dst false e f = refl
untouched p k j vs dst true e f =
    let same : (j == k) ≡ true → p j ≡ p k = λ t. ap p ((eq_iff j k).0 t) in
    ground (arith, e, f, same, values-add_all j k vs dst)

-- A key that does not pass the test is not touched.
pub get-copy_where :
    (p : String → Bool) (k : String) (src dst : Header)
    → p k ≡ false
    → get k (copy_where p src dst) ≡ get k dst
unfolding copy_where get
get-copy_where p k [] dst e = refl
get-copy_where p k ((j, vs) ∷ src) dst e =
    get-copy_where p k src (if p j then add_all j vs dst else dst) e
    ∙ untouched p k j vs dst (p j) e refl

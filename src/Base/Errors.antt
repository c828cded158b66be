-- ===== src/Base/Errors.antt =====
-- A Go function that returns a value and an error: `err` where the error is not nil.
use mathlib.Core.Bool.{Bool, true, false}
use mathlib.Core.Path.{◌≡◌, refl, subst}

pub data Result {ℓ} (E : Type 0) (A : Type ℓ) : Type ℓ where
  err : E → Result E A
  ok : A → Result E A

-- An early return of an error.
abbrev pub fail_if : {E : Type 0} → Bool → E → Result E (Unit {0})
fail_if false e = ok tt
fail_if true e = err e

-- The rest of the body runs on the value, unless there is an error.
infixl 5 ◌>>=◌
abbrev pub ◌>>=◌ {ℓ κ} :
    {E : Type 0} {A : Type ℓ} {B : Type κ} → Result E A → (A → Result E B) → Result E B
err e >>= rest = err e
ok a >>= rest = rest a

module _ {ℓ κ} {E : Type 0} {A : Type ℓ} {B : Type κ} where
  -- The two halves of a chain that succeeds.
  pub >>=-eq-ok :
      (first : Result E A) (rest : A → Result E B) {out : B}
      → (first >>= rest) ≡ ok out
      → (a : A) × (first ≡ ok a) × (rest a ≡ ok out)
  >>=-eq-ok (err e) rest h = cc
  >>=-eq-ok (ok a) rest h = (a, refl, h)

infixl 5 ◌>>◌
abbrev pub ◌>>◌ {ℓ κ} :
    {E : Type 0} {A : Type ℓ} {B : Type κ} → Result E A → Result E B → Result E B
check >> rest = check >>= λ _. rest

ok-injective {ℓ} : {E : Type 0} {A : Type ℓ} {a b : A} → ◌≡◌ {A = Result E A} (ok a) (ok b) → a ≡ b
ok-injective e = cc

err-injective {ℓ} :
    {E : Type 0} {A : Type ℓ} {x y : E} → ◌≡◌ {A = Result E A} (err x) (err y) → x ≡ y
err-injective e = cc

-- What holds of the error, if there is one.
abbrev pub Fails {ℓ κ} : {E : Type 0} {A : Type ℓ} → (E → Type κ) → Result E A → Type κ
Fails P (ok a) = Unit
Fails P (err e) = P e

-- What holds of the value, if there is one.
abbrev pub Returns {ℓ κ} : {E : Type 0} {A : Type ℓ} → (A → Type κ) → Result E A → Type κ
Returns P (ok a) = P a
Returns P (err e) = Unit

module _ {ℓ κ ι} {E : Type 0} {A : Type ℓ} {B : Type κ} where
  pub Fails->>= :
      (P : E → Type ι) (m : Result E A) (f : A → Result E B)
      → Fails P m
      → ((a : A) → Fails P (f a))
      → Fails P (m >>= f)
  Fails->>= P (ok a) f h k = k a
  Fails->>= P (err e) f h k = h

  pub Returns->>= :
      (Q : A → Type ι) (P : B → Type ι) (m : Result E A) (f : A → Result E B)
      → Returns Q m
      → ((a : A) → Q a → Returns P (f a))
      → Returns P (m >>= f)
  Returns->>= Q P (ok a) f h k = k a h
  Returns->>= Q P (err e) f h k = tt

module _ {ℓ κ} {E : Type 0} {A : Type 0} {B : Type ℓ} (P : B → Type κ) where
  -- What the rest returns, whatever the first step returned.
  pub Returns-then :
      (m : Result E A) (f : A → Result E B) → ((a : A) → Returns P (f a)) → Returns P (m >>= f)
  Returns-then (ok a) f k = k a
  Returns-then (err e) f k = tt

  pub Returns-next : (m : Result E A) (n : Result E B) → Returns P n → Returns P (m >> n)
  Returns-next (ok a) n k = k
  Returns-next (err e) n k = tt

pub Returns-all {ℓ κ} :
    {E : Type 0} {A : Type ℓ} (P : A → Type κ) (m : Result E A) → ((a : A) → P a) → Returns P m
Returns-all P (ok a) h = h a
Returns-all P (err e) h = tt

pub Returns-mono {ℓ κ ι} :
    {E : Type 0} {A : Type ℓ} (P : A → Type κ) (Q : A → Type ι) (m : Result E A)
    → ((a : A) → P a → Q a)
    → Returns P m
    → Returns Q m
Returns-mono P Q (ok a) h p = h a p
Returns-mono P Q (err e) h p = tt

-- What a check leaves to the code behind it.
pub Returns-fail_if {ℓ κ} :
    {E : Type 0} {B : Type ℓ} (P : B → Type κ) (b : Bool) (e : E) (m : Result E B)
    → (b ≡ false → Returns P m)
    → Returns P (fail_if b e >> m)
Returns-fail_if P true e m h = tt
Returns-fail_if P false e m h = h refl

pub Returns-intro {ℓ κ} :
    {E : Type 0} {A : Type ℓ} (P : A → Type κ) (m : Result E A)
    → ((a : A) → m ≡ ok a → P a)
    → Returns P m
Returns-intro P (ok a) h = h a refl
Returns-intro P (err e) h = tt

pub Returns_elim {ℓ κ} :
    {E : Type 0} {A : Type ℓ} (P : A → Type κ) (m : Result E A) {a : A}
    → Returns P m
    → m ≡ ok a
    → P a
Returns_elim P (ok b) h e = subst P (ok-injective e) h
Returns_elim P (err x) h e = cc

pub Fails_elim {ℓ κ} :
    {E : Type 0} {A : Type ℓ} (P : E → Type κ) (m : Result E A) {x : E}
    → Fails P m
    → m ≡ err x
    → P x
Fails_elim P (ok b) h e = cc
Fails_elim P (err y) h e = subst P (err-injective e) h

pub Fails-fail_if {ℓ κ} :
    {E : Type 0} {B : Type ℓ} (P : E → Type κ) (b : Bool) (e : E) (m : Result E B)
    → P e
    → (b ≡ false → Fails P m)
    → Fails P (fail_if b e >> m)
Fails-fail_if P true e m h k = h
Fails-fail_if P false e m h k = k refl

pub Fails-intro {ℓ κ} :
    {E : Type 0} {A : Type ℓ} (P : E → Type κ) (m : Result E A)
    → ((e : E) → m ≡ err e → P e)
    → Fails P m
Fails-intro P (ok a) h = tt
Fails-intro P (err e) h = h e refl

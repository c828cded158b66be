-- ===== src/Base/Tests.antt =====
-- Boolean tests, the conditional, and the case splits that keep the equation of what was split.
use Prim.Native.Nat.{ℕ, compare, Ordering}
use mathlib.Core.Path.{◌≡◌, refl}
use mathlib.Core.Logic.{◌↔◌, ◌⊎◌, inl, inr}
use mathlib.Core.Bool.{Bool, true, false}
use mathlib.Core.Option.{Option, none, some}
use native.Mathlib.Omega.{arith}

abbrev pub ltb : ℕ → ℕ → Bool
ltb a b = elim (compare a b) [ Ordering.lt ↦ true | _ ↦ false ]

abbrev pub leb : ℕ → ℕ → Bool
leb a b = elim (compare a b) [ Ordering.gt ↦ false | _ ↦ true ]

-- Equality of numbers; `==` is that of texts.
abbrev pub eqb : ℕ → ℕ → Bool
eqb a b = elim (compare a b) [ Ordering.eq ↦ true | _ ↦ false ]

infix 1 if◌then◌else◌
abbrev pub if◌then◌else◌ {ℓ} : {A : Type ℓ} → Bool → A → A → A
if true then x else y = x
if false then x else y = y

pub eqb_iff : (a b : ℕ) → (eqb a b ≡ true) ↔ (a ≡ b)
eqb_iff a b = ground arith

pub Bool-cases : (b : Bool) → (b ≡ true) ⊎ (b ≡ false)
Bool-cases true = inl refl
Bool-cases false = inr refl

pub Option-cases {ℓ} : {A : Type ℓ} (o : Option A) → (o ≡ none) ⊎ ((a : A) × (o ≡ some a))
Option-cases none = inl refl
Option-cases (some a) = inr (a, refl)

pub some-injective : {A : Type 0} {a b : A} → ◌≡◌ {A = Option A} (some a) (some b) → a ≡ b
some-injective e = cc

-- The two ways to a result of a search.
pub pick :
    {A : Type 0} {a b : A} {rest : Option A} (t : Bool)
    → ◌≡◌ {A = Option A} (if t then some a else rest) (some b)
    → ((t ≡ true) × (a ≡ b)) ⊎ ◌≡◌ {A = Option A} rest (some b)
pick true e = inl (refl, some-injective e)
pick false e = inr e

-- The two ways to the value of a conditional.
pub branch :
    {A : Type 0} {a b c : A} (t : Bool)
    → (if t then a else b) ≡ c
    → ((t ≡ true) × (a ≡ c)) ⊎ ((t ≡ false) × (b ≡ c))
branch true e = inl (refl, e)
branch false e = inr (refl, e)

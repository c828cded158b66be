-- ===== src/Base/Text/Bounds.antt =====
-- strconv.Atoi: the range of its results.
use Prim.Native.Char.{code}
use Prim.Native.Nat.{ℕ, zero, suc, ◌^◌, ◌<◌}
use Prim.Native.String.{String}
use mathlib.Core.Path.{◌≡◌}
use mathlib.Core.Option.{Option, none, some}
use native.Mathlib.Omega.{arith}
use mathlib.Core.Logic.{inl, inr}
use wavefront.Base.Tests.{eqb, ltb, leb, branch, pick}
use wavefront.Base.Int.{pos}
use wavefront.Base.Text.{atoi, digits, positive_int, negative_int, negated}

pub pos-injective : {m n : ℕ} → pos m ≡ pos n → m ≡ n
pos-injective e = cc

negated-bound : (n m : ℕ) → negated n ≡ pos m → m < 2 ^ 63
unfolding negated
negated-bound zero m e = ground (arith, pos-injective e)
negated-bound (suc n) m e = absurd cc

positive_int-bound : (d : Option ℕ) (m : ℕ) → positive_int d ≡ some (pos m) → m < 2 ^ 63
unfolding positive_int
positive_int-bound none m e = absurd cc
positive_int-bound (some n) m e = elim (pick (ltb n (2 ^ 63)) e) [
  | inl (t, same) ↦ ground (arith, t, pos-injective same)
  | inr later ↦ absurd cc
]

negative_int-bound : (d : Option ℕ) (m : ℕ) → negative_int d ≡ some (pos m) → m < 2 ^ 63
unfolding negative_int negated
negative_int-bound none m e = absurd cc
negative_int-bound (some n) m e = elim (pick (leb n (2 ^ 63)) e) [
  | inl (t, same) ↦ negated-bound n m same
  | inr later ↦ absurd cc
]

-- A number that was read lies within 64 bits.
pub atoi-bound : (s : String) (m : ℕ) → atoi s ≡ some (pos m) → m < 2 ^ 63
unfolding atoi
atoi-bound String.[] m e = absurd cc
atoi-bound (String.◌∷◌ c s) m e = elim (branch (eqb (code c) b'-') e) [
  | inl (_, n) ↦ negative_int-bound (digits s) m n
  | inr (_, p) ↦ elim (branch (eqb (code c) b'+') p) [
    | inl (_, q) ↦ positive_int-bound (digits s) m q
    | inr (_, q) ↦ positive_int-bound (digits (String.◌∷◌ c s)) m q
  ]
]

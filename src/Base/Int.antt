-- ===== src/Base/Int.antt =====
-- Go's signed integers, over the native numbers. `negsuc n` is -(n + 1).
use Prim.Native.Nat.{ℕ}
use mathlib.Core.Bool.{Bool, false, ◌&&◌}
use wavefront.Base.Tests.{leb, eqb}

pub data ℤ : Type 0 where
  pos : ℕ → ℤ
  negsuc : ℕ → ℤ

-- lo <= z && z <= hi, for bounds that are not negative
abbrev pub within : ℕ → ℕ → ℤ → Bool
within lo hi (pos n) = leb lo n && leb n hi
within lo hi (negsuc n) = false

infix 50 ◌==ℤ◌
abbrev pub ◌==ℤ◌ : ℤ → ℤ → Bool
pos m ==ℤ pos n = eqb m n
negsuc m ==ℤ negsuc n = eqb m n
_ ==ℤ _ = false

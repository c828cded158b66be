-- ===== src/Base/Text/Sort.antt =====
-- sort.Strings of Go's package sort.
use Prim.Native.Char.{code}
use Prim.Native.String.{String}
use mathlib.Core.Bool.{Bool, true, false}
use mathlib.Core.List.{List, [], ◌∷◌}
use wavefront.Base.Tests.{eqb, ltb, if◌then◌else◌}

-- One text stands in front of another, by code points.
unfoldable pub before : String → String → Bool
before String.[] t = true
before (String.◌∷◌ c s) String.[] = false
before (String.◌∷◌ c s) (String.◌∷◌ d t) =
    if eqb (code c) (code d) then before s t else ltb (code c) (code d)

unfoldable pub insert : String → List String → List String
insert n [] = n ∷ []
insert n (m ∷ names) = if before n m then n ∷ m ∷ names else m ∷ insert n names

-- sort.Strings
unfoldable pub sort_strings : List String → List String
sort_strings [] = []
sort_strings (n ∷ names) = insert n (sort_strings names)

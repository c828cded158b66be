-- ===== src/Base/Text.antt =====
-- What the program uses of Go's package strings: splitting at a one-byte separator and joining.
pub mod Laws
pub mod Bounds
pub mod Sort
use Prim.Native.Char.{code}
use Prim.Native.String
use mathlib.Core.List.{List, [], ◌∷◌}
use mathlib.Core.Bool.{Bool, true, false, ◌&&◌, ◌||◌}
use Prim.Native.Nat.{ℕ, zero, suc, ◌+◌, ◌-◌, ◌*◌, ◌^◌}
use Prim.Native.String.{String, ◌++◌ as ◌<>◌}
use Prim.Native.Char.{Char}
use mathlib.Core.Option.{Option, none, some}
use wavefront.Base.Tests.{eqb, leb, ltb, if◌then◌else◌}
use wavefront.Base.Int.{ℤ, pos, negsuc}

-- A character in front of the first part.
abbrev pub push_front : Char → List String → List String
push_front c [] = String.◌∷◌ c String.[] ∷ []
push_front c (p ∷ ps) = String.◌∷◌ c p ∷ ps

-- strings.Split(s, sep)
unfoldable pub split : ℕ → String → List String
split sep String.[] = "" ∷ []
split sep (String.◌∷◌ c s) =
    let rest = split sep s in if eqb (code c) sep then "" ∷ rest else push_front c rest

-- strings.Join(parts, sep)
unfoldable pub join : String → List String → String
join sep [] = ""
join sep (p ∷ []) = p
join sep (p ∷ q ∷ ps) = p <> (sep <> join sep (q ∷ ps))

-- strings.HasPrefix(s, sep)
unfoldable pub begins_with : ℕ → String → Bool
begins_with sep String.[] = false
begins_with sep (String.◌∷◌ c s) = eqb (code c) sep

-- strings.HasPrefix(s, prefix)
unfoldable pub has_prefix : String → String → Bool
has_prefix s String.[] = true
has_prefix String.[] (String.◌∷◌ p prefix) = false
has_prefix (String.◌∷◌ c s) (String.◌∷◌ p prefix) = eqb (code c) (code p) && has_prefix s prefix

-- The character goes if it is the separator with nothing kept behind it.
keep_unless : ℕ → Char → String → String
keep_unless sep c String.[] = if eqb (code c) sep then String.[] else String.◌∷◌ c String.[]
keep_unless sep c (String.◌∷◌ d s) = String.◌∷◌ c (String.◌∷◌ d s)

-- strings.TrimRight(s, sep)
unfoldable pub trim_end : ℕ → String → String
unfolding keep_unless
trim_end sep String.[] = String.[]
trim_end sep (String.◌∷◌ c s) = keep_unless sep c (trim_end sep s)

-- strings.HasSuffix(s, sep)
unfoldable pub ends_with : ℕ → String → Bool
ends_with sep String.[] = false
ends_with sep (String.◌∷◌ c String.[]) = eqb (code c) sep
ends_with sep (String.◌∷◌ c s) = ends_with sep s

-- unicode.IsSpace
unfoldable pub is_space : Char → Bool
is_space c =
    let n = code c in
    (leb 9 n && leb n 13)
    || eqb n 0x20
    || eqb n 0x85
    || eqb n 0xa0
    || eqb n 0x1680
    || (leb 0x2000 n && leb n 0x200a)
    || eqb n 0x2028
    || eqb n 0x2029
    || eqb n 0x202f
    || eqb n 0x205f
    || eqb n 0x3000

trim_left : String → String
trim_left String.[] = String.[]
trim_left (String.◌∷◌ c s) = if is_space c then trim_left s else String.◌∷◌ c s

-- The character goes if it is white space with nothing kept behind it.
keep_left : Char → String → String
keep_left c String.[] = if is_space c then String.[] else String.◌∷◌ c String.[]
keep_left c (String.◌∷◌ d s) = String.◌∷◌ c (String.◌∷◌ d s)

trim_right : String → String
unfolding keep_left
trim_right String.[] = String.[]
trim_right (String.◌∷◌ c s) = keep_left c (trim_right s)

-- strings.TrimSpace
unfoldable pub trim_space : String → String
unfolding trim_left trim_right is_space
trim_space s = trim_left (trim_right s)

-- The counterpart of a character in two tables of one length, or the character.
translate : String → String → Char → Char
translate String.[] upper c = c
translate (String.◌∷◌ l lower) String.[] c = c
translate (String.◌∷◌ l lower) (String.◌∷◌ u upper) c =
    if eqb (code l) (code c) then u else translate lower upper c

-- strings.ToUpper, exact for every character that has an ASCII letter as its upper case; no other
-- result of the conversion is read than whether a text of ASCII letters comes out.
unfoldable pub to_upper : String → String
unfolding translate
to_upper String.[] = String.[]
to_upper (String.◌∷◌ c s) =
    String.◌∷◌ (translate "abcdefghijklmnopqrstuvwxyzıſ" "ABCDEFGHIJKLMNOPQRSTUVWXYZIS" c)
      (to_upper s)

-- The value of a text of decimal digits, behind the digits read so far.
digits_from : ℕ → String → Option ℕ
digits_from acc String.[] = some acc
digits_from acc (String.◌∷◌ c s) =
    let rest = digits_from (acc * 10 + (code c - b'0')) s in
    if leb b'0' (code c) && leb (code c) b'9' then rest else none

digits : String → Option ℕ
unfolding digits_from
digits String.[] = none
digits (String.◌∷◌ c s) = digits_from 0 (String.◌∷◌ c s)

negated : ℕ → ℤ
negated zero = pos 0
negated (suc n) = negsuc n

-- Within the range of a 64-bit int.
positive_int : Option ℕ → Option ℤ
positive_int none = none
positive_int (some n) = if ltb n (2 ^ 63) then some (pos n) else none

negative_int : Option ℕ → Option ℤ
unfolding negated
negative_int none = none
negative_int (some n) = if leb n (2 ^ 63) then some (negated n) else none

-- strconv.Atoi; `none` is the error.
unfoldable pub atoi : String → Option ℤ
unfolding digits positive_int negative_int
atoi String.[] = none
atoi (String.◌∷◌ c s) =
    if eqb (code c) b'-'
    then negative_int (digits s)
    else if eqb (code c) b'+'
    then positive_int (digits s)
    else positive_int (digits (String.◌∷◌ c s))

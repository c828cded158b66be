-- ===== src/Server/StatusLine.antt =====
-- internal/server/stdlib_boundary.go, parseStatusLine: the status in a response that net/http wrote
-- by itself.
use wavefront.Base.{
  ℕ, ◌+◌, ◌-◌, ◌*◌, ◌≤◌, ◌≡◌, refl, Bool, true, false, not, ◌&&◌, ◌||◌, [], ◌∷◌, ◌++◌, Option, none,
  some, if◌then◌else◌, ltb, leb, eqb, length, length-append, arith, any,
}
use wavefront.Json.{Bytes}

-- bytes.HasPrefix
starts_with : Bytes → Bytes → Bool
starts_with p [] = true
starts_with [] (b ∷ prefix) = false
starts_with (a ∷ p) (b ∷ prefix) = eqb a b && starts_with p prefix

-- The bytes behind the first space, if there is one.
after_space : Bytes → Option Bytes
after_space [] = none
after_space (b ∷ p) = let rest = after_space p in if eqb b b' ' then some p else rest

abbrev is_digit : ℕ → Bool
is_digit b = leb b'0' b && leb b b'9'

-- The value of the first three bytes, if they are digits.
three_digits : Option Bytes → ℕ
three_digits (some (a ∷ b ∷ c ∷ rest)) =
    if is_digit a && is_digit b && is_digit c
    then (((a - b'0') * 10 + (b - b'0')) * 10) + (c - b'0')
    else 0
three_digits _ = 0

abbrev http : Bytes
http = b'H' ∷ b'T' ∷ b'T' ∷ b'P' ∷ b'/' ∷ []

unfoldable pub parse_status_line : Bytes → ℕ
unfolding starts_with after_space three_digits
parse_status_line p =
    if ltb (length p) 13 || not (starts_with p http) then 0 else three_digits (after_space p)

-- A response line with this version, digits and rest.
abbrev pub status_line : Bytes → ℕ → ℕ → ℕ → Bytes → Bytes
status_line version a b c rest =
    http ++ version ++ b' ' ∷ (b'0' + a) ∷ (b'0' + b) ∷ (b'0' + c) ∷ rest

after_space-append :
    (version rest : Bytes)
    → any (λ b. eqb b b' ') version ≡ false
    → after_space (version ++ b' ' ∷ rest) ≡ some rest
unfolding after_space
after_space-append [] rest h = refl
after_space-append (b ∷ version) rest h = ground (arith, h, after_space-append version rest)

three_digits-value :
    (a b c : ℕ) (rest : Bytes)
    → a ≤ 9
    → b ≤ 9
    → c ≤ 9
    → three_digits (some ((b'0' + a) ∷ (b'0' + b) ∷ (b'0' + c) ∷ rest)) ≡ a * 100 + b * 10 + c
unfolding three_digits
three_digits-value a b c rest h k l = ground arith

-- The status of a response line is read back whatever its version and its reason are, if the
-- version has no space and the line has at least thirteen bytes.
pub parse_status_line-status_line :
    (version rest : Bytes) (a b c : ℕ)
    → any (λ b. eqb b b' ') version ≡ false
    → 4 ≤ length version + length rest
    → a ≤ 9
    → b ≤ 9
    → c ≤ 9
    → parse_status_line (status_line version a b c rest) ≡ a * 100 + b * 10 + c
unfolding parse_status_line starts_with after_space
parse_status_line-status_line version rest a b c n enough h k l =
    let tail = (b'0' + a) ∷ (b'0' + b) ∷ (b'0' + c) ∷ rest in
    ground (
      arith,
      enough,
      length-append version (b' ' ∷ tail),
      after_space-append version tail n,
      three_digits-value a b c rest h k l,
    )

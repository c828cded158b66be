-- ===== src/Transform/Path.antt =====
-- internal/transform/path.go: references into a JSON value tree.
pub mod RoundTrip
use Prim.Native.Char.{Char, code}
use Prim.Native.String
use wavefront.Base.{
  String, ◌<>◌, Bool, true, false, not, ◌&&◌, ◌||◌, List, [], ◌∷◌, map, Option, none, some, Result,
  ok, err, ◌>>=◌, if◌then◌else◌, ◌==◌, eqb, ◌≡◌, refl,
}
use wavefront.Base.Text.{split, join, begins_with, ends_with}

pub record Segment : Type 0 where
  pub name : String
  pub array : Bool

abbrev pub FieldPath : Type 0
FieldPath = List Segment

-- The errors of `ParsePath`, each with the texts that its message quotes.
pub data PathError : Type 0 where
  empty_path : PathError
  leading_dot trailing_dot empty_segment empty_name ends_with_array : String → PathError
  invalid_character : String → String → PathError

is_brackets : String → Bool
is_brackets (String.◌∷◌ c (String.◌∷◌ d String.[])) = eqb (code c) b'[' && eqb (code d) b']'
is_brackets _ = false

abbrev push_char : Char → Option String → Option String
push_char c none = none
push_char c (some t) = some (String.◌∷◌ c t)

-- The text before a final "[]", if it has one.
strip_brackets : String → Option String
strip_brackets String.[] = none
strip_brackets (String.◌∷◌ c s) =
    if is_brackets (String.◌∷◌ c s) then some "" else push_char c (strip_brackets s)

abbrev is_special : Char → Bool
is_special c = eqb (code c) b'.' || eqb (code c) b'[' || eqb (code c) b']'

-- strings.ContainsAny(s, ".[]")
unfoldable pub contains_special : String → Bool
contains_special String.[] = false
contains_special (String.◌∷◌ c s) = is_special c || contains_special s

abbrev is_empty {ℓ} : {A : Type ℓ} → List A → Bool
is_empty [] = true
is_empty (x ∷ xs) = false

-- The checks on a segment's name, once a final "[]" is stripped.
finish_segment : String → Bool → Bool → String → Result PathError Segment
finish_segment s last array name =
    if name == ""
    then err (empty_name s)
    else if contains_special name
    then err (invalid_character name s)
    else if array && last
    then err (ends_with_array s)
    else ok (record { name = name; array = array })

-- One round of the loop of `ParsePath`; `last` is `i == len(segs)-1`.
parse_segment : String → Bool → String → Result PathError Segment
unfolding strip_brackets
parse_segment s last seg = if seg == "" then err (empty_segment s) else elim (strip_brackets seg) [
  | none ↦ finish_segment s last false seg
  | some name ↦ finish_segment s last true name
]

parse_segments : String → List String → Result PathError FieldPath
parse_segments s [] = ok []
parse_segments s (seg ∷ rest) = do
  x ← parse_segment s (is_empty rest) seg
  xs ← parse_segments s rest
  ok (x ∷ xs)

unfoldable pub parse_path : String → Result PathError FieldPath
unfolding parse_segments parse_segment finish_segment strip_brackets is_brackets contains_special
parse_path s =
    if s == ""
    then err empty_path
    else if begins_with b'.' s
    then err (leading_dot s)
    else if ends_with b'.' s
    then err (trailing_dot s)
    else parse_segments s (split b'.' s)

segment_string : Segment → String
segment_string s = if s.array then s.name <> "[]" else s.name

-- Path.String
unfoldable pub path_string : FieldPath → String
unfolding segment_string
path_string p = join "." (map segment_string p)

abbrev pub same_flag : Bool → Bool → Bool
same_flag true b = b
same_flag false b = not b

unfoldable pub segment_equal : Segment → Segment → Bool
segment_equal a b = a.name == b.name && same_flag a.array b.array

-- Path.Equal
unfoldable pub equal : FieldPath → FieldPath → Bool
unfolding segment_equal
equal [] [] = true
equal (a ∷ p) (b ∷ q) = segment_equal a b && equal p q
equal _ _ = false

-- Path.HasPrefixByName: the first argument is the receiver.
unfoldable pub has_prefix_by_name : FieldPath → FieldPath → Bool
has_prefix_by_name p [] = true
has_prefix_by_name [] (b ∷ prefix) = false
has_prefix_by_name (a ∷ p) (b ∷ prefix) = b.name == a.name && has_prefix_by_name p prefix

-- p[len(p)-1].Name; a path from the parser is not empty.
unfoldable pub last_name : FieldPath → String
last_name [] = ""
last_name (seg ∷ []) = seg.name
last_name (seg ∷ next ∷ rest) = last_name (next ∷ rest)

parse_nested :
    parse_path "groups[].id"
    ≡ ok (record { name = "groups"; array = true } ∷ record { name = "id"; array = false } ∷ [])
unfolding parse_path split begins_with ends_with
parse_nested = refl

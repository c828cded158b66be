-- ===== src/Transform/Path/RoundTrip.antt =====
-- Parsing and printing paths, internal/transform/path.go.
use Prim.Native.Char.{Char}
use mathlib.Core.Path.{ap₂}
use text.Mathlib.TextEquality.{Char-path}
use text.Mathlib.TextLemmas.{nil-append, cons-append}
use wavefront.Base.{
  subst, ◌↔◌, String, ◌<>◌, ◌≡◌, refl, sym, ap, Bool, true, false, ◌&&◌, List, [], ◌∷◌, map, none,
  some, ok, >>=-eq-ok, All, arith, inl, inr, Bool-cases, Option-cases,
}
use wavefront.Base.Text.{split}
use wavefront.Base.Text.Laws.{
  split-ne-nil, IsNonempty, cons-IsNonempty, lacks, split-join, join-split, parts-IsNonempty,
}
use wavefront.Transform.Path.{
  Segment, FieldPath, is_brackets, strip_brackets, contains_special, finish_segment, parse_segment,
  parse_segments, parse_path, segment_string, path_string, is_special,
}

-- A name of the grammar: not empty, and free of ".", "[" and "]".
pub record IsName (s : String) : Type 0 where
  pub nonempty : IsNonempty s
  pub plain : contains_special s ≡ false

-- The names are names of the grammar, and the last segment is no array segment.
abbrev pub IsGrammatical : FieldPath → Type 0
IsGrammatical [] = ⊥
IsGrammatical (x ∷ []) = IsName x.name × (x.array ≡ false)
IsGrammatical (x ∷ y ∷ p) = IsName x.name × IsGrammatical (y ∷ p)

-- The final "[]".
lacks_of_plain : (s : String) → contains_special s ≡ false → lacks b'.' s ≡ true
unfolding contains_special lacks
lacks_of_plain String.[] h = refl
lacks_of_plain (String.◌∷◌ c s) h = ground (arith, lacks_of_plain s)

lacks-brackets : (s : String) → contains_special s ≡ false → lacks b'.' (s <> "[]") ≡ true
unfolding contains_special lacks
lacks-brackets String.[] h = refl
lacks-brackets (String.◌∷◌ c s) h = rw cons-append (ground (arith, lacks-brackets s))

is_brackets_of_plain :
    (c : Char) (s : String) → is_special c ≡ false → is_brackets (String.◌∷◌ c s) ≡ false
unfolding is_brackets
is_brackets_of_plain c String.[] h = refl
is_brackets_of_plain c (String.◌∷◌ d String.[]) h = ground arith
is_brackets_of_plain c (String.◌∷◌ d (String.◌∷◌ e s)) h = refl

strip_brackets_plain : (s : String) → contains_special s ≡ false → strip_brackets s ≡ none
unfolding strip_brackets contains_special
strip_brackets_plain String.[] h = refl
strip_brackets_plain (String.◌∷◌ c s) h =
    ground (arith, is_brackets_of_plain c s, strip_brackets_plain s)

strip_brackets-append :
    (s : String) → contains_special s ≡ false → strip_brackets (s <> "[]") ≡ some s
unfolding strip_brackets contains_special is_brackets
strip_brackets-append String.[] h = refl
strip_brackets-append (String.◌∷◌ c s) h =
    rw cons-append (ground (arith, is_brackets_of_plain c (s <> "[]"), strip_brackets-append s))

brackets_of_is_brackets : (s : String) → is_brackets s ≡ true → s ≡ "[]"
unfolding is_brackets
brackets_of_is_brackets String.[] h = cc
brackets_of_is_brackets (String.◌∷◌ c String.[]) h = cc
brackets_of_is_brackets (String.◌∷◌ c (String.◌∷◌ d String.[])) h =
    ap₂ (λ x y. String.◌∷◌ x (String.◌∷◌ y String.[])) (Char-path c "[" (ground arith))
      (Char-path d "]" (ground arith))
brackets_of_is_brackets (String.◌∷◌ c (String.◌∷◌ d (String.◌∷◌ e s))) h = cc

append-strip_brackets : (s t : String) → strip_brackets s ≡ some t → t <> "[]" ≡ s
unfolding strip_brackets
append-strip_brackets String.[] t h = cc
append-strip_brackets (String.◌∷◌ c s) t h = elim (Bool-cases (is_brackets (String.◌∷◌ c s))) [
  | inl e ↦
      let empty : "" ≡ t = cc (rw e at h) in
      rw (← empty, nil-append) (sym (brackets_of_is_brackets _ e))
  | inr e ↦ elim (Option-cases (strip_brackets s)) [
    | inl missed ↦ cc (rw missed at (rw e at h))
    | inr (u, found) ↦
        let same : String.◌∷◌ c u ≡ t = cc (rw found at (rw e at h)) in
        rw (← same, cons-append, append-strip_brackets s u found)
  ]
]

-- One segment.
finish_segment_inv :
    (s : String) (last array : Bool) (name : String) (x : Segment)
    → finish_segment s last array name ≡ ok x
    → (x.name ≡ name) × (x.array ≡ array) × IsName name × ((array && last) ≡ false)
unfolding finish_segment
finish_segment_inv s last array name x h = ground arith

finish_segment_of_IsName :
    (s : String) (last array : Bool) (name : String)
    → IsName name
    → (array && last) ≡ false
    → finish_segment s last array name ≡ ok (record { name = name; array = array })
unfolding finish_segment
finish_segment_of_IsName s last array name n h = ground arith

parse_segment_sound :
    (s : String) (last : Bool) (seg : String) (x : Segment)
    → parse_segment s last seg ≡ ok x
    → (segment_string x ≡ seg) × IsName x.name × ((x.array && last) ≡ false)
unfolding parse_segment segment_string
parse_segment_sound s last seg x h = elim (Option-cases (strip_brackets seg)) [
  | inl e ↦ ground (arith, finish_segment_inv s last false seg x)
  | inr (name, e) ↦
      ground (arith, finish_segment_inv s last true name x, append-strip_brackets seg name e)
]

append_brackets-IsNonempty : (s : String) → IsNonempty (s <> "[]")
append_brackets-IsNonempty String.[] = refl
append_brackets-IsNonempty (String.◌∷◌ c s) = rw cons-append (cons-IsNonempty c (s <> "[]"))

segment_string-IsNonempty : (x : Segment) → IsName x.name → IsNonempty (segment_string x)
unfolding segment_string
segment_string-IsNonempty x n = ground (arith, append_brackets-IsNonempty x.name, n.nonempty)

segment_string-lacks : (x : Segment) → IsName x.name → lacks b'.' (segment_string x) ≡ true
unfolding segment_string
segment_string-lacks x n =
    ground (arith, lacks-brackets x.name n.plain, lacks_of_plain x.name n.plain)

parse_segment-segment_string :
    (s : String) (last : Bool) (x : Segment)
    → IsName x.name
    → (x.array && last) ≡ false
    → parse_segment s last (segment_string x) ≡ ok x
unfolding parse_segment segment_string
parse_segment-segment_string s last x n h = ground (
  arith,
  append_brackets-IsNonempty x.name,
  strip_brackets-append x.name n.plain,
  strip_brackets_plain x.name n.plain,
  finish_segment_of_IsName s last x.array x.name n h,
)

-- The loop.
IsGrammatical-cons :
    (x : Segment) (p : FieldPath) → IsName x.name → IsGrammatical p → IsGrammatical (x ∷ p)
IsGrammatical-cons x [] n g = absurd g
IsGrammatical-cons x (y ∷ p) n g = (n, g)

parse_segments_sound :
    (s seg : String) (segs : List String) (p : FieldPath)
    → parse_segments s (seg ∷ segs) ≡ ok p
    → (map segment_string p ≡ seg ∷ segs) × IsGrammatical p
unfolding parse_segments
parse_segments_sound s seg [] p h =
    let (x, parsed, rest) = >>=-eq-ok (parse_segment s true seg) _ h in
    let same : x ∷ [] ≡ p = cc rest in
    let (text, n, flag) = parse_segment_sound s true seg x parsed in
    rw (← same) (ap (λ (t : String). t ∷ []) text, (n, ground arith))
parse_segments_sound s seg (next ∷ segs) p h =
    let (x, parsed, rest) = >>=-eq-ok (parse_segment s false seg) _ h in
    let (xs, more, last) = >>=-eq-ok (parse_segments s (next ∷ segs)) _ rest in
    let same : x ∷ xs ≡ p = cc last in
    let (text, n, flag) = parse_segment_sound s false seg x parsed in
    let (texts, g) = parse_segments_sound s next segs xs more in
    rw (← same) (cc (text, texts), IsGrammatical-cons x xs n g)

parse_segments_complete :
    (s : String) (p : FieldPath) → IsGrammatical p → parse_segments s (map segment_string p) ≡ ok p
unfolding parse_segments
parse_segments_complete s [] g = absurd g
parse_segments_complete s (x ∷ []) (n, h) =
    rw (parse_segment-segment_string s true x n (ground arith))
parse_segments_complete s (x ∷ y ∷ p) (n, g) =
    rw
      (parse_segment-segment_string s false x n (ground arith), parse_segments_complete s (y ∷ p) g)

split_cases : (s : String) → (seg : String) × (segs : List String) × (split b'.' s ≡ seg ∷ segs)
split_cases s = go (split b'.' s) refl
  where
    go :
        (ps : List String)
        → split b'.' s ≡ ps
        → (seg : String) × (segs : List String) × (split b'.' s ≡ seg ∷ segs)
    go [] e = absurd (split-ne-nil b'.' s e)
    go (seg ∷ segs) e = (seg, segs, e)

segment_strings :
    (p : FieldPath)
    → IsGrammatical p
    → All (λ s. lacks b'.' s ≡ true) (map segment_string p) × All IsNonempty (map segment_string p)
segment_strings [] g = absurd g
segment_strings (x ∷ []) (n, h) =
    ((segment_string-lacks x n, tt), (segment_string-IsNonempty x n, tt))
segment_strings (x ∷ y ∷ p) (n, g) =
    let (free, full) = segment_strings (y ∷ p) g in
    ((segment_string-lacks x n, free), (segment_string-IsNonempty x n, full))

split-path_string :
    (p : FieldPath) → IsGrammatical p → split b'.' (path_string p) ≡ map segment_string p
unfolding path_string
split-path_string [] g = absurd g
split-path_string (x ∷ p) g =
    split-join (segment_string x) (map segment_string p) (segment_strings (x ∷ p) g).0

-- Parsing the text of a path of the grammar gives the path back.
parse_path-path_string : (p : FieldPath) → IsGrammatical p → parse_path (path_string p) ≡ ok p
parse_path-path_string p g =
    let parts = split-path_string p g in
    let (full, begin, end) =
      parts-IsNonempty b'.' (path_string p) (rw parts (segment_strings p g).1) in
    unfold parse_path in rw (full, begin, end, parts) (parse_segments_complete (path_string p) p g)

-- A text that parses is the text of the path, and the path is of the grammar.
pub path_string-parse_path :
    (s : String) (p : FieldPath) → parse_path s ≡ ok p → (path_string p ≡ s) × IsGrammatical p
path_string-parse_path s p h =
    let (seg, segs, parts) = split_cases s in
    let run : parse_segments s (split b'.' s) ≡ ok p = unfold parse_path in ground arith in
    let (texts, g) = parse_segments_sound s seg segs p (rw parts at run) in
    (unfold path_string in rw (texts, ← parts) (join-split s), g)

-- Parsing and printing are each other's inverse: a text parses into a path exactly when the path is
-- of the grammar and the text is what the path prints.
pub parse_path_iff :
    (s : String) (p : FieldPath) → (parse_path s ≡ ok p) ↔ ((path_string p ≡ s) × IsGrammatical p)
parse_path_iff s p = (
  λ h. path_string-parse_path s p h,
  λ (e, g). subst (λ t. parse_path t ≡ ok p) e (parse_path-path_string p g),
)

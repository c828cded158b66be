-- ===== src/Tracing/Traceparent.antt =====
-- internal/tracing/traceparent.go: the W3C header that names a request's trace.
use wavefront.Base.{
  ℕ, ◌+◌, ◌-◌, ◌*◌, ◌<◌, String, ◌≡◌, ◌≢◌, refl, sym, ◌∙◌, Bool, false, not, ◌&&◌, ◌||◌, List, [],
  ◌∷◌, Option, none, some, if◌then◌else◌, ltb, leb, eqb, All, any, length, arith, subst, inl, inr,
  some-injective, Bool-cases,
}
use Prim.Native.Nat.{◌%◌}
use Prim.Native.Char.{Char, code}
use wavefront.Base.Text.{split}
use wavefront.Json.{Bytes}

pub record Traceparent : Type 0 where
  pub trace_id : Bytes
  pub parent_id : Bytes
  pub sampled : Bool

-- len(s): the bytes of the text in UTF-8.
char_length : Char → ℕ
char_length c =
    let n = code c in
    if ltb n 0x80 then 1 else if ltb n 0x800 then 2 else if ltb n 0x10000 then 3 else 4

byte_length : String → ℕ
byte_length String.[] = 0
byte_length (String.◌∷◌ c s) = char_length c + byte_length s

-- The value of a hexadecimal digit.
hex_digit : ℕ → Option ℕ
hex_digit n =
    if leb b'0' n && leb n b'9'
    then some (n - b'0')
    else if leb b'a' n && leb n b'f'
    then some (n - b'a' + 10)
    else if leb b'A' n && leb n b'F'
    then some (n - b'A' + 10)
    else none

abbrev push_byte : Option ℕ → Option ℕ → Option Bytes → Option Bytes
push_byte (some h) (some l) (some p) = some ((16 * h + l) ∷ p)
push_byte _ _ _ = none

-- hex.DecodeString, without the bytes it returns beside an error
unfoldable pub decode_string : String → Option Bytes
unfolding hex_digit
decode_string String.[] = some []
decode_string (String.◌∷◌ c String.[]) = none
decode_string (String.◌∷◌ c (String.◌∷◌ d s)) =
    push_byte (hex_digit (code c)) (hex_digit (code d)) (decode_string s)

abbrev pub all_zero : Bytes → Bool
all_zero b = not (any (λ x. not (eqb x 0)) b)

abbrev is_odd : Bytes → Bool
is_odd [] = false
is_odd (b ∷ rest) = eqb (b % 2) 1

from_decoded : Option Bytes → Option Bytes → Option Bytes → Option Traceparent
from_decoded (some trace_id) (some span_id) (some flags) =
    if all_zero trace_id || all_zero span_id
    then none
    else some (record { trace_id = trace_id; parent_id = span_id; sampled = is_odd flags })
from_decoded _ _ _ = none

abbrev well_sized : String → String → String → String → Bool
well_sized version trace_id span_id flags =
    eqb (byte_length version) 2
    && eqb (byte_length trace_id) 32
    && eqb (byte_length span_id) 16
    && eqb (byte_length flags) 2

from_parts : List String → Option Traceparent
from_parts (version ∷ trace_id ∷ span_id ∷ flags ∷ []) =
    if not (well_sized version trace_id span_id flags)
    then none
    else from_decoded (decode_string trace_id) (decode_string span_id) (decode_string flags)
from_parts _ = none

-- ParseTraceparent
unfoldable pub parse_traceparent : String → Option Traceparent
unfolding from_parts from_decoded byte_length char_length
parse_traceparent v = from_parts (split b'-' v)

-- An id of `n` bytes that are not all zero.
abbrev pub IsId : ℕ → Bytes → Type 0
IsId n p = (length p ≡ n) × All (λ b. b < 256) p × (all_zero p ≡ false)

hex_digit-bound : (n v : ℕ) → hex_digit n ≡ some v → (v < 16) × (n < 0x80)
unfolding hex_digit
hex_digit-bound n v e = ground arith

push_byte-inv :
    (h l : Option ℕ) (rest : Option Bytes) (p : Bytes)
    → push_byte h l rest ≡ some p
    → (x y : ℕ) × (q : Bytes) × (h ≡ some x)
      × (l ≡ some y)
      × (rest ≡ some q)
      × ((16 * x + y) ∷ q ≡ p)
push_byte-inv (some h) (some l) (some q) p e = (h, l, q, refl, refl, refl, some-injective e)
push_byte-inv none l rest p e = absurd cc
push_byte-inv (some h) none rest p e = absurd cc
push_byte-inv (some h) (some l) none p e = absurd cc

decode_string-bytes :
    (s : String) (p : Bytes)
    → decode_string s ≡ some p
    → (length p * 2 ≡ byte_length s) × All (λ b. b < 256) p
unfolding decode_string byte_length char_length
decode_string-bytes String.[] p e =
    subst (λ p. (length p * 2 ≡ 0) × All (λ b. b < 256) p) (some-injective e) (omega arith, tt)
decode_string-bytes (String.◌∷◌ c String.[]) p e = absurd cc
decode_string-bytes (String.◌∷◌ c (String.◌∷◌ d s)) p e =
    let (x, y, q, h, l, r, same) = push_byte-inv _ _ (decode_string s) p e in
    let (xb, cb) = hex_digit-bound (code c) x h in
    let (yb, db) = hex_digit-bound (code d) y l in
    let (n, a) = decode_string-bytes s q r in
    subst (λ p. (length p * 2 ≡ byte_length (String.◌∷◌ c (String.◌∷◌ d s))) × All (λ b. b < 256) p)
      same (ground arith, (omega arith, a))

none-ne-some : {A : Type 0} (a : A) → ◌≢◌ {A = Option A} none (some a)
none-ne-some a e = cc

from_decoded-ids :
    (t p f : Option Bytes) (tp : Traceparent)
    → from_decoded t p f ≡ some tp
    → (t ≡ some tp.trace_id)
      × (p ≡ some tp.parent_id)
      × (all_zero tp.trace_id ≡ false)
      × (all_zero tp.parent_id ≡ false)
unfolding from_decoded
from_decoded-ids (some t) (some p) (some f) tp e = elim (Bool-cases (all_zero t || all_zero p)) [
  | inl z ↦ absurd (none-ne-some tp (sym (rw z refl) ∙ e))
  | inr z ↦
      let same : ◌≡◌ {A = Traceparent} (record { trace_id = t; parent_id = p; sampled = is_odd f })
          tp =
        some-injective (sym (rw z refl) ∙ e) in
      subst
        (λ x.
          (some t ≡ some x.trace_id)
          × (some p ≡ some x.parent_id)
          × (all_zero x.trace_id ≡ false)
          × (all_zero x.parent_id ≡ false))
        same (refl, refl, ground arith, ground arith)
]
from_decoded-ids none p f tp e = absurd cc
from_decoded-ids (some t) none f tp e = absurd cc
from_decoded-ids (some t) (some p) none tp e = absurd cc

from_parts-IsId :
    (parts : List String) (tp : Traceparent)
    → from_parts parts ≡ some tp
    → IsId 16 tp.trace_id × IsId 8 tp.parent_id
unfolding from_parts
from_parts-IsId (version ∷ trace_id ∷ span_id ∷ flags ∷ []) tp e =
    elim (Bool-cases (well_sized version trace_id span_id flags)) [
      | inl w ↦
          let (t, p, z, y) =
            from_decoded-ids (decode_string trace_id) (decode_string span_id) (decode_string flags)
              tp (sym (rw w refl) ∙ e) in
          let (tn, ta) = decode_string-bytes trace_id tp.trace_id t in
          let (pn, pa) = decode_string-bytes span_id tp.parent_id p in
          ((ground (arith, w), ta, z), (ground (arith, w), pa, y))
      | inr w ↦ absurd (none-ne-some tp (sym (rw w refl) ∙ e))
    ]
from_parts-IsId [] tp e = absurd (none-ne-some tp e)
from_parts-IsId (a ∷ []) tp e = absurd (none-ne-some tp e)
from_parts-IsId (a ∷ b ∷ []) tp e = absurd (none-ne-some tp e)
from_parts-IsId (a ∷ b ∷ c ∷ []) tp e = absurd (none-ne-some tp e)
from_parts-IsId (a ∷ b ∷ c ∷ d ∷ f ∷ rest) tp e = absurd (none-ne-some tp e)

-- Whatever the header is: an accepted traceparent has a trace id of 16 bytes and a parent id of 8
-- bytes, each below 256, and neither is all zero.
pub parse_traceparent-IsId :
    (v : String) (tp : Traceparent)
    → parse_traceparent v ≡ some tp
    → IsId 16 tp.trace_id × IsId 8 tp.parent_id
unfolding parse_traceparent
parse_traceparent-IsId v tp e = from_parts-IsId (split b'-' v) tp e

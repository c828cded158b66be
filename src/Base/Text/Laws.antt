-- ===== src/Base/Text/Laws.antt =====
-- Splitting at a separator and joining again.
use Prim.Native.Char.{Char, code}
use Prim.Native.Nat.{ℕ}
use Prim.Native.String.{String, ◌++◌ as ◌<>◌}
use mathlib.Core.Path.{◌≡◌, refl, ap, ◌∙◌}
use mathlib.Core.Logic.{◌≢◌, inl, inr}
use mathlib.Core.Bool.{Bool, true, false}
use mathlib.Core.List.{List, [], ◌∷◌}
use native.Mathlib.Omega.{arith}
use text.Mathlib.Text.{◌==◌}
use text.Mathlib.TextEquality.{Char-path, eq_iff}
use text.Mathlib.TextLemmas.{nil-append, cons-append, cons-ne-nil}
use wavefront.Base.Tests.{eqb, eqb_iff, Bool-cases, if◌then◌else◌}
use wavefront.Base.Lists.{All}
use wavefront.Base.Text.{push_front, split, join, begins_with, ends_with}

abbrev dot : Char
dot = "."

dot_append : (t : String) → "." <> t ≡ String.◌∷◌ dot t
dot_append t = cons-append dot String.[] t ∙ ap (String.◌∷◌ dot) (nil-append t)

push_front-ne-nil : (c : Char) (ps : List String) → push_front c ps ≢ []
push_front-ne-nil c [] = ground arith
push_front-ne-nil c (p ∷ ps) = ground arith

pub split-ne-nil : (sep : ℕ) (s : String) → split sep s ≢ []
unfolding split
split-ne-nil sep String.[] = ground arith
split-ne-nil sep (String.◌∷◌ c s) = elim (Bool-cases (eqb (code c) sep)) [
  | inl e ↦ rw e (ground arith)
  | inr e ↦ rw e (push_front-ne-nil c (split sep s))
]

join-push_front :
    (c : Char) (ps : List String)
    → ps ≢ []
    → join "." (push_front c ps) ≡ String.◌∷◌ c (join "." ps)
unfolding join
join-push_front c [] h = absurd (h refl)
join-push_front c (p ∷ []) h = refl
join-push_front c (p ∷ q ∷ ps) h = cons-append c p _

pub join-cons :
    (p : String) (ps : List String) → ps ≢ [] → join "." (p ∷ ps) ≡ p <> ("." <> join "." ps)
unfolding join
join-cons p [] h = absurd (h refl)
join-cons p (q ∷ ps) h = refl

-- Joining undoes splitting.
pub join-split : (s : String) → join "." (split b'.' s) ≡ s
unfolding split
join-split String.[] = unfold join in refl
join-split (String.◌∷◌ c s) = elim (Bool-cases (eqb (code c) b'.')) [
  | inl e ↦
      let same : c ≡ dot = Char-path c dot ((eqb_iff (code c) b'.').0 e) in
      rw (
        e,
        join-cons "" (split b'.' s) (split-ne-nil b'.' s),
        join-split s,
        nil-append,
        dot_append s,
        same,
      )
  | inr e ↦ rw (e, join-push_front c (split b'.' s) (split-ne-nil b'.' s), join-split s)
]

-- A text without the separator.
unfoldable pub lacks : ℕ → String → Bool
lacks sep String.[] = true
lacks sep (String.◌∷◌ c s) = if eqb (code c) sep then false else lacks sep s

split_of_lacks : (sep : ℕ) (s : String) → lacks sep s ≡ true → split sep s ≡ s ∷ []
unfolding split lacks
split_of_lacks sep String.[] h = refl
split_of_lacks sep (String.◌∷◌ c s) h = ground (arith, split_of_lacks sep s)

split-append_dot :
    (s t : String) → lacks b'.' s ≡ true → split b'.' (s <> ("." <> t)) ≡ s ∷ split b'.' t
unfolding split lacks
split-append_dot String.[] t h = rw (nil-append, dot_append t)
split-append_dot (String.◌∷◌ c s) t h = rw cons-append (ground (arith, split-append_dot s t))

-- Splitting undoes joining, if no part has the separator.
pub split-join :
    (p : String) (ps : List String)
    → All (λ s. lacks b'.' s ≡ true) (p ∷ ps)
    → split b'.' (join "." (p ∷ ps)) ≡ p ∷ ps
unfolding join
split-join p [] (h, _) = split_of_lacks b'.' p h
split-join p (q ∷ ps) (h, k) =
    split-append_dot p (join "." (q ∷ ps)) h ∙ ap (λ (r : List String). p ∷ r) (split-join q ps k)

abbrev later_parts : List String → List String
later_parts [] = []
later_parts (p ∷ ps) = ps

later_parts-push_front :
    (c : Char) (ps : List String) → ps ≢ [] → later_parts (push_front c ps) ≡ later_parts ps
later_parts-push_front c [] h = absurd (h refl)
later_parts-push_front c (p ∷ ps) h = refl

abbrev pub IsNonempty : String → Type 0
IsNonempty p = (p == "") ≡ false

not_nonempty : {A : Type 0} → IsNonempty "" → A
not_nonempty h = cc

pub cons-IsNonempty : (c : Char) (s : String) → IsNonempty (String.◌∷◌ c s)
cons-IsNonempty c s = elim (Bool-cases (String.◌∷◌ c s == "")) [
  | inl e ↦ absurd (cons-ne-nil c s ((eq_iff (String.◌∷◌ c s) "").0 e))
  | inr e ↦ e
]

later_parts-All : (ps : List String) → All IsNonempty ps → All IsNonempty (later_parts ps)
later_parts-All [] h = h
later_parts-All (p ∷ ps) h = h.1

ends_with_of_later_parts :
    (sep : ℕ) (s : String) → All IsNonempty (later_parts (split sep s)) → ends_with sep s ≡ false
unfolding split ends_with
ends_with_of_later_parts sep String.[] h = refl
ends_with_of_later_parts sep (String.◌∷◌ c String.[]) h = elim (Bool-cases (eqb (code c) sep)) [
  | inl e ↦ not_nonempty ((rw e at h).0)
  | inr e ↦ e
]
ends_with_of_later_parts sep (String.◌∷◌ c (String.◌∷◌ d s)) h =
    elim (Bool-cases (eqb (code c) sep)) [
      | inl e ↦ ends_with_of_later_parts sep (String.◌∷◌ d s) (later_parts-All _ (rw e at h))
      | inr e ↦
          ends_with_of_later_parts sep (String.◌∷◌ d s)
            (rw (later_parts-push_front c _ (split-ne-nil sep (String.◌∷◌ d s))) at (rw e at h))
    ]

-- If no part is empty, the text is not empty, and neither begins nor ends with the separator.
pub parts-IsNonempty :
    (sep : ℕ) (s : String)
    → All IsNonempty (split sep s)
    → IsNonempty s × (begins_with sep s ≡ false) × (ends_with sep s ≡ false)
unfolding split begins_with
parts-IsNonempty sep String.[] h = not_nonempty h.0
parts-IsNonempty sep (String.◌∷◌ c s) h = elim (Bool-cases (eqb (code c) sep)) [
  | inl e ↦ not_nonempty ((rw e at h).0)
  | inr e ↦ (
    cons-IsNonempty c s,
    e,
    ends_with_of_later_parts sep (String.◌∷◌ c s) (later_parts-All (split sep (String.◌∷◌ c s)) h),
  )
]

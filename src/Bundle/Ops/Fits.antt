-- ===== src/Bundle/Ops/Fits.antt =====
-- When a path fits a message, as a relation on the descriptors; pathvalidate.go decides it.
use wavefront.Base.{
  ℕ, ◌+◌, ◌≡◌, ◌↔◌, refl, Bool, true, false, not, ◌&&◌, [], ◌∷◌, Option, none, some, Result, ok,
  ◌>>◌, arith, fail_if,
}
use wavefront.Transform.Path.{Segment, FieldPath}
use wavefront.Bundle.Failure.{PathFault, must_iterate}
use wavefront.Bundle.Ops.{Descriptors, field_of, enter, check_field, validate_path}

module _ (d : Descriptors) where
  open d use {Message, Field, is_list, sub_message}

  -- Every segment names a field. The last may be anything, but a list where the path iterates; any
  -- other is iterated exactly if it is a list, and is a message, which the rest fits.
  abbrev pub Fits : FieldPath → Message → Type 0
  Fits [] md = Unit
  Fits (seg ∷ []) md =
      (fd : Field) × (field_of d md seg.name ≡ some fd) × ((seg.array && not (is_list fd)) ≡ false)
  Fits (seg ∷ next ∷ rest) md =
      (fd : Field) × (field_of d md seg.name ≡ some fd)
      × (seg.array ≡ is_list fd)
      × (sub : Message) × (sub_message fd ≡ some sub)
      × Fits (next ∷ rest) sub

  same_flag : (a b : Bool) → (a && not b) ≡ false → (not a && b && true) ≡ false → a ≡ b
  same_flag a b h k = ground arith

  entered :
      (inner : Message → Result PathFault (Unit {0})) (i : ℕ) (seg : Segment) (m : Option Message)
      → enter d inner i seg m ≡ ok tt
      → (sub : Message) × (m ≡ some sub) × (inner sub ≡ ok tt)
  entered inner i seg none h = cc
  entered inner i seg (some md) h = (md, refl, h)

  passed :
      (b : Bool) (e : PathFault) (m : Result PathFault (Unit {0}))
      → (fail_if b e >> m) ≡ ok tt
      → (b ≡ false) × (m ≡ ok tt)
  passed true e m h = cc
  passed false e m h = (refl, h)

  check_field_inner :
      (inner : Message → Result PathFault (Unit {0})) (i : ℕ) (seg : Segment) (found : Option Field)
      → check_field d inner i seg false found ≡ ok tt
      → (fd : Field) × (found ≡ some fd)
        × (seg.array ≡ is_list fd)
        × (sub : Message) × (sub_message fd ≡ some sub)
        × (inner sub ≡ ok tt)
  unfolding check_field
  check_field_inner inner i seg none h = cc
  check_field_inner inner i seg (some fd) h =
      let (a, k) = passed _ _ _ h in
      let (b, l) = passed _ _ _ k in
      let (sub, at, rest) = entered inner i seg (sub_message fd) l in
      (fd, refl, same_flag seg.array (is_list fd) a b, sub, at, rest)

  check_field_last :
      (inner : Message → Result PathFault (Unit {0})) (i : ℕ) (seg : Segment) (found : Option Field)
      → check_field d inner i seg true found ≡ ok tt
      → (fd : Field) × (found ≡ some fd) × ((seg.array && not (is_list fd)) ≡ false)
  unfolding check_field
  check_field_last inner i seg none h = cc
  check_field_last inner i seg (some fd) h = let (a, k) = passed _ _ _ h in (fd, refl, a)

  check_field_last_passes :
      (inner : Message → Result PathFault (Unit {0})) (i : ℕ) (seg : Segment) (fd : Field)
      → (seg.array && not (is_list fd)) ≡ false
      → check_field d inner i seg true (some fd) ≡ ok tt
  unfolding check_field
  check_field_last_passes inner i seg fd h = rw h (never seg.array (is_list fd))
    where
      never :
          (a b : Bool)
          → ◌≡◌ {A = Result PathFault (Unit {0})}
              (fail_if (not a && b && false) (must_iterate seg.name i) >> ok tt)
              (ok tt)
      never true b = refl
      never false true = refl
      never false false = refl

  check_field_inner_passes :
      (inner : Message → Result PathFault (Unit {0})) (i : ℕ) (seg : Segment) (fd : Field)
      (sub : Message)
      → seg.array ≡ is_list fd
      → sub_message fd ≡ some sub
      → inner sub ≡ ok tt
      → check_field d inner i seg false (some fd) ≡ ok tt
  unfolding check_field
  check_field_inner_passes inner i seg fd sub flag at h =
      let (a, b) = never_both (is_list fd) in rw (flag, a, b, at) h
    where
      never_both : (b : Bool) → ((b && not b) ≡ false) × ((not b && b && true) ≡ false)
      never_both true = (refl, refl)
      never_both false = (refl, refl)

  pub validate_path_sound :
      (i : ℕ) (p : FieldPath) (md : Message) → validate_path d i p md ≡ ok tt → Fits p md
  unfolding validate_path
  validate_path_sound i [] md h = tt
  validate_path_sound i (seg ∷ []) md h =
      check_field_last (validate_path d (i + 1) []) i seg (field_of d md seg.name) h
  validate_path_sound i (seg ∷ next ∷ rest) md h =
      let (fd, found, flag, sub, at, inner) =
        check_field_inner (validate_path d (i + 1) (next ∷ rest)) i seg (field_of d md seg.name)
          h in
      (fd, found, flag, sub, at, validate_path_sound (i + 1) (next ∷ rest) sub inner)

  validate_path_complete :
      (i : ℕ) (p : FieldPath) (md : Message) → Fits p md → validate_path d i p md ≡ ok tt
  unfolding validate_path
  validate_path_complete i [] md f = refl
  validate_path_complete i (seg ∷ []) md (fd, found, flag) =
      rw found (check_field_last_passes (validate_path d (i + 1) []) i seg fd flag)
  validate_path_complete i (seg ∷ next ∷ rest) md (fd, found, flag, sub, at, f) = rw found (
      check_field_inner_passes (validate_path d (i + 1) (next ∷ rest)) i seg fd sub flag at
        (validate_path_complete (i + 1) (next ∷ rest) sub f))

  -- The check of a path against a message passes exactly when the path fits the message.
  pub validate_path_iff :
      (i : ℕ) (p : FieldPath) (md : Message) → (validate_path d i p md ≡ ok tt) ↔ Fits p md
  validate_path_iff i p md = (validate_path_sound i p md, validate_path_complete i p md)

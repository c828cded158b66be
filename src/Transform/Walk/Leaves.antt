-- ===== src/Transform/Walk/Leaves.antt =====
-- What the walkers do to a tree, as a relation between the tree before and the tree after.
use wavefront.Base.{
  String, ◌≡◌, refl, Bool, true, false, List, [], ◌∷◌, Option, none, some, Result, Returns,
  Returns->>=, inl, inr, Bool-cases, ◌==◌, Occurs, arith, eq_iff,
}
use wavefront.Json.{Json, null, arr, obj, Items, nil, cons, Fields, end, find, set}
use wavefront.Json.Laws.{find-set, find-set_self}
use wavefront.Transform.Path.{Segment, FieldPath, last_name, has_prefix_by_name}
use wavefront.Transform.Walk.{
  each_object, covers_by_name, absent_segment, descend, walk_leaves, ensure,
  walk_leaves_ensure_objects,
}
use wavefront.Wireerror.{Error}

-- The path begins with the names of the other one.
abbrev pub BeginsWith : FieldPath → FieldPath → Type 0
BeginsWith p [] = Unit
BeginsWith [] (b ∷ prefix) = ⊥
BeginsWith (a ∷ p) (b ∷ prefix) = (b.name ≡ a.name) × BeginsWith p prefix

-- One of the optionalized paths covers the path.
abbrev pub IsCovered : List FieldPath → FieldPath → Type 0
IsCovered opts p = (opt : FieldPath) × Occurs opt opts × BeginsWith p opt

has_prefix_by_name-BeginsWith :
    (p prefix : FieldPath) → has_prefix_by_name p prefix ≡ true → BeginsWith p prefix
unfolding has_prefix_by_name
has_prefix_by_name-BeginsWith p [] h = tt
has_prefix_by_name-BeginsWith [] (b ∷ prefix) h = absurd cc
has_prefix_by_name-BeginsWith (a ∷ p) (b ∷ prefix) h = (
  (eq_iff b.name a.name).0 (ground (arith, h)),
  has_prefix_by_name-BeginsWith p prefix (ground (arith, h)),
)

pub covers_by_name-IsCovered :
    (opts : List FieldPath) (p : FieldPath) → covers_by_name opts p ≡ true → IsCovered opts p
unfolding covers_by_name
covers_by_name-IsCovered [] p h = absurd cc
covers_by_name-IsCovered (opt ∷ opts) p h = elim (Bool-cases (has_prefix_by_name p opt)) [
  | inl e ↦ (opt, inl refl, has_prefix_by_name-BeginsWith p opt e)
  | inr e ↦
      let (o, at, begins) = covers_by_name-IsCovered opts p (ground (arith, h, e)) in
      (o, inr at, begins)
]

-- What a walk does at a segment that is missing, by the path that is left there and by what it
-- does behind the segment.
abbrev pub Gap : Type 0 → Type 1
Gap F =
    FieldPath → (Fields F → Fields F → Type 0) → Bool → Option (Json F) → Option (Json F) → Type 0

module _ {F : Type 0} where
  -- No key but `k` has changed.
  abbrev pub SameBut : String → Fields F → Fields F → Type 0
  SameBut k m m' = (j : String) → (k == j) ≡ false → find j m' ≡ find j m

  pub set-SameBut : (k : String) (v : Json F) (m : Fields F) → SameBut k m (set k v m)
  set-SameBut k v m j d = rw (find-set k j v m, d)

  -- Every element is an object, before and after, and R holds of the two.
  abbrev pub AtItems : (Fields F → Fields F → Type 0) → Items F → Items F → Type 0
  AtItems R nil nil = Unit
  AtItems R (cons (obj sub) els) (cons (obj sub') els') = R sub sub' × AtItems R els els'
  AtItems R els els' = ⊥

  -- The value at a segment: an object with R, an array of such, or missing with `Missing`.
  abbrev pub AtFound :
      (Fields F → Fields F → Type 0)
      → (Bool → Option (Json F) → Option (Json F) → Type 0)
      → Bool
      → Option (Json F)
      → Option (Json F)
      → Type 0
  AtFound R Missing array none after = Missing array none after
  AtFound R Missing array (some null) after = Missing array (some null) after
  AtFound R Missing true (some (arr els)) (some (arr els')) = AtItems R els els'
  AtFound R Missing false (some (obj sub)) (some (obj sub')) = R sub sub'
  AtFound R Missing array before after = ⊥

  -- The walk stops where an optionalized path covers what is left.
  abbrev pub Skipped : List FieldPath → Gap F
  Skipped opts p R array before after = IsCovered opts p × (after ≡ before)

  -- The walk makes an object and goes on in it; an array is not made.
  abbrev pub Created : Gap F
  Created p R array before after =
      (array ≡ false) × ((sub : Fields F) × (after ≡ some (obj sub)) × R end sub)

  -- Q holds of each leaf that the path reaches, with its parent map before and after, and nothing
  -- beside the path has changed.
  abbrev pub Leaves :
      Gap F → (String → Fields F → Fields F → Type 0) → FieldPath → Fields F → Fields F → Type 0
  Leaves gap Q [] m m' = ⊥
  Leaves gap Q (seg ∷ []) m m' = Q seg.name m m'
  Leaves gap Q (seg ∷ next ∷ rest) m m' =
      AtFound (Leaves gap Q (next ∷ rest)) (gap (seg ∷ next ∷ rest) (Leaves gap Q (next ∷ rest)))
        seg.array (find seg.name m) (find seg.name m')
      × SameBut seg.name m m'

  module _ (fail : String → Error) where
    each_object-AtItems :
        (R : Fields F → Fields F → Type 0) (inner : Fields F → Result Error (Fields F))
        (p : FieldPath) (seg : Segment)
        → ((m : Fields F) → Returns (R m) (inner m))
        → (els : Items F) → Returns (AtItems R els) (each_object fail inner p seg els)
    unfolding each_object
    each_object-AtItems R inner p seg h nil = tt
    each_object-AtItems R inner p seg h (cons (obj sub) els) =
        Returns->>= (R sub) (AtItems R (cons (obj sub) els)) (inner sub) _ (h sub) (λ sub' good.
          Returns->>= (AtItems R els) (AtItems R (cons (obj sub) els))
            (each_object fail inner p seg els) _ (each_object-AtItems R inner p seg h els)
            (λ els' more. (good, more)))
    each_object-AtItems R inner p seg h (cons el els) = tt

    -- Where the walk skips a segment, the path that is left is covered.
    pub absent_segment-Returns :
        (R : Fields F → Type 0) (opts : List FieldPath)
        (fn : Fields F → String → Result Error (Fields F)) (p : FieldPath) (seg : Segment)
        (m : Fields F)
        → (covers_by_name opts p ≡ true → R m)
        → Returns R (absent_segment fail opts fn p seg m)
    unfolding absent_segment
    absent_segment-Returns R opts fn p seg m h = elim (Bool-cases (covers_by_name opts p)) [
      | inl e ↦ rw e (h e)
      | inr e ↦ rw e tt
    ]

    -- A segment's new value is the one found there afterwards.
    AtFound-set :
        (R : Fields F → Fields F → Type 0)
        (Missing : Bool → Option (Json F) → Option (Json F) → Type 0) (array : Bool) (k : String)
        (found : Option (Json F)) (v : Json F) (m : Fields F)
        → AtFound R Missing array found (some v)
        → AtFound R Missing array found (find k (set k v m)) × SameBut k m (set k v m)
    AtFound-set R Missing array k found v m h = (rw (find-set_self k v m) h, set-SameBut k v m)

    module _ (Q : String → Fields F → Fields F → Type 0)
        (fn : Fields F → String → Result Error (Fields F)) (IsLeaf : String → Type 0)
        (establishes : (m : Fields F) (leaf : String)
          → IsLeaf leaf
          → Returns (Q leaf m) (fn m leaf)) where
      descend-AtFound :
          (opts : List FieldPath) (R : Fields F → Fields F → Type 0)
          (inner : Fields F → Result Error (Fields F)) (p : FieldPath) (seg : Segment)
          (m : Fields F)
          → ((m : Fields F) → Returns (R m) (inner m))
          → (array : Bool) (found : Option (Json F)) → find seg.name m ≡ found
          → Returns
              (λ m'.
                AtFound R (Skipped opts p R) array found (find seg.name m') × SameBut seg.name m m')
              (descend fail opts fn inner p seg m array found)
      unfolding descend
      descend-AtFound opts R inner p seg m h array none e =
          absent_segment-Returns _ opts fn p seg m
            (λ c. ((covers_by_name-IsCovered opts p c, e), λ j d. refl))
      descend-AtFound opts R inner p seg m h array (some null) e =
          absent_segment-Returns _ opts fn p seg m
            (λ c. ((covers_by_name-IsCovered opts p c, e), λ j d. refl))
      descend-AtFound opts R inner p seg m h true (some (arr els)) e =
          Returns->>= (AtItems R els) _ (each_object fail inner p seg els) _
            (each_object-AtItems R inner p seg h els)
            (λ els' good.
              AtFound-set R (Skipped opts p R) true seg.name (some (arr els)) (arr els') m good)
      descend-AtFound opts R inner p seg m h true (some val) e = tt
      descend-AtFound opts R inner p seg m h false (some (obj sub)) e =
          Returns->>= (R sub) _ (inner sub) _ (h sub) (λ sub' good.
            AtFound-set R (Skipped opts p R) false seg.name (some (obj sub)) (obj sub') m good)
      descend-AtFound opts R inner p seg m h false (some val) e = tt

      pub walk_leaves-Leaves :
          (opts : List FieldPath) (p : FieldPath)
          → IsLeaf (last_name p)
          → (m : Fields F) → Returns (Leaves (Skipped opts) Q p m) (walk_leaves fail opts fn p m)
      unfolding walk_leaves last_name
      walk_leaves-Leaves opts [] l m = tt
      walk_leaves-Leaves opts (seg ∷ []) l m = establishes m seg.name l
      walk_leaves-Leaves opts (seg ∷ next ∷ rest) l m =
          descend-AtFound opts (Leaves (Skipped opts) Q (next ∷ rest)) _ _ seg m
            (walk_leaves-Leaves opts (next ∷ rest) l) seg.array (find seg.name m) refl

      ensure-AtFound :
          (R : Fields F → Fields F → Type 0) (inner : Fields F → Result Error (Fields F))
          (p : FieldPath) (seg : Segment) (m : Fields F)
          → ((m : Fields F) → Returns (R m) (inner m))
          → (array : Bool) (found : Option (Json F))
          → Returns
              (λ m'. AtFound R (Created p R) array found (find seg.name m') × SameBut seg.name m m')
              (ensure fail fn inner p seg m array found)
      unfolding ensure
      ensure-AtFound R inner p seg m h true none = tt
      ensure-AtFound R inner p seg m h true (some null) = tt
      ensure-AtFound R inner p seg m h true (some (arr els)) =
          Returns->>= (AtItems R els) _ (each_object fail inner p seg els) _
            (each_object-AtItems R inner p seg h els)
            (λ els' good.
              AtFound-set R (Created p R) true seg.name (some (arr els)) (arr els') m good)
      ensure-AtFound R inner p seg m h true (some val) = tt
      ensure-AtFound R inner p seg m h false none =
          Returns->>= (R end) _ (inner end) _ (h end) (λ sub' good.
            AtFound-set R (Created p R) false seg.name none (obj sub') m (refl, (sub', refl, good)))
      ensure-AtFound R inner p seg m h false (some null) =
          Returns->>= (R end) _ (inner end) _ (h end) (λ sub' good.
            AtFound-set R (Created p R) false seg.name (some null) (obj sub') m
              (refl, (sub', refl, good)))
      ensure-AtFound R inner p seg m h false (some (obj sub)) =
          Returns->>= (R sub) _ (inner sub) _ (h sub) (λ sub' good.
            AtFound-set R (Created p R) false seg.name (some (obj sub)) (obj sub') m good)
      ensure-AtFound R inner p seg m h false (some val) = tt

      pub walk_leaves_ensure_objects-Leaves :
          (p : FieldPath)
          → IsLeaf (last_name p)
          → (m : Fields F) → Returns (Leaves Created Q p m) (walk_leaves_ensure_objects fail fn p m)
      unfolding walk_leaves_ensure_objects last_name
      walk_leaves_ensure_objects-Leaves [] l m = tt
      walk_leaves_ensure_objects-Leaves (seg ∷ []) l m = establishes m seg.name l
      walk_leaves_ensure_objects-Leaves (seg ∷ next ∷ rest) l m =
          ensure-AtFound (Leaves Created Q (next ∷ rest)) _ _ seg m
            (walk_leaves_ensure_objects-Leaves (next ∷ rest) l) seg.array (find seg.name m)

-- ===== src/Bundle/Merge/Union.antt =====
-- mergeDescriptors, internal/bundle/bundle.go: the merged set is the union of the layers.
use wavefront.Base.{
  String, ◌≡◌, ◌≢◌, refl, sym, ap, ◌∙◌, Bool, true, false, not, List, [], ◌∷◌, ◌++◌, Option, none,
  some, ok, if◌then◌else◌, ◌==◌, All, All-append, arith, Returns, Returns->>=, Returns_elim,
  Returns-fail_if, Returns-mono, subst, eq_iff, eq_refl, inl, inr, branch, Bool-cases,
}
use wavefront.Base.Dict.{lookup, put, lookup-put}
use wavefront.Bundle.Merge.{
  FileProto, Merged, no_files, add_known, add_file, add_files, merge_descriptors, encoded_or,
}

abbrev pub find_file : String → List FileProto → Option FileProto
find_file n [] = none
find_file n (f ∷ files) = if f.name == n then some f else find_file n files

-- The encoding of a file that was found.
abbrev pub encoding : Option FileProto → Option String
encoding none = none
encoding (some f) = f.encoded

abbrev pub DistinctNames : List FileProto → Type 0
DistinctNames [] = Unit
DistinctNames (f ∷ files) = All (λ g. (g.name == f.name) ≡ false) files × DistinctNames files

-- The map of seen bytes and the kept files, entry by entry.
abbrev Tracks : List (String × String) → List FileProto → Type 0
Tracks [] [] = Unit
Tracks [] (f ∷ files) = ⊥
Tracks ((n, b) ∷ seen) [] = ⊥
Tracks ((n, b) ∷ seen) (f ∷ files) = (f.name ≡ n) × (f.encoded ≡ some b) × Tracks seen files

record IsMerged (m : Merged) : Type 0 where
  tracks : Tracks m.seen m.files
  distinct : DistinctNames m.files

some-ne-none : {A : Type 0} {a : A} → ◌≢◌ {A = Option A} (some a) none
some-ne-none e = cc

eq_sym : (a b : String) → (a == b) ≡ false → (b == a) ≡ false
eq_sym a b h = ground (arith, h, eq_iff a b, eq_iff b a, eq_refl a)

lookup-Tracks :
    (n : String) (seen : List (String × String)) (files : List FileProto)
    → Tracks seen files
    → lookup ◌==◌ n seen ≡ encoding (find_file n files)
unfolding lookup
lookup-Tracks n [] [] t = refl
lookup-Tracks n [] (f ∷ files) t = absurd t
lookup-Tracks n ((k, b) ∷ seen) [] t = absurd t
lookup-Tracks n ((k, b) ∷ seen) (f ∷ files) (e, h, t) = elim (Bool-cases (k == n)) [
  | inl s ↦ rw (e, s, h) refl
  | inr s ↦ rw (e, s) (lookup-Tracks n seen files t)
]

append-Tracks :
    (b : String) (f : FileProto) (seen : List (String × String)) (files : List FileProto)
    → f.encoded ≡ some b
    → lookup ◌==◌ f.name seen ≡ none
    → Tracks seen files
    → Tracks (put ◌==◌ f.name b seen) (files ++ f ∷ [])
      × All (λ g. (g.name == f.name) ≡ false) files
unfolding lookup put
append-Tracks b f [] [] e l t = ((refl, e, tt), tt)
append-Tracks b f [] (g ∷ files) e l t = absurd t
append-Tracks b f ((k, c) ∷ seen) [] e l t = absurd t
append-Tracks b f ((k, c) ∷ seen) (g ∷ files) e l (h, i, t) = elim (branch (k == f.name) l) [
  | inl (s, x) ↦ absurd (some-ne-none x)
  | inr (s, x) ↦
      let (u, v) = append-Tracks b f seen files e x t in
      rw s ((h, i, u), (subst (λ n. (n == f.name) ≡ false) (sym h) s, v))
]

append-DistinctNames :
    (f : FileProto) (files : List FileProto)
    → All (λ g. (g.name == f.name) ≡ false) files
    → DistinctNames files
    → DistinctNames (files ++ f ∷ [])
append-DistinctNames f [] h d = (tt, tt)
append-DistinctNames f (g ∷ files) (a, h) (b, d) = (
  All-append (λ x. (x.name == g.name) ≡ false) files (f ∷ []) b (eq_sym g.name f.name a, tt),
  append-DistinctNames f files h d,
)

-- A file was seen with its bytes.
abbrev IsSeen : Merged → FileProto → Type 0
IsSeen m f = (b : String) × (f.encoded ≡ some b) × (lookup ◌==◌ f.name m.seen ≡ some b)

-- What a step keeps and adds: everything seen stays, and the bytes of `f` are seen.
record Adds (m : Merged) (fdps : List FileProto) (m' : Merged) : Type 0 where
  merged : IsMerged m'
  stays : (n b : String) → lookup ◌==◌ n m.seen ≡ some b → lookup ◌==◌ n m'.seen ≡ some b
  added : All (IsSeen m') fdps

add_known-Adds :
    (m : Merged) (f : FileProto) (b : String) (prev : Option String)
    → IsMerged m
    → f.encoded ≡ some b
    → lookup ◌==◌ f.name m.seen ≡ prev
    → Returns (Adds m (f ∷ [])) (add_known m f b prev)
unfolding add_known
add_known-Adds m f b none i e l =
    let (t, fresh) = append-Tracks b f m.seen m.files e l i.tracks in
    let at = λ (n : String). lookup-put ◌==◌ eq_iff f.name n b m.seen in
    record {
      merged = record { tracks = t; distinct = append-DistinctNames f m.files fresh i.distinct };
      stays = λ n c h. at n ∙ kept n c h (f.name == n) refl;
      added = ((b, e, at f.name ∙ rw (eq_refl f.name) refl), tt);
    }
  where
    kept :
        (n c : String)
        → lookup ◌==◌ n m.seen ≡ some c
        → (same : Bool) → (f.name == n) ≡ same
        → (if same then some b else lookup ◌==◌ n m.seen) ≡ some c
    kept n c h true s =
        absurd (
          some-ne-none (sym h ∙ subst (λ k. lookup ◌==◌ k m.seen ≡ none) ((eq_iff f.name n).0 s) l))
    kept n c h false s = h
add_known-Adds m f b (some prev) i e l =
    Returns-fail_if (Adds m (f ∷ [])) (not (prev == b)) _ _ (λ h. record {
      merged = i;
      stays = λ n c k. k;
      added = ((b, e, l ∙ ap some ((eq_iff prev b).0 (ground (arith, h)))), tt);
    })

encoded_or-same : (e : Option String) → Returns (λ b. e ≡ some b) (encoded_or e)
encoded_or-same none = tt
encoded_or-same (some b) = refl

add_file-Adds : (m : Merged) (f : FileProto) → IsMerged m → Returns (Adds m (f ∷ [])) (add_file m f)
unfolding add_file
add_file-Adds m f i =
    Returns->>= (λ b. f.encoded ≡ some b) (Adds m (f ∷ [])) (encoded_or f.encoded) _
      (encoded_or-same f.encoded) (λ b e. add_known-Adds m f b (lookup ◌==◌ f.name m.seen) i e refl)

All-stays :
    (m m' : Merged) (fdps : List FileProto)
    → ((n b : String) → lookup ◌==◌ n m.seen ≡ some b → lookup ◌==◌ n m'.seen ≡ some b)
    → All (IsSeen m) fdps
    → All (IsSeen m') fdps
All-stays m m' [] s h = tt
All-stays m m' (f ∷ fdps) s ((b, e, l), h) = ((b, e, s f.name b l), All-stays m m' fdps s h)

add_files-Adds :
    (m : Merged) (fdps : List FileProto) → IsMerged m → Returns (Adds m fdps) (add_files m fdps)
unfolding add_files
add_files-Adds m [] i = record { merged = i; stays = λ n b h. h; added = tt }
add_files-Adds m (f ∷ fdps) i =
    Returns->>= (Adds m (f ∷ [])) (Adds m (f ∷ fdps)) (add_file m f) _ (add_file-Adds m f i)
      (λ m' a.
        Returns-mono (Adds m' fdps) (Adds m (f ∷ fdps)) (add_files m' fdps)
          (λ m'' c. record {
            merged = c.merged;
            stays = λ n b h. c.stays n b (a.stays n b h);
            added = ((All-stays m' m'' (f ∷ []) c.stays a.added).0, c.added);
          })
          (add_files-Adds m' fdps a.merged))

-- The same for the layers.
record AddsAll (m : Merged) (per_layer : List (List FileProto)) (m' : Merged) : Type 0 where
  merged : IsMerged m'
  stays : (n b : String) → lookup ◌==◌ n m.seen ≡ some b → lookup ◌==◌ n m'.seen ≡ some b
  added : All (All (IsSeen m')) per_layer

merge_descriptors-AddsAll :
    (m : Merged) (per_layer : List (List FileProto))
    → IsMerged m
    → Returns (AddsAll m per_layer) (merge_descriptors m per_layer)
unfolding merge_descriptors
merge_descriptors-AddsAll m [] i = record { merged = i; stays = λ n b h. h; added = tt }
merge_descriptors-AddsAll m (fdps ∷ per_layer) i =
    Returns->>= (Adds m fdps) (AddsAll m (fdps ∷ per_layer)) (add_files m fdps) _
      (add_files-Adds m fdps i)
      (λ m' a.
        Returns-mono (AddsAll m' per_layer) (AddsAll m (fdps ∷ per_layer))
          (merge_descriptors m' per_layer)
          (λ m'' c. record {
            merged = c.merged;
            stays = λ n b h. c.stays n b (a.stays n b h);
            added = (All-stays m' m'' fdps c.stays a.added, c.added);
          })
          (merge_descriptors-AddsAll m' per_layer a.merged))

-- A file of a layer is found in the merged set under its name, with its own bytes.
abbrev pub IsFound : List FileProto → FileProto → Type 0
IsFound files f = (b : String) × (f.encoded ≡ some b) × (encoding (find_file f.name files) ≡ some b)

IsSeen-IsFound :
    (m : Merged) (fdps : List FileProto)
    → IsMerged m
    → All (IsSeen m) fdps
    → All (IsFound m.files) fdps
IsSeen-IsFound m [] i h = tt
IsSeen-IsFound m (f ∷ fdps) i ((b, e, l), h) =
    ((b, e, sym (lookup-Tracks f.name m.seen m.files i.tracks) ∙ l), IsSeen-IsFound m fdps i h)

All-IsFound :
    (m : Merged) (per_layer : List (List FileProto))
    → IsMerged m
    → All (All (IsSeen m)) per_layer
    → All (All (IsFound m.files)) per_layer
All-IsFound m [] i h = tt
All-IsFound m (fdps ∷ per_layer) i (a, h) = (IsSeen-IsFound m fdps i a, All-IsFound m per_layer i h)

-- When the merge of the layers succeeds, the names of the merged files are distinct, and under its
-- name each file of each layer is found with its own bytes, so layers that share a name agree.
pub merge_descriptors-union :
    (per_layer : List (List FileProto)) (m : Merged)
    → merge_descriptors no_files per_layer ≡ ok m
    → DistinctNames m.files × All (All (IsFound m.files)) per_layer
merge_descriptors-union per_layer m e =
    let a =
      Returns_elim (AddsAll no_files per_layer) (merge_descriptors no_files per_layer)
        (merge_descriptors-AddsAll no_files per_layer (record { tracks = tt; distinct = tt })) e in
    (a.merged.distinct, All-IsFound m per_layer a.merged a.added)

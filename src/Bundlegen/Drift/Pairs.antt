-- ===== src/Bundlegen/Drift/Pairs.antt =====
-- internal/bundlegen/drift.go: how often a name occurs in what the pairing makes of two lists.
use wavefront.Base.{
  ℕ, ◌+◌, String, ◌≡◌, refl, sym, ap, Bool, true, false, not, ◌&&◌, List, [], ◌∷◌, if◌then◌else◌,
  ◌==◌, ltb, arith, subst, eq_iff, eq_refl, inl, inr, branch, Bool-cases, filter,
}
use wavefront.Base.Text.Sort.{insert, sort_strings}
use wavefront.Bundlegen.Drift.{contains, Matching, pair, choose_added, find_match, match_removed}

-- How often a name occurs.
abbrev pub count : String → List String → ℕ
count n [] = 0
count n (x ∷ xs) = (if x == n then 1 else 0) + count n xs

abbrev pub firsts : List (String × String) → List String
firsts [] = []
firsts ((r, a) ∷ pairs) = r ∷ firsts pairs

abbrev pub seconds : List (String × String) → List String
seconds [] = []
seconds ((r, a) ∷ pairs) = a ∷ seconds pairs

count-insert :
    (n m : String) (names : List String)
    → count n (insert m names) ≡ (if m == n then 1 else 0) + count n names
unfolding insert
count-insert n m [] = omega arith
count-insert n m (x ∷ names) = ground (arith, count-insert n m names)

pub count-sort_strings :
    (n : String) (names : List String) → count n (sort_strings names) ≡ count n names
unfolding sort_strings
count-sort_strings n [] = refl
count-sort_strings n (m ∷ names) =
    omega (arith, count-insert n m (sort_strings names), count-sort_strings n names)

pub count-filter :
    (p : String → Bool) (n : String) (names : List String)
    → count n (filter p names) ≡ (if p n then count n names else 0)
count-filter p n [] = ground arith
count-filter p n (m ∷ names) = elim (Bool-cases (m == n)) [
  | inl e ↦
      let same : m ≡ n = (eq_iff m n).0 e in
      let agree : p m ≡ p n = ap p same in ground (arith, agree, count-filter p n names)
  | inr e ↦ ground (arith, e, count-filter p n names)
]

pub count-contains : (n : String) (names : List String) → contains n names ≡ ltb 0 (count n names)
count-contains n [] = refl
count-contains n (m ∷ names) = ground (arith, count-contains n names)

-- The names that are used behind the loop: those used before, and the second parts of the pairs,
-- each of which was an added name that was not used.
pub record IsTaken (n : String) (added used : List String) (m : Matching) : Type 0 where
  pub keeps : contains n used ≡ true → contains n m.used ≡ true
  pub counted :
      count n (seconds m.pairs) ≡ (if contains n m.used && not (contains n used) then 1 else 0)
  pub from_added : contains n m.used ≡ true → contains n used ≡ false → contains n added ≡ true

module _ (eligible : String → Bool) (fits : String → String → Bool) where
  -- A choose_added field is one of the added, not used, and passes both tests.
  abbrev pub IsChoice : List String → String → List String → String → Type 0
  IsChoice used r added a =
      (contains a added ≡ true) × (contains a used ≡ false) × (fits r a ≡ true)

  find_match-IsChoice :
      (used : List String) (r : String) (added : List String) (c : String)
      → find_match eligible fits used r added ≡ c
      → (c == "") ≡ false
      → IsChoice used r added c
  unfolding find_match
  find_match-IsChoice used r [] c e h =
      absurd (ground (arith, eq_refl "", subst (λ x. (x == "") ≡ false) (sym e) h))
  find_match-IsChoice used r (a ∷ added) c e h =
      elim (branch (not (contains a used) && fits r a) e) [
        | inl (t, same) ↦
            subst (IsChoice used r (a ∷ added)) same
              (ground (arith, eq_refl a), ground (arith, t), ground (arith, t))
        | inr (t, later) ↦
            let (k, u, f) = find_match-IsChoice used r added c later h in (ground (arith, k), u, f)
      ]

  pub choose_added-IsChoice :
      (used : List String) (r : String) (added : List String) (c : String)
      → choose_added eligible fits used r added ≡ c
      → (c == "") ≡ false
      → IsChoice used r added c × (eligible r ≡ true)
  choose_added-IsChoice used r added c e h = elim (branch (eligible r) e) [
    | inl (t, found) ↦ (find_match-IsChoice used r added c found h, t)
    | inr (t, same) ↦
        absurd (ground (arith, eq_refl "", subst (λ x. (x == "") ≡ false) (sym same) h))
  ]

  abbrev result : List String → List String → List String → Matching
  result added used removed = match_removed eligible fits added used removed

  -- A removed field goes into a pair or is left over.
  pub count-removed :
      (n : String) (added used removed : List String)
      → let m = result added used removed in
        count n removed ≡ count n (firsts m.pairs) + count n m.unmatched
  unfolding match_removed
  count-removed n added used [] = omega arith
  count-removed n added used (r ∷ removed) =
      let c = choose_added eligible fits used r added in
      elim (Bool-cases (c == "")) [
        | inl e ↦ rw e (omega (arith, count-removed n added used removed))
        | inr e ↦ rw e (omega (arith, count-removed n added (c ∷ used) removed))
      ]

  taken :
      (r c : String) (added used : List String) (m : Matching) (n : String)
      → contains c added ≡ true
      → contains c used ≡ false
      → IsTaken n added (c ∷ used) m
      → IsTaken n added used (pair r c m)
  taken r c added used m n k u h = elim (Bool-cases (c == n)) [
    | inl e ↦
        let same : c ≡ n = (eq_iff c n).0 e in
        let present : contains n added ≡ true = subst (λ x. contains x added ≡ true) same k in
        let free : contains n used ≡ false = subst (λ x. contains x used ≡ false) same u in
        record {
          keeps = λ l. h.keeps (ground (arith, e));
          counted = ground (arith, e, free, h.counted, h.keeps (ground (arith, e)));
          from_added = λ l o. present;
        }
    | inr e ↦ record {
      keeps = λ l. h.keeps (ground (arith, l));
      counted = ground (arith, e, h.counted);
      from_added = λ l o. h.from_added l (ground (arith, e, o));
    }
  ]

  pub match_removed-IsTaken :
      (n : String) (added used removed : List String)
      → IsTaken n added used (result added used removed)
  unfolding match_removed
  match_removed-IsTaken n added used [] = record {
    keeps = λ h. h;
    counted = ground arith;
    from_added = λ h k. ground (arith, h, k);
  }
  match_removed-IsTaken n added used (r ∷ removed) =
      let c = choose_added eligible fits used r added in
      elim (Bool-cases (c == "")) [
        | inl e ↦
            let h = match_removed-IsTaken n added used removed in
            rw e (record { keeps = h.keeps; counted = h.counted; from_added = h.from_added })
        | inr e ↦
            let h = match_removed-IsTaken n added (c ∷ used) removed in
            let ((k, u, f), t) = choose_added-IsChoice used r added c refl e in
            rw e (taken r c added used (result added (c ∷ used) removed) n k u h)
      ]

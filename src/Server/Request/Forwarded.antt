-- ===== src/Server/Request/Forwarded.antt =====
-- Which headers cross the proxy, internal/server/http.go.
use wavefront.Base.{
  String, ◌≡◌, ◌≢◌, ◌⊎◌, refl, sym, ap, ◌∙◌, Bool, true, false, ◌||◌, List, [], ◌∷◌, ◌++◌,
  if◌then◌else◌, ◌==◌, arith, any, Occurs, subst, eq_iff, inl, inr, Bool-cases,
}
use wavefront.Base.Dict.{values}
use wavefront.Base.Text.{split, trim_space}
use wavefront.Headers.{Header}
use wavefront.Headers.Copy.{Distinct, values-copy_where}
use wavefront.Server.Request.{
  hop_by_hop, is_hop_by_hop, names, is_skipped, is_forwarded, forward_client_headers, is_cors_key,
  copy_cors_headers,
}

-- A test that holds of a list holds of one of its elements.
any-Occurs :
    {A : Type 0} (p : A → Bool) (xs : List A)
    → any p xs ≡ true
    → (x : A) × Occurs x xs × (p x ≡ true)
any-Occurs p [] h = absurd cc
any-Occurs p (x ∷ xs) h = elim (Bool-cases (p x)) [
  | inl e ↦ (x, inl refl, e)
  | inr e ↦ let (y, at, holds) = any-Occurs p xs (ground (arith, h, e)) in (y, inr at, holds)
]

Occurs-any :
    {A : Type 0} (p : A → Bool) (x : A) (xs : List A) → Occurs x xs → p x ≡ true → any p xs ≡ true
Occurs-any p x [] at h = absurd at
Occurs-any p x (y ∷ xs) (inl e) h = let here : p y ≡ true = ap p e ∙ h in ground (arith, here)
Occurs-any p x (y ∷ xs) (inr at) h = ground (arith, Occurs-any p x xs at h)

-- The client's Connection header names the key: one of the parts between the commas of one of its
-- values is, without the spaces around it and in canonical form, that key.
abbrev pub IsNamed : (String → String) → Header → String → Type 0
IsNamed canonical_key src k =
    (value : String) × (token : String) × Occurs value (values ◌==◌ "Connection" src)
    × Occurs token (split b',' value)
    × (canonical_key (trim_space token) ≡ k)
    × (k ≢ "")

-- The key stays with the connection of the client.
abbrev pub Stays : (String → String) → Header → String → Type 0
Stays canonical_key src k = Occurs k hop_by_hop ⊎ IsNamed canonical_key src k

module _ (canonical_key : String → String) (src : Header) (k : String) where
  is_skipped-IsNamed : is_skipped canonical_key src k ≡ true → IsNamed canonical_key src k
  unfolding is_skipped
  is_skipped-IsNamed h =
      let (value, at, named) =
        any-Occurs (λ c. any (names canonical_key k) (split b',' c)) (values ◌==◌ "Connection" src)
          h in
      let (token, part, is_k) = any-Occurs (names canonical_key k) (split b',' value) named in
      let key = canonical_key (trim_space token) in
      let same : key ≡ k = (eq_iff key k).0 (ground (arith, is_k)) in
      let empty : (key == "") ≡ false = ground (arith, is_k) in
      (
        value,
        token,
        at,
        part,
        same,
        λ e. absurd (
            let yes : (key == "") ≡ true = (eq_iff key "").1 (same ∙ e) in
            ground (arith, yes, empty)),
      )

  IsNamed-is_skipped : IsNamed canonical_key src k → is_skipped canonical_key src k ≡ true
  unfolding is_skipped
  IsNamed-is_skipped (value, token, at, part, same, full) =
      let key = canonical_key (trim_space token) in
      let is_k : (key == k) ≡ true = (eq_iff key k).1 same in
      let holds : names canonical_key k token ≡ true = elim (Bool-cases (key == "")) [
        | inl e ↦ absurd (full (sym same ∙ (eq_iff key "").0 e))
        | inr e ↦ ground (arith, e, is_k)
      ] in
      Occurs-any (λ c. any (names canonical_key k) (split b',' c)) value
        (values ◌==◌ "Connection" src) at
        (Occurs-any (names canonical_key k) token (split b',' value) part holds)

  is_hop_by_hop-Occurs : is_hop_by_hop k ≡ true → Occurs k hop_by_hop
  is_hop_by_hop-Occurs h =
      let (name, at, e) = any-Occurs (λ n. n == k) hop_by_hop h in
      subst (λ n. Occurs n hop_by_hop) ((eq_iff name k).0 e) at

  Occurs-is_hop_by_hop : Occurs k hop_by_hop → is_hop_by_hop k ≡ true
  Occurs-is_hop_by_hop at = Occurs-any (λ n. n == k) k hop_by_hop at ((eq_iff k k).1 refl)

  abbrev stops : Bool
  stops = is_hop_by_hop k || is_skipped canonical_key src k

  stops-Stays : stops ≡ true → Stays canonical_key src k
  stops-Stays h = elim (Bool-cases (is_hop_by_hop k)) [
    | inl e ↦ inl (is_hop_by_hop-Occurs e)
    | inr e ↦ inr (is_skipped-IsNamed (ground (arith, h, e)))
  ]

  Stays-stops : Stays canonical_key src k → stops ≡ true
  Stays-stops (inl at) = let h = Occurs-is_hop_by_hop at in ground (arith, h)
  Stays-stops (inr named) = let h = IsNamed-is_skipped named in ground (arith, h)

  -- What crosses, by the code's own test.
  values-forwarded :
      Distinct src
      → values ◌==◌ k (forward_client_headers canonical_key [] src)
        ≡ (if stops then [] else values ◌==◌ k src)
  unfolding forward_client_headers values
  values-forwarded u = ground (arith, values-copy_where (is_forwarded canonical_key src) k src [] u)

-- Under a hop-by-hop key and under a key that the client's Connection header names the forwarded
-- request has no value; under every other key it has exactly the client's values.
pub forward_client_headers-values :
    (canonical_key : String → String) (src : Header) (k : String)
    → Distinct src
    → (Stays canonical_key src k
        × (values ◌==◌ k (forward_client_headers canonical_key [] src) ≡ []))
      ⊎ (¬ Stays canonical_key src k
          × (values ◌==◌ k (forward_client_headers canonical_key [] src) ≡ values ◌==◌ k src))
forward_client_headers-values canonical_key src k u =
    let crossed = values-forwarded canonical_key src k u in
    elim (Bool-cases (stops canonical_key src k)) [
      | inl e ↦ inl (stops-Stays canonical_key src k e, crossed ∙ rw e refl)
      | inr e ↦ inr (
        (λ stays.
            let yes = Stays-stops canonical_key src k stays in absurd (ground (arith, yes, e))),
        crossed ∙ rw e refl,
      )
    ]

-- The response keeps what it had and gains, under Vary and the Access-Control keys, the upstream's
-- values; under any other key nothing.
pub copy_cors_headers-values :
    (dst src : Header) (k : String)
    → Distinct src
    → values ◌==◌ k (copy_cors_headers dst src)
      ≡ values ◌==◌ k dst ++ (if is_cors_key k then values ◌==◌ k src else [])
unfolding copy_cors_headers
copy_cors_headers-values dst src k u = values-copy_where is_cors_key k src dst u

-- ===== src/Config/Parsed.antt =====
-- internal/config/config.go: what each parsing step of Load leaves of the text of a setting.
use wavefront.Base.{
  ℕ, zero, suc, ◌≤◌, ◌<◌, ℤ, pos, negsuc, String, ◌≡◌, ◌≢◌, ◌⊎◌, refl, ap, ◌∙◌, Bool, true, false,
  not, ◌&&◌, ◌||◌, List, [], ◌∷◌, Option, none, some, ◌==◌, All, arith, Returns, Returns->>=,
  Returns-fail_if, eq_iff, inl, inr, Bool-cases,
}
use Prim.Native.Nat.{◌*◌, ◌%◌, ◌^◌}
use wavefront.Base.Dict.{lookup, put}
use wavefront.Base.Text.{atoi, trim_space, split}
use wavefront.Config.{
  is_http, has_port, port_in_range, validate_host_port, Parsers, milliseconds, signed,
  validate_base_url, checked_setting, positive_number, parse_int_var, positive_var, add_pair,
  add_targets, parse_targets, non_blank, check_endpoint, check_ratio, is_set, parsed_int, cut,
}
use wavefront.Base.Text.Bounds.{atoi-bound, pos-injective}

-- A timeout of a positive number of milliseconds within 64 bits. It is that many milliseconds as
-- long as they have room in 64 bits as nanoseconds; beyond, the product has wrapped around.
abbrev pub IsTimeout : ℤ → Type 0
IsTimeout t =
    (ms : ℕ) × (0 < ms)
    × (ms < 2 ^ 63)
    × (t ≡ milliseconds ms)
    × (ms ≤ 9223372036854 → t ≡ pos (ms * 1000000))

below-mod : (n : ℕ) → n < 2 ^ 63 → n % 2 ^ 64 ≡ n
below-mod n h = omega (arith, h)

milliseconds-pos : (ms : ℕ) → ms ≤ 9223372036854 → milliseconds ms ≡ pos (ms * 1000000)
unfolding milliseconds signed
milliseconds-pos ms h =
    let small : ms * 1000000 < 2 ^ 63 = omega (arith, h) in
    rw (below-mod (ms * 1000000) small) (ground (arith, small))

abbrev pub IsPositive : ℕ → Type 0
IsPositive n = (0 < n) × (n < 2 ^ 63)

pub timeout_of : (ms : ℕ) → IsPositive ms → IsTimeout (milliseconds ms)
timeout_of ms (a, b) = (ms, a, b, refl, λ h. milliseconds-pos ms h)

module _ (ps : Parsers) (get : String → Option String) where
  open ps use {Float, parse_url, split_host_port, at_most_zero, above_one}

  -- An http or https URL with a host.
  abbrev pub IsBaseUrl : String → Type 0
  IsBaseUrl url =
      (scheme : String) × (host : String) × (parse_url url ≡ some (scheme, host))
      × ((scheme ≡ "http") ⊎ (scheme ≡ "https"))
      × (host ≢ "")

  -- An address with a port from 1 to 65535.
  abbrev pub IsHostPort : String → Type 0
  IsHostPort address =
      (host : String) × (port : String) × (split_host_port address ≡ some (host, port))
      × ((n : ℕ) × (atoi port ≡ some (pos n)) × (1 ≤ n) × (n ≤ 65535))

  -- Neither comparison refuses the ratio. Of a number this is 0 < ratio and ratio ≤ 1.
  abbrev pub IsRatio : Float → Type 0
  IsRatio r = (at_most_zero r ≡ false) × (above_one r ≡ false)

  name_ne : (name : String) → (name == "") ≡ false → name ≢ ""
  name_ne name h e =
      let empty : (name == "") ≡ true = (eq_iff name "").1 e in absurd (ground (arith, empty, h))

  is_http-IsBaseUrl :
      (url : String) (parsed : Option (String × String))
      → parse_url url ≡ parsed
      → is_http ps get parsed ≡ true
      → IsBaseUrl url
  is_http-IsBaseUrl url none e h = absurd cc
  is_http-IsBaseUrl url (some (scheme, host)) e h =
      let full : (host == "") ≡ false = ground (arith, h) in
      (
        scheme,
        host,
        e,
        elim (Bool-cases (scheme == "http")) [
          | inl f ↦ inl ((eq_iff scheme "http").0 f)
          | inr f ↦ inr ((eq_iff scheme "https").0 (ground (arith, h, f)))
        ],
        name_ne host full,
      )

  pub validate_base_url-IsBaseUrl :
      (url : String) → validate_base_url ps get url ≡ true → IsBaseUrl url
  unfolding validate_base_url
  validate_base_url-IsBaseUrl url h = is_http-IsBaseUrl url (parse_url url) refl h

  port_in_range-bounds :
      (port : String) (n : Option ℤ)
      → atoi port ≡ n
      → port_in_range ps get n ≡ true
      → (m : ℕ) × (atoi port ≡ some (pos m)) × (1 ≤ m) × (m ≤ 65535)
  port_in_range-bounds port none e h = absurd cc
  port_in_range-bounds port (some (pos m)) e h = (m, e, ground (arith, h), ground (arith, h))
  port_in_range-bounds port (some (negsuc m)) e h = absurd cc

  has_port-IsHostPort :
      (address : String) (parts : Option (String × String))
      → split_host_port address ≡ parts
      → has_port ps get parts ≡ true
      → IsHostPort address
  has_port-IsHostPort address none e h = absurd cc
  has_port-IsHostPort address (some (host, port)) e h =
      (host, port, e, port_in_range-bounds port (atoi port) refl h)

  pub validate_host_port-IsHostPort :
      (address : String) → validate_host_port ps get address ≡ true → IsHostPort address
  unfolding validate_host_port
  validate_host_port-IsHostPort address h =
      has_port-IsHostPort address (split_host_port address) refl h

  abbrev pub IsTarget : String × String → Type 0
  IsTarget (name, url) = (name ≢ "") × IsBaseUrl url

  abbrev pub Holds : (String → Bool) → String → String → Type 0
  Holds test v w = (w ≡ v) × (test w ≡ true)

  abbrev pub IsEndpoint : String → Type 0
  IsEndpoint w = (w ≡ "") ⊎ IsBaseUrl w

  pub check_ratio-valid : (f : Float) → Returns IsRatio (check_ratio ps get f)
  unfolding check_ratio
  check_ratio-valid f =
      Returns-fail_if _ (at_most_zero f || above_one f) _ _
        (λ h. (ground (arith, h), ground (arith, h)))

  pub checked_setting-Returns :
      (key : String) (test : String → Bool) (v : String)
      → Returns (Holds test v) (checked_setting ps get key test v)
  unfolding checked_setting
  checked_setting-Returns key test v =
      Returns-fail_if _ (not (test v)) _ _ (λ h. (refl, ground (arith, h)))

  positive_number-IsPositive :
      (key : String) (n : ℤ)
      → ((m : ℕ) → n ≡ pos m → m < 2 ^ 63)
      → Returns IsPositive (positive_number ps get key n)
  unfolding positive_number
  positive_number-IsPositive key (pos zero) h = tt
  positive_number-IsPositive key (pos (suc n)) h = (omega arith, h (suc n) refl)
  positive_number-IsPositive key (negsuc n) h = tt

  abbrev InRange : ℤ → Type 0
  InRange n = (m : ℕ) → n ≡ pos m → m < 2 ^ 63

  parsed_int-InRange :
      (key v : String) (n : Option ℤ) → atoi v ≡ n → Returns InRange (parsed_int ps get key v n)
  parsed_int-InRange key v none e = tt
  parsed_int-InRange key v (some n) e = λ m k. atoi-bound v m (e ∙ ap some k)

  parse_int_var-InRange :
      (key : String) (default : ℕ) (v : Option String)
      → default < 2 ^ 63
      → Returns InRange (parse_int_var ps get key default v)
  unfolding parse_int_var
  parse_int_var-InRange key default none h = λ m e. ground (arith, h, pos-injective e)
  parse_int_var-InRange key default (some v) h = parsed_int-InRange key v (atoi v) refl

  pub positive_var-IsPositive :
      (key : String) (default : ℕ)
      → default < 2 ^ 63
      → Returns IsPositive (positive_var ps get key default)
  unfolding positive_var
  positive_var-IsPositive key default h =
      Returns->>= InRange IsPositive (parse_int_var ps get key default (non_blank ps get key)) _
        (parse_int_var-InRange key default (non_blank ps get key) h)
        (λ n r. positive_number-IsPositive key n r)

  put-All :
      (P : String × String → Type 0) (k v : String) (d : List (String × String))
      → P (k, v)
      → All P d
      → All P (put ◌==◌ k v d)
  unfolding put
  put-All P k v [] p h = (p, tt)
  put-All P k v ((j, w) ∷ d) p (a, h) = elim (Bool-cases (j == k)) [
    | inl e ↦ rw e (p, h)
    | inr e ↦ rw e (a, put-All P k v d p h)
  ]

  add_pair-IsTarget :
      (raw : String) (pair : Option (String × String)) (targets : List (String × String))
      → All IsTarget targets
      → Returns (All IsTarget) (add_pair ps get raw pair targets)
  unfolding add_pair
  add_pair-IsTarget raw none targets h = tt
  add_pair-IsTarget raw (some (n, u)) targets h =
      let name = trim_space n in
      let url = trim_space u in
      Returns-fail_if _ (name == "" || url == "") _ _ (λ a.
        Returns-fail_if _ (is_set (lookup ◌==◌ name targets)) _ _ (λ _.
          Returns-fail_if _ (not (validate_base_url ps get url)) _ _ (λ b.
            put-All IsTarget name url targets
              (
                name_ne name (ground (arith, a)),
                validate_base_url-IsBaseUrl url (ground (arith, b)),
              )
              h)))

  add_targets-IsTarget :
      (raw : String) (pairs : List String) (targets : List (String × String))
      → All IsTarget targets
      → Returns (All IsTarget) (add_targets ps get raw pairs targets)
  unfolding add_targets
  add_targets-IsTarget raw [] targets h = h
  add_targets-IsTarget raw (pair ∷ pairs) targets h =
      Returns->>= (All IsTarget) _ (add_pair ps get raw (cut b'=' (trim_space pair)) targets) _
        (add_pair-IsTarget raw (cut b'=' (trim_space pair)) targets h)
        (λ targets' k. add_targets-IsTarget raw pairs targets' k)

  pub parse_targets-IsTarget : (v : Option String) → Returns (All IsTarget) (parse_targets ps get v)
  unfolding parse_targets
  parse_targets-IsTarget none = tt
  parse_targets-IsTarget (some raw) = add_targets-IsTarget raw (split b',' raw) [] tt

  pub check_endpoint-valid : (v : String) → Returns IsEndpoint (check_endpoint ps get v)
  unfolding check_endpoint
  check_endpoint-valid v =
      Returns-fail_if _ (not (v == "") && not (validate_base_url ps get v)) _ _ (λ h.
        elim (Bool-cases (v == "")) [
          | inl e ↦ inl ((eq_iff v "").0 e)
          | inr e ↦ inr (validate_base_url-IsBaseUrl v (ground (arith, h, e)))
        ])

-- ===== src/Bundle/Contracts.antt =====
-- internal/bundle/bundle.go, validateContract: one entry of a layer's versions.yaml.
use wavefront.Base.{
  ℤ, pos, negsuc, within, ◌==ℤ◌, String, ◌<>◌, ◌≡◌, Bool, true, false, not, ◌||◌, List, [], ◌∷◌,
  Option, none, some, Result, ok, err, ◌>>=◌, ◌>>◌, ◌==◌, All, any, arith, Returns, Returns->>=,
  Returns_elim, fail_if, Returns-fail_if, inl, inr, Bool-cases,
}
use wavefront.Base.Dict.{put}
use wavefront.Base.Text.{begins_with, trim_space, to_upper, atoi}
use wavefront.Wireerror.{is_capability_ceiling}
use wavefront.Bundle.{Contract}
use wavefront.Bundle.Failure.{LoadError, validation, because}

-- The map of error messages is a list in the order of its iteration.
pub record YamlContract : Type 0 where
  pub contract_version : String
  pub route : String
  pub method : String
  pub request_message : String
  pub response_message : String
  pub error_messages : List (String × String)
  pub strict : Bool

abbrev pub allowed_methods : List String
allowed_methods = "GET" ∷ "POST" ∷ "PUT" ∷ "PATCH" ∷ "DELETE" ∷ "HEAD" ∷ "OPTIONS" ∷ []

abbrev pub is_allowed : String → Bool
is_allowed method = any (λ m. m == method) allowed_methods

-- wireerror.IsCapabilityCeiling on an int
abbrev pub is_ceiling : ℤ → Bool
is_ceiling (pos n) = is_capability_ceiling n
is_ceiling (negsuc n) = false

refuse : String → String → String → LoadError
refuse cv field reason = validation cv field (because reason)

-- The checks on one binding of `error_messages`, once its key is a number.
bind_status :
    String → String → ℤ → String → List (ℤ × String) → Result LoadError (List (ℤ × String))
bind_status cv code status name messages = do
  fail_if (within 200 299 status) (
      refuse cv "error_messages"
        ("status " <> code <> " is 2xx; success bodies bind via response_message"))
  fail_if (is_ceiling status) (
      refuse cv "error_messages"
        ("status " <> code <> " is a capability ceiling and is always 502"))
  fail_if (name == "")
      (refuse cv "error_messages" ("status " <> code <> " has an empty message name"))
  ok (put ◌==ℤ◌ status name messages)

numbered :
    String → String → Option ℤ → String → List (ℤ × String) → Result LoadError (List (ℤ × String))
numbered cv code none name messages =
    err (refuse cv "error_messages" ("status key " <> code <> " is not a number"))
numbered cv code (some status) name messages = bind_status cv code status name messages

-- The loop over `error_messages`.
bind_statuses :
    String → List (String × String) → List (ℤ × String) → Result LoadError (List (ℤ × String))
bind_statuses cv [] messages = ok messages
bind_statuses cv ((code, msg) ∷ rest) messages = do
  messages' ← numbered cv code (atoi (trim_space code)) (trim_space msg) messages
  bind_statuses cv rest messages'

module _ {F : Type 0} where
  trimmed : YamlContract → Contract F
  trimmed yc = record {
    contract_version = trim_space yc.contract_version;
    route = trim_space yc.route;
    method = to_upper (trim_space yc.method);
    request_message = trim_space yc.request_message;
    response_message = trim_space yc.response_message;
    request_ops = [];
    response_ops = [];
    target = "";
    transform_target = "";
    error_messages = [];
    error_response_ops = [];
    strict = false;
  }

  check_contract : Contract F → YamlContract → Result LoadError (Contract F)
  check_contract c yc = do
    fail_if (c.contract_version == "") (refuse "" "contract_version" "must not be empty")
    fail_if (c.route == "" || not (begins_with b'/' c.route))
        (refuse c.contract_version "route" "must be a path beginning with /")
    fail_if (c.method == "") (refuse c.contract_version "method" "must not be empty")
    fail_if (not (is_allowed c.method))
        (refuse c.contract_version "method" "not a valid HTTP method")
    fail_if (c.request_message == "")
        (refuse c.contract_version "request_message" "must not be empty")
    fail_if (c.response_message == "")
        (refuse c.contract_version "response_message" "must not be empty")
    messages ← bind_statuses c.contract_version yc.error_messages []
    ok (record c { strict = yc.strict; error_messages = messages })

  unfoldable pub validate_contract : YamlContract → Result LoadError (Contract F)
  unfolding trimmed check_contract bind_statuses numbered bind_status refuse
  validate_contract yc = check_contract (trimmed yc) yc

-- A status that a contract may bind: no success, no capability ceiling, with a message.
pub record IsBindable (entry : ℤ × String) : Type 0 where
  pub not_success : within 200 299 entry.0 ≡ false
  pub not_ceiling : is_ceiling entry.0 ≡ false
  pub named : (entry.1 == "") ≡ false

pub record IsValidContract {F : Type 0} (c : Contract F) : Type 0 where
  pub versioned : (c.contract_version == "") ≡ false
  pub rooted : begins_with b'/' c.route ≡ true
  pub allowed : is_allowed c.method ≡ true
  pub has_request : (c.request_message == "") ≡ false
  pub has_response : (c.response_message == "") ≡ false
  pub statuses : All IsBindable c.error_messages

put-IsBindable :
    (status : ℤ) (name : String) (messages : List (ℤ × String))
    → IsBindable (status, name)
    → All IsBindable messages
    → All IsBindable (put ◌==ℤ◌ status name messages)
unfolding put
put-IsBindable status name [] b h = (b, tt)
put-IsBindable status name ((s, n) ∷ messages) b (a, h) = elim (Bool-cases (s ==ℤ status)) [
  | inl e ↦ rw e (b, h)
  | inr e ↦ rw e (a, put-IsBindable status name messages b h)
]

numbered-IsBindable :
    (cv code : String) (status : Option ℤ) (name : String) (messages : List (ℤ × String))
    → All IsBindable messages
    → Returns (All IsBindable) (numbered cv code status name messages)
unfolding numbered bind_status
numbered-IsBindable cv code none name messages h = tt
numbered-IsBindable cv code (some status) name messages h =
    Returns-fail_if _ (within 200 299 status) _ _ (λ a.
      Returns-fail_if _ (is_ceiling status) _ _ (λ b. Returns-fail_if _ (name == "") _ _ (λ c.
        put-IsBindable status name messages (record { not_success = a; not_ceiling = b; named = c })
          h)))

bind_statuses-IsBindable :
    (cv : String) (entries : List (String × String)) (messages : List (ℤ × String))
    → All IsBindable messages
    → Returns (All IsBindable) (bind_statuses cv entries messages)
unfolding bind_statuses
bind_statuses-IsBindable cv [] messages h = h
bind_statuses-IsBindable cv ((code, msg) ∷ rest) messages h =
    Returns->>= (All IsBindable) (All IsBindable)
      (numbered cv code (atoi (trim_space code)) (trim_space msg) messages) _
      (numbered-IsBindable cv code _ _ messages h)
      (λ messages' k. bind_statuses-IsBindable cv rest messages' k)

check_contract-IsValid :
    {F : Type 0} (c : Contract F) (yc : YamlContract)
    → Returns IsValidContract (check_contract c yc)
unfolding check_contract
check_contract-IsValid c yc = Returns-fail_if _ (c.contract_version == "") _ _ (λ a.
    Returns-fail_if _ (c.route == "" || not (begins_with b'/' c.route)) _ _ (λ b.
      Returns-fail_if _ (c.method == "") _ _ (λ m.
        Returns-fail_if _ (not (is_allowed c.method)) _ _ (λ d.
          Returns-fail_if _ (c.request_message == "") _ _ (λ e.
            Returns-fail_if _ (c.response_message == "") _ _ (λ f.
              Returns->>= (All IsBindable) _ (bind_statuses c.contract_version yc.error_messages [])
                _ (bind_statuses-IsBindable c.contract_version yc.error_messages [] tt)
                (λ messages h. record {
                  versioned = a;
                  rooted = ground arith;
                  allowed = ground arith;
                  has_request = e;
                  has_response = f;
                  statuses = h;
                })))))))

-- An accepted contract has a version, a route that begins with a slash, an allowed method and both
-- messages, and binds no success status, no capability ceiling and no empty message name.
pub validate_contract-IsValid :
    {F : Type 0} (yc : YamlContract) (c : Contract F)
    → validate_contract yc ≡ ok c
    → IsValidContract c
validate_contract-IsValid yc c h =
    Returns_elim IsValidContract (validate_contract yc)
      (unfold validate_contract in check_contract-IsValid (trimmed yc) yc) h

-- ===== src/Config.antt =====
-- internal/config/config.go, Load: the WAVEFRONT_* environment is parsed once and validated.
pub mod Bounds
mod Parsed
use wavefront.Base.{
  ℕ, zero, suc, ◌-◌, ℤ, pos, negsuc, within, String, Bool, true, false, not, ◌&&◌, ◌||◌, List, [],
  ◌∷◌, Option, none, some, Result, ok, err, ◌>>=◌, ◌>>◌, if◌then◌else◌, ◌==◌, ltb, eqb, fail_if,
}
use Prim.Native.Char.{code}
use Prim.Native.String
use Prim.Native.Nat.{◌*◌, ◌%◌, ◌^◌}
use wavefront.Base.Dict.{lookup, put}
use wavefront.Base.Text.{trim_space, split, atoi}
use wavefront.Server.Proxy as Proxy

-- What Load uses of net/url, net and strconv: the scheme and the host of a URL, the host and the
-- port of an address, a float64 with its comparisons `f <= 0` and `f > 1`, neither of which holds
-- of a NaN, and strings.ToLower.
pub record Parsers : Type 1 where
  pub Float : Type 0
  pub parse_url : String → Option (String × String)
  pub split_host_port : String → Option (String × String)
  pub parse_float : String → Option Float
  pub at_most_zero : Float → Bool
  pub above_one : Float → Bool
  pub default_ratio : Float
  pub to_lower : String → String

-- MissingError, and InvalidError with its variable and value.
pub data ConfigError : Type 0 where
  missing : String → ConfigError
  invalid : String → String → ConfigError

pub data LogLevel : Type 0 where
  debug info warn error : LogLevel

-- Config; what the proxy reads of it is the record of the proxy.
pub record Settings (F : Type 0) : Type 0 where
  pub served : Proxy.Config
  pub bundle_path : String
  pub listen_addr : String
  pub metrics_addr : String
  pub request_timeout : ℤ
  pub read_header_timeout : ℤ
  pub read_timeout : ℤ
  pub log_level : LogLevel
  pub traces_endpoint : String
  pub traces_service_name : String
  pub traces_sample_ratio : F

-- strings.Cut at a one-byte separator
unfoldable pub cut : ℕ → String → Option (String × String)
cut sep String.[] = none
cut sep (String.◌∷◌ c s) = if eqb (code c) sep then some ("", s) else push (cut sep s)
  where
    push : Option (String × String) → Option (String × String)
    push none = none
    push (some (a, b)) = some (String.◌∷◌ c a, b)

-- An int64 from its 64 bits.
signed : ℕ → ℤ
signed w = if ltb w (2 ^ 63) then pos w else negsuc (2 ^ 64 - w - 1)

-- time.Duration(ms) * time.Millisecond, for a positive_number ms: the product wraps around.
unfoldable pub milliseconds : ℕ → ℤ
unfolding signed
milliseconds ms = signed (ms * 1000000 % 2 ^ 64)

abbrev non_empty : String → Option String
non_empty v = if v == "" then none else some v

abbrev or_missing : String → Option String → Result ConfigError String
or_missing key none = err (missing key)
or_missing key (some v) = ok v

abbrev pub or_value : String → Option String → String
or_value default none = default
or_value default (some v) = v

abbrev is_positive : ℤ → Bool
is_positive (pos n) = ltb 0 n
is_positive (negsuc n) = false

abbrev pub is_set : Option String → Bool
is_set none = false
is_set (some v) = true

module _ (ps : Parsers) (get : String → Option String) where
  open ps use {
    Float, parse_url, split_host_port, parse_float, at_most_zero, above_one, default_ratio,
    to_lower,
  }

  abbrev trimmed_value : Option String → Option String
  trimmed_value none = none
  trimmed_value (some v) = non_empty (trim_space v)

  unfoldable pub non_blank : String → Option String
  non_blank key = trimmed_value (get key)

  unfoldable pub required : String → Result ConfigError String
  required key = or_missing key (non_blank key)

  unfoldable pub with_default : String → String → String
  with_default key default = or_value default (non_blank key)

  abbrev pub is_http : Option (String × String) → Bool
  is_http none = false
  is_http (some (scheme, host)) = (scheme == "http" || scheme == "https") && not (host == "")

  -- validateBaseURL, as a test
  unfoldable pub validate_base_url : String → Bool
  validate_base_url s = is_http (parse_url s)

  abbrev pub port_in_range : Option ℤ → Bool
  port_in_range none = false
  port_in_range (some n) = within 1 65535 n

  abbrev pub has_port : Option (String × String) → Bool
  has_port none = false
  has_port (some (host, port)) = port_in_range (atoi port)

  -- validateHostPort, as a test
  unfoldable pub validate_host_port : String → Bool
  validate_host_port s = has_port (split_host_port s)

  -- One pair of WAVEFRONT_TARGETS; `raw` is the whole value.
  unfoldable pub add_pair :
      String
      → Option (String × String)
      → List (String × String)
      → Result ConfigError (List (String × String))
  add_pair raw none targets = err (invalid "WAVEFRONT_TARGETS" raw)
  add_pair raw (some (n, u)) targets =
      let name = trim_space n in
      let url = trim_space u in
      do
        fail_if (name == "" || url == "") (invalid "WAVEFRONT_TARGETS" raw)
        fail_if (is_set (lookup ◌==◌ name targets)) (invalid "WAVEFRONT_TARGETS" raw)
        fail_if (not (validate_base_url url)) (invalid "WAVEFRONT_TARGETS" url)
        ok (put ◌==◌ name url targets)

  add_targets :
      String → List String → List (String × String) → Result ConfigError (List (String × String))
  add_targets raw [] targets = ok targets
  add_targets raw (pair ∷ pairs) targets = do
    targets' ← add_pair raw (cut b'=' (trim_space pair)) targets
    add_targets raw pairs targets'

  pub parse_targets : Option String → Result ConfigError (List (String × String))
  parse_targets none = ok []
  parse_targets (some raw) = add_targets raw (split b',' raw) []

  -- A setting that must pass a test.
  pub checked_setting : String → (String → Bool) → String → Result ConfigError String
  checked_setting key test v = do fail_if (not (test v)) (invalid key v); ok v

  abbrev parsed_int : String → String → Option ℤ → Result ConfigError ℤ
  parsed_int key v none = err (invalid key v)
  parsed_int key v (some n) = ok n

  -- parseIntVar, parseInt64Var
  parse_int_var : String → ℕ → Option String → Result ConfigError ℤ
  parse_int_var key default none = ok (pos default)
  parse_int_var key default (some v) = parsed_int key v (atoi v)

  -- The value of a positive_number number; the text of the refused number is left out.
  positive_number : String → ℤ → Result ConfigError ℕ
  positive_number key (pos zero) = err (invalid key "")
  positive_number key (pos (suc n)) = ok (suc n)
  positive_number key (negsuc n) = err (invalid key "")

  pub positive_var : String → ℕ → Result ConfigError ℕ
  unfolding parse_int_var
  positive_var key default = do n ← parse_int_var key default (non_blank key); positive_number key n

  -- parseLevel
  parse_level : String → Option LogLevel
  parse_level s =
      let v = to_lower (trim_space s) in
      if v == "debug"
      then some debug
      else if v == "info"
      then some info
      else if v == "warn"
      then some warn
      else if v == "error"
      then some error
      else none

  level_or : Option LogLevel → Result ConfigError LogLevel
  level_or none =
      err (invalid "WAVEFRONT_LOG_LEVEL" (or_value "" (non_blank "WAVEFRONT_LOG_LEVEL")))
  level_or (some l) = ok l

  pub check_endpoint : String → Result ConfigError String
  check_endpoint v = do
    fail_if (not (v == "") && not (validate_base_url v))
        (invalid "WAVEFRONT_TRACES_OTLP_ENDPOINT" v)
    ok v

  abbrev parsed_ratio : String → Option Float → Result ConfigError Float
  parsed_ratio v none = err (invalid "WAVEFRONT_TRACES_SAMPLE_RATIO" v)
  parsed_ratio v (some f) = ok f

  -- parseFloatVar
  parse_float_var : Option String → Result ConfigError Float
  parse_float_var none = ok default_ratio
  parse_float_var (some v) = parsed_ratio v (parse_float v)

  pub check_ratio : Float → Result ConfigError Float
  check_ratio f = do
    fail_if (at_most_zero f || above_one f) (invalid "WAVEFRONT_TRACES_SAMPLE_RATIO" "")
    ok f

  -- config.Load
  unfoldable pub load_settings : Result ConfigError (Settings Float)
  unfolding add_targets parse_targets checked_setting positive_var positive_number parse_level
      level_or check_endpoint parse_float_var check_ratio
  load_settings = do
    bundle_path ← required "WAVEFRONT_BUNDLE_PATH"
    upstream ← required "WAVEFRONT_UPSTREAM_BASE_URL"
    upstream_base_url ← checked_setting "WAVEFRONT_UPSTREAM_BASE_URL" validate_base_url upstream
    targets ← parse_targets (non_blank "WAVEFRONT_TARGETS")
    listen_addr ←
        checked_setting "WAVEFRONT_LISTEN_ADDR" validate_host_port
          (with_default "WAVEFRONT_LISTEN_ADDR" "0.0.0.0:8080")
    metrics_addr ←
        checked_setting "WAVEFRONT_METRICS_ADDR" validate_host_port
          (with_default "WAVEFRONT_METRICS_ADDR" "0.0.0.0:9090")
    timeout ← positive_var "WAVEFRONT_REQUEST_TIMEOUT_MS" 15000
    read_header ← positive_var "WAVEFRONT_READ_HEADER_TIMEOUT_MS" 10000
    read ← positive_var "WAVEFRONT_READ_TIMEOUT_MS" 30000
    max_body ← positive_var "WAVEFRONT_MAX_BODY_BYTES" 1048576
    level ← level_or (parse_level (with_default "WAVEFRONT_LOG_LEVEL" "info"))
    endpoint ← check_endpoint (with_default "WAVEFRONT_TRACES_OTLP_ENDPOINT" "")
    parsed ← parse_float_var (non_blank "WAVEFRONT_TRACES_SAMPLE_RATIO")
    ratio ← check_ratio parsed
    ok (record {
      served = record {
        contract_version_header =
            with_default "WAVEFRONT_CONTRACT_VERSION_HEADER" "X-Api-Contract-Version";
        profile_header = with_default "WAVEFRONT_PROFILE_HEADER" "X-Wavefront-Profile";
        tenant_header = with_default "WAVEFRONT_TENANT_HEADER" "X-Wavefront-Tenant";
        cohort_header = with_default "WAVEFRONT_COHORT_HEADER" "X-Wavefront-Cohort";
        max_body_bytes = pos max_body;
        upstream_base_url = upstream_base_url;
        targets = targets;
      };
      bundle_path = bundle_path;
      listen_addr = listen_addr;
      metrics_addr = metrics_addr;
      request_timeout = milliseconds timeout;
      read_header_timeout = milliseconds read_header;
      read_timeout = milliseconds read;
      log_level = level;
      traces_endpoint = endpoint;
      traces_service_name = with_default "WAVEFRONT_TRACES_SERVICE_NAME" "";
      traces_sample_ratio = ratio;
    })

  -- OpsAddr
  unfoldable pub ops_addr : String
  ops_addr = with_default "WAVEFRONT_METRICS_ADDR" "0.0.0.0:9090"

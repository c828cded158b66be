-- ===== src/Config/Bounds.antt =====
-- internal/config/config.go, Load: the range of every setting that it lets pass.
use wavefront.Base.{
  ℕ, pos, refl, ◌≤◌, ◌<◌, String, ◌≡◌, Bool, Option, Result, ok, ◌>>=◌, All, arith, Returns,
  Returns->>=, Returns_elim, Returns-then,
}
use Prim.Native.Nat.{◌^◌}
use wavefront.Config.{
  Parsers, ConfigError, Settings, validate_base_url, validate_host_port, checked_setting,
  positive_var, parse_targets, required, non_blank, with_default, check_endpoint, check_ratio,
  parse_float_var, level_or, parse_level, load_settings, ops_addr, LogLevel,
}
use wavefront.Config.Parsed.{
  IsBaseUrl, IsHostPort, IsRatio, validate_base_url-IsBaseUrl, validate_host_port-IsHostPort,
  IsTimeout, IsPositive, timeout_of, IsTarget, Holds, IsEndpoint, check_ratio-valid,
  checked_setting-Returns, positive_var-IsPositive, parse_targets-IsTarget, check_endpoint-valid,
}

module _ (ps : Parsers) (get : String → Option String) where
  open ps use {Float}

  -- What holds of every configuration that Load returns.
  pub record IsBounded (s : Settings Float) : Type 0 where
    pub upstream : IsBaseUrl ps get s.served.upstream_base_url
    pub targets : All (IsTarget ps get) s.served.targets
    pub listen : IsHostPort ps get s.listen_addr
    pub metrics : IsHostPort ps get s.metrics_addr × (s.metrics_addr ≡ ops_addr ps get)
    pub request : IsTimeout s.request_timeout
    pub read_header : IsTimeout s.read_header_timeout
    pub read : IsTimeout s.read_timeout
    pub body : (n : ℕ) × (s.served.max_body_bytes ≡ pos n) × (1 ≤ n) × (n < 2 ^ 63)
    pub endpoint : IsEndpoint ps get s.traces_endpoint
    pub ratio : IsRatio ps get s.traces_sample_ratio

  -- Steps of Load that end in a bounded configuration.
  abbrev Loaded : Type 0
  Loaded = Result ConfigError (Settings Float)

  then_checked :
      (f : String → Loaded) (key : String) (test : String → Bool) (v : String)
      → ((w : String) → Holds ps get test v w → Returns IsBounded (f w))
      → Returns IsBounded (checked_setting ps get key test v >>= f)
  then_checked f key test v k =
      Returns->>= (Holds ps get test v) IsBounded (checked_setting ps get key test v) f
        (checked_setting-Returns ps get key test v) k

  then_positive :
      (f : ℕ → Loaded) (key : String) (default : ℕ)
      → default < 2 ^ 63
      → ((n : ℕ) → IsPositive n → Returns IsBounded (f n))
      → Returns IsBounded (positive_var ps get key default >>= f)
  then_positive f key default h k =
      Returns->>= IsPositive IsBounded (positive_var ps get key default) f
        (positive_var-IsPositive ps get key default h) k

  then_numbers :
      (f : ℕ → ℕ → ℕ → ℕ → Loaded)
      → ((a b c d : ℕ)
          → IsPositive a
          → IsPositive b
          → IsPositive c
          → IsPositive d
          → Returns IsBounded (f a b c d))
      → Returns IsBounded (do
        a ← positive_var ps get "WAVEFRONT_REQUEST_TIMEOUT_MS" 15000
        b ← positive_var ps get "WAVEFRONT_READ_HEADER_TIMEOUT_MS" 10000
        c ← positive_var ps get "WAVEFRONT_READ_TIMEOUT_MS" 30000
        d ← positive_var ps get "WAVEFRONT_MAX_BODY_BYTES" 1048576
        f a b c d)
  then_numbers f k = then_positive _ "WAVEFRONT_REQUEST_TIMEOUT_MS" 15000 (omega arith) (λ a p.
      then_positive _ "WAVEFRONT_READ_HEADER_TIMEOUT_MS" 10000 (omega arith) (λ b q.
        then_positive _ "WAVEFRONT_READ_TIMEOUT_MS" 30000 (omega arith) (λ c r.
          then_positive _ "WAVEFRONT_MAX_BODY_BYTES" 1048576 (omega arith)
            (λ d s. k a b c d p q r s))))

  then_traced :
      (f : LogLevel → String → Float → Loaded)
      → ((level : LogLevel) (endpoint : String) (ratio : Float)
          → IsEndpoint ps get endpoint
          → IsRatio ps get ratio
          → Returns IsBounded (f level endpoint ratio))
      → Returns IsBounded (do
        level ←
            level_or ps get (parse_level ps get (with_default ps get "WAVEFRONT_LOG_LEVEL" "info"))
        endpoint ← check_endpoint ps get (with_default ps get "WAVEFRONT_TRACES_OTLP_ENDPOINT" "")
        parsed ← parse_float_var ps get (non_blank ps get "WAVEFRONT_TRACES_SAMPLE_RATIO")
        ratio ← check_ratio ps get parsed
        f level endpoint ratio)
  then_traced f k =
      let url = with_default ps get "WAVEFRONT_TRACES_OTLP_ENDPOINT" "" in
      let written = non_blank ps get "WAVEFRONT_TRACES_SAMPLE_RATIO" in
      let level_text = with_default ps get "WAVEFRONT_LOG_LEVEL" "info" in
      Returns-then IsBounded (level_or ps get (parse_level ps get level_text)) _ (λ level.
        Returns->>= (IsEndpoint ps get) IsBounded (check_endpoint ps get url) _
          (check_endpoint-valid ps get url)
          (λ endpoint p. Returns-then IsBounded (parse_float_var ps get written) _ (λ parsed.
            Returns->>= (IsRatio ps get) IsBounded (check_ratio ps get parsed) _
              (check_ratio-valid ps get parsed) (λ ratio r. k level endpoint ratio p r))))

  -- Whatever the environment is, in a configuration that Load returns the upstream and all named
  -- targets have http or https URLs with a host, the names of the targets are not empty, both
  -- listeners have ports from 1 to 65535, and the ops address is the one that OpsAddr gives. The
  -- body limit is from 1 to the largest int64. Each timeout is the int64 product of a positive
  -- number of milliseconds and 1000000, which is exact up to 9223372036854 milliseconds and wraps
  -- around beyond. The endpoint is empty or such a URL, and the ratio passed both comparisons.
  pub load_settings-IsBounded : (s : Settings Float) → load_settings ps get ≡ ok s → IsBounded s
  unfolding load_settings ops_addr
  load_settings-IsBounded s e =
      let value = with_default ps get in
      let address = validate_host_port ps get in
      let named = non_blank ps get "WAVEFRONT_TARGETS" in
      Returns_elim IsBounded (load_settings ps get)
        (Returns-then IsBounded (required ps get "WAVEFRONT_BUNDLE_PATH") _ (λ path.
          Returns-then IsBounded (required ps get "WAVEFRONT_UPSTREAM_BASE_URL") _ (λ up.
            then_checked _ "WAVEFRONT_UPSTREAM_BASE_URL" (validate_base_url ps get) up (λ _ (_, u).
              Returns->>= (All (IsTarget ps get)) IsBounded (parse_targets ps get named) _
                (parse_targets-IsTarget ps get named)
                (λ _ t.
                  then_checked _ "WAVEFRONT_LISTEN_ADDR" address
                    (value "WAVEFRONT_LISTEN_ADDR" "0.0.0.0:8080")
                    (λ _ (_, l).
                      then_checked _ "WAVEFRONT_METRICS_ADDR" address
                        (value "WAVEFRONT_METRICS_ADDR" "0.0.0.0:9090")
                        (λ _ (o, m). then_numbers _ (λ a b c d p q r n. then_traced _ (λ _ _ _ e f.
                          record {
                            upstream = validate_base_url-IsBaseUrl ps get _ u;
                            targets = t;
                            listen = validate_host_port-IsHostPort ps get _ l;
                            metrics = (validate_host_port-IsHostPort ps get _ m, o);
                            request = timeout_of a p;
                            read_header = timeout_of b q;
                            read = timeout_of c r;
                            body = (d, refl, n.0, n.1);
                            endpoint = e;
                            ratio = f;
                          })))))))))
        e

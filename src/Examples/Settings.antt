-- ===== src/Examples/Settings.antt =====
-- config.Load at a concrete environment.
use wavefront.Base.{
  ℕ, pos, String, refl, [], ◌∷◌, Option, none, some, if◌then◌else◌, ◌==◌, eqb, ltb,
}
use wavefront.Base.Text.{trim_space, split, atoi}
use wavefront.Base.Dict.{lookup, put}
use wavefront.Config.{
  Parsers, Settings, load_settings, non_blank, required, with_default, validate_base_url,
  validate_host_port, add_pair, cut, milliseconds, info,
}
use wavefront.Config.Bounds.{IsBounded, load_settings-IsBounded}

abbrev parsers : Parsers
parsers = record {
  Float = ℕ;
  parse_url = λ s. some ("http", s);
  split_host_port = λ s. some ("0.0.0.0", "8080");
  parse_float = λ s. none;
  at_most_zero = λ f. eqb f 0;
  above_one = λ f. ltb 1 f;
  default_ratio = 1;
  to_lower = λ s. s;
}

abbrev environment : String → Option String
environment key =
    if key == "WAVEFRONT_BUNDLE_PATH"
    then some "/bundle"
    else if key == "WAVEFRONT_UPSTREAM_BASE_URL"
    then some " http://up "
    else if key == "WAVEFRONT_TARGETS"
    then some "canary=http://canary"
    else none

abbrev settings : Settings ℕ
settings = record {
  served = record {
    contract_version_header = "X-Api-Contract-Version";
    profile_header = "X-Wavefront-Profile";
    tenant_header = "X-Wavefront-Tenant";
    cohort_header = "X-Wavefront-Cohort";
    max_body_bytes = pos 1048576;
    upstream_base_url = "http://up";
    targets = ("canary", "http://canary") ∷ [];
  };
  bundle_path = "/bundle";
  listen_addr = "0.0.0.0:8080";
  metrics_addr = "0.0.0.0:9090";
  request_timeout = pos 15000000000;
  read_header_timeout = pos 10000000000;
  read_timeout = pos 30000000000;
  log_level = info;
  traces_endpoint = "";
  traces_service_name = "";
  traces_sample_ratio = 1;
}

load_settings-IsBounded_example : IsBounded parsers environment settings
unfolding load_settings non_blank required with_default validate_base_url validate_host_port
    add_pair cut milliseconds trim_space split atoi lookup put
load_settings-IsBounded_example = load_settings-IsBounded parsers environment settings refl

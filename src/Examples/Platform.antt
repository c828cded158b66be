-- ===== src/Examples/Platform.antt =====
-- A platform, a bundle and a request for concrete runs: two messages, one of them without a field,
-- and one contract whose request transform renames "n" to "m".
use wavefront.Base.{
  ℕ, pos, String, true, false, List, [], ◌∷◌, Option, none, some, if◌then◌else◌, ◌==◌, any,
}
use wavefront.Json.{Bytes}
use wavefront.Bundle.{Bundle, Contract, Resolved}
use wavefront.Bundle.Ops.{Descriptors}
use wavefront.Headers.{Header}
use wavefront.Runtime.{Runtime, Protobuf}
use wavefront.Transform.Apply.{rename}
use wavefront.Transform.Apply.Coverage.{key}
use wavefront.Server.Request.{Request, complete}
use wavefront.Server.Proxy.{Config, UpstreamRequest}
use wavefront.Server.Handle.{Outcome, answered}
use wavefront.Examples.Codec.{codec}

abbrev known : List String → String → Option String
known names name = if any (λ n. n == name) names then some name else none

abbrev pub descriptors : Descriptors
descriptors = record {
  Message = String;
  Field = String;
  find_message = known ("Pay" ∷ "Empty" ∷ []);
  by_name = λ md. known (if md == "Pay" then "n" ∷ "groups" ∷ [] else "id" ∷ []);
  by_json_name = λ md name. none;
  is_list = λ f. f == "groups";
  sub_message = λ f. if f == "groups" then some "Group" else none;
}

abbrev pub protobuf : Protobuf descriptors
protobuf = record {
  Dynamic = Bytes;
  field_count = λ md. if md == "Empty" then 0 else 2;
  unmarshal = λ md body. some body;
  marshal = λ msg. some msg;
  unmarshal_json = λ md body. some body;
  marshal_json = λ msg. some msg;
}

abbrev pub runtime : Runtime
runtime = record {
  codec = codec;
  descriptors = descriptors;
  protobuf = protobuf;
  canonical_key = λ k. k;
  parse_media_type = λ v. some v;
  equal_fold = λ a b. a == b;
  status_text = λ n. "status";
  itoa = λ n. "n";
  text_of = λ body. "text";
  marshal_strings = λ a b. [];
  can_request = λ method url. true;
  http_error = λ h text status. record { status = status; header = h; body = [] };
}

abbrev pub config : Config
config = record {
  contract_version_header = "X-Contract-Version";
  profile_header = "X-Profile";
  tenant_header = "X-Tenant";
  cohort_header = "X-Cohort";
  max_body_bytes = pos 10;
  upstream_base_url = "http://up/";
  targets = [];
}

abbrev pub contract_of : String → String → Contract ℕ
contract_of version transform_target = record {
  contract_version = version;
  route = "/pay";
  method = "POST";
  request_message = "Pay";
  response_message = "Pay";
  request_ops = rename (key "n" ∷ []) (key "m" ∷ []) ∷ [];
  response_ops = [];
  target = "";
  transform_target = transform_target;
  error_messages = [];
  error_response_ops = [];
  strict = false;
}

abbrev pub contract : Contract ℕ
contract = contract_of "v1" ""

abbrev pub resolved : Resolved ℕ
resolved = record { contract = contract; chain = contract ∷ [] }

abbrev pub bundle : Bundle ℕ
bundle = record {
  contracts = resolved ∷ [];
  by_version = ("v1", resolved ∷ []) ∷ [];
  selector_variants = [];
}

abbrev pub client_headers : Header
client_headers =
    ("Content-Type", "application/protobuf" ∷ [])
    ∷ ("X-Contract-Version", " v1" ∷ [])
    ∷ ("Connection", "close, X-Private" ∷ [])
    ∷ ("X-Private", "1" ∷ [])
    ∷ ("Accept", "a" ∷ "b" ∷ [])
    ∷ []

abbrev pub request : Request
request = record {
  method = "POST";
  path = "/pay";
  raw_query = "";
  header = client_headers;
  content_length = pos 1;
  transfer_encoding = [];
  read_body = λ limit. complete (7 ∷ []);
}

abbrev pub upstream_headers : Header
upstream_headers = ("Vary", "Origin" ∷ []) ∷ ("X-Wavefront-Error", "forged" ∷ []) ∷ []

abbrev pub upstream : UpstreamRequest → Outcome
upstream ureq = answered 503 upstream_headers (1 ∷ [])

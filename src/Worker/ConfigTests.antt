-- ===== src/Worker/ConfigTests.antt =====
-- A worker that is started from its environment alone.
use orbitplus.Common.{
  String, ◌≡◌, ◌⊎◌, refl, Bool, false, Option, none, some, List, [], ◌∷◌, str_eq, if◌then◌else◌,
  pos,
}
use orbitplus.Common.Text.{trim_left, trim_right, is_space, trim_space, is_blank}
use orbitplus.Common.Pieces.{split, width, byte_count}
use orbitplus.Worker.Errors.{ok, err, other}
use orbitplus.Worker.Handle.{validate_config, all_positive}
use orbitplus.Worker.Config.{filled, apply_default, apply_overrides, apply_rate_limit}
use orbitplus.Worker.Settings.{
  set_positive_int, set_positive_duration, set_retry_delays, set_tcp_port, is_port, choose_secret,
  load_secret, cache_at, apply_cache,
}
use orbitplus.Worker.Endpoints.{
  ParsedUrl, validate_environment, allows_insecure_endpoints, is_rejected, check_scheme, check_url,
  validate_endpoint_url, is_label_character, has_label_characters, starts_with_dash, ends_with_dash,
  is_label, are_labels, valid_health_api_host, validate_health_api,
}
use orbitplus.Worker.Runtime.{
  RuntimeConfig, Environment, default_runtime_config, parse_bool, tls_of, rabbit_mq_tls,
  rabbit_mq_port, without_slash, rabbit_mq_vhost, url_with_host, build_rabbit_mq_url, require,
  first_of, rabbit_mq_checks, remaining_checks, validate_runtime, string_or, load_username,
  apply_strings, apply_secrets, apply_worker, apply_limits, apply_environment, load_runtime_config,
}
use orbitplus.Worker.Runtime.Secure.{IsSecure, load_runtime_config-IsSecure}

abbrev get : String → List (String × String) → Option String
get name [] = none
get name ((n, value) ∷ rest) = if str_eq n name then some value else get name rest

abbrev variables : List (String × String)
variables =
    ("RABBITMQ_HOST", "mq")
    ∷ ("RABBITMQ_TLS", "true")
    ∷ ("RABBITMQ_QUEUE", "q")
    ∷ ("RABBITMQ_EXCHANGE", "x")
    ∷ ("RABBITMQ_ROUTING_KEY", "k")
    ∷ ("ORBIT_URL", "https")
    ∷ ("ORBIT_NAMESPACE_CODE", "n")
    ∷ ("ORBIT_ACCESS_TOKEN", "t")
    ∷ ("ORBITPLUS_URL", "https")
    ∷ []

-- An address is its scheme.
abbrev environment : Environment
environment = record {
  lookup = λ name. get name variables;
  read_file = λ path. err (other "no file");
  parsers = record { atoi = λ s. none; parse_duration = λ s. none };
  make_url = λ scheme host port path. scheme;
}

abbrev parse : String → Option ParsedUrl
parse raw = some (record {
  scheme = raw;
  user = false;
  host = "h";
  hostname = "h";
  raw_query = "";
  fragment = "";
})

abbrev no_ip : String → Bool
no_ip host = false

abbrev loaded_config : RuntimeConfig
loaded_config = record default_runtime_config {
  rabbit_mq = record {
    url = "amqps";
    queue = "q";
    exchange = "x";
    routing_key = "k";
    prefetch = pos 10;
    username = "";
    password = "";
  };
  orbit = record { endpoint = "https"; namespace_code = "n"; access_token = "t" };
  orbit_plus = record { endpoint = "https"; bearer_token = "" };
}

load_runtime_config_runs :
    load_runtime_config environment parse no_ip default_runtime_config ≡ ok loaded_config
unfolding trim_left trim_right is_space trim_space is_blank split width byte_count validate_config
    all_positive filled apply_default apply_overrides apply_rate_limit set_positive_int
    set_positive_duration set_retry_delays set_tcp_port is_port choose_secret load_secret cache_at
    apply_cache validate_environment allows_insecure_endpoints is_rejected check_scheme check_url
    validate_endpoint_url is_label_character has_label_characters starts_with_dash ends_with_dash
    is_label are_labels valid_health_api_host validate_health_api parse_bool tls_of rabbit_mq_tls
    rabbit_mq_port without_slash rabbit_mq_vhost url_with_host build_rabbit_mq_url require first_of
    rabbit_mq_checks remaining_checks validate_runtime string_or load_username apply_strings
    apply_secrets apply_worker apply_limits apply_environment load_runtime_config
load_runtime_config_runs = refl

load_runtime_config-IsSecure_example :
    (validate_config loaded_config.worker ≡ none)
    × ((loaded_config.app_environment ≡ "development") ⊎ IsSecure parse loaded_config)
load_runtime_config-IsSecure_example =
    load_runtime_config-IsSecure parse no_ip environment default_runtime_config loaded_config
      load_runtime_config_runs

-- ===== src/Worker/Endpoints.antt =====
-- The rules for the addresses that the worker talks to and listens at
-- (orbitplusworker/internal/application/worker/config.go). url.Parse and net.ParseIP are parameters.
use Prim.Native.String.{◌++◌}
use Prim.Native.Char.{code}
use orbitplus.Common.{
  ℕ, String, Bool, true, false, Option, none, some, List, [], ◌∷◌, ℤ, ◌&&◌, ◌||◌, not, leb, ◌==◌,
  str_eq, if◌then◌else◌,
}
use orbitplus.Common.Text.{is_empty, is_blank, trim_space}
use orbitplus.Common.Pieces.{split, byte_count}
use orbitplus.Worker.Errors.{GoError, other, invalid_config}
use orbitplus.Worker.Settings.{is_port}

-- AppEnvironment is its text.
unfoldable pub validate_environment : String → Option GoError
validate_environment environment =
    if str_eq environment "development" || str_eq environment "production"
    then none
    else some (invalid_config "APP_ENV must be development or production")

unfoldable pub allows_insecure_endpoints : String → Bool
allows_insecure_endpoints environment = str_eq environment "development"

-- What the rules read of a *url.URL; `user` tells whether there is user information.
pub record ParsedUrl : Type 0 where
  pub scheme : String
  pub user : Bool
  pub host : String
  pub hostname : String
  pub raw_query : String
  pub fragment : String

-- What a kind of endpoint asks for.
pub record EndpointRule : Type 0 where
  pub endpoint_name : String
  pub secure_scheme : String
  pub insecure_scheme : String
  pub require_hostname : Bool
  pub reject_query_and_fragment : Bool

unfoldable pub is_rejected : EndpointRule → ParsedUrl → Bool
is_rejected rule u =
    is_empty u.host
    || u.user
    || (rule.require_hostname && is_empty u.hostname)
    || (rule.reject_query_and_fragment && (not (is_empty u.raw_query) || not (is_empty u.fragment)))

unfoldable pub check_scheme : EndpointRule → String → ParsedUrl → Option GoError
check_scheme rule environment u =
    if str_eq u.scheme rule.secure_scheme
      || (allows_insecure_endpoints environment && str_eq u.scheme rule.insecure_scheme)
    then none
    else if allows_insecure_endpoints environment
    then some (
        other (
          rule.endpoint_name ++ " must use " ++ rule.secure_scheme ++ " or "
          ++ rule.insecure_scheme))
    else some (other (rule.endpoint_name ++ " must use " ++ rule.secure_scheme))

unfoldable pub check_url : EndpointRule → String → Option ParsedUrl → Option GoError
check_url rule environment none =
    some (other (rule.endpoint_name ++ " must be a valid endpoint without user information"))
check_url rule environment (some u) =
    if is_rejected rule u
    then some (other (rule.endpoint_name ++ " must be a valid endpoint without user information"))
    else check_scheme rule environment u

abbrev pub first_error : Option GoError → Option GoError → Option GoError
first_error none e = e
first_error (some d) e = some d

-- validateEndpointURL
unfoldable pub validate_endpoint_url :
    (String → Option ParsedUrl) → EndpointRule → String → String → Option GoError
validate_endpoint_url parse rule raw environment =
    first_error (validate_environment environment) (check_url rule environment (parse raw))

abbrev pub rabbit_mq_rule : EndpointRule
rabbit_mq_rule = record {
  endpoint_name = "RabbitMQ endpoint";
  secure_scheme = "amqps";
  insecure_scheme = "amqp";
  require_hostname = false;
  reject_query_and_fragment = false;
}

abbrev pub bits_rule : EndpointRule
bits_rule = record {
  endpoint_name = "Bits base URL";
  secure_scheme = "https";
  insecure_scheme = "http";
  require_hostname = true;
  reject_query_and_fragment = true;
}

abbrev pub orbit_plus_rule : EndpointRule
orbit_plus_rule = record {
  endpoint_name = "OrbitPlus endpoint";
  secure_scheme = "https";
  insecure_scheme = "http";
  require_hostname = false;
  reject_query_and_fragment = false;
}

abbrev pub orbit_rule : EndpointRule
orbit_rule = record {
  endpoint_name = "Orbit endpoint";
  secure_scheme = "https";
  insecure_scheme = "http";
  require_hostname = true;
  reject_query_and_fragment = true;
}

-- A letter, a digit or "-"
unfoldable pub is_label_character : ℕ → Bool
is_label_character c =
    c == 45 || (leb 97 c && leb c 122) || (leb 65 c && leb c 90) || (leb 48 c && leb c 57)

unfoldable pub has_label_characters : String → Bool
unfolding is_label_character
has_label_characters String.[] = true
has_label_characters (String.◌∷◌ c s) = is_label_character (code c) && has_label_characters s

-- 45 is "-".
unfoldable pub starts_with_dash : String → Bool
starts_with_dash String.[] = false
starts_with_dash (String.◌∷◌ c s) = code c == 45

unfoldable pub ends_with_dash : String → Bool
ends_with_dash String.[] = false
ends_with_dash (String.◌∷◌ c s) = if is_empty s then code c == 45 else ends_with_dash s

unfoldable pub is_label : String → Bool
is_label label =
    not (is_empty label)
    && leb (byte_count label) 63
    && not (starts_with_dash label)
    && not (ends_with_dash label)
    && has_label_characters label

unfoldable pub are_labels : List String → Bool
are_labels [] = true
are_labels (label ∷ labels) = is_label label && are_labels labels

-- validHealthAPIHost; 46 is ".".
unfoldable pub valid_health_api_host : (String → Bool) → String → Bool
valid_health_api_host is_ip host =
    is_ip host || (leb (byte_count host) 253 && are_labels (split 46 host))

pub record HealthApiConfig : Type 0 where
  pub host : String
  pub port : ℤ

-- HealthAPIConfig.Validate
unfoldable pub validate_health_api : (String → Bool) → HealthApiConfig → Option GoError
validate_health_api is_ip config =
    if is_blank config.host
      || not (str_eq (trim_space config.host) config.host)
      || not (valid_health_api_host is_ip config.host)
    then some (other "health API host must be a valid IP address or hostname")
    else if is_port config.port
    then none
    else some (other "health API port must be between 1 and 65535")

-- ===== src/Worker/Runtime.antt =====
-- The worker's run-time configuration: reading it over the defaults and checking it
-- (orbitplusworker/internal/application/worker/config.go). The settings file, the files of
-- certificates and `.env` are left out; what the environment holds is a function.
pub mod Secure
use Prim.Native.String.{◌++◌}
use Prim.Native.Char.{code}
use orbitplus.Common.{
  ℕ, String, Bool, true, false, Option, none, some, List, [], ◌∷◌, ℤ, pos, ◌&&◌, ◌||◌, not, ◌==◌,
  str_eq, if◌then◌else◌,
}
use orbitplus.Common.Int.{is_positive}
use orbitplus.Common.Text.{is_empty, is_blank, trim_space}
use orbitplus.Worker.Errors.{GoError, other, GoResult, ok, err, ◌>>=◌, ◌>>◌}
use orbitplus.Worker.RateLimit.{RateLimitPolicy}
use orbitplus.Worker.Handle.{WorkerConfig, validate_config}
use orbitplus.Worker.Config.{Parsers, filled, apply_rate_limit}
use orbitplus.Worker.Settings.{
  set_positive_int, set_positive_duration, set_retry_delays, set_tcp_port, port_or, load_secret,
  CacheConfig, apply_cache,
}
use orbitplus.Worker.Endpoints.{
  ParsedUrl, HealthApiConfig, validate_environment, validate_endpoint_url, validate_health_api,
  rabbit_mq_rule, orbit_plus_rule, orbit_rule, first_error,
}

pub record RabbitMqConfig : Type 0 where
  pub url : String
  pub queue : String
  pub exchange : String
  pub routing_key : String
  pub prefetch : ℤ
  pub username : String
  pub password : String

pub record OrbitConfig : Type 0 where
  pub endpoint : String
  pub namespace_code : String
  pub access_token : String

pub record OrbitPlusConfig : Type 0 where
  pub endpoint : String
  pub bearer_token : String

pub record RuntimeConfig : Type 0 where
  pub app_environment : String
  pub rabbit_mq : RabbitMqConfig
  pub bits_base_url : String
  pub orbit : OrbitConfig
  pub orbit_plus : OrbitPlusConfig
  pub worker : WorkerConfig
  pub health_api : HealthApiConfig
  pub http_timeout : ℤ
  pub orbit_plus_response_size : ℤ
  pub log_dir : String
  pub rate_limit : RateLimitPolicy
  pub cache : Option CacheConfig

-- DefaultRuntimeConfig; durations are in nanoseconds.
abbrev pub default_runtime_config : RuntimeConfig
default_runtime_config = record {
  app_environment = "production";
  rabbit_mq = record {
    url = "";
    queue = "";
    exchange = "";
    routing_key = "";
    prefetch = pos 10;
    username = "";
    password = "";
  };
  bits_base_url = "";
  orbit = record { endpoint = ""; namespace_code = ""; access_token = "" };
  orbit_plus = record { endpoint = ""; bearer_token = "" };
  worker = record {
    worker_concurrency = pos 10;
    max_attempts = pos 3;
    retry_delays = pos 2000000000 ∷ pos 5000000000 ∷ [];
  };
  health_api = record { host = "0.0.0.0"; port = pos 8080 };
  http_timeout = pos 15000000000;
  orbit_plus_response_size = pos 65536;
  log_dir = "logs";
  rate_limit = record { default = record { hits = pos 0; window = pos 0 }; overrides = [] };
  cache = none;
}

-- strconv.ParseBool
unfoldable pub parse_bool : String → Option Bool
parse_bool s =
    if str_eq s "1"
      || str_eq s "t"
      || str_eq s "T"
      || str_eq s "true"
      || str_eq s "TRUE"
      || str_eq s "True"
    then some true
    else if str_eq s "0"
        || str_eq s "f"
        || str_eq s "F"
        || str_eq s "false"
        || str_eq s "FALSE"
        || str_eq s "False"
    then some false
    else none

unfoldable pub tls_of : Option Bool → GoResult Bool
tls_of none = err (other "RABBITMQ_TLS must be true or false")
tls_of (some b) = ok b

unfoldable pub rabbit_mq_tls : Option String → GoResult Bool
rabbit_mq_tls none = ok false
rabbit_mq_tls (some value) = tls_of (parse_bool (trim_space value))

unfoldable pub rabbit_mq_port : Parsers → Bool → Option String → GoResult ℤ
rabbit_mq_port p use_tls none = ok (if use_tls then pos 5671 else pos 5672)
rabbit_mq_port p use_tls (some value) =
    port_or (other "RABBITMQ_PORT must be an integer between 1 and 65535")
      (p.atoi (trim_space value))

-- strings.TrimPrefix(s, "/"); 47 is "/".
unfoldable pub without_slash : String → String
without_slash String.[] = String.[]
without_slash (String.◌∷◌ c s) = if code c == 47 then s else String.◌∷◌ c s

unfoldable pub rabbit_mq_vhost : Option String → String
rabbit_mq_vhost none = "/"
rabbit_mq_vhost (some value) = "/" ++ without_slash (trim_space value)

-- (url.URL{Scheme, Host: net.JoinHostPort(host, port), Path}).String()
abbrev pub MakeUrl : Type 0
MakeUrl = (scheme host : String) → (port : ℤ) → (path : String) → String

unfoldable pub url_with_host :
    Parsers → MakeUrl → (String → Option String) → Option String → GoResult String
url_with_host p make_url lookup none = err (other "RABBITMQ_HOST must be set")
url_with_host p make_url lookup (some host) =
    rabbit_mq_tls (filled (lookup "RABBITMQ_TLS")) >>= λ use_tls.
    rabbit_mq_port p use_tls (filled (lookup "RABBITMQ_PORT")) >>= λ port. ok (
      make_url (if use_tls then "amqps" else "amqp") (trim_space host) port
        (rabbit_mq_vhost (filled (lookup "RABBITMQ_VHOST"))))

-- buildRabbitMQURL
unfoldable pub build_rabbit_mq_url : Parsers → MakeUrl → (String → Option String) → GoResult String
build_rabbit_mq_url p make_url lookup =
    url_with_host p make_url lookup (filled (lookup "RABBITMQ_HOST"))

-- A check that failed, or none.
unfoldable pub require : Bool → String → Option GoError
require b m = if b then none else some (other m)

unfoldable pub first_of : List (Option GoError) → Option GoError
first_of [] = none
first_of (e ∷ rest) = first_error e (first_of rest)

unfoldable pub rabbit_mq_checks : RabbitMqConfig → List (Option GoError)
rabbit_mq_checks r =
    require
      (not (
        is_empty r.queue
        || is_empty r.exchange
        || is_empty r.routing_key
        || not (is_positive r.prefetch)))
      "RabbitMQ queue, exchange, routing key, and positive prefetch are required"
    ∷ require (if is_empty r.username then is_empty r.password else not (is_empty r.password))
        "RabbitMQ username and password must be configured together"
    ∷ []

unfoldable pub remaining_checks : RuntimeConfig → List (Option GoError)
remaining_checks c =
    require (not (is_blank c.orbit.namespace_code || is_blank c.orbit.access_token))
      "ORBIT_NAMESPACE_CODE and ORBIT_ACCESS_TOKEN are required"
    ∷ require (is_positive c.http_timeout && is_positive c.orbit_plus_response_size)
        "worker limits must be valid"
    ∷ []

-- RuntimeConfig.Validate
unfoldable pub validate_runtime :
    (String → Option ParsedUrl) → (String → Bool) → RuntimeConfig → Option GoError
validate_runtime parse is_ip c = first_of (
    validate_environment c.app_environment
    ∷ validate_config c.worker
    ∷ validate_health_api is_ip c.health_api
    ∷ validate_endpoint_url parse rabbit_mq_rule c.rabbit_mq.url c.app_environment
    ∷ first_of (rabbit_mq_checks c.rabbit_mq)
    ∷ validate_endpoint_url parse orbit_plus_rule c.orbit_plus.endpoint c.app_environment
    ∷ validate_endpoint_url parse orbit_rule c.orbit.endpoint c.app_environment
    ∷ first_of (remaining_checks c)
    ∷ [])

unfoldable pub string_or : String → Option String → String
string_or target none = target
string_or target (some value) = if is_empty value then target else value

-- What applyEnvironment uses of the process.
pub record Environment : Type 0 where
  pub lookup : String → Option String
  pub read_file : String → GoResult String
  pub parsers : Parsers
  pub make_url : MakeUrl

module _ (env : Environment) where
  -- setString
  abbrev set_string : String → String → String
  set_string name target = string_or target (env.lookup name)

  abbrev secret : String → String → String → GoResult String
  secret name file_name target = load_secret env.read_file env.lookup name file_name target

  unfoldable pub load_username : String → GoResult String
  load_username target = secret "RABBITMQ_USERNAME" "RABBITMQ_USERNAME_FILE" target >>= λ name.
      let alias = secret "RABBITMQ_USER" "RABBITMQ_USER_FILE" name in
      if is_empty name then alias else ok name

  unfoldable pub apply_strings : String → RuntimeConfig → RuntimeConfig
  apply_strings url c = record c {
    app_environment = elim (env.lookup "APP_ENV") [ none ↦ c.app_environment | some e ↦ e ];
    rabbit_mq = record (c.rabbit_mq) {
      url = url;
      queue = set_string "RABBITMQ_QUEUE" c.rabbit_mq.queue;
      exchange = set_string "RABBITMQ_EXCHANGE" c.rabbit_mq.exchange;
      routing_key = set_string "RABBITMQ_ROUTING_KEY" c.rabbit_mq.routing_key;
    };
    bits_base_url = set_string "BITS_BASE_URL" c.bits_base_url;
    orbit = record (c.orbit) {
      endpoint = set_string "ORBIT_URL" c.orbit.endpoint;
      namespace_code = set_string "ORBIT_NAMESPACE_CODE" c.orbit.namespace_code;
    };
    orbit_plus = record (c.orbit_plus) {
      endpoint = set_string "ORBITPLUS_URL" c.orbit_plus.endpoint;
    };
    health_api = record (c.health_api) { host = set_string "HEALTH_API_HOST" c.health_api.host };
    log_dir = set_string "LOG_DIR" c.log_dir;
  }

  unfoldable pub apply_secrets : RuntimeConfig → GoResult RuntimeConfig
  apply_secrets c = load_username c.rabbit_mq.username >>= λ username.
      secret "RABBITMQ_PASSWORD" "RABBITMQ_PASSWORD_FILE" c.rabbit_mq.password >>= λ password.
      secret "ORBITPLUS_BEARER_TOKEN" "ORBITPLUS_BEARER_TOKEN_FILE" c.orbit_plus.bearer_token
      >>= λ bearer_token.
          secret "ORBIT_ACCESS_TOKEN" "ORBIT_ACCESS_TOKEN_FILE" c.orbit.access_token
          >>= λ access_token. ok (record c {
            rabbit_mq = record (c.rabbit_mq) { username = username; password = password };
            orbit = record (c.orbit) { access_token = access_token };
            orbit_plus = record (c.orbit_plus) { bearer_token = bearer_token };
          })

  unfoldable pub apply_worker : WorkerConfig → GoResult WorkerConfig
  apply_worker w =
      set_positive_int env.parsers (env.lookup "WORKER_CONCURRENCY") "WORKER_CONCURRENCY"
        w.worker_concurrency
      >>= λ concurrency.
          set_positive_int env.parsers (env.lookup "WORKER_MAX_ATTEMPTS") "WORKER_MAX_ATTEMPTS"
            w.max_attempts
          >>= λ attempts.
              set_retry_delays env.parsers (env.lookup "WORKER_RETRY_DELAYS") "WORKER_RETRY_DELAYS"
                w.retry_delays
              >>= λ delays. ok (record {
                worker_concurrency = concurrency;
                max_attempts = attempts;
                retry_delays = delays;
              })

  -- The settings that come after the secrets and those of the worker.
  unfoldable pub apply_limits : RuntimeConfig → GoResult RuntimeConfig
  apply_limits c =
      set_positive_int env.parsers (env.lookup "RABBITMQ_PREFETCH") "RABBITMQ_PREFETCH"
        c.rabbit_mq.prefetch
      >>= λ prefetch.
          set_positive_duration env.parsers (env.lookup "WORKER_HTTP_TIMEOUT") "WORKER_HTTP_TIMEOUT"
            c.http_timeout
          >>= λ timeout. apply_rate_limit env.parsers env.lookup c.rate_limit >>= λ policy.
              apply_cache env.parsers env.lookup c.cache >>= λ cache. ok (record c {
                rabbit_mq = record (c.rabbit_mq) { prefetch = prefetch };
                http_timeout = timeout;
                rate_limit = policy;
                cache = cache;
              })

  -- applyEnvironment
  unfoldable pub apply_environment : RuntimeConfig → GoResult RuntimeConfig
  apply_environment config = build_rabbit_mq_url env.parsers env.make_url env.lookup >>= λ url.
      set_tcp_port env.parsers (env.lookup "HEALTH_API_PORT") "HEALTH_API_PORT"
        config.health_api.port
      >>= λ port. apply_secrets (apply_strings url config) >>= λ c.
          apply_worker c.worker >>= λ worker.
          apply_limits
            (record c { worker = worker; health_api = record (c.health_api) { port = port } })

  -- LoadRuntimeConfig, after the settings file
  unfoldable pub load_runtime_config :
      (String → Option ParsedUrl) → (String → Bool) → RuntimeConfig → GoResult RuntimeConfig
  load_runtime_config parse is_ip config =
      apply_environment config >>= λ c. validate_runtime parse is_ip c >> ok c

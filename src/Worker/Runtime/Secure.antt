-- ===== src/Worker/Runtime/Secure.antt =====
-- What the worker has checked before it starts
-- (orbitplusworker/internal/application/worker/config.go).
use orbitplus.Common.{
  String, ◌≡◌, refl, Bool, true, false, Option, none, some, List, ◌∷◌, ◌&&◌, ◌||◌, str_eq, eq_iff,
  ◌⊎◌, ap, if◌then◌else◌, Bool-cases, inl, inr,
}
use orbitplus.Worker.Errors.{GoError, GoResult, ok, err, ◌>>=◌, ◌>>◌}
use orbitplus.Worker.Handle.{validate_config}
use orbitplus.Worker.Endpoints.{
  ParsedUrl, EndpointRule, allows_insecure_endpoints, is_rejected, check_scheme, check_url,
  validate_endpoint_url, validate_environment, first_error, rabbit_mq_rule, orbit_plus_rule,
  orbit_rule,
}
use orbitplus.Worker.Runtime.{
  RuntimeConfig, Environment, first_of, validate_runtime, apply_environment, load_runtime_config,
}

-- The text is an address with this scheme.
abbrev pub HasScheme : String → Option ParsedUrl → Type 0
HasScheme scheme none = ⊥
HasScheme scheme (some u) = u.scheme ≡ scheme

first_of-none :
    (e : Option GoError) (rest : List (Option GoError))
    → first_of (e ∷ rest) ≡ none
    → (e ≡ none) × (first_of rest ≡ none)
unfolding first_of
first_of-none none rest h = (refl, h)
first_of-none (some d) rest h = absurd (cc h)

first_error-right : (d e : Option GoError) → first_error d e ≡ none → e ≡ none
first_error-right none e h = h
first_error-right (some d) e h = absurd (cc h)

accepted-if :
    (a b c : Bool) (d e : GoError)
    → b ≡ false
    → (if a || (b && c) then none else if b then some d else some e) ≡ none
    → a ≡ true
accepted-if true b c d e strict h = refl
accepted-if false true c d e strict h = absurd (cc strict)
accepted-if false false c d e strict h = absurd (cc h)

not_rejected-if :
    (b : Bool) (d : GoError) (e : Option GoError) → (if b then some d else e) ≡ none → e ≡ none
not_rejected-if true d e h = absurd (cc h)
not_rejected-if false d e h = h

check_url-HasScheme :
    (rule : EndpointRule) (environment : String) (r : Option ParsedUrl)
    → allows_insecure_endpoints environment ≡ false
    → check_url rule environment r ≡ none
    → HasScheme rule.secure_scheme r
unfolding check_url check_scheme
check_url-HasScheme rule environment none strict h = absurd (cc h)
check_url-HasScheme rule environment (some u) strict h = (eq_iff u.scheme rule.secure_scheme).0 (
    accepted-if (str_eq u.scheme rule.secure_scheme) (allows_insecure_endpoints environment)
      (str_eq u.scheme rule.insecure_scheme) _ _ strict
      (not_rejected-if (is_rejected rule u) _ _ h))

validate_endpoint_url-HasScheme :
    (parse : String → Option ParsedUrl) (rule : EndpointRule) (raw environment : String)
    → allows_insecure_endpoints environment ≡ false
    → validate_endpoint_url parse rule raw environment ≡ none
    → HasScheme rule.secure_scheme (parse raw)
unfolding validate_endpoint_url
validate_endpoint_url-HasScheme parse rule raw environment strict h =
    check_url-HasScheme rule environment (parse raw) strict
      (first_error-right (validate_environment environment) _ h)

-- The addresses have the secure schemes.
abbrev pub IsSecure : (String → Option ParsedUrl) → RuntimeConfig → Type 0
IsSecure parse c =
    HasScheme "amqps" (parse c.rabbit_mq.url)
    × HasScheme "https" (parse c.orbit_plus.endpoint)
    × HasScheme "https" (parse c.orbit.endpoint)

ok_inj : {a b : RuntimeConfig} → ok a ≡ ok b → a ≡ b
ok_inj {a} h = ap (λ r. elim r [ ok x ↦ x | err e ↦ a ]) h

module _ (parse : String → Option ParsedUrl) (is_ip : String → Bool) where
  checked :
      (d c : RuntimeConfig) (e : Option GoError)
      → e ≡ validate_runtime parse is_ip d
      → (e >> ok d) ≡ ok c
      → validate_runtime parse is_ip c ≡ none
  checked d c none e h = cc (ok_inj h, e)
  checked d c (some x) e h = absurd (cc h)

  loaded :
      (r : GoResult RuntimeConfig) (c : RuntimeConfig)
      → (r >>= λ d. validate_runtime parse is_ip d >> ok d) ≡ ok c
      → validate_runtime parse is_ip c ≡ none
  loaded (err e) c h = absurd (cc h)
  loaded (ok d) c h = checked d c (validate_runtime parse is_ip d) refl h

  validate_runtime-IsSecure :
      (c : RuntimeConfig)
      → validate_runtime parse is_ip c ≡ none
      → (validate_config c.worker ≡ none)
        × (allows_insecure_endpoints c.app_environment ≡ false → IsSecure parse c)
  unfolding validate_runtime
  validate_runtime-IsSecure c h =
      let (worker, h1) = first_of-none _ _ (first_of-none _ _ h).1 in
      let (rabbit_mq, h2) = first_of-none _ _ (first_of-none _ _ h1).1 in
      let (orbit_plus, h3) = first_of-none _ _ (first_of-none _ _ h2).1 in
      let (orbit, h4) = first_of-none _ _ h3 in
      (
        worker,
        λ strict. (
          validate_endpoint_url-HasScheme parse rabbit_mq_rule c.rabbit_mq.url c.app_environment
              strict rabbit_mq,
          validate_endpoint_url-HasScheme parse orbit_plus_rule c.orbit_plus.endpoint
              c.app_environment strict orbit_plus,
          validate_endpoint_url-HasScheme parse orbit_rule c.orbit.endpoint c.app_environment strict
              orbit,
        ),
      )

  -- A configuration that the worker has loaded passes the checks of its retry settings, and outside
  -- development RabbitMQ, OrbitPlus and Orbit are addressed by amqps and https.
  pub load_runtime_config-IsSecure :
      (env : Environment) (config c : RuntimeConfig)
      → load_runtime_config env parse is_ip config ≡ ok c
      → (validate_config c.worker ≡ none) × ((c.app_environment ≡ "development") ⊎ IsSecure parse c)
  unfolding load_runtime_config allows_insecure_endpoints
  load_runtime_config-IsSecure env config c h =
      let (worker, secure) =
        validate_runtime-IsSecure c (loaded (apply_environment env config) c h) in
      (
        worker,
        elim (Bool-cases (str_eq c.app_environment "development")) [
          | inl t ↦ inl ((eq_iff c.app_environment "development").0 t)
          | inr f ↦ inr (secure f)
        ],
      )

-- ===== src/Worker/Config.antt =====
-- What the worker reads from its environment
-- (orbitplusworker/internal/application/worker/config.go): quotas, delays, numbers, secrets and the
-- connection to Dragonfly. strconv.Atoi and time.ParseDuration are the record `Parsers`.
use orbitplus.Common.{String, Option, none, some, List, [], ◌∷◌, ℤ, pos, str_eq, if◌then◌else◌}
use orbitplus.Common.Int.{is_positive, le_int}
use orbitplus.Common.Text.{is_empty, is_blank, trim_space}
use orbitplus.Common.Pieces.{cut, cut_last, split}
use orbitplus.Worker.Errors.{GoError, other, wrap_error, GoResult, ok, err, ◌>>=◌}
use orbitplus.Worker.RateLimit.{RateLimit, RateLimitPolicy}

-- `none` where the function returns an error.
pub record Parsers : Type 0 where
  pub atoi : String → Option ℤ
  pub parse_duration : String → Option ℤ

-- time.Millisecond
abbrev pub millisecond : ℤ
millisecond = pos 1000000

abbrev pub Overrides : Type 0
Overrides = List (String × RateLimit)

-- overrides[zone] = limit
unfoldable pub put_override : String → RateLimit → Overrides → Overrides
put_override zone l [] = (zone, l) ∷ []
put_override zone l ((z, old) ∷ rest) =
    let others = put_override zone l rest in
    if str_eq z zone then (z, l) ∷ rest else (z, old) ∷ others

unfoldable pub window_of : ℤ → Option ℤ → GoResult RateLimit
window_of hits none = err (other "must have a window duration of at least 1ms, e.g. 10/1m")
window_of hits (some window) =
    if le_int millisecond window
    then ok (record { hits = hits; window = window })
    else err (other "must have a window duration of at least 1ms, e.g. 10/1m")

unfoldable pub hits_of : Option ℤ → Option ℤ → GoResult RateLimit
hits_of none window = err (other "must have a positive hit count, e.g. 10/1m")
hits_of (some hits) window =
    if is_positive hits
    then window_of hits window
    else err (other "must have a positive hit count, e.g. 10/1m")

-- A variable that is set and not blank.
unfoldable pub filled : Option String → Option String
filled none = none
filled (some value) = if is_blank value then none else some value

abbrev override_form : GoError
override_form =
    other "WORKER_BITS_RATE_LIMIT_OVERRIDES must be comma-separated zoneURL=hits/window pairs"

module _ (p : Parsers) where
  unfoldable pub parse_cut : Option (String × String) → GoResult RateLimit
  parse_cut none = err (other "must be in hits/window form, e.g. 10/1m")
  parse_cut (some (hits, window)) =
      hits_of (p.atoi (trim_space hits)) (p.parse_duration (trim_space window))

  -- parseRateLimit; 47 is "/".
  unfoldable pub parse_rate_limit : String → GoResult RateLimit
  parse_rate_limit value = parse_cut (cut 47 (trim_space value))

  -- The pair is cut at its last "=", which is neither its first nor its last character.
  unfoldable pub parse_pair : Option (String × String) → Overrides → GoResult Overrides
  parse_pair none overrides = err override_form
  parse_pair (some (zone, value)) overrides =
      if is_empty zone
      then err override_form
      else if is_empty value
      then err override_form
      else wrap_error "WORKER_BITS_RATE_LIMIT_OVERRIDES" (parse_rate_limit value) >>= λ l.
          ok (put_override (trim_space zone) l overrides)

  unfoldable pub parse_piece : String → Overrides → GoResult Overrides
  parse_piece pair overrides =
      if is_blank pair then ok overrides else parse_pair (cut_last 61 (trim_space pair)) overrides

  unfoldable pub parse_pieces : List String → Overrides → GoResult Overrides
  parse_pieces [] overrides = ok overrides
  parse_pieces (pair ∷ pairs) overrides = parse_piece pair overrides >>= λ o. parse_pieces pairs o

  -- parseRateLimitOverrides
  unfoldable pub parse_rate_limit_overrides : String → GoResult Overrides
  parse_rate_limit_overrides value = parse_pieces (split 44 value) []

  unfoldable pub apply_default : Option String → RateLimitPolicy → GoResult RateLimitPolicy
  apply_default none policy = ok policy
  apply_default (some value) policy =
      wrap_error "WORKER_BITS_RATE_LIMIT" (parse_rate_limit value) >>= λ l.
      ok (record policy { default = l })

  unfoldable pub apply_overrides : Option String → RateLimitPolicy → GoResult RateLimitPolicy
  apply_overrides none policy = ok policy
  apply_overrides (some value) policy =
      parse_rate_limit_overrides value >>= λ o. ok (record policy { overrides = o })

  -- applyRateLimit
  unfoldable pub apply_rate_limit :
      (String → Option String) → RateLimitPolicy → GoResult RateLimitPolicy
  apply_rate_limit lookup policy =
      apply_default (filled (lookup "WORKER_BITS_RATE_LIMIT")) policy >>= λ q.
      apply_overrides (filled (lookup "WORKER_BITS_RATE_LIMIT_OVERRIDES")) q

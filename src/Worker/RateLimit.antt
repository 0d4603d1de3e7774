-- ===== src/Worker/RateLimit.antt =====
-- The per-zone quota of BITS requests and the process-local limiter
-- (orbitplusworker/internal/application/worker/ratelimit.go). Times are readings of the monotonic
-- clock in nanoseconds; quotas and durations are signed, as in Go.
pub mod Quota
pub mod Retry
use orbitplus.Common.{
  ℕ, suc, ◌+◌, String, Bool, true, false, Option, none, some, List, [], ◌∷◌, ◌&&◌, ◌||◌, not,
  str_eq, if◌then◌else◌, ℤ, pos,
}
use orbitplus.Common.Int.{le_int, is_positive, sub_ℕ, ◌+ℤ◌, ◌-ℤ◌}

pub record RateLimit : Type 0 where
  pub hits : ℤ
  pub window : ℤ

unfoldable pub enabled : RateLimit → Bool
enabled l = is_positive l.hits && is_positive l.window

pub record RateLimitPolicy : Type 0 where
  pub default : RateLimit
  pub overrides : List (String × RateLimit)

unfoldable pub find_override : String → List (String × RateLimit) → Option RateLimit
find_override zone [] = none
find_override zone ((z, l) ∷ rest) = if str_eq z zone then some l else find_override zone rest

unfoldable pub limit : RateLimitPolicy → String → RateLimit
unfolding find_override
limit p zone = elim (find_override zone p.overrides) [ some l ↦ l | none ↦ p.default ]

any_enabled : List (String × RateLimit) → Bool
any_enabled [] = false
any_enabled ((z, l) ∷ rest) = enabled l || any_enabled rest

unfoldable pub policy_enabled : RateLimitPolicy → Bool
unfolding any_enabled
policy_enabled p = enabled p.default || any_enabled p.overrides

pub record InMemoryWindow : Type 0 where
  pub start : ℕ
  pub count : ℕ

-- limiter.windows, as a function of the zone
abbrev pub Windows : Type 0
Windows = String → Option InMemoryWindow

unfoldable pub put_window : String → InMemoryWindow → Windows → Windows
put_window zone w ws z = if str_eq zone z then some w else ws z

-- What `Acquire` returns: `allowed` and `retryAfter`.
pub data Verdict : Type 0 where
  allowed : Verdict
  blocked : ℤ → Verdict

abbrev pub is_allowed : Verdict → Bool
is_allowed allowed = true
is_allowed (blocked d) = false

fresh_window : ℕ → String → Windows → Verdict × Windows
fresh_window now zone ws = (allowed, put_window zone (record { start = now; count = 1 }) ws)

acquire_in : RateLimit → ℕ → String → Option InMemoryWindow → Windows → Verdict × Windows
unfolding fresh_window
acquire_in l now zone none ws = fresh_window now zone ws
acquire_in l now zone (some w) ws =
    if le_int l.window (sub_ℕ now w.start)
    then fresh_window now zone ws
    else if le_int l.hits (pos w.count)
    then (blocked (pos w.start +ℤ l.window -ℤ pos now), ws)
    else (allowed, put_window zone (record w { count = w.count + 1 }) ws)

-- InMemoryZoneRateLimiter.Acquire at the time `now`.
unfoldable pub acquire : RateLimitPolicy → ℕ → String → Windows → Verdict × Windows
unfolding acquire_in
acquire p now zone ws =
    let l = limit p zone in if enabled l then acquire_in l now zone (ws zone) ws else (allowed, ws)

-- AllowAllRateLimiter.Acquire
unfoldable pub allow_all : String → Verdict
allow_all zone = allowed

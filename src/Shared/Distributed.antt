-- ===== src/Shared/Distributed.antt =====
-- The worker's distributed limiter
-- (orbitplusworker/internal/infrastructure/dragonfly/rate_limiter.go).
use Prim.Native.String.{◌++◌ as join}
use orbitplus.Common.{◌*◌, String, Option, none, some, List, [], ◌∷◌, ℤ, pos, negsuc, if◌then◌else◌}
use orbitplus.Common.Int.{le_int}
use orbitplus.Worker.Errors.{other}
use orbitplus.Worker.Deps.{AcquireReply, granted, over_quota, failed}
use orbitplus.Worker.RateLimit.{RateLimit, enabled, RateLimitPolicy, limit}
use orbitplus.Shared.{Dragonfly, is_one, milliseconds}

abbrev pub rate_limit_key_prefix : String
rate_limit_key_prefix = "bits:ratelimit:zone:"

-- A duration of this many milliseconds, 0 for a negative number.
unfoldable pub retry_after_millis : ℤ → ℤ
retry_after_millis (pos n) = pos (n * 1000000)
retry_after_millis (negsuc n) = pos 0

unfoldable pub read_reply : RateLimit → Option (List ℤ) → AcquireReply
read_reply l none = failed (other "evaluate zone rate-limit window")
read_reply l (some (count ∷ remaining ∷ [])) =
    if le_int count l.hits then granted else over_quota (retry_after_millis remaining)
read_reply l (some _) = failed (other "unexpected zone rate-limit reply length")

module _ {S : Type 0} (d : Dragonfly S) where
  -- rateLimitScript
  unfoldable pub rate_limit_script : String → ℤ → S → List ℤ × S
  rate_limit_script key window s =
      let (count, s') = d.incr key s in
      if is_one count
      then (count ∷ window ∷ [], d.pexpire key window s')
      else (count ∷ d.pttl key s' ∷ [], s')

  unfoldable pub run_script : String → ℤ → S → Option (List ℤ) × S
  run_script key window s =
      let (r, s') = rate_limit_script key window s in
      if d.reachable s then (if d.answers s then some r else none, s') else (none, s)

  unfoldable pub acquire_enabled : RateLimit → String → S → AcquireReply × S
  acquire_enabled l zone s =
      let (r, s') = run_script (join rate_limit_key_prefix zone) (milliseconds l.window) s in
      (read_reply l r, s')

  -- Acquire with the limit of the zone.
  unfoldable pub acquire_at : RateLimit → String → S → AcquireReply × S
  acquire_at l zone s = if enabled l then acquire_enabled l zone s else (granted, s)

  -- ZoneRateLimiter.Acquire
  unfoldable pub acquire_distributed : RateLimitPolicy → String → S → AcquireReply × S
  acquire_distributed p zone s = acquire_at (limit p zone) zone s

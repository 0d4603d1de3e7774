-- ===== src/Shared/Live.antt =====
-- The master's limiter of live reads, and its policy
-- (orbitplus/internal/infrastructure/dragonfly/rate_limiter.go and
-- orbitplus/internal/application/master/rate_limit.go).
use Prim.Native.String.{◌++◌ as join}
use orbitplus.Common.{
  ◌*◌, String, Bool, false, Option, none, some, List, [], ◌∷◌, ℤ, pos, negsuc, ◌&&◌, ◌||◌, str_eq,
  if◌then◌else◌,
}
use orbitplus.Common.Int.{le_int, is_positive}
use orbitplus.Master.Live.Verifier.{LimiterReply, admitted, limited, limiter_failed}
use orbitplus.Shared.{Dragonfly, is_one, milliseconds}

pub record LiveRateLimit : Type 0 where
  pub hits : ℤ
  pub window : ℤ

unfoldable pub live_enabled : LiveRateLimit → Bool
live_enabled l = is_positive l.hits && is_positive l.window

pub record LiveRateLimitPolicy : Type 0 where
  pub default : LiveRateLimit
  pub overrides : List (String × LiveRateLimit)

-- policy.Overrides[zone], the default for a missing key
unfoldable pub override_or_default :
    LiveRateLimit → String → List (String × LiveRateLimit) → LiveRateLimit
override_or_default default zone [] = default
override_or_default default zone ((z, l) ∷ overrides) =
    if str_eq z zone then l else override_or_default default zone overrides

unfoldable pub live_limit : LiveRateLimitPolicy → String → LiveRateLimit
live_limit p zone = override_or_default p.default zone p.overrides

unfoldable pub any_live_enabled : List (String × LiveRateLimit) → Bool
any_live_enabled [] = false
any_live_enabled ((z, l) ∷ overrides) = live_enabled l || any_live_enabled overrides

-- RateLimitPolicy.Enabled
unfoldable pub live_policy_enabled : LiveRateLimitPolicy → Bool
live_policy_enabled p = live_enabled p.default || any_live_enabled p.overrides

abbrev pub live_key_prefix : String
live_key_prefix = "bits:ratelimit:zone:"

unfoldable pub live_retry_after : ℤ → ℤ
live_retry_after (pos n) = pos (n * 1000000)
live_retry_after (negsuc n) = pos 0

unfoldable pub read_live_reply : LiveRateLimit → Option (List ℤ) → LimiterReply
read_live_reply l none = limiter_failed
read_live_reply l (some (count ∷ remaining ∷ [])) =
    if le_int count l.hits then admitted else limited (live_retry_after remaining)
read_live_reply l (some _) = limiter_failed

module _ {S : Type 0} (d : Dragonfly S) where
  -- rateLimitScript
  unfoldable pub live_script : String → ℤ → S → List ℤ × S
  live_script key window s =
      let (count, s') = d.incr key s in
      if is_one count
      then (count ∷ window ∷ [], d.pexpire key window s')
      else (count ∷ d.pttl key s' ∷ [], s')

  unfoldable pub run_live_script : String → ℤ → S → Option (List ℤ) × S
  run_live_script key window s =
      let (r, s') = live_script key window s in
      if d.reachable s then (if d.answers s then some r else none, s') else (none, s)

  -- Acquire with the limit of the zone.
  unfoldable pub acquire_live_at : LiveRateLimit → String → S → LimiterReply × S
  acquire_live_at l zone s =
      let (r, s') = run_live_script (join live_key_prefix zone) (milliseconds l.window) s in
      if live_enabled l then (read_live_reply l r, s') else (admitted, s)

  -- ZoneRateLimiter.Acquire
  unfoldable pub acquire_live : LiveRateLimitPolicy → String → S → LimiterReply × S
  acquire_live p zone s = acquire_live_at (live_limit p zone) zone s

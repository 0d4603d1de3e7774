-- ===== src/Shared/Equal.antt =====
-- The two limiters agree (orbitplusworker/internal/infrastructure/dragonfly/rate_limiter.go and
-- orbitplus/internal/infrastructure/dragonfly/rate_limiter.go).
use orbitplus.Common.{
  String, ◌≡◌, refl, ap, ◌∙◌, Option, none, some, List, [], ◌∷◌, ℤ, pos, negsuc, str_eq, Bool-cases,
  inl, inr,
}
use orbitplus.Common.Int.{le_int}
use orbitplus.Worker.Deps.{AcquireReply, granted, over_quota, failed}
use orbitplus.Worker.RateLimit.{RateLimit, enabled, RateLimitPolicy, limit, find_override}
use orbitplus.Master.Live.Verifier.{LimiterReply, admitted, limited, limiter_failed}
use orbitplus.Shared.{Dragonfly}
use orbitplus.Shared.Distributed.{
  retry_after_millis, read_reply, rate_limit_script, run_script, acquire_enabled, acquire_at,
  acquire_distributed,
}
use orbitplus.Shared.Live.{
  LiveRateLimit, live_enabled, LiveRateLimitPolicy, override_or_default, live_limit,
  live_retry_after, read_live_reply, live_script, run_live_script, acquire_live_at, acquire_live,
}

-- The same limit, policy and reply on the master's side.
abbrev live_of_limit : RateLimit → LiveRateLimit
live_of_limit l = record { hits = l.hits; window = l.window }

abbrev live_of_overrides : List (String × RateLimit) → List (String × LiveRateLimit)
live_of_overrides [] = []
live_of_overrides ((z, l) ∷ rest) = (z, live_of_limit l) ∷ live_of_overrides rest

abbrev pub live_of_policy : RateLimitPolicy → LiveRateLimitPolicy
live_of_policy p = record {
  default = live_of_limit p.default;
  overrides = live_of_overrides p.overrides;
}

abbrev pub live_of_reply : AcquireReply → LimiterReply
live_of_reply granted = admitted
live_of_reply (over_quota d) = limited d
live_of_reply (failed e) = limiter_failed

override-live :
    (default : RateLimit) (zone : String) (overrides : List (String × RateLimit))
    → override_or_default (live_of_limit default) zone (live_of_overrides overrides)
      ≡ live_of_limit (elim (find_override zone overrides) [ some l ↦ l | none ↦ default ])
unfolding override_or_default find_override
override-live default zone [] = refl
override-live default zone ((z, l) ∷ overrides) = elim (Bool-cases (str_eq z zone)) [
  | inl t ↦ rw t refl
  | inr f ↦ rw f (override-live default zone overrides)
]

limit-live :
    (p : RateLimitPolicy) (zone : String)
    → live_limit (live_of_policy p) zone ≡ live_of_limit (limit p zone)
unfolding live_limit limit
limit-live p zone = override-live p.default zone p.overrides

retry_after-live : (n : ℤ) → live_retry_after n ≡ retry_after_millis n
unfolding live_retry_after retry_after_millis
retry_after-live (pos n) = refl
retry_after-live (negsuc n) = refl

read_reply-live :
    (l : RateLimit) (r : Option (List ℤ))
    → read_live_reply (live_of_limit l) r ≡ live_of_reply (read_reply l r)
unfolding read_live_reply read_reply
read_reply-live l none = refl
read_reply-live l (some []) = refl
read_reply-live l (some (count ∷ [])) = refl
read_reply-live l (some (count ∷ remaining ∷ [])) = elim (Bool-cases (le_int count l.hits)) [
  | inl t ↦ rw t refl
  | inr f ↦ rw f (ap limited (retry_after-live remaining))
]
read_reply-live l (some (count ∷ remaining ∷ x ∷ xs)) = refl

module _ {S : Type 0} (d : Dragonfly S) where
  script-live :
      (key : String) (window : ℤ) (s : S)
      → run_live_script d key window s ≡ run_script d key window s
  unfolding run_live_script run_script live_script rate_limit_script
  script-live key window s = refl

  acquire_at-live :
      (l : RateLimit) (zone : String) (s : S)
      → acquire_live_at d (live_of_limit l) zone s
        ≡ (live_of_reply (acquire_at d l zone s).0, (acquire_at d l zone s).1)
  unfolding acquire_live_at acquire_at acquire_enabled live_enabled enabled run_live_script
      run_script live_script rate_limit_script
  acquire_at-live l zone s = elim (Bool-cases (enabled l)) [
    | inr f ↦ rw f refl
    | inl t ↦ rw (t, read_reply-live l) refl
  ]

  -- For the same policy, the master's limiter answers what the worker's does, and it leaves the
  -- server in the same state.
  pub acquire_live-distributed :
      (p : RateLimitPolicy) (zone : String) (s : S)
      → acquire_live d (live_of_policy p) zone s
        ≡ (live_of_reply (acquire_distributed d p zone s).0, (acquire_distributed d p zone s).1)
  unfolding acquire_live acquire_distributed
  acquire_live-distributed p zone s =
      ap (λ l. acquire_live_at d l zone s) (limit-live p zone)
      ∙ acquire_at-live (limit p zone) zone s

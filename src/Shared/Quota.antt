-- ===== src/Shared/Quota.antt =====
-- How many requests of one zone the worker and the master are granted together
-- (orbitplusworker/internal/infrastructure/dragonfly/rate_limiter.go and
-- orbitplus/internal/infrastructure/dragonfly/rate_limiter.go).
use Prim.Native.String.{◌++◌ as join}
use text.Mathlib.TextLemmas.{append_cancel_left}
use orbitplus.Common.{
  ℕ, suc, ◌+◌, ◌-◌, min, String, ◌≡◌, refl, ap, ◌∙◌, Bool, true, false, ◌&&◌, some, List, [], ◌∷◌,
  ℤ, pos, negsuc, str_eq, eq_iff, if◌then◌else◌, Bool-cases, inl, inr, arith,
}
use orbitplus.Common.Int.{le_int, pos_part}
use orbitplus.Worker.Deps.{AcquireReply, granted, over_quota, failed}
use orbitplus.Worker.RateLimit.{RateLimit, enabled, RateLimitPolicy, limit}
use orbitplus.Master.Live.Verifier.{LimiterReply, admitted, limited, limiter_failed}
use orbitplus.Shared.{Dragonfly, is_one, milliseconds}
use orbitplus.Shared.Distributed.{
  rate_limit_key_prefix, read_reply, rate_limit_script, run_script, acquire_enabled, acquire_at,
  acquire_distributed,
}
use orbitplus.Shared.Live.{acquire_live}
use orbitplus.Shared.Equal.{live_of_policy, live_of_reply, acquire_live-distributed}

-- Who asks.
pub data Client : Type 0 where
  worker : Client
  master : Client

pub record SharedCall : Type 0 where
  pub client : Client
  pub zone : String

abbrev is_granted : AcquireReply → Bool
is_granted granted = true
is_granted (over_quota d) = false
is_granted (failed e) = false

abbrev is_admitted : LimiterReply → Bool
is_admitted admitted = true
is_admitted (limited d) = false
is_admitted limiter_failed = false

abbrev pub key : String → String
key zone = join rate_limit_key_prefix zone

key_other : (z zone : String) → str_eq z zone ≡ false → str_eq (key z) (key zone) ≡ false
key_other z zone h = elim (Bool-cases (str_eq (key z) (key zone))) [
  | inr f ↦ f
  | inl t ↦ absurd (cc ((eq_iff z zone).1 (same t), h))
]
  where
    same : str_eq (key z) (key zone) ≡ true → z ≡ zone
    same t = append_cancel_left rate_limit_key_prefix z zone ((eq_iff (key z) (key zone)).0 t)

-- How many of the calls are for `zone`.
pub zone_calls : String → List SharedCall → ℕ
zone_calls zone [] = 0
zone_calls zone (c ∷ cs) = (if str_eq c.zone zone then 1 else 0) + zone_calls zone cs

is_admitted-live : (r : AcquireReply) → is_admitted (live_of_reply r) ≡ is_granted r
is_admitted-live granted = refl
is_admitted-live (over_quota x) = refl
is_admitted-live (failed e) = refl

is_granted-if : (b : Bool) (x : ℤ) → is_granted (if b then granted else over_quota x) ≡ b
is_granted-if true x = refl
is_granted-if false x = refl

-- One more call uses up one more of the quota, while there is some left.
min-suc :
    (h : ℤ) (n rest : ℕ)
    → (if le_int (pos (suc n)) h then 1 else 0) + min (pos_part h - suc n) rest
      ≡ min (pos_part h - n) (1 + rest)
min-suc (pos m) n rest = ground arith
min-suc (negsuc m) n rest = ground arith

module _ {S : Type 0} (d : Dragonfly S) where
  -- While no counter expires and the server answers, INCR counts under its key, and PEXPIRE counts
  -- nothing.
  pub record IsCounting (count : String → S → ℕ) : Type 0 where
    pub reachable : (s : S) → d.reachable s ≡ true
    pub answers : (s : S) → d.answers s ≡ true
    pub incr_reply : (k : String) (s : S) → (d.incr k s).0 ≡ pos (suc (count k s))
    pub incr_count : (k : String) (s : S) → count k (d.incr k s).1 ≡ suc (count k s)
    pub incr_other :
        (j k : String) (s : S) → str_eq j k ≡ false → count k (d.incr j s).1 ≡ count k s
    pub pexpire_count :
        (j k : String) (window : ℤ) (s : S) → count k (d.pexpire j window s) ≡ count k s

  -- One call: whether it is granted, and the server after it.
  pub acquire_by : RateLimitPolicy → SharedCall → S → Bool × S
  acquire_by p c s = elim c.client [
    | worker ↦
        (is_granted (acquire_distributed d p c.zone s).0, (acquire_distributed d p c.zone s).1)
    | master ↦ (
      is_admitted (acquire_live d (live_of_policy p) c.zone s).0,
      (acquire_live d (live_of_policy p) c.zone s).1,
    )
  ]

  -- How many calls for `zone` are granted when the calls are made in this order.
  pub granted_calls : RateLimitPolicy → String → List SharedCall → S → ℕ
  unfolding acquire_by
  granted_calls p zone [] s = 0
  granted_calls p zone (c ∷ cs) s =
      (if str_eq c.zone zone && (acquire_by p c s).0 then 1 else 0)
      + granted_calls p zone cs (acquire_by p c s).1

  -- It makes no difference who asks.
  acquire_by-distributed :
      (p : RateLimitPolicy) (c : SharedCall) (s : S)
      → acquire_by p c s
        ≡ (is_granted (acquire_distributed d p c.zone s).0, (acquire_distributed d p c.zone s).1)
  unfolding acquire_by
  acquire_by-distributed p c s = go c.client
    where
      go :
          (k : Client)
          → acquire_by p (record { client = k; zone = c.zone }) s ≡ (
            is_granted (acquire_distributed d p c.zone s).0,
            (acquire_distributed d p c.zone s).1,
          )
      go worker = refl
      go master =
          rw
            (
              acquire_live-distributed d p c.zone s,
              is_admitted-live (acquire_distributed d p c.zone s).0,
            )
            refl

  module _ (count : String → S → ℕ) (counting : IsCounting count) where
    script-count :
        (j k : String) (window : ℤ) (s : S)
        → count k (rate_limit_script d j window s).1 ≡ count k (d.incr j s).1
    unfolding rate_limit_script
    script-count j k window s = elim (Bool-cases (is_one (d.incr j s).0)) [
      | inl t ↦ rw t (counting.pexpire_count j k window (d.incr j s).1)
      | inr f ↦ rw f refl
    ]

    run_script-count :
        (j k : String) (window : ℤ) (s : S)
        → count k (run_script d j window s).1 ≡ count k (d.incr j s).1
    unfolding run_script
    run_script-count j k window s = rw (counting.reachable s) (script-count j k window s)

    acquire_at-count :
        (l : RateLimit) (zone k : String) (s : S)
        → enabled l ≡ true
        → count k (acquire_at d l zone s).1 ≡ count k (d.incr (key zone) s).1
    unfolding acquire_at acquire_enabled
    acquire_at-count l zone k s on = rw on (run_script-count (key zone) k _ s)

    script-reply :
        (l : RateLimit) (j : String) (window : ℤ) (s : S)
        → is_granted (read_reply l (some (rate_limit_script d j window s).0))
          ≡ le_int (pos (suc (count j s))) l.hits
    unfolding rate_limit_script read_reply
    script-reply l j window s = elim (Bool-cases (is_one (d.incr j s).0)) [
      | inl t ↦
          rw (t, counting.incr_reply j s) (is_granted-if (le_int (pos (suc (count j s))) l.hits) _)
      | inr f ↦
          rw (f, counting.incr_reply j s) (is_granted-if (le_int (pos (suc (count j s))) l.hits) _)
    ]

    acquire_at-granted :
        (l : RateLimit) (zone : String) (s : S)
        → enabled l ≡ true
        → is_granted (acquire_at d l zone s).0 ≡ le_int (pos (suc (count (key zone) s))) l.hits
    unfolding acquire_at acquire_enabled run_script
    acquire_at-granted l zone s on =
        rw (on, counting.reachable s, counting.answers s)
          (script-reply l (key zone) (milliseconds l.window) s)

    acquire_distributed-other :
        (p : RateLimitPolicy) (z zone : String) (s : S)
        → str_eq z zone ≡ false
        → count (key zone) (acquire_distributed d p z s).1 ≡ count (key zone) s
    unfolding acquire_distributed acquire_at
    acquire_distributed-other p z zone s h = elim (Bool-cases (enabled (limit p z))) [
      | inr f ↦ rw f refl
      | inl t ↦
          acquire_at-count (limit p z) z (key zone) s t
          ∙ counting.incr_other (key z) (key zone) s (key_other z zone h)
    ]

    acquire_distributed-count :
        (p : RateLimitPolicy) (zone : String) (s : S)
        → enabled (limit p zone) ≡ true
        → count (key zone) (acquire_distributed d p zone s).1 ≡ suc (count (key zone) s)
    unfolding acquire_distributed
    acquire_distributed-count p zone s on =
        acquire_at-count (limit p zone) zone (key zone) s on ∙ counting.incr_count (key zone) s

    acquire_distributed-granted :
        (p : RateLimitPolicy) (zone : String) (s : S)
        → enabled (limit p zone) ≡ true
        → is_granted (acquire_distributed d p zone s).0
          ≡ le_int (pos (suc (count (key zone) s))) (limit p zone).hits
    unfolding acquire_distributed
    acquire_distributed-granted p zone s on = acquire_at-granted (limit p zone) zone s on

    acquire_by-other :
        (p : RateLimitPolicy) (c : SharedCall) (zone : String) (s : S)
        → str_eq c.zone zone ≡ false
        → count (key zone) (acquire_by p c s).1 ≡ count (key zone) s
    acquire_by-other p c zone s h =
        ap (λ r. count (key zone) r.1) (acquire_by-distributed p c s)
        ∙ acquire_distributed-other p c.zone zone s h

    -- A call for the zone, whoever makes it.
    acquire_by-same :
        (p : RateLimitPolicy) (c : SharedCall) (zone : String) (s : S)
        → str_eq c.zone zone ≡ true
        → acquire_by p c s
          ≡ (is_granted (acquire_distributed d p zone s).0, (acquire_distributed d p zone s).1)
    acquire_by-same p c zone s h =
        acquire_by-distributed p c s
        ∙ ap (λ z. (is_granted (acquire_distributed d p z s).0, (acquire_distributed d p z s).1))
            ((eq_iff c.zone zone).0 h)

    -- When the zone has an enabled quota, the server answers and no counter expires, then of the
    -- calls for the zone that worker and master make, in whatever order, with calls for other zones in
    -- between, exactly as many are granted as were left of the quota, or all when they are fewer.
    pub granted_calls-min :
        (p : RateLimitPolicy) (zone : String) (cs : List SharedCall) (s : S)
        → enabled (limit p zone) ≡ true
        → granted_calls p zone cs s
          ≡ min (pos_part (limit p zone).hits - count (key zone) s) (zone_calls zone cs)
    unfolding granted_calls zone_calls
    granted_calls-min p zone [] s on = omega arith
    granted_calls-min p zone (c ∷ cs) s on = elim (Bool-cases (str_eq c.zone zone)) [
      | inr f ↦
          rw (f, granted_calls-min p zone cs (acquire_by p c s).1 on)
            (rw (acquire_by-other p c zone s f) (omega arith))
      | inl t ↦
          rw (t, granted_calls-min p zone cs (acquire_by p c s).1 on)
            (rw
              (
                acquire_by-same p c zone s t,
                acquire_distributed-count p zone s on,
                acquire_distributed-granted p zone s on,
              )
              (min-suc (limit p zone).hits (count (key zone) s) (zone_calls zone cs)))
    ]

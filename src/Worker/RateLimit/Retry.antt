-- ===== src/Worker/RateLimit/Retry.antt =====
-- What a refusal of the process-local limiter tells
-- (orbitplusworker/internal/application/worker/ratelimit.go, Acquire).
use orbitplus.Common.{ℕ, ◌+◌, ◌≤◌, String, ◌≡◌, ◌↔◌, inl, inr, true, ℤ, some, arith, Option-cases}
use orbitplus.Common.Int.{pos_part, is_positive}
use orbitplus.Worker.RateLimit.{
  RateLimitPolicy, limit, enabled, InMemoryWindow, Windows, blocked, is_allowed, acquire,
}

module _ (p : RateLimitPolicy) (now : ℕ) (z : String) (ws : Windows) (delay : ℤ)
    (refused : (acquire p now z ws).0 ≡ blocked delay) where
  -- The window that is full, and how the delay comes from it.
  record IsFull : Type 0 where
    open_window : InMemoryWindow
    found : ws z ≡ some open_window
    on : enabled (limit p z) ≡ true
    full : pos_part (limit p z).hits ≤ open_window.count
    ends : open_window.start + pos_part (limit p z).window ≡ now + pos_part delay

  acquire-IsFull : IsFull
  unfolding acquire enabled
  acquire-IsFull = elim (Option-cases (ws z)) [
    | inl e ↦ absurd (ground (arith, e))
    | inr (w, e) ↦ record {
      open_window = w;
      found = e;
      on = ground (arith, e);
      full = ground (arith, e);
      ends = ground (arith, e);
    }
  ]

  pub acquire-blocked_positive : is_positive delay ≡ true
  unfolding acquire
  acquire-blocked_positive = ground arith

  pub acquire-blocked_unchanged : (acquire p now z ws).1 ≡ ws
  unfolding acquire
  acquire-blocked_unchanged = elim (Option-cases (ws z)) [
    | inl e ↦ absurd (ground (arith, e))
    | inr (w, e) ↦ ground (arith, e)
  ]

  -- From the refusal on, with no other call in between, the zone is refused until the time that the
  -- refusal names, and admitted from then on.
  pub allowed-iff-retry_after :
      (t : ℕ) → now ≤ t → (is_allowed (acquire p t z ws).0 ≡ true) ↔ (now + pos_part delay ≤ t)
  unfolding acquire enabled
  allowed-iff-retry_after t le =
      let f = acquire-IsFull in
      (
        (λ h. ground (arith, f.found, f.on, f.full, f.ends)),
        (λ h. ground (arith, f.found, f.on, f.full, f.ends)),
      )

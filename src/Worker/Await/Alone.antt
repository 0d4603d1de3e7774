-- ===== src/Worker/Await/Alone.antt =====
-- A worker that is alone at its process-local limiter waits at most once for a slot
-- (awaitZoneRateLimit of orbitplusworker/internal/application/worker/worker.go over
-- InMemoryZoneRateLimiter of ratelimit.go).
use orbitplus.Common.{
  ℕ, suc, ◌+◌, ◌≤◌, String, ◌≡◌, ◌≢◌, refl, true, Option, none, some, ◌∷◌, arith, ℤ, ap, ◌∙◌,
}
use orbitplus.Common.Int.{pos_part, is_positive}
use orbitplus.Worker.Errors.{GoError}
use orbitplus.Worker.RateLimit.{
  RateLimitPolicy, Windows, Verdict, allowed, blocked, is_allowed, acquire,
}
use orbitplus.Worker.RateLimit.Retry.{
  acquire-blocked_positive, acquire-blocked_unchanged, allowed-iff-retry_after,
}
use orbitplus.Worker.Deps.{Deps, AcquireReply, granted, over_quota}
use orbitplus.Worker.Exec.{Run, done, exhausted, M, pure, on_error, acquired, waited}
use orbitplus.Worker.Await.{await_reply, await_zone_rate_limit}

abbrev pub reply : Verdict → AcquireReply
reply allowed = granted
reply (blocked delay) = over_quota delay

-- The world holds the limiter's windows and a clock. `Acquire` is that of the limiter, and a wait
-- that is not cancelled lasts at least as long as asked for, while nobody else uses the limiter.
pub record IsAlone {W : Type 0} (p : RateLimitPolicy) (d : Deps W) : Type 0 where
  pub clock : W → ℕ
  pub windows : W → Windows
  pub acquires :
      (z : String) (w : W) → (d.acquire z w).0 ≡ reply (acquire p (clock w) z (windows w)).0
  pub keeps_windows :
      (z : String) (w : W) → windows (d.acquire z w).1 ≡ (acquire p (clock w) z (windows w)).1
  pub keeps_time : (z : String) (w : W) → clock w ≤ clock (d.acquire z w).1
  pub lasts :
      (delay : ℤ) (w : W)
      → (d.wait delay w).0 ≡ none
      → clock w + pos_part delay ≤ clock (d.wait delay w).1
  pub waits_alone : (delay : ℤ) (w : W) → windows (d.wait delay w).1 ≡ windows w

done-ne-exhausted : {W A : Type 0} {a : A} {s : Run W} → done a s ≢ exhausted
done-ne-exhausted h = cc

is_allowed-eq : (v : Verdict) → is_allowed v ≡ true → v ≡ allowed
is_allowed-eq allowed h = refl
is_allowed-eq (blocked delay) h = cc

module _ {W : Type 0} (d : Deps W) where
  after_wait :
      (o : Option GoError) (rest : M W (Option GoError)) (s : Run W)
      → (o ≡ none → rest s ≢ exhausted)
      → on_error o (λ e. pure (some e)) rest s ≢ exhausted
  after_wait none rest s h = h refl
  after_wait (some e) rest s h = done-ne-exhausted

  after_granted :
      (rest : M W (Option GoError)) (r : AcquireReply) (s : Run W)
      → r ≡ granted
      → await_reply d rest r s ≢ exhausted
  unfolding await_reply
  after_granted rest r s e = rw e done-ne-exhausted

  slept : ℤ → Run W → Run W
  slept delay s = record {
    world = (d.wait delay s.world).1;
    trace = waited delay (d.wait delay s.world).0 ∷ s.trace;
  }

  after_refusal :
      (rest : M W (Option GoError)) (r : AcquireReply) (delay : ℤ) (s : Run W)
      → is_positive delay ≡ true
      → r ≡ over_quota delay
      → ((d.wait delay s.world).0 ≡ none → rest (slept delay s) ≢ exhausted)
      → await_reply d rest r s ≢ exhausted
  unfolding await_reply slept
  after_refusal rest r delay s positive e h =
      rw (e, positive) (after_wait (d.wait delay s.world).0 rest _ h)

module _ {W : Type 0} (p : RateLimitPolicy) (d : Deps W) (alone : IsAlone p d) (zone : String) where
  abbrev asked : Run W → Run W
  asked s = record {
    world = (d.acquire zone s.world).1;
    trace = acquired zone (d.acquire zone s.world).0 ∷ s.trace;
  }

  abbrev verdict : Run W → Verdict
  verdict s = (acquire p (alone.clock s.world) zone (alone.windows s.world)).0

  poll_allowed :
      (polls : ℕ) (s : Run W)
      → verdict s ≡ allowed
      → await_zone_rate_limit d (suc polls) zone s ≢ exhausted
  unfolding await_zone_rate_limit
  poll_allowed polls s h =
      after_granted d (await_zone_rate_limit d polls zone) (d.acquire zone s.world).0 (asked s)
        (alone.acquires zone s.world ∙ ap reply h)

  -- After the sleep that a refusal asks for, the limiter admits.
  verdict-slept :
      (delay : ℤ) (s : Run W)
      → verdict s ≡ blocked delay
      → (d.wait delay (asked s).world).0 ≡ none
      → verdict (slept d delay (asked s)) ≡ allowed
  unfolding slept
  verdict-slept delay s h e =
      let now = alone.clock s.world in
      let ws = alone.windows s.world in
      let w = (d.acquire zone s.world).1 in
      let same : alone.windows (d.wait delay w).1 ≡ ws =
        alone.waits_alone delay w
        ∙ alone.keeps_windows zone s.world
        ∙ acquire-blocked_unchanged p now zone ws delay h in
      let elapsed : now + pos_part delay ≤ alone.clock (d.wait delay w).1 =
        omega (arith, alone.lasts delay w e, alone.keeps_time zone s.world) in
      rw (same, verdict)
        (is_allowed-eq _ (
          (allowed-iff-retry_after p now zone ws delay h (alone.clock (d.wait delay w).1)
              (omega arith)).1
            elapsed))

  poll_blocked :
      (polls : ℕ) (delay : ℤ) (s : Run W)
      → verdict s ≡ blocked delay
      → await_zone_rate_limit d (suc (suc polls)) zone s ≢ exhausted
  unfolding await_zone_rate_limit
  poll_blocked polls delay s h =
      after_refusal d (await_zone_rate_limit d (suc polls) zone) (d.acquire zone s.world).0 delay
        (asked s)
        (acquire-blocked_positive p (alone.clock s.world) zone (alone.windows s.world) delay h)
        (alone.acquires zone s.world ∙ ap reply h)
        (λ e. poll_allowed polls (slept d delay (asked s)) (verdict-slept delay s h e))

  -- Two polls are enough for the wait for a zone, whatever the state of the limiter's windows: after
  -- a refusal the worker sleeps until the zone's window is over, and the next request is admitted,
  -- unless the sleep was cancelled.
  pub await-two_polls :
      (polls : ℕ) (s : Run W) → await_zone_rate_limit d (suc (suc polls)) zone s ≢ exhausted
  await-two_polls polls s = by_verdict (verdict s) refl
    where
      by_verdict :
          (v : Verdict)
          → verdict s ≡ v
          → await_zone_rate_limit d (suc (suc polls)) zone s ≢ exhausted
      by_verdict allowed e = poll_allowed (suc polls) s e
      by_verdict (blocked delay) e = poll_blocked polls delay s e

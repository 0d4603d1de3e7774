-- ===== src/Worker/Await.antt =====
-- Waiting for the zone's quota: awaitZoneRateLimit and waitForRetry of
-- orbitplusworker/internal/application/worker/worker.go. The `for` loop without end has a number of
-- polls for its fuel.
pub mod Alone
use orbitplus.Common.{ℕ, zero, suc, String, Option, none, some, ℤ, pos, if◌then◌else◌}
use orbitplus.Common.Int.{is_positive}
use orbitplus.Worker.Errors.{GoError}
use orbitplus.Worker.Deps.{Deps, AcquireReply, granted, over_quota, failed}
use orbitplus.Worker.Exec.{M, exhausted, pure, call, ◌>>=◌, on_error, acquired, waited}

-- rateLimitPollFallback, one second in nanoseconds
abbrev pub rate_limit_poll_fallback : ℤ
rate_limit_poll_fallback = pos 1000000000

module _ {W : Type 0} (d : Deps W) where
  unfoldable pub wait_for_retry : ℤ → M W (Option GoError)
  wait_for_retry delay = call (d.wait delay) (waited delay)

  -- `wait := retryAfter; if wait <= 0 { wait = rateLimitPollFallback }`
  abbrev pub poll_delay : ℤ → ℤ
  poll_delay retry_after = if is_positive retry_after then retry_after else rate_limit_poll_fallback

  -- One round of the loop after `Acquire`; `rest` is the next round.
  unfoldable pub await_reply : M W (Option GoError) → AcquireReply → M W (Option GoError)
  unfolding wait_for_retry
  await_reply rest (failed e) = pure none
  await_reply rest granted = pure none
  await_reply rest (over_quota retry_after) =
      wait_for_retry (poll_delay retry_after) >>= λ w. on_error w (λ e. pure (some e)) rest

  unfoldable pub await_zone_rate_limit : ℕ → String → M W (Option GoError)
  await_zone_rate_limit zero zone s = exhausted
  await_zone_rate_limit (suc polls) zone s =
      let rest = await_zone_rate_limit polls zone in
      ◌>>=◌ (call (d.acquire zone) (acquired zone)) (await_reply rest) s

-- ===== src/Worker/Trace/Gate.antt =====
-- BITS and the store of OrbitPlus are called only behind a passed health check of the same attempt
-- (orbitplusworker/internal/application/worker/worker.go, processOnce).
use orbitplus.Common.{ℕ, ◌≡◌, ◌≢◌, refl, Bool, true, false, none, some, List, [], ◌∷◌}
use mathlib.Core.Path.{subst}
use orbitplus.Common.Date.{Date}
use orbitplus.Worker.Errors.{GoResult}
use orbitplus.Worker.Message.{TripDetailsRefreshMessage}
use orbitplus.Worker.Deps.{Deps, Codec, OrbitPlusStatus, ExecutionResult}
use orbitplus.Worker.Exec.{Event, credential, health, fetched, pushed, Run, done, panicked}
use orbitplus.Worker.Handle.{WorkerConfig, validate_config, acknowledge, handle}
use orbitplus.Worker.Trace.{Post, Triple, Triple-weaken, start, Post-done}
use orbitplus.Worker.Trace.Work.{IsWork}
use orbitplus.Worker.Trace.Once.{IsOnce, process_once_lem}
use orbitplus.Worker.Trace.Finish.{acknowledge_lem, report_failure_lem}
use orbitplus.Worker.Trace.Loop.{IsLoop, handle_lem}

-- The last health check passed, and no attempt has begun since.
abbrev pub healthy_now : List Event → Bool
healthy_now [] = false
healthy_now (health none ∷ t) = true
healthy_now (health (some e) ∷ t) = false
healthy_now (credential o r ∷ t) = false
healthy_now (_ ∷ t) = healthy_now t

-- Every BITS request and every push was made while that was so.
abbrev pub IsGated : List Event → Type 0
IsGated [] = Unit
IsGated (fetched a r ∷ t) = (healthy_now t ≡ true) × IsGated t
IsGated (pushed b r ∷ t) = (healthy_now t ≡ true) × IsGated t
IsGated (_ ∷ t) = IsGated t

abbrev IsOpen : List Event → Type 0
IsOpen t = (healthy_now t ≡ true) × IsGated t

IsGated-work : IsWork IsOpen IsOpen
IsGated-work = record {
  over = λ z delay t p. p;
  slot = λ z t p. p;
  fail_open = λ z e t p. p;
  wait = λ delay r t p. p;
  fetch = λ a r t p. (p.0, p);
}

IsGated-once : IsOnce IsGated IsGated IsOpen IsOpen (λ a. IsGated)
IsGated-once = record {
  asked = λ o r t p. p;
  no_credential = λ f s b t p. p;
  unhealthy = λ e f s b t p. p;
  healthy = λ t p. (refl, p);
  work = IsGated-work;
  no_source = λ f s b t p. p.1;
  push = λ body r t p. p;
}

module _ {W : Type 0} (d : Deps W) (c : Codec) (polls : ℕ) (config : WorkerConfig) where
  IsGated-acknowledge :
      (status : OrbitPlusStatus) (r : ExecutionResult)
      → Triple IsGated (acknowledge d c polls status r) (λ r. IsGated)
  IsGated-acknowledge status r = acknowledge_lem d c polls status r (λ t p. p) (λ e t p. p)

  IsGated-loop :
      (m : TripDetailsRefreshMessage)
      → IsLoop d c polls config m (λ n. IsGated) (λ n a. IsGated) (λ r. IsGated)
  IsGated-loop m = record {
    attempt = λ n le. process_once_lem IsGated-once d c polls m;
    delivered = λ n a e. IsGated-acknowledge a.status _;
    reported = λ n a f e.
        report_failure_lem d c polls config m a IsGated (λ t p. p) (λ e t p. p) (λ t p. p)
          (λ e t p. p);
    cancelled = λ n a f e t ef p. p;
    wait_cancelled = λ n a f delay e t ef p. p;
    again = λ n a f delay t ef retry p. p;
  }

  module _ (valid : validate_config config ≡ none) (today : Date)
      (decoded : GoResult TripDetailsRefreshMessage) (w : W) where
    gated : Post (λ r. IsGated) (handle d c polls config today decoded (start w))
    gated =
        handle_lem (λ r. IsGated) d c polls config valid today decoded w (λ e. tt)
          (λ e eq. Triple-weaken _ (IsGated-acknowledge _ _) (λ t e. rw e tt) (λ a t q. q))
          (λ m eq. (tt, IsGated-loop m))

    -- In a run of Handle every BITS request and every submission to OrbitPlus comes after a health
    -- check that passed, with no new attempt in between: a broken OrbitPlus costs no BITS request.
    pub handle-IsGated :
        (r : ExecutionResult) (s : Run W)
        → handle d c polls config today decoded (start w) ≡ done r s
        → IsGated s.trace
    handle-IsGated r s h = Post-done (λ r. IsGated) _ h gated

    -- With a valid configuration the retry loop never indexes `RetryDelays` out of range.
    pub handle-ne-panicked : handle d c polls config today decoded (start w) ≢ panicked
    handle-ne-panicked h = subst (Post (λ r. IsGated)) h gated

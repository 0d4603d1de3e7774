-- ===== src/Worker/Trace/Quota.antt =====
-- Every BITS request takes one slot of the zone's quota
-- (orbitplusworker/internal/application/worker/worker.go and search_busmap.go).
use orbitplus.Common.{ℕ, suc, ◌≡◌, refl, none, List, sym, arith}
use orbitplus.Common.Date.{Date}
use orbitplus.Worker.Errors.{GoResult}
use orbitplus.Worker.Message.{TripDetailsRefreshMessage}
use orbitplus.Worker.Deps.{Deps, Codec, OrbitPlusStatus, ExecutionResult}
use orbitplus.Worker.Exec.{Event, Run, done}
use orbitplus.Worker.Handle.{WorkerConfig, validate_config, acknowledge, handle}
use orbitplus.Worker.Trace.{slots, fetches, Triple, Triple-weaken, start, Post-done}
use orbitplus.Worker.Trace.Work.{IsWork}
use orbitplus.Worker.Trace.Once.{IsOnce, process_once_lem}
use orbitplus.Worker.Trace.Loop.{IsLoop, handle_lem}
use orbitplus.Worker.Trace.Finish.{acknowledge_lem, report_failure_lem}

abbrev IsBalanced : List Event → Type 0
IsBalanced t = slots t ≡ fetches t

-- A slot is taken, and its request is not yet made.
abbrev HoldsSlot : List Event → Type 0
HoldsSlot t = slots t ≡ suc (fetches t)

IsBalanced-work : IsWork IsBalanced HoldsSlot
IsBalanced-work = record {
  over = λ z delay t p. omega arith;
  slot = λ z t p. omega arith;
  fail_open = λ z e t p. omega arith;
  wait = λ delay r t p. omega arith;
  fetch = λ a r t p. omega arith;
}

IsBalanced-once : IsOnce IsBalanced IsBalanced IsBalanced HoldsSlot (λ a. IsBalanced)
IsBalanced-once = record {
  asked = λ o r t p. omega arith;
  no_credential = λ f s b t p. p;
  unhealthy = λ e f s b t p. omega arith;
  healthy = λ t p. omega arith;
  work = IsBalanced-work;
  no_source = λ f s b t p. p;
  push = λ body r t p. omega arith;
}

module _ {W : Type 0} (d : Deps W) (c : Codec) (polls : ℕ) (config : WorkerConfig) where
  IsBalanced-acknowledge :
      (status : OrbitPlusStatus) (r : ExecutionResult)
      → Triple IsBalanced (acknowledge d c polls status r) (λ r. IsBalanced)
  IsBalanced-acknowledge status r =
      acknowledge_lem d c polls status r (λ t p. omega arith) (λ e t p. omega arith)

  IsBalanced-loop :
      (m : TripDetailsRefreshMessage)
      → IsLoop d c polls config m (λ n. IsBalanced) (λ n a. IsBalanced) (λ r. IsBalanced)
  IsBalanced-loop m = record {
    attempt = λ n le. process_once_lem IsBalanced-once d c polls m;
    delivered = λ n a e. IsBalanced-acknowledge a.status _;
    reported = λ n a f e.
        report_failure_lem d c polls config m a IsBalanced (λ t p. omega arith)
          (λ e t p. omega arith) (λ t p. omega arith) (λ e t p. omega arith);
    cancelled = λ n a f e t ef p. p;
    wait_cancelled = λ n a f delay e t ef p. omega arith;
    again = λ n a f delay t ef retry p. omega arith;
  }

  -- Whatever the dependencies answer, when a delivery has been handled the worker has made exactly
  -- as many BITS requests as the zone's limiter let pass, over all attempts and BusMap requests.
  pub fetches-eq-slots :
      (today : Date) (decoded : GoResult TripDetailsRefreshMessage) (w : W) (r : ExecutionResult)
      (s : Run W)
      → validate_config config ≡ none
      → handle d c polls config today decoded (start w) ≡ done r s
      → fetches s.trace ≡ slots s.trace
  fetches-eq-slots today decoded w r s valid h = sym (
      Post-done (λ r. IsBalanced) _ h
        (handle_lem (λ r. IsBalanced) d c polls config valid today decoded w (λ e. refl)
          (λ e eq. Triple-weaken _ (IsBalanced-acknowledge _ _) (λ t e. rw e refl) (λ a t q. q))
          (λ m eq. (refl, IsBalanced-loop m))))

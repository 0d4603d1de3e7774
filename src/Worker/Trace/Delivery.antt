-- ===== src/Worker/Trace/Delivery.antt =====
-- When a delivery is acknowledged, and what was done before
-- (orbitplusworker/internal/application/worker/worker.go, Handle).
use orbitplus.Common.{
  ℕ, suc, ◌≤◌, String, ◌≡◌, refl, true, false, none, List, [], ◌∷◌, arith, ap, sym, ◌∙◌,
}
use mathlib.Core.Path.{subst}
use orbitplus.Worker.Trace.Finish.{
  acknowledged-operation_error, acknowledge_lem, report_failure_lem,
}
use orbitplus.Common.Int.{pos_part}
use orbitplus.Common.Date.{Date}
use orbitplus.Worker.Errors.{GoError, GoResult, ok, err}
use orbitplus.Worker.Message.{TripDetailsRefreshMessage}
use orbitplus.Worker.Deps.{
  Deps, Codec, OrbitPlusStatus, accepted, ExecutionResult, ExecutionStatus, acknowledged,
  dlq_reported, ack_error, dlq_error,
}
use orbitplus.Worker.Exec.{Event, pushed, dlq, acked, Run, done}
use orbitplus.Worker.Attempt.{Attempt, process_once}
use orbitplus.Worker.Handle.{
  WorkerConfig, validate_config, parse_message, operation_error, acknowledge, report_failure,
  acknowledged_with, handle,
}
use orbitplus.Worker.Trace.{
  credentials, acks, good_acks, dlqs, Post, Triple, Triple-weaken, start, Post-done,
}
use orbitplus.Worker.Trace.Work.{IsWork}
use orbitplus.Worker.Trace.Source.{IsSource, WasAccepted, Triple-both, process_once-WasAccepted}
use orbitplus.Worker.Trace.Once.{IsOnce, process_once_lem}
use orbitplus.Worker.Trace.Loop.{IsLoop, handle_lem}

ok-ne-err : {A : Type 0} {a : A} {e : GoError} → ok a ≡ err e → ⊥
ok-ne-err h = cc

ok_inj : {A : Type 0} {a b : A} → ok a ≡ ok b → a ≡ b
ok_inj h = cc

-- How a run on a valid message can end. Newest calls come first in the trace.
pub data Ending (c : Codec) (m : TripDetailsRefreshMessage) (r : ExecutionResult) (t : List Event)
    : Type 0 where
  -- OrbitPlus accepted what BITS answered, and that was acknowledged.
  delivered :
      (body : String) (rest : List Event)
      → r.status ≡ acknowledged
      → r.acknowledged ≡ true
      → t ≡ acked none ∷ pushed body (ok accepted) ∷ rest
      → IsSource c m body rest
      → acks rest ≡ 0
      → dlqs rest ≡ 0
      → Ending c m r t
  -- The failure was reported to OrbitPlus, and that was acknowledged.
  dead_lettered :
      (rest : List Event)
      → r.status ≡ dlq_reported
      → r.acknowledged ≡ true
      → t ≡ acked none ∷ dlq m.reference_id none ∷ rest
      → acks rest ≡ 0
      → dlqs rest ≡ 0
      → Ending c m r t
  -- The delivery stays with the broker.
  kept : r.acknowledged ≡ false → good_acks t ≡ 0 → acks t ≤ 1 → dlqs t ≤ 1 → Ending c m r t

-- Before the end: nothing acknowledged, nothing reported.
pub record IsPending (n : ℕ) (t : List Event) : Type 0 where
  pub no_ack : acks t ≡ 0
  pub no_good_ack : good_acks t ≡ 0
  pub no_dlq : dlqs t ≡ 0
  pub attempts : credentials t ≡ n

IsPending-work : (n : ℕ) → IsWork (IsPending n) (IsPending n)
IsPending-work n = record {
  over = λ z delay t p. omega arith;
  slot = λ z t p. omega arith;
  fail_open = λ z e t p. omega arith;
  wait = λ delay r t p. omega arith;
  fetch = λ a r t p. omega arith;
}

IsPending-once :
    (n : ℕ)
    → IsOnce
        (IsPending n)
        (IsPending (suc n))
        (IsPending (suc n))
        (IsPending (suc n))
        (λ a. IsPending (suc n))
IsPending-once n = record {
  asked = λ o r t p. omega arith;
  no_credential = λ f s b t p. p;
  unhealthy = λ e f s b t p. omega arith;
  healthy = λ t p. omega arith;
  work = IsPending-work (suc n);
  no_source = λ f s b t p. p;
  push = λ body r t p. omega arith;
}

module _ {W : Type 0} (d : Deps W) (c : Codec) (polls : ℕ) (config : WorkerConfig)
    (m : TripDetailsRefreshMessage) where
  abbrev most : ℕ
  most = pos_part config.max_attempts

  abbrev Finished : ExecutionResult → List Event → Type 0
  Finished r t = Ending c m r t × (credentials t ≤ most)

  -- A dead-letter report was sent, and nothing is acknowledged yet.
  abbrev Reported : List Event → Type 0
  Reported t =
      (rest : List Event) × (t ≡ dlq m.reference_id none ∷ rest)
      × (acks rest ≡ 0)
      × (good_acks rest ≡ 0)
      × (dlqs rest ≡ 0)
      × (credentials rest ≤ most)

  kept_after :
      (f : ExecutionStatus) (e : GoError) (s : OrbitPlusStatus) (t : List Event)
      → good_acks t ≡ 0
      → acks t ≤ 1
      → dlqs t ≤ 1
      → credentials t ≤ most
      → Finished (operation_error f e s) t
  kept_after f e s t g a q k = (kept (acknowledged-operation_error f e s) g a q, k)

  abbrev Ended : ℕ → Attempt → List Event → Type 0
  Ended n a t = (n ≤ most) × IsPending n t × WasAccepted c m a t

  -- Attempt number `n` begins.
  abbrev Begun : ℕ → List Event → Type 0
  Begun n t = (k : ℕ) × (n ≡ suc k) × IsPending k t

  tried_attempt :
      (n : ℕ) → suc n ≤ most → Triple (IsPending n) (process_once d c polls m) (Ended (suc n))
  tried_attempt n le =
      Triple-weaken _
        (Triple-both _ (process_once_lem (IsPending-once n) d c polls m)
          (process_once-WasAccepted d c polls m))
        (λ t p. (p, tt)) (λ a t q. (le, q.0, q.1))

  delivered_lem :
      (n : ℕ) (a : Attempt)
      → a.failure ≡ none
      → Triple
          (Ended n a)
          (acknowledge d c polls a.status (acknowledged_with acknowledged a.status none))
          Finished
  delivered_lem n a e =
      acknowledge_lem d c polls a.status (acknowledged_with acknowledged a.status none) good
        (λ x t p.
          kept_after ack_error x a.status _ (omega arith) (omega arith) (omega arith) (omega arith))
    where
      good :
          (t : List Event)
          → Ended n a t
          → Finished (acknowledged_with acknowledged a.status none) (acked none ∷ t)
      good t (le, p, acc) =
          let (body, rest, eq, source) = acc e in
          let p' : IsPending n (pushed body (ok accepted) ∷ rest) = subst (IsPending n) eq p in
          (
            delivered body rest refl refl (ap (λ (t : List Event). acked none ∷ t) eq) source
                (omega (arith, p'.no_ack)) (omega (arith, p'.no_dlq)),
            omega arith,
          )

  reported_lem :
      (n : ℕ) (a : Attempt) → Triple (Ended n a) (report_failure d c polls config m a) Finished
  reported_lem n a =
      report_failure_lem d c polls config m a Reported
        (λ t (le, p, acc). (t, refl, p.no_ack, p.no_good_ack, p.no_dlq, omega arith))
        (λ e t (le, p, acc).
          kept_after dlq_error e a.status _ (omega arith) (omega arith) (omega arith) (omega arith))
        (λ t (rest, eq, k, g, q, n). (
          dead_lettered rest refl refl (ap (λ (t : List Event). acked none ∷ t) eq) k q,
          rw eq (omega arith),
        ))
        (λ e t (rest, eq, k, g, q, n). rw eq (
          kept_after ack_error e a.status _ (omega arith) (omega arith) (omega arith)
            (omega arith)))

  Begun-attempt : (n : ℕ) → n ≤ most → Triple (Begun n) (process_once d c polls m) (Ended n)
  Begun-attempt n le = record { at = λ s b. go s b }
    where
      go : (s : Run W) → Begun n s.trace → Post (Ended n) (process_once d c polls m s)
      go s (k, e, p) =
          subst (λ j. Post (Ended j) (process_once d c polls m s)) (sym e)
            ((tried_attempt k (omega arith)).at s p)

  delivery_loop : IsLoop d c polls config m Begun Ended Finished
  delivery_loop = record {
    attempt = Begun-attempt;
    delivered = delivered_lem;
    reported = λ n a f e. reported_lem n a;
    cancelled = λ n a f e t ef (le, p, acc).
        (kept refl (omega arith) (omega arith) (omega arith), omega arith);
    wait_cancelled = λ n a f delay e t ef (le, p, acc).
        (kept refl (omega arith) (omega arith) (omega arith), omega arith);
    again = λ n a f delay t ef retry (le, p, acc). (n, refl, omega arith);
  }

  module _ (valid : validate_config config ≡ none) (today : Date)
      (decoded : GoResult TripDetailsRefreshMessage)
      (parses : parse_message today decoded ≡ ok m) where
    finished : (w : W) → Post Finished (handle d c polls config today decoded (start w))
    finished w =
        handle_lem Finished d c polls config valid today decoded w
          (λ e. (kept refl refl (omega arith) (omega arith), omega arith))
          (λ e eq. absurd (ok-ne-err (sym parses ∙ eq)))
          λ m' eq.
            subst (λ x. Begun 1 [] × IsLoop d c polls config x Begun Ended Finished)
              (ok_inj (sym parses ∙ eq)) ((0, refl, omega arith), delivery_loop)

    -- With a valid configuration and a payload that parses to a valid message, a finished run of Handle
    -- ends in one of three ways. OrbitPlus has just answered ACCEPTED to what BITS answered in this
    -- attempt (its one response, or for a searchbusmap job the Search response with each entry
    -- combined with the BusMap response for it), and that was acknowledged, as the only
    -- acknowledgement and with no dead-letter report. Or the failure of this message has just been
    -- reported and that was acknowledged, as the only acknowledgement and report. Or the result is not
    -- acknowledged, no acknowledgement succeeded, and at most one acknowledgement and one report were
    -- tried.
    pub handle-Ending :
        (w : W) (r : ExecutionResult) (s : Run W)
        → handle d c polls config today decoded (start w) ≡ done r s
        → Ending c m r s.trace
    handle-Ending w r s h = (Post-done Finished _ h (finished w)).0

    -- The credential is asked for once in each attempt, and so at most `MaxAttempts` times.
    pub attempts-le-max :
        (w : W) (r : ExecutionResult) (s : Run W)
        → handle d c polls config today decoded (start w) ≡ done r s
        → credentials s.trace ≤ pos_part config.max_attempts
    attempts-le-max w r s h = (Post-done Finished _ h (finished w)).1

-- ===== src/Worker/Trace/Finish.antt =====
-- The rules for the two ways to finish a delivery: acknowledging it, and reporting its failure first
-- (orbitplusworker/internal/application/worker/worker.go, Handle and reportFailure).
use orbitplus.Common.{ℕ, ◌≡◌, false, Option, none, some, List, ◌∷◌, arith}
use orbitplus.Worker.Errors.{GoError}
use orbitplus.Worker.Message.{TripDetailsRefreshMessage}
use orbitplus.Worker.Deps.{
  Deps, Codec, OrbitPlusStatus, ExecutionStatus, ExecutionResult, ack_error, dlq_error,
  dlq_reported,
}
use orbitplus.Worker.Exec.{Event, dlq, acked, call}
use orbitplus.Worker.Attempt.{Attempt}
use orbitplus.Worker.Handle.{
  WorkerConfig, operation_error, acknowledge, report_failure, acknowledged_with,
}
use orbitplus.Worker.Trace.{Triple, Triple-pure, Triple-call, Triple-bind, Triple-error}

pub acknowledged-operation_error :
    (f : ExecutionStatus) (e : GoError) (s : OrbitPlusStatus)
    → (operation_error f e s).acknowledged ≡ false
unfolding operation_error
acknowledged-operation_error f e s = ground arith

module _ {W : Type 0} {P : List Event → Type 0} {Q : ExecutionResult → List Event → Type 0}
    (d : Deps W) (c : Codec) (polls : ℕ) where
  pub acknowledge_lem :
      (status : OrbitPlusStatus) (result : ExecutionResult)
      → ((t : List Event) → P t → Q result (acked none ∷ t))
      → ((e : GoError) (t : List Event)
          → P t
          → Q (operation_error ack_error e status) (acked (some e) ∷ t))
      → Triple P (acknowledge d c polls status result) Q
  unfolding acknowledge
  acknowledge_lem status result good bad =
      Triple-bind Answered (call d.ack acked) _ (Triple-call d.ack acked answered)
        λ a. Triple-error Answered a _ _ (λ e. Triple-pure _ (λ t q. q)) (Triple-pure _ (λ t q. q))
    where
      Answered : Option GoError → List Event → Type 0
      Answered none t = Q result t
      Answered (some e) t = Q (operation_error ack_error e status) t

      answered : (a : Option GoError) (t : List Event) → P t → Answered a (acked a ∷ t)
      answered none t p = good t p
      answered (some e) t p = bad e t p

module _ {W : Type 0} {P : List Event → Type 0} {Q : ExecutionResult → List Event → Type 0}
    (d : Deps W) (c : Codec) (polls : ℕ) (config : WorkerConfig) (m : TripDetailsRefreshMessage)
    (a : Attempt) where
  pub report_failure_lem :
      (S : List Event → Type 0)
      → ((t : List Event) → P t → S (dlq m.reference_id none ∷ t))
      → ((e : GoError) (t : List Event)
          → P t
          → Q (operation_error dlq_error e a.status) (dlq m.reference_id (some e) ∷ t))
      → ((t : List Event) → S t → Q (acknowledged_with dlq_reported a.status none) (acked none ∷ t))
      → ((e : GoError) (t : List Event)
          → S t
          → Q (operation_error ack_error e a.status) (acked (some e) ∷ t))
      → Triple P (report_failure d c polls config m a) Q
  unfolding report_failure
  report_failure_lem S sent unsent good bad =
      Triple-bind Answered (call _ (dlq m.reference_id)) _
        (Triple-call _ (dlq m.reference_id) answered)
        λ r.
          Triple-error Answered r _ _ (λ e. Triple-pure _ (λ t q. q))
            (acknowledge_lem d c polls a.status (acknowledged_with dlq_reported a.status none) good
              bad)
    where
      Answered : Option GoError → List Event → Type 0
      Answered none t = S t
      Answered (some e) t = Q (operation_error dlq_error e a.status) t

      answered : (r : Option GoError) (t : List Event) → P t → Answered r (dlq m.reference_id r ∷ t)
      answered none t p = sent t p
      answered (some e) t p = unsent e t p

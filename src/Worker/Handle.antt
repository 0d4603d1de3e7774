-- ===== src/Worker/Handle.antt =====
-- One delivery from start to acknowledgement: Handle, reportFailure, operationError and
-- parseTripDetailsRefreshMessage of orbitplusworker/internal/application/worker/worker.go, and
-- WorkerConfig of config.go.
use Prim.Native.String.{◌++◌}
use orbitplus.Common.{
  ℕ, zero, suc, ◌+◌, ◌-◌, true, false, Option, none, some, List, [], ◌∷◌, ℤ, ◌||◌, not, ◌==◌,
  length, get_elem?, if◌then◌else◌,
}
use orbitplus.Common.Int.{is_positive, pos_part}
use orbitplus.Common.Date.{Date}
use orbitplus.Worker.Errors.{
  GoError, GoResult, ok, err, canceled, invalid_config, wrapped, is_cancellation,
}
use orbitplus.Worker.Message.{TripDetailsRefreshMessage, validate}
use orbitplus.Worker.Deps.{
  Deps, Codec, OrbitPlusStatus, unset, ExecutionStatus, ExecutionResult, invalid_envelope,
  dlq_reported, dlq_error, acknowledged, ack_error, cancelled,
}
use orbitplus.Worker.Exec.{M, panicked, pure, call, look, ◌>>=◌, on_error, dlq, acked}
use orbitplus.Worker.Await.{wait_for_retry}
use orbitplus.Worker.Attempt.{Attempt, process_once}

pub record WorkerConfig : Type 0 where
  pub worker_concurrency : ℤ
  pub max_attempts : ℤ
  pub retry_delays : List ℤ

unfoldable pub all_positive : List ℤ → Option GoError
all_positive [] = none
all_positive (x ∷ xs) =
    if is_positive x
    then all_positive xs
    else some (invalid_config "worker retry delays must be positive")

-- WorkerConfig.Validate; the third test is made only when `max_attempts` is positive.
unfoldable pub validate_config : WorkerConfig → Option GoError
unfolding all_positive
validate_config c =
    if not (is_positive c.worker_concurrency)
    then some (invalid_config "worker concurrency must be positive")
    else if not (is_positive c.max_attempts)
    then some (invalid_config "worker max attempts must be positive")
    else if not (length c.retry_delays + 1 == pos_part c.max_attempts)
    then some (invalid_config "worker retry delays must contain one delay per retry")
    else all_positive c.retry_delays

-- operationError
unfoldable pub operation_error : ExecutionStatus → GoError → OrbitPlusStatus → ExecutionResult
operation_error status e orbitplus_status =
    if is_cancellation e
    then record {
      status = cancelled;
      orbitplus_status = unset;
      acknowledged = false;
      error = some e;
    }
    else record {
      status = status;
      orbitplus_status = orbitplus_status;
      acknowledged = false;
      error = some e;
    }

-- parseTripDetailsRefreshMessage; `decoded` is what json.Unmarshal makes of the payload.
unfoldable pub parse_message :
    Date → GoResult TripDetailsRefreshMessage → GoResult TripDetailsRefreshMessage
parse_message today (err e) = err (wrapped "decode TripDetails refresh message" e)
parse_message today (ok m) = elim (validate today m) [ none ↦ ok m | some e ↦ err e ]

abbrev pub cancelled_with : OrbitPlusStatus → GoError → ExecutionResult
cancelled_with status e = record {
  status = cancelled;
  orbitplus_status = status;
  acknowledged = false;
  error = some e;
}

abbrev pub acknowledged_with : ExecutionStatus → OrbitPlusStatus → Option GoError → ExecutionResult
acknowledged_with status orbitplus_status e = record {
  status = status;
  orbitplus_status = orbitplus_status;
  acknowledged = true;
  error = e;
}

module _ {W : Type 0} (d : Deps W) (c : Codec) (polls : ℕ) where
  -- Acknowledge, and report the result, or the failure of the acknowledgement.
  unfoldable pub acknowledge : OrbitPlusStatus → ExecutionResult → M W ExecutionResult
  acknowledge status result = call d.ack acked >>= λ a.
      on_error a (λ e. pure (operation_error ack_error e status)) (pure result)

  module _ (config : WorkerConfig) (m : TripDetailsRefreshMessage) where
    -- reportFailure
    unfoldable pub report_failure : Attempt → M W ExecutionResult
    report_failure a =
        call
          (d.send_dlq m.reference_id
            ("Worker could not process the " ++ m.action_type ++ " job: " ++ a.detail))
          (dlq m.reference_id)
        >>= λ r.
            on_error r (λ e. pure (operation_error dlq_error e a.status))
              (acknowledge a.status (acknowledged_with dlq_reported a.status none))

    -- RetryDelays[attempt-1], and the next attempt after that delay.
    unfoldable pub retry_after : M W ExecutionResult → Attempt → Option ℤ → M W ExecutionResult
    retry_after next a none = λ s. panicked
    retry_after next a (some delay) =
        wait_for_retry d delay >>= λ w. on_error w (λ e. pure (cancelled_with a.status e)) next

    -- A failed attempt is retried if it may be and attempts are left.
    unfoldable pub retry_or_report : M W ExecutionResult → ℕ → Attempt → M W ExecutionResult
    retry_or_report next attempt a =
        if not a.may_retry || attempt == pos_part config.max_attempts
        then report_failure a
        else retry_after next a (get_elem? config.retry_delays (attempt - 1))

    -- What follows an attempt that ended with this failure; `next` is the rest of the loop.
    unfoldable pub conclude :
        M W ExecutionResult → ℕ → Attempt → Option ExecutionStatus → M W ExecutionResult
    conclude next attempt a none =
        acknowledge a.status (acknowledged_with acknowledged a.status none)
    conclude next attempt a (some f) = look d.ctx_err >>= λ cancel.
        on_error cancel (λ e. pure (cancelled_with a.status e)) (retry_or_report next attempt a)

    unfoldable pub after_attempt : M W ExecutionResult → ℕ → Attempt → M W ExecutionResult
    after_attempt next attempt a = conclude next attempt a a.failure

    -- The loop of Handle: `left` attempts are left, and the next has number `attempt`.
    unfoldable pub attempt_loop : ℕ → ℕ → M W ExecutionResult
    attempt_loop zero attempt = pure (cancelled_with unset canceled)
    attempt_loop (suc left) attempt =
        let next = attempt_loop left (suc attempt) in
        process_once d c polls m >>= after_attempt next attempt

  unfoldable pub handle_parsed :
      WorkerConfig → GoResult TripDetailsRefreshMessage → M W ExecutionResult
  handle_parsed config (err e) =
      acknowledge unset (acknowledged_with invalid_envelope unset (some e))
  handle_parsed config (ok m) = attempt_loop config m (pos_part config.max_attempts) 1

  unfoldable pub handle :
      WorkerConfig → Date → GoResult TripDetailsRefreshMessage → M W ExecutionResult
  handle config today decoded = look d.ctx_err >>= λ cancel.
      on_error cancel (λ e. pure (cancelled_with unset e))
        (handle_parsed config (parse_message today decoded))

-- ===== src/Worker/Attempt.antt =====
-- One processing attempt: credential, health, BITS, OrbitPlus
-- (processOnce and the four calls under it in
-- orbitplusworker/internal/application/worker/worker.go).
use orbitplus.Common.{ℕ, String, Bool, false, Option, none, some, str_eq, if◌then◌else◌}
use orbitplus.Common.Text.{is_empty}
use orbitplus.Worker.Errors.{GoError, GoResult, ok, err, other, is_retryable_error}
use orbitplus.Worker.Message.{TripDetailsRefreshMessage, action_searchbusmap}
use orbitplus.Worker.Deps.{
  Deps, Codec, OperatorCredential, BitsOperatorCredential, validate_credential, OrbitPlusStatus,
  unset, acknowledgement_eligible, is_retryable_status, ExecutionStatus, credential_error,
  orbitplus_unhealthy, source_error, orbitplus_error, orbitplus_outcome,
}
use orbitplus.Worker.Exec.{M, pure, call, ◌>>=◌, on_result, on_error, credential, health, pushed}
use orbitplus.Worker.SearchBusMap.{fetch_in_slot, fetch_search_and_busmaps}

-- The four results of processOnce; `failure` is `none` for the empty status.
pub record Attempt : Type 0 where
  pub failure : Option ExecutionStatus
  pub detail : String
  pub status : OrbitPlusStatus
  pub may_retry : Bool

abbrev pub failed_with : ExecutionStatus → String → Bool → Attempt
failed_with f detail may_retry = record {
  failure = some f;
  detail = detail;
  status = unset;
  may_retry = may_retry;
}

-- The three ways in which an attempt ends before OrbitPlus is asked to store anything.
abbrev pub credential_failure : GoError → Attempt
credential_failure e =
    failed_with credential_error "Orbit operator credential could not be resolved."
      (is_retryable_error e)

abbrev pub health_failure : GoError → Attempt
health_failure e =
    failed_with orbitplus_unhealthy "OrbitPlus is not reachable; Bits call skipped."
      (is_retryable_error e)

abbrev pub source_failure : GoError → Attempt
source_failure e =
    failed_with source_error "Bits request failed or returned an empty response."
      (is_retryable_error e)

-- What processOnce makes of an answer of OrbitPlus.
unfoldable pub push_outcome : GoResult OrbitPlusStatus → Attempt
push_outcome (err e) =
    failed_with orbitplus_error "OrbitPlus TripDetails request failed." (is_retryable_error e)
push_outcome (ok status) =
    if acknowledgement_eligible status
    then record { failure = none; detail = ""; status = status; may_retry = false }
    else record {
      failure = some orbitplus_outcome;
      detail = "OrbitPlus TripDetails returned a retryable response.";
      status = status;
      may_retry = is_retryable_status status;
    }

abbrev bits_credential : TripDetailsRefreshMessage → OperatorCredential → BitsOperatorCredential
bits_credential m c = record {
  operator_code = m.operator_code;
  username = c.username;
  api_token = c.api_token;
  base_url = m.zone_url;
}

unfoldable pub check_credential :
    TripDetailsRefreshMessage → GoResult OperatorCredential → GoResult BitsOperatorCredential
check_credential m (err e) = err e
check_credential m (ok c) = elim (validate_credential (bits_credential m c) m.operator_code) [
  | some e ↦ err e
  | none ↦ ok (bits_credential m c)
]

-- The last check of fetchTripDetails: a response with no body is an error.
unfoldable pub non_empty : GoResult String → GoResult String
non_empty (err e) = err e
non_empty (ok body) = if is_empty body then err (other "Bits response is empty") else ok body

module _ {W : Type 0} (d : Deps W) (c : Codec) (polls : ℕ) (m : TripDetailsRefreshMessage) where
  unfoldable pub resolve_credential : M W (GoResult BitsOperatorCredential)
  resolve_credential =
      call (d.fetch_operator_credential m.operator_code) (credential m.operator_code) >>= λ r.
      pure (check_credential m r)

  unfoldable pub check_orbitplus_health : M W (Option GoError)
  check_orbitplus_health = call d.check_health health

  unfoldable pub fetch_trip_details : BitsOperatorCredential → M W (GoResult String)
  fetch_trip_details cred =
      (if str_eq m.action_type action_searchbusmap
        then fetch_search_and_busmaps d c polls m cred
        else fetch_in_slot d polls m.zone_url (record { message = m; credential = cred }))
      >>= λ r. pure (non_empty r)

  unfoldable pub push_trip_details : String → M W (GoResult OrbitPlusStatus)
  push_trip_details body = call (d.send_trip_details m body) (pushed body)

  unfoldable pub process_once : M W Attempt
  process_once = resolve_credential >>= λ cr.
      on_result cr (λ e. pure (credential_failure e))
        λ cred. check_orbitplus_health >>= λ h.
          on_error h (λ e. pure (health_failure e))
            (fetch_trip_details cred >>= λ f.
              on_result f (λ e. pure (source_failure e))
                λ body. push_trip_details body >>= λ r. pure (push_outcome r))

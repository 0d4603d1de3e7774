-- ===== src/Worker/Deps.antt =====
-- What the worker calls: its injected clients, the delivery, the context and JSON
-- (the interfaces in orbitplusworker/internal/application/worker/{bits,orbit,orbitplus,rabbitmq,
-- ratelimit,result}.go). The world `W` is all the state behind them.
use orbitplus.Common.{
  String, Bool, true, false, Option, none, some, ℤ, ◌||◌, not, str_eq, if◌then◌else◌,
}
use orbitplus.Common.Text.{is_blank}
use orbitplus.Json.{Value}
use orbitplus.Worker.Errors.{GoError, GoResult, other}
use orbitplus.Worker.Message.{TripDetailsRefreshMessage}

pub record OperatorCredential : Type 0 where
  pub operator_code : String
  pub username : String
  pub api_token : String

pub record BitsOperatorCredential : Type 0 where
  pub operator_code : String
  pub username : String
  pub api_token : String
  pub base_url : String

-- BitsOperatorCredential.Validate
unfoldable pub validate_credential : BitsOperatorCredential → String → Option GoError
validate_credential c operator_code =
    if not (str_eq c.operator_code operator_code)
      || is_blank c.username
      || is_blank c.api_token
      || is_blank c.base_url
    then some (other "resolved Bits credential is invalid")
    else none

pub record BitsTripDetailsRequest : Type 0 where
  pub message : TripDetailsRefreshMessage
  pub credential : BitsOperatorCredential

-- `unset` is the zero value "".
pub data OrbitPlusStatus : Type 0 where
  unset accepted retryable duplicate stale : OrbitPlusStatus

-- OrbitPlusStatus.AcknowledgementEligible
unfoldable pub acknowledgement_eligible : OrbitPlusStatus → Bool
acknowledgement_eligible accepted = true
acknowledgement_eligible _ = false

-- status == OrbitPlusRetryable
unfoldable pub is_retryable_status : OrbitPlusStatus → Bool
is_retryable_status retryable = true
is_retryable_status _ = false

-- The three results of ZoneRateLimiter.Acquire in one value.
pub data AcquireReply : Type 0 where
  granted : AcquireReply
  over_quota : ℤ → AcquireReply
  failed : GoError → AcquireReply

pub record Deps (W : Type 0) : Type 0 where
  -- ctx.Err()
  pub ctx_err : W → Option GoError
  -- the timer of waitForRetry against ctx.Done()
  pub wait : ℤ → W → Option GoError × W
  -- delivery.Ack
  pub ack : W → Option GoError × W
  pub fetch_operator_credential : String → W → GoResult OperatorCredential × W
  pub check_health : W → Option GoError × W
  pub acquire : String → W → AcquireReply × W
  pub fetch_trip_details : BitsTripDetailsRequest → W → GoResult String × W
  pub send_trip_details : TripDetailsRefreshMessage → String → W → GoResult OrbitPlusStatus × W
  pub send_dlq : String → String → W → Option GoError × W

-- One step of a json.Decoder over the rest of its input.
pub data DecodeStep : Type 0 where
  value : Value → String → DecodeStep
  end_of_input : DecodeStep
  malformed : GoError → DecodeStep

-- encoding/json
pub record Codec : Type 0 where
  pub next_value : String → DecodeStep
  pub marshal : Value → GoResult String

pub data ExecutionStatus : Type 0 where
  invalid_envelope credential_error orbitplus_unhealthy source_error orbitplus_error
        orbitplus_outcome dlq_reported dlq_error acknowledged ack_error cancelled :
      ExecutionStatus

pub record ExecutionResult : Type 0 where
  pub status : ExecutionStatus
  pub orbitplus_status : OrbitPlusStatus
  pub acknowledged : Bool
  pub error : Option GoError

-- ===== src/Worker/Tests.antt =====
-- Runs of the worker on concrete inputs, and the theorems at inputs that meet their hypotheses.
use orbitplus.Common.{
  ◌+◌, ◌-◌, ◌≤◌, min, String, ◌≡◌, ◌≢◌, ◌↔◌, refl, true, none, some, List, [], ◌∷◌, arith, pos,
}
use orbitplus.Common.Date.{Date, parse_date, before}
use orbitplus.Common.Text.{is_blank}
use orbitplus.Worker.Errors.{GoResult, ok, err, retryable, other, is_retryable_error}
use orbitplus.Worker.Message.{
  TripDetailsRefreshMessage, validate, require_fields, validate_current_or_future_date,
}
use orbitplus.Worker.Message.Laws.{IsAcceptable, validate-none_iff}
use orbitplus.Worker.RateLimit.{RateLimitPolicy, Windows, limit, enabled}
use orbitplus.Worker.RateLimit.Quota.{Call, admitted, requests, admitted_window, admitted_stretch}
use orbitplus.Worker.Deps.{
  Deps, Codec, accepted, granted, ExecutionResult, end_of_input, acknowledged, validate_credential,
  acknowledgement_eligible,
}
use orbitplus.Worker.Exec.{
  Event, credential, health, acquired, fetched, pushed, acked, waited, Run, Step, done, panicked,
}
use orbitplus.Worker.Await.{wait_for_retry, await_reply, await_zone_rate_limit}
use orbitplus.Worker.SearchBusMap.{fetch_in_slot}
use orbitplus.Worker.Attempt.{
  process_once, resolve_credential, check_credential, check_orbitplus_health, fetch_trip_details,
  push_trip_details, push_outcome, non_empty,
}
use orbitplus.Worker.Handle.{
  WorkerConfig, validate_config, parse_message, acknowledge, retry_after, retry_or_report, conclude,
  after_attempt, attempt_loop, handle_parsed, handle,
}
use orbitplus.Worker.Trace.{start, fetches, slots, credentials}
use orbitplus.Worker.Trace.Delivery.{Ending, handle-Ending, attempts-le-max}
use orbitplus.Worker.Trace.Quota.{fetches-eq-slots}
use orbitplus.Worker.Trace.Gate.{IsGated, handle-IsGated, handle-ne-panicked}

abbrev today : Date
today = record { year = 2026; month = 8; day = 13 }

abbrev busmap_job : TripDetailsRefreshMessage
busmap_job = record {
  action_type = "busmap";
  reference_id = "R1";
  operator_code = "OP1";
  zone_url = "http://app.ezeebits.com";
  from_code = "";
  to_code = "";
  trip_date = "";
  trip_code = "T1";
  from_station_code = "A";
  to_station_code = "B";
  travel_date = "2026-08-20";
}

abbrev two_attempts : WorkerConfig
two_attempts = record {
  worker_concurrency = pos 1;
  max_attempts = pos 2;
  retry_delays = pos 5 ∷ [];
}

-- Dependencies that always succeed, but for BITS, which answers from the world: a list of replies.
abbrev scripted : Deps (List (GoResult String))
scripted = record {
  ctx_err = λ w. none;
  wait = λ delay w. (none, w);
  ack = λ w. (none, w);
  fetch_operator_credential =
      λ o w. (ok (record { operator_code = o; username = "u"; api_token = "t" }), w);
  check_health = λ w. (none, w);
  acquire = λ z w. (granted, w);
  fetch_trip_details = λ q w. pop w;
  send_trip_details = λ m b w. (ok accepted, w);
  send_dlq = λ r f w. (none, w);
}
  where
    pop : List (GoResult String) → GoResult String × List (GoResult String)
    pop [] = (err (other "no reply"), [])
    pop (r ∷ w) = (r, w)

abbrev no_json : Codec
no_json = record { next_value = λ s. end_of_input; marshal = λ v. err (other "unused") }

-- The first BITS request fails and may be retried, the second succeeds.
abbrev flaky : List (GoResult String)
flaky = err (retryable "timeout") ∷ ok "{}" ∷ []

job_parses : parse_message today (ok busmap_job) ≡ ok busmap_job
unfolding parse_message validate require_fields validate_current_or_future_date parse_date before
    is_blank
job_parses = refl

two_attempts_valid : validate_config two_attempts ≡ none
unfolding validate_config
two_attempts_valid = refl

abbrev flaky_run : Step (List (GoResult String)) ExecutionResult
flaky_run = handle scripted no_json 3 two_attempts today (ok busmap_job) (start flaky)

abbrev flaky_result : ExecutionResult
flaky_result = record {
  status = acknowledged;
  orbitplus_status = accepted;
  acknowledged = true;
  error = none;
}

abbrev op1 : Event
op1 = credential "OP1" (ok (record { operator_code = "OP1"; username = "u"; api_token = "t" }))

abbrev flaky_end : Run (List (GoResult String))
flaky_end = record {
  world = [];
  trace =
      acked none
      ∷ pushed "{}" (ok accepted)
      ∷ fetched "busmap" (ok "{}")
      ∷ acquired "http://app.ezeebits.com" granted
      ∷ health none
      ∷ op1
      ∷ waited (pos 5) none
      ∷ fetched "busmap" (err (retryable "timeout"))
      ∷ acquired "http://app.ezeebits.com" granted
      ∷ health none
      ∷ op1
      ∷ [];
}

flaky_retries : flaky_run ≡ done flaky_result flaky_end
unfolding handle handle_parsed attempt_loop after_attempt process_once conclude retry_or_report
    retry_after wait_for_retry acknowledge parse_message validate require_fields
    validate_current_or_future_date parse_date before is_blank resolve_credential check_credential
    validate_credential check_orbitplus_health fetch_trip_details fetch_in_slot
    await_zone_rate_limit await_reply push_trip_details push_outcome acknowledgement_eligible
    non_empty is_retryable_error
flaky_retries = refl

handle-Ending_example : Ending no_json busmap_job flaky_result flaky_end.trace
handle-Ending_example =
    handle-Ending scripted no_json 3 two_attempts busmap_job two_attempts_valid today
      (ok busmap_job) job_parses (start flaky).world flaky_result flaky_end flaky_retries

attempts-le-max_example : credentials flaky_end.trace ≤ 2
attempts-le-max_example =
    attempts-le-max scripted no_json 3 two_attempts busmap_job two_attempts_valid today
      (ok busmap_job) job_parses flaky flaky_result flaky_end flaky_retries

fetches-eq-slots_example : fetches flaky_end.trace ≡ slots flaky_end.trace
fetches-eq-slots_example =
    fetches-eq-slots scripted no_json 3 two_attempts today (ok busmap_job) flaky flaky_result
      flaky_end two_attempts_valid flaky_retries

handle-IsGated_example : IsGated flaky_end.trace
handle-IsGated_example =
    handle-IsGated scripted no_json 3 two_attempts two_attempts_valid today (ok busmap_job) flaky
      flaky_result flaky_end flaky_retries

handle-ne-panicked_example : flaky_run ≢ panicked
handle-ne-panicked_example =
    handle-ne-panicked scripted no_json 3 two_attempts two_attempts_valid today (ok busmap_job)
      flaky

validate-none_iff_example : (validate today busmap_job ≡ none) ↔ IsAcceptable today busmap_job
validate-none_iff_example = validate-none_iff today busmap_job

-- Two hits in ten nanoseconds.
abbrev small_quota : RateLimitPolicy
small_quota = record { default = record { hits = pos 2; window = pos 10 }; overrides = [] }

abbrev no_windows : Windows
no_windows z = none

abbrev burst : List Call
burst =
    record { time = 1; zone = "z" }
    ∷ record { time = 1; zone = "y" }
    ∷ record { time = 2; zone = "z" }
    ∷ record { time = 3; zone = "z" }
    ∷ []

small_quota-enabled : enabled (limit small_quota "z") ≡ true
unfolding enabled limit
small_quota-enabled = refl

admitted_window_example : admitted small_quota "z" no_windows burst ≡ min 2 (requests "z" burst)
unfolding limit
admitted_window_example =
    admitted_window small_quota "z" small_quota-enabled burst no_windows 0 5 refl (omega arith)
      (omega arith) (omega arith)

abbrev old_window : Windows
old_window z = some (record { start = 0; count = 1 })

admitted_stretch_example : admitted small_quota "z" old_window burst ≤ (2 - 1) + 2
unfolding limit
admitted_stretch_example =
    admitted_stretch small_quota "z" small_quota-enabled burst old_window
      (record { start = 0; count = 1 }) 1 5 refl (omega arith) (omega arith) (omega arith)
      (omega arith)

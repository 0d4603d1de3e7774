-- ===== src/Worker/Trace/Total.antt =====
-- A delivery is handled to its end when the waits for the zone's quota end, as they do for a worker
-- that is alone
-- (orbitplusworker/internal/application/worker/worker.go and search_busmap.go).
use orbitplus.Common.{
  ℕ, zero, suc, ◌+◌, String, ◌≡◌, ◌≢◌, refl, Bool, true, false, Option, none, some, List, [], ◌∷◌,
  ◌-◌, ◌==◌, ◌||◌, not, str_eq, get_elem?, if◌then◌else◌, ℤ,
}
use orbitplus.Common.Int.{pos_part}
use orbitplus.Common.Date.{Date}
use orbitplus.Json.{Members}
use orbitplus.Worker.Errors.{GoError, GoResult, ok, err, canceled}
use orbitplus.Worker.Message.{TripDetailsRefreshMessage, action_searchbusmap}
use orbitplus.Worker.Deps.{
  Deps, Codec, BitsOperatorCredential, BitsTripDetailsRequest, OrbitPlusStatus, unset,
  ExecutionResult, ExecutionStatus, acknowledged, ack_error, dlq_error, dlq_reported,
}
use orbitplus.Worker.Exec.{
  Event, credential, health, fetched, pushed, dlq, acked, waited, Run, Step, done, exhausted,
  panicked, M, pure, call, look, continue, ◌>>=◌, on_result, on_error,
}
use orbitplus.Worker.RateLimit.{RateLimitPolicy}
use orbitplus.Worker.Await.Alone.{IsAlone, await-two_polls}
use orbitplus.Worker.Await.{wait_for_retry, await_zone_rate_limit}
use orbitplus.Worker.Combine.{search_entry_identifiers}
use orbitplus.Worker.SearchBusMap.{
  fetch_in_slot, fetch_busmap, fetch_busmaps, read_search, fetch_search_and_busmaps,
}
use orbitplus.Worker.Attempt.{
  Attempt, resolve_credential, check_credential, push_outcome, credential_failure, health_failure,
  source_failure, check_orbitplus_health, fetch_trip_details, push_trip_details, process_once,
}
use orbitplus.Worker.Handle.{
  WorkerConfig, operation_error, cancelled_with, acknowledged_with, validate_config, parse_message,
  acknowledge, report_failure, retry_after, retry_or_report, conclude, after_attempt, attempt_loop,
  handle_parsed, handle,
}
use orbitplus.Worker.Trace.{start}
use orbitplus.Worker.Trace.Gate.{handle-ne-panicked}

-- The step never runs out of polls.
pub record IsTotal {W A : Type 0} (m : M W A) : Type 0 where
  pub ends : (s : Run W) → m s ≢ exhausted

done-ne-exhausted : {W A : Type 0} {a : A} {s : Run W} → done a s ≢ exhausted
done-ne-exhausted h = cc

panicked-ne-exhausted : {W A : Type 0} → ◌≢◌ {A = Step W A} panicked exhausted
panicked-ne-exhausted h = cc

module _ {W A : Type 0} where
  IsTotal-pure : (a : A) → IsTotal {W = W} (pure a)
  IsTotal-pure a = record { ends = λ s. done-ne-exhausted }

  IsTotal-call : (f : W → A × W) (note : A → Event) → IsTotal (call f note)
  IsTotal-call f note = record { ends = λ s. done-ne-exhausted }

  IsTotal-look : (f : W → A) → IsTotal (look f)
  IsTotal-look f = record { ends = λ s. done-ne-exhausted }

  IsTotal-if : (b : Bool) (m n : M W A) → IsTotal m → IsTotal n → IsTotal (if b then m else n)
  IsTotal-if true m n hm hn = hm
  IsTotal-if false m n hm hn = hn

module _ {W A B : Type 0} where
  continue-ends :
      (f : A → M W B)
      → ((a : A) → IsTotal (f a))
      → (r : Step W A) → r ≢ exhausted
      → continue r f ≢ exhausted
  continue-ends f h (done a s) n = (h a).ends s
  continue-ends f h exhausted n = λ e. n refl
  continue-ends f h panicked n = panicked-ne-exhausted

  IsTotal-bind :
      (m : M W A) (f : A → M W B) → IsTotal m → ((a : A) → IsTotal (f a)) → IsTotal (m >>= f)
  IsTotal-bind m f hm hf = record { ends = λ s. continue-ends f hf (m s) (hm.ends s) }

  IsTotal-result :
      (r : GoResult A) (fail : GoError → M W B) (f : A → M W B)
      → ((e : GoError) → IsTotal (fail e))
      → ((a : A) → IsTotal (f a))
      → IsTotal (on_result r fail f)
  IsTotal-result (ok a) fail f he hf = hf a
  IsTotal-result (err e) fail f he hf = he e

module _ {W B : Type 0} where
  IsTotal-error :
      (r : Option GoError) (fail : GoError → M W B) (k : M W B)
      → ((e : GoError) → IsTotal (fail e))
      → IsTotal k
      → IsTotal (on_error r fail k)
  IsTotal-error none fail k he hk = hk
  IsTotal-error (some e) fail k he hk = he e

module _ {W : Type 0} (d : Deps W) (c : Codec) (polls : ℕ)
    (quota : (zone : String) (s : Run W) → await_zone_rate_limit d polls zone s ≢ exhausted) where
  IsTotal-fetch_in_slot :
      (zone : String) (q : BitsTripDetailsRequest) → IsTotal (fetch_in_slot d polls zone q)
  unfolding fetch_in_slot
  IsTotal-fetch_in_slot zone q =
      IsTotal-bind (await_zone_rate_limit d polls zone) _ (record { ends = quota zone })
        λ w.
          IsTotal-error w _ _ (λ e. IsTotal-pure (err e))
            (IsTotal-call (d.fetch_trip_details q) (fetched q.message.action_type))

  module _ (m : TripDetailsRefreshMessage) (cred : BitsOperatorCredential) where
    IsTotal-fetch_busmap :
        (index : ℕ) (entry : Members) → IsTotal (fetch_busmap d c polls m cred index entry)
    unfolding fetch_busmap
    IsTotal-fetch_busmap index entry =
        IsTotal-result (search_entry_identifiers entry) _ _ (λ e. IsTotal-pure _)
          λ ids.
            IsTotal-bind (fetch_in_slot d polls m.zone_url _) _ (IsTotal-fetch_in_slot _ _)
              λ r. IsTotal-result r _ _ (λ e. IsTotal-pure _) (λ body. IsTotal-pure _)

    IsTotal-fetch_busmaps :
        (index : ℕ) (entries : List Members)
        → IsTotal (fetch_busmaps d c polls m cred index entries)
    unfolding fetch_busmaps
    IsTotal-fetch_busmaps index [] = IsTotal-pure _
    IsTotal-fetch_busmaps index (entry ∷ entries) =
        IsTotal-bind (fetch_busmap d c polls m cred index entry) _
          (IsTotal-fetch_busmap index entry)
          λ r.
            IsTotal-result r _ _ (λ e. IsTotal-pure _)
              λ combined.
                IsTotal-bind (fetch_busmaps d c polls m cred (index + 1) entries) _
                  (IsTotal-fetch_busmaps (index + 1) entries)
                  λ rs. IsTotal-result rs _ _ (λ e. IsTotal-pure _) (λ others. IsTotal-pure _)

    IsTotal-fetch_search_and_busmaps : IsTotal (fetch_search_and_busmaps d c polls m cred)
    unfolding fetch_search_and_busmaps
    IsTotal-fetch_search_and_busmaps =
        IsTotal-bind (fetch_in_slot d polls m.zone_url _) _ (IsTotal-fetch_in_slot _ _) λ r.
          IsTotal-result (read_search c r) _ _ (λ e. IsTotal-pure _)
            λ search.
              IsTotal-bind (fetch_busmaps d c polls m cred 0 search.entries) _
                (IsTotal-fetch_busmaps 0 search.entries)
                λ bs. IsTotal-result bs _ _ (λ e. IsTotal-pure _) (λ combined. IsTotal-pure _)

    IsTotal-fetch_trip_details : IsTotal (fetch_trip_details d c polls m cred)
    unfolding fetch_trip_details
    IsTotal-fetch_trip_details =
        IsTotal-bind _ _
          (IsTotal-if (str_eq m.action_type action_searchbusmap) _ _
            IsTotal-fetch_search_and_busmaps (IsTotal-fetch_in_slot m.zone_url _))
          λ r. IsTotal-pure _

  IsTotal-process_once : (m : TripDetailsRefreshMessage) → IsTotal (process_once d c polls m)
  unfolding process_once resolve_credential check_orbitplus_health push_trip_details
  IsTotal-process_once m =
      IsTotal-bind (resolve_credential d c polls m) _
        (IsTotal-bind
          (call (d.fetch_operator_credential m.operator_code) (credential m.operator_code)) _
          (IsTotal-call _ (credential m.operator_code)) (λ r. IsTotal-pure (check_credential m r)))
        λ cr.
          IsTotal-result cr _ _ (λ e. IsTotal-pure (credential_failure e))
            λ cred. IsTotal-bind (call d.check_health health) _ (IsTotal-call _ health) λ h.
              IsTotal-error h _ _ (λ e. IsTotal-pure (health_failure e))
                (IsTotal-bind (fetch_trip_details d c polls m cred) _
                  (IsTotal-fetch_trip_details m cred)
                  λ f.
                    IsTotal-result f _ _ (λ e. IsTotal-pure (source_failure e))
                      λ body.
                        IsTotal-bind (call (d.send_trip_details m body) (pushed body)) _
                          (IsTotal-call _ (pushed body)) (λ r. IsTotal-pure (push_outcome r)))

  IsTotal-acknowledge :
      (status : OrbitPlusStatus) (result : ExecutionResult)
      → IsTotal (acknowledge d c polls status result)
  unfolding acknowledge
  IsTotal-acknowledge status result =
      IsTotal-bind (call d.ack acked) _ (IsTotal-call d.ack acked) λ a.
        IsTotal-error a _ _ (λ e. IsTotal-pure (operation_error ack_error e status))
          (IsTotal-pure result)

  module _ (config : WorkerConfig) (m : TripDetailsRefreshMessage) where
    IsTotal-report_failure : (a : Attempt) → IsTotal (report_failure d c polls config m a)
    unfolding report_failure
    IsTotal-report_failure a =
        IsTotal-bind (call _ (dlq m.reference_id)) _ (IsTotal-call _ (dlq m.reference_id)) λ r.
          IsTotal-error r _ _ (λ e. IsTotal-pure (operation_error dlq_error e a.status))
            (IsTotal-acknowledge a.status (acknowledged_with dlq_reported a.status none))

    module _ (next : M W ExecutionResult) (total : IsTotal next) where
      IsTotal-retry_after :
          (a : Attempt) (o : Option ℤ) → IsTotal (retry_after d c polls config m next a o)
      unfolding retry_after wait_for_retry
      IsTotal-retry_after a none = record { ends = λ s. panicked-ne-exhausted }
      IsTotal-retry_after a (some delay) =
          IsTotal-bind (call (d.wait delay) (waited delay)) _ (IsTotal-call _ (waited delay))
            λ w. IsTotal-error w _ _ (λ e. IsTotal-pure (cancelled_with a.status e)) total

      IsTotal-conclude :
          (n : ℕ) (a : Attempt) (o : Option ExecutionStatus)
          → IsTotal (conclude d c polls config m next n a o)
      unfolding conclude retry_or_report
      IsTotal-conclude n a none =
          IsTotal-acknowledge a.status (acknowledged_with acknowledged a.status none)
      IsTotal-conclude n a (some f) = IsTotal-bind (look d.ctx_err) _ (IsTotal-look d.ctx_err) λ x.
          IsTotal-error x _ _ (λ e. IsTotal-pure (cancelled_with a.status e))
            (IsTotal-if (not a.may_retry || n == pos_part config.max_attempts) _ _
              (IsTotal-report_failure a)
              (IsTotal-retry_after a (get_elem? config.retry_delays (n - 1))))

    IsTotal-attempt_loop : (left n : ℕ) → IsTotal (attempt_loop d c polls config m left n)
    unfolding attempt_loop after_attempt
    IsTotal-attempt_loop zero n = IsTotal-pure (cancelled_with unset canceled)
    IsTotal-attempt_loop (suc left) n =
        IsTotal-bind (process_once d c polls m) _ (IsTotal-process_once m) λ a.
          IsTotal-conclude (attempt_loop d c polls config m left (suc n))
            (IsTotal-attempt_loop left (suc n)) n a a.failure

  IsTotal-handle_parsed :
      (config : WorkerConfig) (r : GoResult TripDetailsRefreshMessage)
      → IsTotal (handle_parsed d c polls config r)
  unfolding handle_parsed
  IsTotal-handle_parsed config (err e) = IsTotal-acknowledge unset _
  IsTotal-handle_parsed config (ok m) =
      IsTotal-attempt_loop config m (pos_part config.max_attempts) 1

  IsTotal-handle :
      (config : WorkerConfig) (today : Date) (decoded : GoResult TripDetailsRefreshMessage)
      → IsTotal (handle d c polls config today decoded)
  unfolding handle
  IsTotal-handle config today decoded =
      IsTotal-bind (look d.ctx_err) _ (IsTotal-look d.ctx_err) λ x.
        IsTotal-error x _ _ (λ e. IsTotal-pure (cancelled_with unset e))
          (IsTotal-handle_parsed config (parse_message today decoded))

  handle-returns :
      (config : WorkerConfig) (today : Date) (decoded : GoResult TripDetailsRefreshMessage) (w : W)
      → validate_config config ≡ none
      → (r : ExecutionResult) × (s : Run W) × (handle d c polls config today decoded (start w)
          ≡ done r s)
  handle-returns config today decoded w valid =
      outcome (handle d c polls config today decoded (start w))
        ((IsTotal-handle config today decoded).ends (start w))
        (handle-ne-panicked d c polls config valid today decoded w)
    where
      outcome :
          (x : Step W ExecutionResult)
          → x ≢ exhausted
          → x ≢ panicked
          → (r : ExecutionResult) × (s : Run W) × (x ≡ done r s)
      outcome (done r s) e p = (r, s, refl)
      outcome exhausted e p = absurd (e refl)
      outcome panicked e p = absurd (p refl)

-- A worker that is alone at its process-local limiter, whose waits last at least as long as asked for,
-- and that polls twice or more, handles every delivery to a result under a valid configuration,
-- whatever the delivery holds, whatever the state of the windows, and whatever else fails.
pub handle-returns_alone :
    (p : RateLimitPolicy) {W : Type 0} (d : Deps W) (alone : IsAlone p d) (c : Codec) (polls : ℕ)
    (config : WorkerConfig) (today : Date) (decoded : GoResult TripDetailsRefreshMessage) (w : W)
    → validate_config config ≡ none
    → (r : ExecutionResult) × (s : Run W) × (handle d c
          (suc (suc polls))
          config
          today
          decoded
          (start w)
        ≡ done r s)
handle-returns_alone p d alone c polls =
    handle-returns d c (suc (suc polls)) (λ zone s. await-two_polls p d alone zone polls s)

-- ===== src/Worker/Trace/Once.antt =====
-- The rule for one attempt, processOnce
-- (orbitplusworker/internal/application/worker/worker.go).
use orbitplus.Common.{ℕ, String, Bool, Option, none, some, List, ◌∷◌}
use orbitplus.Worker.Errors.{GoError, GoResult}
use orbitplus.Worker.Message.{TripDetailsRefreshMessage}
use orbitplus.Worker.Deps.{Deps, Codec, OperatorCredential, OrbitPlusStatus, ExecutionStatus}
use orbitplus.Worker.Exec.{Event, credential, health, pushed, call}
use orbitplus.Worker.Attempt.{
  Attempt, push_outcome, failed_with, credential_failure, health_failure, source_failure,
  check_credential, resolve_credential, check_orbitplus_health, fetch_trip_details,
  push_trip_details, process_once,
}
use orbitplus.Worker.Trace.{
  Triple, Triple-pure, Triple-call, Triple-bind, Triple-result, Triple-error,
}
use orbitplus.Worker.Trace.Work.{IsWork, fetch_trip_details-Keeps}

-- `P` at the start, `C` once the credential was asked for, `G` once OrbitPlus was found healthy,
-- `S` while a slot is held, `R` at the end.
pub record IsOnce (P C G S : List Event → Type 0) (R : Attempt → List Event → Type 0) : Type 0 where
  pub asked :
      (o : String) (r : GoResult OperatorCredential) (t : List Event) → P t → C (credential o r ∷ t)
  pub no_credential :
      (f : ExecutionStatus) (s : String) (b : Bool) (t : List Event) → C t → R (failed_with f s b) t
  pub unhealthy :
      (e : GoError) (f : ExecutionStatus) (s : String) (b : Bool) (t : List Event)
      → C t
      → R (failed_with f s b) (health (some e) ∷ t)
  pub healthy : (t : List Event) → C t → G (health none ∷ t)
  pub work : IsWork G S
  pub no_source :
      (f : ExecutionStatus) (s : String) (b : Bool) (t : List Event) → G t → R (failed_with f s b) t
  pub push :
      (body : String) (r : GoResult OrbitPlusStatus) (t : List Event)
      → G t
      → R (push_outcome r) (pushed body r ∷ t)

module _ {W : Type 0} {P C G S : List Event → Type 0} {R : Attempt → List Event → Type 0}
    (rules : IsOnce P C G S R) (d : Deps W) (c : Codec) (polls : ℕ)
    (m : TripDetailsRefreshMessage) where
  abbrev Checked : Option GoError → List Event → Type 0
  Checked none t = G t
  Checked (some e) t = (f : ExecutionStatus) (s : String) (b : Bool) → R (failed_with f s b) t

  checked : (r : Option GoError) (t : List Event) → C t → Checked r (health r ∷ t)
  checked none t h = rules.healthy t h
  checked (some e) t h = λ f s b. rules.unhealthy e f s b t h

  resolve_credential_lem : Triple P (resolve_credential d c polls m) (λ r. C)
  unfolding resolve_credential
  resolve_credential_lem =
      Triple-bind (λ r. C)
        (call (d.fetch_operator_credential m.operator_code) (credential m.operator_code)) _
        (Triple-call _ (credential m.operator_code) (rules.asked m.operator_code))
        λ r. Triple-pure (check_credential m r) (λ t h. h)

  push_trip_details_lem :
      (body : String) → Triple G (push_trip_details d c polls m body) (λ r. R (push_outcome r))
  unfolding push_trip_details
  push_trip_details_lem body = Triple-call _ (pushed body) (rules.push body)

  pub process_once_lem : Triple P (process_once d c polls m) R
  unfolding process_once check_orbitplus_health
  process_once_lem =
      Triple-bind (λ r. C) (resolve_credential d c polls m) _ resolve_credential_lem
        λ cr.
          Triple-result (λ r. C) cr _ _
            (λ e. Triple-pure (credential_failure e) (rules.no_credential _ _ _))
            λ cred.
              Triple-bind Checked (call d.check_health health) _
                (Triple-call d.check_health health checked)
                λ h.
                  Triple-error Checked h _ _ (λ e. Triple-pure (health_failure e) (λ t r. r _ _ _))
                    (Triple-bind (λ r. G) (fetch_trip_details d c polls m cred) _
                      (fetch_trip_details-Keeps rules.work d c polls m cred)
                      λ f.
                        Triple-result (λ r. G) f _ _
                          (λ e. Triple-pure (source_failure e) (rules.no_source _ _ _))
                          λ body.
                            Triple-bind (λ r. R (push_outcome r))
                              (push_trip_details d c polls m body) _ (push_trip_details_lem body)
                              λ r. Triple-pure (push_outcome r) (λ t q. q))

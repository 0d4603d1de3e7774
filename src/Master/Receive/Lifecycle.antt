-- ===== src/Master/Receive/Lifecycle.antt =====
-- A job is completed only when its trip details are stored
-- (orbitplus/internal/application/master/tripdetails_receiver.go).
use orbitplus.Common.{
  String, ◌≡◌, refl, inl, inr, true, false, Option, none, some, List, ◌∷◌, Bool-cases,
}
use orbitplus.Json.{Value}
use orbitplus.Master.Errors.{GoError}
use orbitplus.Master.Exec.{Deps, Run, written, completed, dead, write, skip}
use orbitplus.Master.Storage.{store}
use orbitplus.Master.Storage.Reported.{IsComplete, store-IsComplete}
use orbitplus.Master.Receive.{
  trip_details_reference_id, is_tracked, mark_dead, after_store, receive_trip_details,
}

module _ {W : Type 0} (d : Deps W) (failure_reason : GoError → String) where
  -- The outcome of a request with persistence, by the error of `Store`: the last write of the log and
  -- the error that is returned.
  pub data Outcome (value : Value) (codes : List String) (stored : Run W) (failure : Option GoError)
      : Option GoError → Run W → Type 0 where
    -- Stored, and the job is completed or the attempt to complete it has failed.
    completes :
        (e : Option GoError) (s : Run W)
        → failure ≡ none
        → is_tracked d failure_reason (trip_details_reference_id value) ≡ true
        → IsComplete d value stored.log
        → s.log ≡ written (completed (trip_details_reference_id value) codes) e ∷ stored.log
        → Outcome value codes stored failure e s
    -- Stored, with no job to complete.
    untracked :
        failure ≡ none
        → is_tracked d failure_reason (trip_details_reference_id value) ≡ false
        → IsComplete d value stored.log
        → Outcome value codes stored failure none stored
    -- Not stored: the job is marked dead with the trip codes that were, and the error is returned.
    buries :
        (cause : GoError) (e : Option GoError) (s : Run W)
        → failure ≡ some cause
        → is_tracked d failure_reason (trip_details_reference_id value) ≡ true
        → s.log
          ≡ written (dead (trip_details_reference_id value) codes (failure_reason cause)) e
            ∷ stored.log
        → Outcome value codes stored failure (some cause) s
    fails :
        (cause : GoError)
        → failure ≡ some cause
        → is_tracked d failure_reason (trip_details_reference_id value) ≡ false
        → Outcome value codes stored failure (some cause) stored

  after_store-Outcome :
      (value : Value) (codes : List String) (stored : Run W) (e : Option GoError)
      → (e ≡ none → IsComplete d value stored.log)
      → Outcome value codes stored e
          (after_store d failure_reason (trip_details_reference_id value) codes e stored).0
          (after_store d failure_reason (trip_details_reference_id value) codes e stored).1
  unfolding after_store mark_dead write skip
  after_store-Outcome value codes stored none h =
      elim (Bool-cases (is_tracked d failure_reason (trip_details_reference_id value))) [
        | inl t ↦ rw t (completes _ _ refl t (h refl) refl)
        | inr f ↦ rw f (untracked refl f (h refl))
      ]
  after_store-Outcome value codes stored (some cause) h =
      elim (Bool-cases (is_tracked d failure_reason (trip_details_reference_id value))) [
        | inl t ↦ rw t (buries cause _ _ refl t refl)
        | inr f ↦ rw f (fails cause refl f)
      ]

  -- A request ends in one of these ways: Store returned no error and everything is stored in full, and
  -- then the job, if it is tracked, is completed with the reported trip codes; or Store returned an
  -- error, that error is returned, and the job, if it is tracked, is marked dead with that error as
  -- its reason and with the trip codes that were stored.
  pub receive_trip_details-Outcome :
      (value : Value) (s : Run W)
      → Outcome value
          (store d value s).0.0
          (store d value s).1
          (store d value s).0.1
          (receive_trip_details d failure_reason true value s).0
          (receive_trip_details d failure_reason true value s).1
  unfolding receive_trip_details
  receive_trip_details-Outcome value s =
      after_store-Outcome value (store d value s).0.0 (store d value s).1 (store d value s).0.1
        (store-IsComplete d value s)

-- ===== src/Master/Receive.antt =====
-- Receiving a Worker's trip details and completing its job
-- (orbitplus/internal/application/master/tripdetails_receiver.go).
pub mod Lifecycle
use orbitplus.Common.{
  String, Option, none, some, Bool, true, false, List, [], ◌&&◌, not, if◌then◌else◌,
}
use orbitplus.Common.Text.{is_empty}
use orbitplus.Json.{Value, Members, obj}
use orbitplus.Master.Errors.{GoError, other}
use orbitplus.Master.Metadata.{string_field}
use orbitplus.Master.Exec.{Deps, M, completed, dead, write, skip, next}
use orbitplus.Master.Storage.{store}
use orbitplus.Master.Storage.Extract.{or_else}

-- tripDetailsReferenceID
unfoldable pub trip_details_reference_id : Value → String
trip_details_reference_id (obj root) =
    or_else (string_field root "referenceId") (string_field root "refid")
trip_details_reference_id _ = ""

module _ {W : Type 0} (d : Deps W) (failure_reason : GoError → String) where
  -- Whether the job has a row in the queue metrics.
  unfoldable pub is_tracked : String → Bool
  is_tracked reference_id = not (is_empty reference_id) && d.metrix_configured

  -- markDead; its own failure is only logged.
  unfoldable pub mark_dead : String → List String → GoError → M W (Option GoError)
  mark_dead reference_id trip_codes cause s =
      if is_tracked reference_id
      then (
        some cause,
        (write (dead reference_id trip_codes (failure_reason cause))
            (d.mark_dead reference_id trip_codes (failure_reason cause)) s).1,
      )
      else (some cause, s)

  -- What follows `Store`.
  unfoldable pub after_store : String → List String → Option GoError → M W (Option GoError)
  after_store reference_id trip_codes (some e) = mark_dead reference_id trip_codes e
  after_store reference_id trip_codes none =
      if is_tracked reference_id
      then write (completed reference_id trip_codes) (d.mark_completed reference_id trip_codes)
      else skip

  -- ReceiveTripDetails; `persistence` is false for a service with a nil persistence.
  unfoldable pub receive_trip_details : Bool → Value → M W (Option GoError)
  receive_trip_details false value s = after_store (trip_details_reference_id value) [] none s
  receive_trip_details true value s =
      let (r, s') = store d value s in after_store (trip_details_reference_id value) r.0 r.1 s'

  -- MarkTripDetailsDead
  unfoldable pub mark_trip_details_dead : String → String → M W (Option GoError)
  mark_trip_details_dead reference_id failure_message s =
      if d.metrix_configured
      then write (dead reference_id [] failure_message)
          (d.mark_dead reference_id [] failure_message) s
      else (some (other "queue metrix tracking is not configured"), s)

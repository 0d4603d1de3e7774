-- ===== src/Worker/Trace/Work.antt =====
-- Assertions through the outbound half of an attempt: waiting for the quota and the BITS requests
-- (orbitplusworker/internal/application/worker/worker.go and search_busmap.go).
use orbitplus.Common.{ℕ, zero, suc, ◌+◌, String, Option, none, some, List, [], ◌∷◌, ℤ, str_eq}
use orbitplus.Worker.Errors.{GoError, GoResult, err}
use orbitplus.Worker.Message.{TripDetailsRefreshMessage, action_searchbusmap}
use orbitplus.Json.{Members}
use orbitplus.Worker.Deps.{
  Deps, Codec, BitsOperatorCredential, BitsTripDetailsRequest, AcquireReply, granted, over_quota,
  failed,
}
use orbitplus.Worker.Exec.{Event, acquired, waited, fetched, M, call}
use orbitplus.Worker.Await.{poll_delay, wait_for_retry, await_reply, await_zone_rate_limit}
use orbitplus.Worker.Combine.{search_entry_identifiers}
use orbitplus.Worker.SearchBusMap.{
  busmap_message, fetch_in_slot, fetch_busmap, fetch_busmaps, read_search, fetch_search_and_busmaps,
}
use orbitplus.Worker.Attempt.{fetch_trip_details}
use orbitplus.Worker.Trace.{
  Triple, Keeps, Triple-pure, Triple-call, Triple-bind, Triple-result, Triple-error, Triple-if,
}

-- `P` holds between two requests, and `S` between taking a slot and using it.
pub record IsWork (P S : List Event → Type 0) : Type 0 where
  pub over : (z : String) (delay : ℤ) (t : List Event) → P t → P (acquired z (over_quota delay) ∷ t)
  pub slot : (z : String) (t : List Event) → P t → S (acquired z granted ∷ t)
  pub fail_open : (z : String) (e : GoError) (t : List Event) → P t → S (acquired z (failed e) ∷ t)
  pub wait : (delay : ℤ) (r : Option GoError) (t : List Event) → P t → P (waited delay r ∷ t)
  pub fetch : (a : String) (r : GoResult String) (t : List Event) → S t → P (fetched a r ∷ t)

module _ {W : Type 0} {P S : List Event → Type 0} (work : IsWork P S) (d : Deps W) where
  -- With no error the slot is taken.
  abbrev Slot : Option GoError → List Event → Type 0
  Slot none t = S t
  Slot (some e) t = P t

  abbrev Replied : String → AcquireReply → List Event → Type 0
  Replied zone granted t = S t
  Replied zone (failed e) t = S t
  Replied zone (over_quota delay) t = P t

  replied :
      (zone : String) (r : AcquireReply) (t : List Event)
      → P t
      → Replied zone r (acquired zone r ∷ t)
  replied zone granted t p = work.slot zone t p
  replied zone (failed e) t p = work.fail_open zone e t p
  replied zone (over_quota delay) t p = work.over zone delay t p

  await_reply-Slot :
      (rest : M W (Option GoError)) (zone : String) (r : AcquireReply)
      → Triple P rest Slot
      → Triple (Replied zone r) (await_reply d rest r) Slot
  unfolding await_reply
  await_reply-Slot rest zone granted h = Triple-pure none (λ t s. s)
  await_reply-Slot rest zone (failed e) h = Triple-pure none (λ t s. s)
  await_reply-Slot rest zone (over_quota delay) h =
      Triple-bind (λ w. P) (wait_for_retry d (poll_delay d delay)) _
        (Triple-call _ (waited (poll_delay d delay))
          (λ r t p. work.wait (poll_delay d delay) r t p))
        λ w. Triple-error (λ r. P) w _ _ (λ e. Triple-pure (some e) (λ t p. p)) h

  await-Slot : (polls : ℕ) (zone : String) → Triple P (await_zone_rate_limit d polls zone) Slot
  unfolding await_zone_rate_limit
  await-Slot zero zone = record { at = λ s p. tt }
  await-Slot (suc polls) zone =
      Triple-bind (Replied zone) (call (d.acquire zone) (acquired zone))
        (await_reply d (await_zone_rate_limit d polls zone))
        (Triple-call (d.acquire zone) (acquired zone) (replied zone))
        λ r. await_reply-Slot (await_zone_rate_limit d polls zone) zone r (await-Slot polls zone)

  module _ (c : Codec) (polls : ℕ) where
    fetch_in_slot-Keeps :
        (zone : String) (q : BitsTripDetailsRequest) → Keeps P (fetch_in_slot d polls zone q)
    unfolding fetch_in_slot
    fetch_in_slot-Keeps zone q =
        Triple-bind Slot (await_zone_rate_limit d polls zone) _ (await-Slot polls zone) λ w.
          Triple-error Slot w _ _ (λ e. Triple-pure (err e) (λ t p. p))
            (Triple-call (d.fetch_trip_details q) (fetched q.message.action_type)
              (work.fetch q.message.action_type))

    module _ (m : TripDetailsRefreshMessage) (cred : BitsOperatorCredential) where
      fetch_busmap-Keeps :
          (index : ℕ) (entry : Members) → Keeps P (fetch_busmap d c polls m cred index entry)
      unfolding fetch_busmap
      fetch_busmap-Keeps index entry =
          Triple-result (λ r. P) (search_entry_identifiers entry) _ _
            (λ e. Triple-pure _ (λ t p. p))
            λ ids.
              Triple-bind (λ r. P) (fetch_in_slot d polls m.zone_url _) _
                (fetch_in_slot-Keeps m.zone_url
                  (record { message = busmap_message m ids; credential = cred }))
                λ r.
                  Triple-result (λ r. P) r _ _ (λ e. Triple-pure _ (λ t p. p))
                    (λ body. Triple-pure _ (λ t p. p))

      fetch_busmaps-Keeps :
          (index : ℕ) (entries : List Members)
          → Keeps P (fetch_busmaps d c polls m cred index entries)
      unfolding fetch_busmaps
      fetch_busmaps-Keeps index [] = Triple-pure _ (λ t p. p)
      fetch_busmaps-Keeps index (entry ∷ entries) =
          Triple-bind (λ r. P) (fetch_busmap d c polls m cred index entry) _
            (fetch_busmap-Keeps index entry)
            λ r.
              Triple-result (λ r. P) r _ _ (λ e. Triple-pure _ (λ t p. p))
                λ combined.
                  Triple-bind (λ r. P) (fetch_busmaps d c polls m cred (index + 1) entries) _
                    (fetch_busmaps-Keeps (index + 1) entries)
                    λ rs.
                      Triple-result (λ r. P) rs _ _ (λ e. Triple-pure _ (λ t p. p))
                        (λ others. Triple-pure _ (λ t p. p))

      fetch_search_and_busmaps-Keeps : Keeps P (fetch_search_and_busmaps d c polls m cred)
      unfolding fetch_search_and_busmaps
      fetch_search_and_busmaps-Keeps =
          Triple-bind (λ r. P) (fetch_in_slot d polls m.zone_url _) _
            (fetch_in_slot-Keeps m.zone_url _)
            λ r.
              Triple-result (λ r. P) (read_search c r) _ _ (λ e. Triple-pure _ (λ t p. p))
                λ search.
                  Triple-bind (λ r. P) (fetch_busmaps d c polls m cred 0 search.entries) _
                    (fetch_busmaps-Keeps 0 search.entries)
                    λ bs.
                      Triple-result (λ r. P) bs _ _ (λ e. Triple-pure _ (λ t p. p))
                        (λ combined. Triple-pure _ (λ t p. p))

    -- The whole of fetchTripDetails keeps what a wait, a slot and its request keep.
    pub fetch_trip_details-Keeps :
        (m : TripDetailsRefreshMessage) (cred : BitsOperatorCredential)
        → Keeps P (fetch_trip_details d c polls m cred)
    unfolding fetch_trip_details
    fetch_trip_details-Keeps m cred =
        Triple-bind (λ r. P) _ _
          (Triple-if (str_eq m.action_type action_searchbusmap) _ _
            (fetch_search_and_busmaps-Keeps m cred) (fetch_in_slot-Keeps m.zone_url _))
          λ r. Triple-pure _ (λ t p. p)

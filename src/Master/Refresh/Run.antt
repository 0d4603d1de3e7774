-- ===== src/Master/Refresh/Run.antt =====
-- OrbitRouteRefreshService.Run (orbitplus/internal/application/master/orbit_route_refresh.go).
pub mod Orderly
use Prim.Native.String.{◌++◌ as join}
use orbitplus.Common.{
  ℕ, ℤ, String, Bool, true, false, Option, none, some, List, [], ◌∷◌, not, ◌||◌, leb, ltb,
  if◌then◌else◌, pos,
}
use orbitplus.Common.Int.{sub_ℕ}
use orbitplus.Common.Date.{Date}
use orbitplus.Json.{obj}
use orbitplus.Master.Errors.{GoError, GoResult, ok, err, other, wrapped}
use orbitplus.Master.Exec.{wrap_error}
use orbitplus.Master.Metadata.{TripDetailsStageMetadata}
use orbitplus.Master.Live.Cold.{Operator}
use orbitplus.Master.Inventory.{
  QueueMetrix, queue_status_received, queue_status_queued, queue_status_dead, failure_reason,
}
use orbitplus.Master.Inventory.Receive.{QueueEvent, saved, published, queued, died}
use orbitplus.Master.Refresh.{
  periodic_route_refresh_activity_type, OrbitRouteDefinition, RouteRefreshPair, HttpReply, no_reply,
  reply, RouteRefresher, Refreshing, select_operators, url_of, orbit_route_priority, routes_from,
  nul_text, future_route_pairs, is_already_queued, periodic_job,
}

-- Whether a route was queued, and an error.
abbrev pub Queueing : Type 0
Queueing = Bool × Option GoError

module _ {W : Type 0} where
  unfoldable pub note_call :
      (Option GoError → QueueEvent)
      → (W → Option GoError × W)
      → Refreshing W
      → Option GoError × Refreshing W
  note_call event f s = let (e, w) = f s.world in (e, record s { world = w; log = event e ∷ s.log })

  abbrev pub at_world : W → Refreshing W → Refreshing W
  at_world w s = record s { world = w }

module _ {W : Type 0} (d : RouteRefresher W) where
  unfoldable pub fetch_reply : HttpReply → GoResult (List (String × OrbitRouteDefinition))
  fetch_reply no_reply = err (other "request Orbit routes")
  fetch_reply (reply status body) =
      if ltb status 200 || leb 300 status
      then err (other (join "Orbit routes returned HTTP " (d.itoa status)))
      else elim body [ none ↦ err (other "decode Orbit routes") | some routes ↦ ok routes ]

  unfoldable pub fetch_at : Option String → W → GoResult (List (String × OrbitRouteDefinition)) × W
  fetch_at none w = (err (other "create Orbit route request"), w)
  fetch_at (some endpoint) w = let (r, w') = d.http_get endpoint w in (fetch_reply r, w')

  -- fetchOrbitRoutes
  unfoldable pub fetch_orbit_routes :
      String → W → GoResult (List (String × OrbitRouteDefinition)) × W
  fetch_orbit_routes operator_code w =
      fetch_at (d.top_route_url d.base_url operator_code d.access_token) w

  unfoldable pub periodic_route_reference_id : RouteRefreshPair → String
  periodic_route_reference_id route = join "periodic-route-" (
      d.sha256_hex (
        join periodic_route_refresh_activity_type (
          join nul_text (
            join route.operator_code (
              join nul_text (
                join route.trip_date (
                  join nul_text (
                    join route.from_station (
                      join nul_text (
                        join route.to_station
                          (join nul_text (d.rfc3339_nano route.updated_at))))))))))))

  -- markDead; its own failure is only logged.
  unfoldable pub mark_route_dead : QueueMetrix → GoError → Refreshing W → Refreshing W
  mark_route_dead metric cause s =
      let dead : QueueMetrix = record metric {
        queue_status = queue_status_dead;
        dead_lettered_at = some (d.now s.world);
        failure_message = failure_reason d.error_text cause;
        updated_at = d.now s.world;
      } in
      (note_call (died dead) (d.mark_dead dead) s).1

  unfoldable pub route_metric : String → RouteRefreshPair → String → String → ℕ → QueueMetrix
  route_metric reference_id route zone_url payload now = record {
    reference_id = reference_id;
    activity_type = periodic_route_refresh_activity_type;
    action_type = "searchbusmap";
    operator_code = route.operator_code;
    schedule_code = "";
    trip_code = "";
    source_station_code = route.from_station;
    destination_station_code = route.to_station;
    trip_date = route.trip_date;
    zone = zone_url;
    worker_payload = payload;
    updated_trip_codes = [];
    queue_status = queue_status_received;
    queued_at = none;
    completed_at = none;
    dead_lettered_at = none;
    failure_message = "";
    updated_at = now;
  }

  abbrev pub is_ok : Option GoError → Bool
  is_ok none = true
  is_ok (some e) = false

  unfoldable pub after_route_publish :
      QueueMetrix → Option GoError → Refreshing W → Queueing × Refreshing W
  after_route_publish metric (some e) s =
      ((false, some (wrapped "publish periodic Worker job" e)), mark_route_dead metric e s)
  after_route_publish metric none s =
      let done : QueueMetrix = record metric {
        queue_status = queue_status_queued;
        queued_at = some (d.now s.world);
        updated_at = d.now s.world;
      } in
      let (e, s') = note_call (queued done) (d.mark_queued done) s in
      ((is_ok e, wrap_error "mark periodic queue metric queued" e), s')

  unfoldable pub after_route_save :
      ℕ → QueueMetrix → Option GoError → Refreshing W → Queueing × Refreshing W
  after_route_save priority metric (some e) s =
      ((false, some (wrapped "save periodic queue metric" e)), s)
  after_route_save priority metric none s =
      let (e, s') =
        note_call (published metric.reference_id metric.worker_payload priority)
          (d.publish metric.reference_id metric.worker_payload priority) s in
      after_route_publish metric e s'

  unfoldable pub save_route : ℕ → QueueMetrix → Refreshing W → Queueing × Refreshing W
  save_route priority metric s =
      let (e, s') = note_call (saved metric) (d.save_received metric) s in
      after_route_save priority metric e s'

  unfoldable pub publish_payload :
      String
      → RouteRefreshPair
      → String
      → ℕ
      → GoResult String
      → Refreshing W
      → Queueing × Refreshing W
  publish_payload reference_id route zone_url priority (err e) s =
      ((false, some (wrapped "encode periodic Worker job" e)), s)
  publish_payload reference_id route zone_url priority (ok payload) s =
      save_route priority (route_metric reference_id route zone_url payload (d.now s.world)) s

  unfoldable pub publish_unless_queued :
      String
      → RouteRefreshPair
      → String
      → ℕ
      → GoResult (Option QueueMetrix)
      → Refreshing W
      → Queueing × Refreshing W
  publish_unless_queued reference_id route zone_url priority (err e) s =
      ((false, some (wrapped "find periodic queue metric" e)), s)
  publish_unless_queued reference_id route zone_url priority (ok existing) s =
      if is_already_queued existing
      then ((false, none), s)
      else publish_payload reference_id route zone_url priority
          (d.marshal (obj (periodic_job reference_id route zone_url))) s

  -- publishRoute
  unfoldable pub publish_route :
      RouteRefreshPair → String → ℕ → Refreshing W → Queueing × Refreshing W
  publish_route route zone_url priority s =
      let reference_id = periodic_route_reference_id route in
      let (r, w) = d.find_by_reference_id reference_id s.world in
      publish_unless_queued reference_id route zone_url priority r (at_world w s)

  -- The rest of a loop, unless this round failed.
  unfoldable pub unless_error :
      Option GoError
      → (Refreshing W → Option GoError × Refreshing W)
      → Refreshing W
      → Option GoError × Refreshing W
  unless_error none rest s = rest s
  unless_error (some e) rest s = (some e, s)

  -- A route that Orbit does not list is left out.
  unfoldable pub publish_listed :
      RouteRefreshPair → String → Option ℕ → Refreshing W → Option GoError × Refreshing W
  publish_listed route zone_url none s = (none, s)
  publish_listed route zone_url (some priority) s =
      let ((done, e), s') = publish_route route zone_url priority s in (e, s')

  unfoldable pub publish_routes :
      String
      → List (String × OrbitRouteDefinition)
      → List RouteRefreshPair
      → Refreshing W
      → Option GoError × Refreshing W
  publish_routes zone_url orbit_routes [] s = (none, s)
  publish_routes zone_url orbit_routes (route ∷ routes) s =
      let rest = publish_routes zone_url orbit_routes routes in
      let (e, s') =
        publish_listed route zone_url
          (orbit_route_priority (routes_from route.from_station orbit_routes) route.to_station) s in
      unless_error e rest s'

  unfoldable pub publish_fetched :
      String
      → String
      → List RouteRefreshPair
      → GoResult (List (String × OrbitRouteDefinition))
      → Refreshing W
      → Option GoError × Refreshing W
  publish_fetched operator_code zone_url routes (err e) s =
      (some (wrapped (join "fetch Orbit routes for operator " operator_code) e), s)
  publish_fetched operator_code zone_url routes (ok orbit_routes) s =
      publish_routes zone_url orbit_routes routes s

  -- zoneURLs[operatorCode], "" for a missing key
  abbrev pub url_or_empty : Option String → String
  url_or_empty none = ""
  url_or_empty (some url) = url

  unfoldable pub publish_groups :
      List (String × String)
      → List (String × List RouteRefreshPair)
      → Refreshing W
      → Option GoError × Refreshing W
  publish_groups zone_urls [] s = (none, s)
  publish_groups zone_urls ((code, routes) ∷ groups) s =
      let rest = publish_groups zone_urls groups in
      let (r, w) = fetch_orbit_routes code s.world in
      let (e, s') =
        publish_fetched code (url_or_empty (url_of code zone_urls)) routes r (at_world w s) in
      unless_error e rest s'

  unfoldable pub publish_stale :
      Date
      → List (String × String)
      → GoResult (List TripDetailsStageMetadata)
      → Refreshing W
      → Option GoError × Refreshing W
  publish_stale today selected (err e) s = (some (wrapped "list stale route metadata" e), s)
  publish_stale today selected (ok rows) s =
      publish_groups selected (future_route_pairs today selected rows) s

  unfoldable pub run_selected :
      ℕ → Date → GoResult (List (String × String)) → Refreshing W → Option GoError × Refreshing W
  run_selected now today (err e) s = (some e, s)
  run_selected now today (ok selected) s =
      let (r, w) = d.list_stale_route_metadata (sub_ℕ now d.stale_duration) s.world in
      publish_stale today selected r (at_world w s)

  unfoldable pub run_operators :
      ℕ → Date → GoResult (List Operator) → Refreshing W → Option GoError × Refreshing W
  run_operators now today (err e) s = (some (wrapped "list active operators" e), s)
  run_operators now today (ok operators) s =
      run_selected now today (select_operators d.getenv operators []) s

  unfoldable pub run_locked : Refreshing W → Option GoError × Refreshing W
  run_locked s =
      let (r, w) = d.list_active_operators s.world in
      run_operators (d.now s.world) (d.today s.world) r (at_world w s)

  -- Run
  unfoldable pub run : Refreshing W → Option GoError × Refreshing W
  run s =
      let (e, s') = run_locked (record s { locked = true }) in
      if not d.configured
      then (some (other "Orbit route refresh is not configured"), s)
      else if s.locked
      then (some (other "Orbit route refresh is already running"), s)
      else (e, record s' { locked = false })

-- ===== src/Master/Refresh.antt =====
-- OrbitRouteRefreshService: queueing stale future routes
-- (orbitplus/internal/application/master/orbit_route_refresh.go). Logging is left out. The order of a
-- list stands for the order in which Go ranges over a map.
pub mod Run
pub mod Pairs
pub mod Groups
pub mod Future
use Prim.Native.Char.{nul}
use Prim.Native.String.{◌++◌ as join}
use orbitplus.Common.{
  ℕ, ℤ, ◌+◌, String, Bool, true, false, Option, none, some, List, [], ◌∷◌, ◌++◌, not, ◌&&◌, ◌||◌,
  ◌==◌, elem, str_eq, leb, ltb, if◌then◌else◌, pos,
}
use orbitplus.Common.Int.{sub_ℕ}
use orbitplus.Common.Separator.{separator}
use orbitplus.Common.Text.{is_empty}
use orbitplus.Common.Date.{Date, parse_date, before, add_week}
use orbitplus.Json.{Value, Members, str, obj, end, member}
use orbitplus.Master.Errors.{GoError, GoResult, ok, err, other, wrapped}
use orbitplus.Master.Exec.{wrap_error}
use orbitplus.Master.Metadata.{TripDetailsStageMetadata}
use orbitplus.Master.Zones.{zone_bits_base_url}
use orbitplus.Master.Live.Cold.{Operator}
use orbitplus.Master.Inventory.{
  QueueMetrix, QueueStatus, queue_status_received, queue_status_queued, queue_status_completed,
  queue_status_dead, failure_reason,
}
use orbitplus.Master.Inventory.Receive.{QueueEvent, saved, published, queued, died}

abbrev pub periodic_route_refresh_activity_type : String
periodic_route_refresh_activity_type = "periodic-route-refresh"

pub record OrbitRouteDefinition : Type 0 where
  pub route : List String
  pub top_route : List String

pub record RouteRefreshPair : Type 0 where
  pub operator_code : String
  pub trip_date : String
  pub from_station : String
  pub to_station : String
  pub updated_at : ℕ

-- An answer to an HTTP request: its status and what its body decodes to.
pub data HttpReply : Type 0 where
  no_reply : HttpReply
  reply : ℕ → Option (List (String × OrbitRouteDefinition)) → HttpReply

-- The configuration and what the service calls. `configured` is false when one of its repositories
-- is nil; `top_route_url` and `http_get` are net/url and net/http; `today` is the UTC date of `now`.
pub record RouteRefresher (W : Type 0) : Type 0 where
  pub configured : Bool
  pub base_url : String
  pub access_token : String
  pub stale_duration : ℕ
  pub top_route_url : String → String → String → Option String
  pub http_get : String → W → HttpReply × W
  pub list_active_operators : W → GoResult (List Operator) × W
  pub list_stale_route_metadata : ℤ → W → GoResult (List TripDetailsStageMetadata) × W
  pub find_by_reference_id : String → W → GoResult (Option QueueMetrix) × W
  pub save_received : QueueMetrix → W → Option GoError × W
  pub publish : String → String → ℕ → W → Option GoError × W
  pub mark_queued : QueueMetrix → W → Option GoError × W
  pub mark_dead : QueueMetrix → W → Option GoError × W
  pub now : W → ℕ
  pub today : W → Date
  pub getenv : String → String
  pub marshal : Value → GoResult String
  pub error_text : GoError → String
  pub rfc3339_nano : ℕ → String
  pub itoa : ℕ → String
  pub sha256_hex : String → String

-- The world, the mutex, and the calls so far, newest first, which no step reads.
pub record Refreshing (W : Type 0) : Type 0 where
  pub world : W
  pub locked : Bool
  pub log : List QueueEvent

-- Operator.Active
unfoldable pub is_active : ℤ → Bool
is_active (pos n) = n == 1
is_active _ = false

-- active and zoneURLs: the codes of the active operators with their URLs, the last one first.
unfoldable pub select_operators :
    (String → String) → List Operator → List (String × String) → GoResult (List (String × String))
select_operators getenv [] selected = ok selected
select_operators getenv (operator ∷ operators) selected =
    if not (is_active operator.active_flag)
    then select_operators getenv operators selected
    else elim (zone_bits_base_url getenv operator.zone_code) [
      | none ↦ err (
          other (join "Orbit route refresh zone is unavailable for active operator " operator.code))
      | some url ↦ select_operators getenv operators ((operator.code, url) ∷ selected)
    ]

unfoldable pub url_of : String → List (String × String) → Option String
url_of code [] = none
url_of code ((c, url) ∷ selected) = if str_eq c code then some url else url_of code selected

abbrev pub is_some : {A : Type 0} → Option A → Bool
is_some none = false
is_some (some a) = true

-- orbitRoutePriority
unfoldable pub orbit_route_priority : OrbitRouteDefinition → String → Option ℕ
orbit_route_priority route to_station =
    if elem to_station route.top_route
    then some 9
    else if elem to_station route.route
    then some 8
    else none

unfoldable pub no_route : OrbitRouteDefinition
no_route = record { route = []; top_route = [] }

-- orbitRoutes[from], the zero value for a missing key
unfoldable pub routes_from : String → List (String × OrbitRouteDefinition) → OrbitRouteDefinition
routes_from station [] = no_route
routes_from station ((s, r) ∷ rest) = if str_eq s station then r else routes_from station rest

abbrev pub nul_text : String
nul_text = separator nul

unfoldable pub pair_key : String → String → String → String → String
pair_key operator_code trip_date from to =
    join operator_code
      (join nul_text (join trip_date (join nul_text (join from (join nul_text to)))))

unfoldable pub is_in_week : Date → String → Bool
is_in_week today trip_date = elim (parse_date trip_date) [
  | none ↦ false
  | some date ↦ not (before date today) && not (before (add_week today) date)
]

-- Whether a row of stale metadata is a candidate.
unfoldable pub is_candidate : Date → List (String × String) → TripDetailsStageMetadata → Bool
is_candidate today active row =
    is_some (url_of row.operator_code active)
    && is_in_week today row.trip_date
    && not (is_empty row.from_station_code)
    && not (is_empty row.to_station_code)

unfoldable pub pair_of_row : TripDetailsStageMetadata → RouteRefreshPair
pair_of_row row = record {
  operator_code = row.operator_code;
  trip_date = row.trip_date;
  from_station = row.from_station_code;
  to_station = row.to_station_code;
  updated_at = row.updated_at;
}

unfoldable pub row_key : TripDetailsStageMetadata → String
row_key row = pair_key row.operator_code row.trip_date row.from_station_code row.to_station_code

-- pairs[key] = candidate, unless a pair at least as new is there.
unfoldable pub put_pair :
    String → RouteRefreshPair → List (String × RouteRefreshPair) → List (String × RouteRefreshPair)
put_pair key candidate [] = (key, candidate) ∷ []
put_pair key candidate ((k, existing) ∷ pairs) =
    let rest = put_pair key candidate pairs in
    if str_eq k key
    then (k, if ltb existing.updated_at candidate.updated_at then candidate else existing) ∷ pairs
    else (k, existing) ∷ rest

unfoldable pub collect_pairs :
    Date
    → List (String × String)
    → List TripDetailsStageMetadata
    → List (String × RouteRefreshPair)
    → List (String × RouteRefreshPair)
collect_pairs today active [] pairs = pairs
collect_pairs today active (row ∷ rows) pairs = collect_pairs today active rows (
    if is_candidate today active row then put_pair (row_key row) (pair_of_row row) pairs else pairs)

-- result[operatorCode] = append(..., route)
unfoldable pub add_to_group :
    RouteRefreshPair → List (String × List RouteRefreshPair) → List (String × List RouteRefreshPair)
add_to_group route [] = (route.operator_code, route ∷ []) ∷ []
add_to_group route ((code, routes) ∷ groups) =
    let rest = add_to_group route groups in
    if str_eq code route.operator_code
    then (code, routes ++ (route ∷ [])) ∷ groups
    else (code, routes) ∷ rest

unfoldable pub group_pairs :
    List (String × RouteRefreshPair)
    → List (String × List RouteRefreshPair)
    → List (String × List RouteRefreshPair)
group_pairs [] groups = groups
group_pairs ((k, route) ∷ pairs) groups = group_pairs pairs (add_to_group route groups)

unfoldable pub future_route_pairs :
    Date
    → List (String × String)
    → List TripDetailsStageMetadata
    → List (String × List RouteRefreshPair)
future_route_pairs today active rows = group_pairs (collect_pairs today active rows []) []

-- Does this row keep the route from being queued again?
unfoldable pub is_settled : QueueStatus → Bool
is_settled queue_status_queued = true
is_settled queue_status_completed = true
is_settled _ = false

unfoldable pub is_already_queued : Option QueueMetrix → Bool
is_already_queued none = false
is_already_queued (some metric) = is_settled metric.queue_status

unfoldable pub periodic_job : String → RouteRefreshPair → String → Members
periodic_job reference_id route zone_url = member "referenceId" (str reference_id) (
    member "operatorCode" (str route.operator_code) (
      member "actionType" (str "searchbusmap") (
        member "zoneURL" (str zone_url) (
          member "fromCode" (str route.from_station) (
            member "toCode" (str route.to_station)
              (member "tripDate" (str route.trip_date) end))))))

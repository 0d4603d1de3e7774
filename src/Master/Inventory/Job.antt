-- ===== src/Master/Inventory/Job.antt =====
-- Building the Worker's job for one inventory item
-- (orbitplus/internal/application/master/orionmax_inventory_job_builder.go).
use orbitplus.Common.{
  ℕ, String, Bool, true, Option, none, some, List, [], ◌∷◌, ◌||◌, ◌&&◌, not, str_eq, leb,
  if◌then◌else◌,
}
use orbitplus.Common.Text.{is_empty, trim_space, to_upper}
use orbitplus.Common.Date.{parse_date}
use orbitplus.Common.Pieces.{byte_count, take_bytes}
use orbitplus.Json.{Value, Members, str, obj, end, member}
use orbitplus.Master.Errors.{GoResult, ok, err, other, wrapped}
use orbitplus.Master.Metadata.{TripDetailsStageMetadata}
use orbitplus.Master.Zones.{zone_bits_base_url}
use orbitplus.Master.Inventory.{
  QueueMetrix, queue_status_received, InventoryItem, InventoryEvent, InventoryRefreshJob,
  invalid_inventory_event, action_type_of,
}

-- decodeInventoryRefreshEvent on the decoded body
unfoldable pub check_event : String → InventoryEvent → GoResult (String × InventoryEvent)
check_event activity_type event =
    if not (is_empty event.activity_type) && not (str_eq event.activity_type activity_type)
    then err (other "inventory activity types do not match")
    else (elim event.data_items [
      | [] ↦ err invalid_inventory_event
      | item ∷ items ↦ ok (action_type_of activity_type, event)
    ])

-- A character that the tenth byte would cut in two is dropped whole.
unfoldable pub metric_trip_date : String → String
metric_trip_date value =
    let date = trim_space value in if leb 10 (byte_count date) then take_bytes 10 date else date

unfoldable pub new_queue_metrix : String → String → String → InventoryItem → ℕ → QueueMetrix
new_queue_metrix activity_type action_type zone item now = record {
  reference_id = item.reference_id;
  activity_type = activity_type;
  action_type = action_type;
  operator_code = item.operator_code;
  schedule_code = item.schedule_code;
  trip_code = trim_space item.trip_code;
  source_station_code = item.source;
  destination_station_code = item.destination;
  trip_date = metric_trip_date item.doj;
  zone = zone;
  worker_payload = "";
  updated_trip_codes = [];
  queue_status = queue_status_received;
  queued_at = none;
  completed_at = none;
  dead_lettered_at = none;
  failure_message = "";
  updated_at = now;
}

-- The date text, if it is a date.
unfoldable pub normalize_trip_date : String → Option String
normalize_trip_date value = elim (parse_date (metric_trip_date value)) [
  | none ↦ none
  | some date ↦ some (metric_trip_date value)
]

unfoldable pub all_of_trip : String → List TripDetailsStageMetadata → Bool
all_of_trip trip_code [] = true
all_of_trip trip_code (c ∷ candidates) =
    str_eq c.trip_code trip_code && all_of_trip trip_code candidates

-- The trip code of the candidates, when they have exactly one.
unfoldable pub single_trip_code : List TripDetailsStageMetadata → Option String
single_trip_code [] = none
single_trip_code (c ∷ candidates) =
    if all_of_trip c.trip_code candidates then some c.trip_code else none

-- tripCode after `if err != nil { tripCode = "" }`
abbrev pub code_or_empty : Option String → String
code_or_empty none = ""
code_or_empty (some trip_code) = trip_code

unfoldable pub code_of_candidates : GoResult (List TripDetailsStageMetadata) → String
code_of_candidates (ok candidates) = code_or_empty (single_trip_code candidates)
code_of_candidates (err e) = ""

-- The job: the members that a search and a busmap have in common, and those of each.
unfoldable pub job_base : InventoryItem → String → String → Members → Members
job_base item action_type zone_url rest = member "referenceId" (str item.reference_id) (
    member "operatorCode" (str item.operator_code)
      (member "actionType" (str action_type) (member "zoneURL" (str zone_url) rest)))

unfoldable pub job_route : InventoryItem → String → String → Members
job_route item action_type trip_date =
    if str_eq action_type "busmap"
    then member "fromStationCode" (str item.source)
        (member "toStationCode" (str item.destination) (member "travelDate" (str trip_date) end))
    else member "fromCode" (str item.source)
        (member "toCode" (str item.destination) (member "tripDate" (str trip_date) end))

unfoldable pub job_trip : String → Members → Members
job_trip trip_code rest =
    if not (is_empty trip_code) then member "tripCode" (str trip_code) rest else rest

unfoldable pub job_of : InventoryItem → String → String → String → String → Members
job_of item action_type zone_url trip_code trip_date =
    job_base item action_type zone_url (job_trip trip_code (job_route item action_type trip_date))

-- The schedule metadata, `none` for a nil reader; the environment; json.Marshal.
pub record JobDeps (W : Type 0) : Type 0 where
  pub find_stages_by_schedule :
      Option (String → String → String → W → GoResult (List TripDetailsStageMetadata) × W)
  pub getenv : String → String
  pub marshal : Value → GoResult String

module _ {W : Type 0} (d : JobDeps W) where
  -- resolveInventoryTripCode, "" for its errors
  unfoldable pub resolve_by_schedule :
      Option (String → String → String → W → GoResult (List TripDetailsStageMetadata) × W)
      → InventoryItem
      → String
      → W
      → String × W
  resolve_by_schedule none item trip_date w = ("", w)
  resolve_by_schedule (some find) item trip_date w =
      if is_empty item.schedule_code || str_eq (to_upper item.schedule_code) "NA"
      then ("", w)
      else (let (r, w') = find item.operator_code item.schedule_code trip_date w in
          (code_of_candidates r, w'))

  unfoldable pub resolve_inventory_trip_code : InventoryItem → String → W → String × W
  resolve_inventory_trip_code item trip_date w =
      if not (is_empty (trim_space item.trip_code))
      then (trim_space item.trip_code, w)
      else resolve_by_schedule d.find_stages_by_schedule item trip_date w

  abbrev pub trip_or : String → String → String
  trip_or trip_code old = if not (is_empty trip_code) then trip_code else old

  -- From the encoded job on.
  unfoldable pub with_payload :
      QueueMetrix → String → GoResult String → GoResult InventoryRefreshJob
  with_payload metric trip_code (err e) = err (wrapped "encode Worker refresh job" e)
  with_payload metric trip_code (ok payload) = ok (record {
    metric = record metric {
      trip_code = trip_or trip_code metric.trip_code;
      worker_payload = payload;
    };
    payload = payload;
  })

  -- From the date and the zone URL on.
  unfoldable pub build_for_zone :
      String
      → InventoryItem
      → QueueMetrix
      → String
      → Option String
      → W
      → GoResult InventoryRefreshJob × W
  build_for_zone action_type item metric trip_date none w =
      (err (wrapped metric.zone (other "zone URL is unavailable")), w)
  build_for_zone action_type item metric trip_date (some zone_url) w =
      let (trip_code, w') = resolve_inventory_trip_code item trip_date w in
      (
        with_payload (record metric { trip_date = trip_date }) trip_code
            (d.marshal (obj (job_of item action_type zone_url trip_code trip_date))),
        w',
      )

  unfoldable pub build_for_date :
      String → InventoryItem → QueueMetrix → Option String → W → GoResult InventoryRefreshJob × W
  build_for_date action_type item metric none w = (err invalid_inventory_event, w)
  build_for_date action_type item metric (some trip_date) w =
      build_for_zone action_type item metric trip_date (zone_bits_base_url d.getenv metric.zone) w

  unfoldable pub build_inventory_refresh_job :
      String → InventoryItem → QueueMetrix → W → GoResult InventoryRefreshJob × W
  build_inventory_refresh_job action_type item metric w =
      if is_empty item.reference_id
        || is_empty item.operator_code
        || is_empty item.source
        || is_empty item.destination
      then (err invalid_inventory_event, w)
      else build_for_date action_type item metric (normalize_trip_date item.doj) w

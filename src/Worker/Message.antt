-- ===== src/Worker/Message.antt =====
-- The durable RabbitMQ payload and its validation
-- (orbitplusworker/internal/domain/tripdetails_refresh_message.go).
pub mod Laws
use orbitplus.Common.{String, Option, none, some, List, [], ◌∷◌, str_eq, ◌||◌, if◌then◌else◌}
use orbitplus.Common.Text.{trim_space, is_blank}
use orbitplus.Common.Date.{Date, parse_date, before}
use orbitplus.Worker.Errors.{GoError, missing, missing_for, unsupported_action, bad_date, past_date}

pub record TripDetailsRefreshMessage : Type 0 where
  pub action_type : String
  pub reference_id : String
  pub operator_code : String
  pub zone_url : String
  pub from_code : String
  pub to_code : String
  pub trip_date : String
  pub trip_code : String
  pub from_station_code : String
  pub to_station_code : String
  pub travel_date : String

abbrev pub action_search : String
action_search = "search"

abbrev pub action_busmap : String
action_busmap = "busmap"

abbrev pub action_searchbusmap : String
action_searchbusmap = "searchbusmap"

pub record Field : Type 0 where
  pub name : String
  pub value : String

unfoldable pub require_fields : String → List Field → Option GoError
require_fields action [] = none
require_fields action (f ∷ fs) =
    if is_blank f.value then some (missing_for f.name action) else require_fields action fs

-- `today` is the calendar date of time.Now().
unfoldable pub validate_current_or_future_date : Date → String → String → Option GoError
validate_current_or_future_date today name value = elim (parse_date (trim_space value)) [
  | none ↦ some (bad_date name)
  | some date ↦ if before date today then some (past_date name) else none
]

-- `if err := first; err != nil { return err }; return second`
abbrev pub and_then : Option GoError → Option GoError → Option GoError
and_then (some e) rest = some e
and_then none rest = rest

unfoldable pub validate : Date → TripDetailsRefreshMessage → Option GoError
validate today m =
    if is_blank m.action_type
    then some (missing "actionType")
    else if is_blank m.operator_code
    then some (missing "operatorCode")
    else if is_blank m.zone_url
    then some (missing "zoneURL")
    else if str_eq m.action_type action_search || str_eq m.action_type action_searchbusmap
    then and_then
        (require_fields m.action_type (
          record { name = "fromCode"; value = m.from_code }
          ∷ record { name = "toCode"; value = m.to_code }
          ∷ record { name = "tripDate"; value = m.trip_date }
          ∷ []))
        (validate_current_or_future_date today "tripDate" m.trip_date)
    else if str_eq m.action_type action_busmap
    then and_then
        (require_fields m.action_type (
          record { name = "tripCode"; value = m.trip_code }
          ∷ record { name = "fromStationCode"; value = m.from_station_code }
          ∷ record { name = "toStationCode"; value = m.to_station_code }
          ∷ record { name = "travelDate"; value = m.travel_date }
          ∷ []))
        (validate_current_or_future_date today "travelDate" m.travel_date)
    else some (unsupported_action m.action_type)

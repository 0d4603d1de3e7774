-- ===== src/Jobs.antt =====
-- The job that the master queues and the message that the worker takes from the queue
-- (orbitplus/internal/application/master/orionmax_inventory_job_builder.go and
-- orbitplusworker/internal/domain/tripdetails_refresh_message.go).
mod JobTests
pub mod Dates
pub mod Accepted
use orbitplus.Common.{String}
use orbitplus.Json.{Members, get, as_text}
use orbitplus.Worker.Message.{TripDetailsRefreshMessage}

-- json.Unmarshal of an object of texts into the message, by its field tags.
unfoldable pub message_of : Members → TripDetailsRefreshMessage
message_of m = record {
  action_type = as_text (get "actionType" m);
  reference_id = as_text (get "referenceId" m);
  operator_code = as_text (get "operatorCode" m);
  zone_url = as_text (get "zoneURL" m);
  from_code = as_text (get "fromCode" m);
  to_code = as_text (get "toCode" m);
  trip_date = as_text (get "tripDate" m);
  trip_code = as_text (get "tripCode" m);
  from_station_code = as_text (get "fromStationCode" m);
  to_station_code = as_text (get "toStationCode" m);
  travel_date = as_text (get "travelDate" m);
}

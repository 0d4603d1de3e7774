-- ===== src/Master/Tests.antt =====
-- The storage theorems at a Search entry of three stations, one request of a Worker, and a world that
-- counts its writes.
use orbitplus.Common.{
  ℕ, ◌+◌, String, ◌≡◌, refl, ap, true, false, none, [], ◌∷◌, elem, pos, inl, if◌then◌else◌, ◌||◌,
}
use orbitplus.Common.Text.{is_blank, contains, trim_space, to_upper}
use orbitplus.Json.{
  Value, Members, num, str, arr, obj, nil, cons, end, member, get, is_map, has, set, delete,
  to_list,
}
use orbitplus.Master.Errors.{GoError, ok}
use orbitplus.Master.Keys.{
  build_trip_key, build_busmap_key, build_stage_key, require_key_components,
}
use orbitplus.Master.Keys.Apart.{Content, stage, key_of, key_of-inj}
use orbitplus.Master.Projection.{
  copy_field, copy_fields, copy_without_seat_layout_list, is_stage_field, trip_value,
  common_trip_projection, stage_projection,
}
use orbitplus.Master.Stations.{
  station_codes_from_object, first_found, listed_codes, codes_of_points, codes_of_point,
  station_code, station_code_of, nested_code, stage_contains_route, codes_contain_route,
  index_of_station, station_codes_from_value,
}
use orbitplus.Master.Stations.Route.{before}
use orbitplus.Master.Metadata.{
  TripDetailsStageMetadata, add_route, add_routes, add_routes_from, route_key,
  schedule_code_from_entry, stage_metadata_records,
}
use orbitplus.Master.Metadata.Routes.{
  is_route, on_route_count, no_nul, all_no_nul, stage_metadata_records-route,
}
use orbitplus.Master.Read.{search_entry}
use orbitplus.Master.Read.RoundTrip.{served_value, search_entry-projections}
use orbitplus.Master.Read.Served.{IsPlain, stage_metadata_records-served}
use orbitplus.Master.Exec.{
  Deps, Run, checked, labelled, next, skip, with_value, wrap_error, write, ◌and_then◌,
}
use orbitplus.Master.Storage.{
  store, store_payload, store_entries, store_value, after_entry, entry_store,
  store_search_busmap_entry, require_identifiers, append_updated_trip_code, entry_identifiers,
  entry_operator_code, label_result, save_routes, save_schedule, set_json, stage_metadata,
  store_busmap_cache, store_search_cache, store_search_metadata,
}
use orbitplus.Master.Storage.Extract.{
  resolve_trip_details_payload, resolve_root, payload_of, extract_entries, extract_data, or_else,
}
use orbitplus.Master.Storage.Reported.{
  IsComplete, store-IsComplete, IsReportedFor, store-IsReportedFor,
}
use orbitplus.Master.Receive.{receive_trip_details}
use orbitplus.Master.Receive.Lifecycle.{Outcome, receive_trip_details-Outcome}

abbrev station : String → Value
station c = obj (member "code" (str c) end)

abbrev entry : Members
entry = member "tripCode" (str "T1") (
    member "tripStageCode" (str "S1") (
      member "travelDate" (str "2026-01-02") (
        member "fromStation" (station "A") (
          member "toStation" (station "C") (
            member "stationPoint"
              (arr (cons (station "A") (cons (station "B") (cons (station "C") nil))))
              (member "bus" (obj (member "name" (str "AC") (member "seatLayoutList" (num "1") end)))
                (member "schedule" (station "SC") end)))))))

abbrev base : TripDetailsStageMetadata
base = record {
  operator_code = "op";
  trip_code = "T1";
  schedule_code = "SC";
  trip_date = "2026-01-02";
  from_station_code = "A";
  to_station_code = "C";
  trip_stage_code = "S1";
  updated_at = 7;
}

abbrev request : Value
request = obj (
    member "referenceId" (str "r1") (
      member "operatorCode" (str "op") (
        member "actionType" (str "searchbusmap")
          (member "orbitResponse" (obj (member "data" (arr (cons (obj entry) nil)) end)) end))))

-- Every write succeeds and is counted.
abbrev deps : Deps ℕ
deps = record {
  cache_configured = true;
  metrix_configured = true;
  set_json_with_ttl = λ k b t w. (none, w + 1);
  save_route_metadata = λ r w. (none, w + 1);
  save_schedule_metadata = λ r w. (none, w + 1);
  mark_completed = λ r cs w. (none, w + 1);
  mark_dead = λ r cs m w. (none, w + 1);
  now = λ w. w;
  marshal = λ v. ok "{}";
  hot_cache_ttl = pos 24;
  warm_cache_ttl = pos 12;
}

abbrev start : Run ℕ
start = record { world = 0; log = [] }

abbrev search_stage : Content
search_stage = stage "op" "T1" "S1"

key_of_runs : key_of search_stage ≡ ok "stage:op:T1:S1"
unfolding key_of build_stage_key require_key_components is_blank contains
key_of_runs = refl

key_of-inj_example : search_stage ≡ search_stage
key_of-inj_example = key_of-inj search_stage search_stage "stage:op:T1:S1" key_of_runs key_of_runs

stations_runs : station_codes_from_object entry ≡ "A" ∷ "B" ∷ "C" ∷ []
unfolding station_codes_from_object first_found listed_codes get codes_of_points codes_of_point
    station_code station_code_of
stations_runs = refl

entry-is_map : is_map entry ≡ true
unfolding is_map has
entry-is_map = refl

search_entry-projections_example :
    (merged : Members) × (search_entry
        (obj (common_trip_projection entry))
        (obj (stage_projection entry))
      ≡ ok merged)
    × (get "bus" merged ≡ served_value "bus" entry)
search_entry-projections_example = search_entry-projections entry "bus" entry-is_map

stations-no_nul : all_no_nul (station_codes_from_object entry) ≡ true
unfolding station_codes_from_object first_found listed_codes get codes_of_points codes_of_point
    station_code station_code_of contains
stations-no_nul = refl

abbrev text_A : String
text_A = "A"

no_nul_A : no_nul text_A ≡ true
unfolding contains
no_nul_A = refl

stage_metadata_records-route_example :
    on_route_count "A" "B" (stage_metadata_records base entry)
    ≡ (if is_route "A" "B" base || before "A" "B" (station_codes_from_object entry) then 1 else 0)
stage_metadata_records-route_example =
    stage_metadata_records-route base entry "A" "B" no_nul_A stations-no_nul no_nul_A

entry-IsPlain : IsPlain entry
unfolding IsPlain listed_codes get codes_of_points codes_of_point station_code station_code_of
entry-IsPlain = inl (λ h. cc h)

stage_metadata_records-served_example :
    on_route_count "A" "B" (stage_metadata_records base entry) ≡ (
      if is_route "A" "B" base || stage_contains_route (obj (stage_projection entry)) "A" "B"
      then 1
      else 0)
stage_metadata_records-served_example =
    stage_metadata_records-served base entry "A" "B" entry-IsPlain no_nul_A stations-no_nul no_nul_A

request-stored : (store deps request start).0 ≡ ("T1" ∷ [], none)
unfolding store store_payload resolve_trip_details_payload resolve_root payload_of extract_entries
    extract_data store_entries store_value after_entry entry_store to_upper or_else
    store_search_busmap_entry checked require_identifiers require_key_components contains is_blank
    trim_space delete has set get to_list labelled next skip with_value wrap_error write ◌and_then◌
    build_busmap_key build_stage_key build_trip_key add_route add_routes add_routes_from route_key
    schedule_code_from_entry stage_metadata_records common_trip_projection copy_field copy_fields
    copy_without_seat_layout_list is_stage_field stage_projection trip_value codes_of_point
    codes_of_points first_found listed_codes nested_code station_code station_code_of
    station_codes_from_object append_updated_trip_code entry_identifiers entry_operator_code
    label_result save_routes save_schedule set_json stage_metadata store_busmap_cache
    store_search_cache store_search_metadata
request-stored = refl

store-IsComplete_example : IsComplete deps request (store deps request start).1.log
store-IsComplete_example = store-IsComplete deps request start (ap (λ r. r.1) request-stored)

store-IsReportedFor_example : IsReportedFor deps request "T1" (store deps request start).1.log
store-IsReportedFor_example =
    store-IsReportedFor deps request start "T1" (ap (λ r. elem "T1" r.0) request-stored)

abbrev reason : GoError → String
reason e = "failed"

receive_trip_details-Outcome_example :
    Outcome deps reason request
      (store deps request start).0.0
      (store deps request start).1
      (store deps request start).0.1
      (receive_trip_details deps reason true request start).0
      (receive_trip_details deps reason true request start).1
receive_trip_details-Outcome_example = receive_trip_details-Outcome deps reason request start

-- A list of stations under another name is recorded but not cached with the stage.
abbrev other_entry : Members
other_entry = member "fromStation" (station "A") (
    member "toStation" (station "C") (
      member "stationPoints"
        (arr (cons (station "A") (cons (station "B") (cons (station "C") nil)))) end))

other_entry-recorded : on_route_count "A" "B" (stage_metadata_records base other_entry) ≡ 1
unfolding on_route_count stage_metadata_records add_routes add_routes_from add_route route_key
    station_codes_from_object first_found listed_codes get codes_of_points codes_of_point
    station_code station_code_of
other_entry-recorded = refl

other_entry-rejected : stage_contains_route (obj (stage_projection other_entry)) "A" "B" ≡ false
unfolding stage_contains_route codes_contain_route index_of_station station_codes_from_value
    station_codes_from_object first_found listed_codes get codes_of_points codes_of_point
    station_code station_code_of nested_code stage_projection copy_fields copy_field set
other_entry-rejected = refl

-- ===== src/Master/Storage.antt =====
-- TripDetailsStorage.Store: Search and BusMap entries into Dragonfly and Cassandra
-- (orbitplus/internal/application/master: tripdetails_storage_coordinator.go,
-- tripdetails_searchbusmap_storage.go, tripdetails_cache_storage.go and
-- tripdetails_metadata_storage.go).
pub mod Extract
pub mod Effects
pub mod Complete
pub mod Entries
pub mod Persisted
pub mod Codes
pub mod Reported
use orbitplus.Common.{
  ℕ, ℤ, String, Bool, true, false, Option, none, some, List, [], ◌∷◌, ◌++◌, elem, str_eq,
  if◌then◌else◌, not,
}
use orbitplus.Common.Text.{is_empty, trim_space, to_upper}
use orbitplus.Json.{Value, Items, Members, obj, nil, cons, to_list}
use orbitplus.Master.Errors.{
  GoError, missing_storage_identifiers, other, wrapped, GoResult, ok, err, ◌>>=◌,
}
use orbitplus.Master.Keys.{
  require_key_components, build_trip_key, build_stage_key, build_busmap_key,
}
use orbitplus.Master.Projection.{common_trip_projection, stage_projection}
use orbitplus.Master.Metadata.{
  TripDetailsStageMetadata, string_field, nested_string_field, schedule_code_from_entry,
  stage_metadata_records,
}
use orbitplus.Master.Storage.Extract.{
  Envelope, Payload, busmap_action, searchbusmap_action, extract_entries,
  resolve_trip_details_payload,
}
use orbitplus.Master.Exec.{
  Deps, M, Write, cached, route, schedule, write, ◌and_then◌, labelled, with_value, checked, skip,
}

-- The identifiers of an entry, with the operator of the envelope or of the entry.
pub record Identifiers : Type 0 where
  pub operator_code : String
  pub trip_code : String
  pub trip_stage_code : String
  pub trip_date : String
  pub from_station_code : String
  pub to_station_code : String

unfoldable pub entry_operator_code : String → Members → String
entry_operator_code envelope_operator_code entry =
    if not (is_empty envelope_operator_code)
    then envelope_operator_code
    else if not (is_empty (string_field entry "operatorCode"))
    then string_field entry "operatorCode"
    else nested_string_field entry "operator" "code"

unfoldable pub entry_identifiers : String → Members → Identifiers
entry_identifiers envelope_operator_code entry = record {
  operator_code = entry_operator_code envelope_operator_code entry;
  trip_code = string_field entry "tripCode";
  trip_stage_code = string_field entry "tripStageCode";
  trip_date = string_field entry "travelDate";
  from_station_code = nested_string_field entry "fromStation" "code";
  to_station_code = nested_string_field entry "toStation" "code";
}

-- requireKeyComponents on all identifiers of a Search entry.
unfoldable pub require_identifiers : Identifiers → Option GoError
require_identifiers ids = require_key_components (
    ids.operator_code ∷ ids.trip_code ∷ ids.trip_stage_code ∷ ids.trip_date ∷ ids.from_station_code
    ∷ ids.to_station_code ∷ [])

unfoldable pub stage_metadata : ℕ → Identifiers → Members → TripDetailsStageMetadata
stage_metadata now ids entry = record {
  operator_code = ids.operator_code;
  trip_code = ids.trip_code;
  schedule_code = schedule_code_from_entry entry;
  trip_date = ids.trip_date;
  from_station_code = ids.from_station_code;
  to_station_code = ids.to_station_code;
  trip_stage_code = ids.trip_stage_code;
  updated_at = now;
}

unfoldable pub label_result : {A : Type 0} → String → GoResult A → GoResult A
label_result text (ok a) = ok a
label_result text (err e) = err (wrapped text e)

unfoldable pub append_updated_trip_code : List String → String → List String
append_updated_trip_code trip_codes trip_code =
    let code = trim_space trip_code in
    if is_empty code
    then trip_codes
    else if elem code trip_codes
    then trip_codes
    else trip_codes ++ (code ∷ [])

module _ {W : Type 0} where
  -- What is left of the loop after an entry: stop at an error, or go on with its trip code reported.
  unfoldable pub after_entry :
      (List String → M W (List String × Option GoError))
      → List String
      → String
      → Option GoError
      → M W (List String × Option GoError)
  after_entry rest codes trip_code none s = rest (append_updated_trip_code codes trip_code) s
  after_entry rest codes trip_code (some e) s = ((codes, some e), s)

  unfoldable pub store_value :
      (Members → M W (Option GoError))
      → (List String → M W (List String × Option GoError))
      → List String
      → Value
      → M W (List String × Option GoError)
  store_value store rest codes (obj entry) s =
      let (e, s') = store entry s in after_entry rest codes (string_field entry "tripCode") e s'
  store_value store rest codes _ s = ((codes, some missing_storage_identifiers), s)

  -- The loop over the entries, with the trip codes reported so far.
  unfoldable pub store_entries :
      (Members → M W (Option GoError))
      → List Value
      → List String
      → M W (List String × Option GoError)
  store_entries store [] codes s = ((codes, none), s)
  store_entries store (v ∷ entries) codes s =
      let rest = store_entries store entries in store_value store rest codes v s

module _ {W : Type 0} (d : Deps W) where
  unfoldable pub set_json : String → String → ℤ → M W (Option GoError)
  set_json key body ttl = write (cached key body ttl) (d.set_json_with_ttl key body ttl)

  unfoldable pub store_search_cache : Identifiers → Members → M W (Option GoError)
  store_search_cache ids entry =
      with_value (build_trip_key ids.operator_code ids.trip_code) λ trip_key.
        with_value (build_stage_key ids.operator_code ids.trip_code ids.trip_stage_code)
          λ stage_key.
            with_value
              (label_result "marshal common Trip JSON"
                (d.marshal (obj (common_trip_projection entry))))
              λ trip_json.
                with_value
                  (label_result "marshal Stage JSON" (d.marshal (obj (stage_projection entry))))
                  λ stage_json.
                    labelled "store common Trip content"
                      (set_json trip_key trip_json d.hot_cache_ttl)
                    and_then labelled "store Stage content"
                        (set_json stage_key stage_json d.hot_cache_ttl)

  unfoldable pub store_busmap_cache : Identifiers → Members → M W (Option GoError)
  store_busmap_cache ids entry =
      with_value (build_busmap_key ids.operator_code ids.trip_code ids.trip_stage_code)
        λ busmap_key.
          with_value (label_result "marshal BUSMAP JSON" (d.marshal (obj entry))) λ busmap_json.
            labelled "store BUSMAP content" (set_json busmap_key busmap_json d.warm_cache_ttl)

  unfoldable pub save_routes : List TripDetailsStageMetadata → M W (Option GoError)
  save_routes [] = skip
  save_routes (r ∷ records) =
      labelled "store TripDetails route metadata" (write (route r) (d.save_route_metadata r))
      and_then save_routes records

  -- Only a stage with a schedule code has a schedule record.
  unfoldable pub save_schedule : TripDetailsStageMetadata → M W (Option GoError)
  save_schedule metadata =
      if is_empty metadata.schedule_code
      then skip
      else labelled "store TripDetails schedule metadata"
          (write (schedule metadata) (d.save_schedule_metadata metadata))

  unfoldable pub store_search_metadata : Identifiers → Members → M W (Option GoError)
  store_search_metadata ids entry s =
      let metadata = stage_metadata (d.now s.world) ids entry in
      ◌and_then◌ (save_routes (stage_metadata_records metadata entry)) (save_schedule metadata) s

  unfoldable pub store_search : Identifiers → Members → M W (Option GoError)
  store_search ids entry =
      checked (require_identifiers ids)
        (store_search_cache ids entry and_then store_search_metadata ids entry)

  -- storeEntry
  unfoldable pub store_entry : String → String → Members → M W (Option GoError)
  store_entry action_type operator_code entry =
      let ids = entry_identifiers operator_code entry in
      if str_eq action_type busmap_action
      then store_busmap_cache ids entry
      else store_search ids entry

  -- One round of storeSearchBusMapEntries.
  unfoldable pub store_search_busmap_entry : String → Members → M W (Option GoError)
  store_search_busmap_entry operator_code entry =
      let ids = entry_identifiers operator_code entry in
      checked (require_identifiers ids) (
        labelled "store SEARCHBUSMAP Search cache" (store_search_cache ids entry)
        and_then labelled "store SEARCHBUSMAP metadata" (store_search_metadata ids entry)
        and_then labelled "store SEARCHBUSMAP BusMap cache" (store_busmap_cache ids entry))

  unfoldable pub entry_store : Payload → String → Members → M W (Option GoError)
  entry_store p action_type =
      if str_eq (to_upper p.action_type) searchbusmap_action
      then store_search_busmap_entry p.operator_code
      else store_entry action_type p.operator_code

  unfoldable pub store_payload : Payload → M W (List String × Option GoError)
  store_payload p s = elim (extract_entries p.payload p.envelope (to_upper p.action_type)) [
    | err e ↦ (([], some e), s)
    | ok (entries, action_type) ↦ store_entries (entry_store p action_type) entries [] s
  ]

  -- Store: the trip codes that were persisted, and an error.
  unfoldable pub store : Value → M W (List String × Option GoError)
  store value s =
      if not d.cache_configured
      then (([], some (other "TripDetails persistence is not configured")), s)
      else elim (resolve_trip_details_payload value) [
        | err e ↦ (([], some e), s)
        | ok p ↦ store_payload p s
      ]

-- ===== src/Worker/CombineTests.antt =====
-- One Search entry and a BusMap response, merged.
use orbitplus.Common.{String, ◌≡◌, refl}
use orbitplus.Common.Text.{trim_space, trim_left, trim_right, is_space}
use orbitplus.Json.{Members, num, str, obj, end, member, get, is_map, has}
use orbitplus.Worker.Errors.{ok}
use orbitplus.Worker.Combine.{
  SearchBusMapIdentifiers, text_field, nested_text_field, search_entry_identifiers, merge_objects,
  combine,
}
use orbitplus.Worker.Combine.Merge.{CarriesIdentity, combine_identity}
use orbitplus.Worker.Combine.Deep.{IsMerged, is_deep_map, merge_objects-IsMerged}

abbrev station : String → Members
station code = member "code" (str code) end

abbrev search_entry : Members
search_entry = member "tripCode" (str " T1") (
    member "tripStageCode" (str "S1") (
      member "travelDate" (str "2026-08-20") (
        member "fromStation" (obj (station "A")) (
          member "toStation" (obj (station "B"))
            (member "bus" (obj (member "name" (str "A") end)) end)))))

-- The BusMap response has the seats of the bus, and another trip code.
abbrev busmap_reply : Members
busmap_reply = member "bus" (obj (member "seats" (num "40") end)) (member "tripCode" (str "") end)

merge_objects-IsMerged_example :
    IsMerged
      (get "bus" search_entry)
      (get "bus" busmap_reply)
      (get "bus" (merge_objects search_entry busmap_reply))
unfolding is_deep_map is_map has
merge_objects-IsMerged_example = merge_objects-IsMerged search_entry busmap_reply refl "bus"

abbrev ids : SearchBusMapIdentifiers
ids = record {
  trip_code = "T1";
  trip_stage_code = "S1";
  travel_date = "2026-08-20";
  from_code = "A";
  to_code = "B";
}

search_entry-ids : search_entry_identifiers search_entry ≡ ok ids
unfolding search_entry_identifiers text_field nested_text_field get trim_space trim_left trim_right
    is_space
search_entry-ids = refl

combine_identity_example : CarriesIdentity search_entry (combine search_entry busmap_reply ids)
combine_identity_example = combine_identity search_entry busmap_reply ids search_entry-ids

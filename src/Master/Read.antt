-- ===== src/Master/Read.antt =====
-- What a read makes of the cached documents
-- (orbitplus/internal/application/master/tripdetails_reader.go). A document is a JSON value; a
-- json.RawMessage in it is the value that it encodes.
pub mod RoundTrip
pub mod Served
use orbitplus.Common.{
  String, Bool, true, false, Option, none, some, List, [], ◌∷◌, ◌&&◌, ◌||◌, not, str_eq,
  if◌then◌else◌,
}
use orbitplus.Json.{
  Value, Members, null, bool, num, str, arr, obj, end, member, get, set, delete, has,
}
use orbitplus.Master.Errors.{GoError, other, GoResult, ok, err, ◌>>=◌}

-- json.Unmarshal into a map; null makes a nil map.
unfoldable pub unmarshal_object : Value → GoResult (Option Members)
unmarshal_object (obj m) = ok (some m)
unmarshal_object null = ok none
unmarshal_object _ = err (other "json: cannot unmarshal into a map")

-- `for key, rawValue := range object { merged[key] = rawValue }`
unfoldable pub put_all : Members → Members → Members
put_all merged end = merged
put_all merged (member key v object) = put_all (set key v merged) object

-- A nil map where an object is needed is an error with this text.
unfoldable pub require_object : String → Option Members → GoResult Members
require_object text none = err (other text)
require_object text (some m) = ok m

unfoldable pub merge_into : Members → List Value → GoResult Members
merge_into merged [] = ok merged
merge_into merged (value ∷ values) = unmarshal_object value >>= λ o.
    require_object "stored content is not a JSON object" o >>= λ object.
    merge_into (put_all merged object) values

unfoldable pub merge_json_objects : List Value → GoResult Members
merge_json_objects values = merge_into end values

-- withoutStageBus; deleting from a nil map leaves null.
unfoldable pub stage_without_bus : Option Members → Value
stage_without_bus none = null
stage_without_bus (some m) = obj (delete "bus" m)

unfoldable pub without_stage_bus : Value → GoResult Value
without_stage_bus stage = unmarshal_object stage >>= λ o. ok (stage_without_bus o)

-- The entry that Search answers for one stage.
unfoldable pub search_entry : Value → Value → GoResult Members
search_entry trip stage = without_stage_bus stage >>= λ s. merge_json_objects (trip ∷ s ∷ [])

unfoldable pub is_json_null : Value → Bool
is_json_null null = true
is_json_null _ = false

unfoldable pub is_busmap_owned_additional_attribute : String → Bool
is_busmap_owned_additional_attribute key = str_eq key "stationPointSeatSelectionRequired"

-- The loop of mergeBusMapAdditionalAttributes.
unfoldable pub add_attributes : Members → Members → Members
add_attributes canonical end = canonical
add_attributes canonical (member key v busmap) =
    if not (is_json_null v) && (not (has key canonical) || is_busmap_owned_additional_attribute key)
    then add_attributes (set key v canonical) busmap
    else add_attributes canonical busmap

-- The canonical attributes of the entry, none for a missing key and for null.
unfoldable pub canonical_attributes : Option Value → GoResult Members
canonical_attributes none = ok end
canonical_attributes (some null) = ok end
canonical_attributes (some (obj m)) = ok m
canonical_attributes _ = err (other "stored canonical additionalAttributes is not a JSON object")

unfoldable pub merge_busmap_additional_attributes : Members → Option Value → GoResult Members
merge_busmap_additional_attributes entry none = ok entry
merge_busmap_additional_attributes entry (some null) = ok entry
merge_busmap_additional_attributes entry (some (obj attributes)) =
    canonical_attributes (get "additionalAttributes" entry) >>= λ canonical.
    ok (set "additionalAttributes" (obj (add_attributes canonical attributes)) entry)
merge_busmap_additional_attributes entry _ =
    err (other "stored busmap additionalAttributes is not a JSON object")

-- The total seat count of the layout, when supplied and not null.
unfoldable pub put_seat_count : Option Value → Members → Members
put_seat_count none bus = bus
put_seat_count (some v) bus = if is_json_null v then bus else set "totalSeatCount" v bus

-- A key that must be there.
unfoldable pub require_value : String → Option Value → GoResult Value
require_value text none = err (other text)
require_value text (some v) = ok v

unfoldable pub bus_object : Value → GoResult Members
bus_object (obj m) = ok m
bus_object _ = err (other "stored bus is not a JSON object")

-- json.Unmarshal(busMap, &layout); a nil map reads as an empty one.
unfoldable pub layout_object : Value → GoResult Members
layout_object (obj m) = ok m
layout_object null = ok end
layout_object _ = err (other "json: cannot unmarshal into a map")

unfoldable pub merge_trip_stage_busmap : Value → Value → Value → GoResult Members
merge_trip_stage_busmap trip stage busmap = search_entry trip stage >>= λ entry.
    layout_object busmap >>= λ layout.
    require_value "stored busmap has no seat layout" (get "seatLayoutList" layout)
    >>= λ seat_layout_list. require_value "stored trip has no bus" (get "bus" entry) >>= λ bus_raw.
        bus_object bus_raw >>= λ bus.
        merge_busmap_additional_attributes
          (set "bus"
            (obj (
              put_seat_count (get "totalSeatCount" layout)
                (set "seatLayoutList" seat_layout_list bus)))
            entry)
          (get "additionalAttributes" layout)

-- isCompleteBusMapResponse
unfoldable pub is_complete_busmap_response : Value → Bool
is_complete_busmap_response (obj m) = has "tripCode" m && has "tripStageCode" m
is_complete_busmap_response _ = false

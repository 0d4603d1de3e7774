-- ===== src/Master/Projection.antt =====
-- A Search entry split into its trip and its stage document, as they are cached
-- (orbitplus/internal/application/master/tripdetails_cache_storage.go).
use orbitplus.Common.{String, Bool, Option, none, some, List, [], ◌∷◌, elem, str_eq, if◌then◌else◌}
use orbitplus.Json.{Value, Members, obj, end, member, get, set, delete}

abbrev pub search_stage_fields : List String
search_stage_fields =
    "tripStageCode" ∷ "fromStation" ∷ "toStation" ∷ "stationPoint" ∷ "stageFare" ∷ []

unfoldable pub is_stage_field : String → Bool
is_stage_field key = elem key search_stage_fields

unfoldable pub copy_without_seat_layout_list : Members → Members
copy_without_seat_layout_list bus = delete "seatLayoutList" bus

-- The value of a key of the trip document: the bus, if it is an object, loses its seat layout.
unfoldable pub trip_value : String → Value → Value
trip_value key (obj bus) =
    if str_eq key "bus" then obj (copy_without_seat_layout_list bus) else obj bus
trip_value key v = v

unfoldable pub common_trip_projection : Members → Members
common_trip_projection end = end
common_trip_projection (member key v entry) =
    let rest = common_trip_projection entry in
    if is_stage_field key then rest else member key (trip_value key v) rest

-- `if value, exists := entry[key]; exists { stage[key] = value }`
unfoldable pub copy_field : String → Option Value → Members → Members
copy_field key none stage = stage
copy_field key (some v) stage = set key v stage

unfoldable pub copy_fields : List String → Members → Members → Members
copy_fields [] entry stage = stage
copy_fields (key ∷ keys) entry stage = copy_fields keys entry (copy_field key (get key entry) stage)

unfoldable pub stage_projection : Members → Members
stage_projection entry = copy_fields search_stage_fields entry end

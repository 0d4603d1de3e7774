-- ===== src/Master/Metadata.antt =====
-- The Cassandra records that index one stage under every route it serves
-- (orbitplus/internal/application/master/tripdetails_metadata_storage.go and
-- orbitplus/internal/domain/tripdetails_metadata.go).
pub mod Routes
use Prim.Native.Char.{nul}
use Prim.Native.String.{◌++◌ as join}
use orbitplus.Common.{ℕ, String, not, List, [], ◌∷◌, ◌++◌, ◌||◌, elem, if◌then◌else◌}
use orbitplus.Common.Text.{is_empty}
use orbitplus.Common.Separator.{separator}
use orbitplus.Json.{Members, obj, get, as_text, as_object}
use orbitplus.Master.Stations.{station_codes_from_object}

pub record TripDetailsStageMetadata : Type 0 where
  pub operator_code : String
  pub trip_code : String
  pub schedule_code : String
  pub trip_date : String
  pub from_station_code : String
  pub to_station_code : String
  pub trip_stage_code : String
  pub updated_at : ℕ

-- stringField and nestedStringField
abbrev pub string_field : Members → String → String
string_field object key = as_text (get key object)

abbrev pub nested_string_field : Members → String → String → String
nested_string_field object parent key = string_field (as_object (get parent object)) key

-- scheduleCodeFromEntry
unfoldable pub schedule_code_from_entry : Members → String
schedule_code_from_entry entry =
    if not (is_empty (string_field entry "scheduleCode"))
    then string_field entry "scheduleCode"
    else if not (is_empty (string_field entry "schedulecode"))
    then string_field entry "schedulecode"
    else nested_string_field entry "schedule" "code"

-- The key of a route in `seen`: fromCode + "\x00" + toCode.
unfoldable pub route_key : String → String → String
route_key from to = join from (join (separator nul) to)

-- `seen` and `records`
pub record Found : Type 0 where
  pub seen : List String
  pub records : List TripDetailsStageMetadata

module _ (base : TripDetailsStageMetadata) where
  abbrev pub on_route : String → String → TripDetailsStageMetadata
  on_route from to = record base { from_station_code = from; to_station_code = to }

  -- One round of the inner loop.
  unfoldable pub add_route : String → String → Found → Found
  add_route from to found =
      if is_empty from || is_empty to
      then found
      else if elem (route_key from to) found.seen
      then found
      else record {
        seen = route_key from to ∷ found.seen;
        records = found.records ++ (on_route from to ∷ []);
      }

  unfoldable pub add_routes_from : String → List String → Found → Found
  add_routes_from from [] found = found
  add_routes_from from (to ∷ tos) found = add_routes_from from tos (add_route from to found)

  unfoldable pub add_routes : List String → Found → Found
  add_routes [] found = found
  add_routes (from ∷ stations) found = add_routes stations (add_routes_from from stations found)

  unfoldable pub stage_metadata_records : Members → List TripDetailsStageMetadata
  stage_metadata_records entry =
      (add_routes (station_codes_from_object entry) (record {
        seen = route_key base.from_station_code base.to_station_code ∷ [];
        records = base ∷ [];
      })).records

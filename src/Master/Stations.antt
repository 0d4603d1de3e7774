-- ===== src/Master/Stations.antt =====
-- The station codes of a stage document and the routes it serves
-- (orbitplus/internal/application/master/stage_route_matcher.go).
pub mod Route
use orbitplus.Common.{
  ℕ, zero, suc, ◌+◌, String, Bool, true, false, Option, none, some, List, [], ◌∷◌, ◌++◌, elem,
  str_eq, if◌then◌else◌,
}
use orbitplus.Common.Text.{is_empty}
use orbitplus.Json.{Value, Items, Members, str, arr, obj, nil, cons, end, member, get}

-- The codes of the object itself, or else those of the nested station objects.
unfoldable pub station_code_of : Option Value → Option Value → String → String → String
station_code_of (some (str s)) c station details = s
station_code_of a (some (str s)) station details = s
station_code_of a c station details = if is_empty station then details else station

-- stationCode; `nested_code key object` is stationCode(object[key]).
unfoldable mutual
  pub station_code : Value → String
  station_code (obj m) =
      station_code_of (get "stationCode" m) (get "code" m) (nested_code "station" m)
        (nested_code "stationDetails" m)
  station_code _ = ""

  pub nested_code : String → Members → String
  nested_code key end = ""
  nested_code key (member k v m) =
      let here = station_code v in
      let rest = nested_code key m in if str_eq k key then here else rest

-- `if code := stationCode(point); code != "" { codes = append(codes, code) }`
unfoldable pub codes_of_point : String → List String
codes_of_point code = if is_empty code then [] else code ∷ []

unfoldable pub codes_of_points : Items → List String
codes_of_points nil = []
codes_of_points (cons point points) = codes_of_point (station_code point) ++ codes_of_points points

-- The codes under one of the list fields, none when it is not a list.
unfoldable pub listed_codes : Option Value → List String
listed_codes (some (arr points)) = codes_of_points points
listed_codes _ = []

-- `if len(codes) > 0 { return codes }`, and on to the next field.
unfoldable pub first_found : List String → List String → List String
first_found [] next = next
first_found (c ∷ cs) next = c ∷ cs

unfoldable pub station_codes_from_object : Members → List String
station_codes_from_object m = first_found (listed_codes (get "stationPoint" m)) (
    first_found (listed_codes (get "stationPoints" m)) (
      first_found (listed_codes (get "stations" m)) (
        codes_of_point (nested_code "fromStation" m)
        ++ codes_of_point (nested_code "toStation" m))))

unfoldable pub station_codes_from_value : Value → List String
station_codes_from_value (obj m) = station_codes_from_object m
station_codes_from_value _ = []

-- indexOfStation, with `none` for -1
unfoldable pub index_of_station : List String → String → Option ℕ
index_of_station [] wanted = none
index_of_station (code ∷ codes) wanted =
    let rest = index_of_station codes wanted in
    if str_eq code wanted then some 0 else elim rest [ none ↦ none | some i ↦ some (suc i) ]

-- codes[n:]
abbrev pub drop : ℕ → List String → List String
drop zero codes = codes
drop (suc n) [] = []
drop (suc n) (c ∷ codes) = drop n codes

-- stageContainsRoute on the codes of the stage
unfoldable pub codes_contain_route : List String → String → String → Bool
codes_contain_route codes from to = elim (index_of_station codes from) [
  | none ↦ false
  | some i ↦ elem to (drop (suc i) codes)
]

unfoldable pub stage_contains_route : Value → String → String → Bool
stage_contains_route stage from to = codes_contain_route (station_codes_from_value stage) from to

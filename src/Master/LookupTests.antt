-- ===== src/Master/LookupTests.antt =====
-- A search for a route over one stored trip and one stored stage.
use orbitplus.Common.{
  ℕ, ◌≡◌, String, Option, none, some, List, [], ◌∷◌, arith, str_eq, if◌then◌else◌,
}
use orbitplus.Json.{Value, Members, str, arr, obj, nil, cons, end, member}
use orbitplus.Master.Errors.{GoResult, ok, err, other}
use orbitplus.Master.Metadata.{TripDetailsStageMetadata}
use orbitplus.Master.Freshness.{MaxAges, classify_freshness, newest_updated_at}
use orbitplus.Master.Freshness.Tiers.{is_cold, all_older, classify_freshness-cold}
use orbitplus.Master.Lookup.{RouteLookup, Readers}

abbrev record_of_stage : TripDetailsStageMetadata
record_of_stage = record {
  operator_code = "op";
  trip_code = "T1";
  schedule_code = "";
  trip_date = "2026-01-02";
  from_station_code = "A";
  to_station_code = "B";
  trip_stage_code = "S1";
  updated_at = 7;
}

abbrev ages : MaxAges
ages = record { hot_max_age = 4; warm_max_age = 6 }

classify_freshness-cold_example :
    is_cold (classify_freshness ages (newest_updated_at (record_of_stage ∷ [])) 20)
    ≡ all_older 20 6 (record_of_stage ∷ [])
classify_freshness-cold_example =
    classify_freshness-cold ages (record_of_stage ∷ []) 20 (omega arith)

abbrev stations : Value
stations =
    arr (cons (obj (member "code" (str "A") end)) (cons (obj (member "code" (str "B") end)) nil))

-- The stored text of the two documents, and what they decode to.
abbrev content : String → Option String
content key =
    if str_eq key "stage:op:T1:S1"
    then some "S"
    else if str_eq key "trip:op:T1"
    then some "T"
    else none

abbrev decode : String → GoResult Value
decode body =
    if str_eq body "S"
    then ok (obj (member "stationPoint" stations end))
    else if str_eq body "T"
    then ok (obj (member "tripCode" (str "T1") end))
    else err (other "unexpected end of JSON input")

abbrev readers : Readers ℕ
readers = record {
  find_stages_by_route = λ o f t date w. (ok (record_of_stage ∷ []), w);
  get_json = λ k w. (ok (content k), w);
  get_json_refresh = λ k w. (ok (content k), w);
  refresh_cold = none;
  now = λ w. w;
  max_ages = ages;
  decode = decode;
}

abbrev lookup : RouteLookup
lookup = record {
  operator_code = "op";
  trip_code = "";
  from_code = "A";
  to_code = "B";
  trip_date = "2026-01-02";
  username = "u";
  api_token = "t";
}

abbrev entries : List Members
entries = member "tripCode" (str "T1") (member "stationPoint" stations end) ∷ []

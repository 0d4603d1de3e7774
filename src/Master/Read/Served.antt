-- ===== src/Master/Read/Served.antt =====
-- Which of the recorded routes of an entry its cached stage document serves
-- (orbitplus/internal/application/master: tripdetails_metadata_storage.go,
-- tripdetails_cache_storage.go and stage_route_matcher.go).
use orbitplus.Common.{
  String, ◌≡◌, ◌≢◌, refl, ◌⊎◌, inl, inr, true, ◌||◌, List, [], ◌∷◌, if◌then◌else◌,
}
use orbitplus.Json.{Members, obj, get}
use orbitplus.Master.Projection.{stage_projection, is_stage_field}
use orbitplus.Master.Stations.{
  nested_code, listed_codes, first_found, station_codes_from_object, station_codes_from_value,
  stage_contains_route,
}
use orbitplus.Master.Stations.Route.{codes_contain_route-eq, nested_code-get}
use orbitplus.Master.Metadata.{TripDetailsStageMetadata, stage_metadata_records}
use orbitplus.Master.Metadata.Routes.{
  is_route, on_route_count, no_nul, all_no_nul, stage_metadata_records-route,
}
use orbitplus.Master.Read.RoundTrip.{get-stage_projection}

-- The stations of the entry are under "stationPoint", or it lists none and has only its two ends.
unfoldable pub IsPlain : Members → Type 0
IsPlain entry =
    (listed_codes (get "stationPoint" entry) ≢ [])
    ⊎ ((listed_codes (get "stationPoints" entry) ≡ []) × (listed_codes (get "stations" entry) ≡ []))

stage-nested_code :
    (key : String) (entry : Members)
    → is_stage_field key ≡ true
    → nested_code key (stage_projection entry) ≡ nested_code key entry
stage-nested_code key entry h =
    rw
      (
        nested_code-get key (stage_projection entry),
        get-stage_projection key entry,
        h,
        nested_code-get key entry,
      )
      refl

first_found-some : (xs ys zs : List String) → xs ≢ [] → first_found xs ys ≡ first_found xs zs
unfolding first_found
first_found-some [] ys zs h = absurd (h refl)
first_found-some (x ∷ xs) ys zs h = refl

-- The stage document has the stations of the entry.
stage-station_codes :
    (entry : Members)
    → IsPlain entry
    → station_codes_from_object (stage_projection entry) ≡ station_codes_from_object entry
unfolding station_codes_from_object IsPlain is_stage_field listed_codes first_found
stage-station_codes entry (inl listed) =
    rw (get-stage_projection "stationPoint" entry) (first_found-some _ _ _ listed)
stage-station_codes entry (inr (points, stations)) =
    rw
      (
        get-stage_projection "stationPoint" entry,
        get-stage_projection "stationPoints" entry,
        get-stage_projection "stations" entry,
        points,
        stations,
        stage-nested_code "fromStation" entry refl,
        stage-nested_code "toStation" entry refl,
      )
      refl

-- For an entry whose stations are under "stationPoint", or that lists none, the recorded routes are
-- the stage's own and those that a read finds in its cached stage document, each recorded once.
pub stage_metadata_records-served :
    (base : TripDetailsStageMetadata) (entry : Members) (a b : String)
    → IsPlain entry
    → no_nul base.from_station_code ≡ true
    → all_no_nul (station_codes_from_object entry) ≡ true
    → no_nul a ≡ true
    → on_route_count a b (stage_metadata_records base entry) ≡ (
        if is_route a b base || stage_contains_route (obj (stage_projection entry)) a b
        then 1
        else 0)
unfolding stage_contains_route station_codes_from_value
stage_metadata_records-served base entry a b plain hn hs h =
    rw
      (
        codes_contain_route-eq (station_codes_from_object (stage_projection entry)) a b,
        stage-station_codes entry plain,
      )
      (stage_metadata_records-route base entry a b hn hs h)

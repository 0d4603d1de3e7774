-- ===== src/Master/Storage/Complete.antt =====
-- What an entry that was stored without an error has in Dragonfly and Cassandra
-- (orbitplus/internal/application/master: tripdetails_storage_coordinator.go and the storage files
-- under it).
use orbitplus.Common.{ℕ, String, ◌≡◌, inl, inr, false, List, [], ◌∷◌, All, Bool-cases}
use orbitplus.Common.Text.{is_empty}
use orbitplus.Json.{Members, obj}
use orbitplus.Master.Errors.{GoResult, ok, err}
use orbitplus.Master.Keys.{build_trip_key, build_stage_key, build_busmap_key}
use orbitplus.Master.Projection.{common_trip_projection, stage_projection}
use orbitplus.Master.Metadata.{
  TripDetailsStageMetadata, stage_metadata_records, schedule_code_from_entry,
}
use orbitplus.Master.Storage.Effects.{
  Wrote, IsLasting, Ensures, ensures-write, ensures-skip, ensures-labelled, ensures-with_value,
  ensures-weaken, ensures-and_then,
}
use orbitplus.Master.Exec.{Deps, Event, cached, route, schedule, ◌and_then◌}
use orbitplus.Master.Storage.{
  Identifiers, stage_metadata, label_result, set_json, store_search_cache, store_busmap_cache,
  save_routes, save_schedule, store_search_metadata,
}

-- What a Search entry leaves in the trip and stage cache.
module _ {W : Type 0} (d : Deps W) where
  pub record IsCached (ids : Identifiers) (entry : Members) (log : List Event) : Type 0 where
    pub trip_key : String
    pub stage_key : String
    pub trip_json : String
    pub stage_json : String
    pub trip_named : build_trip_key ids.operator_code ids.trip_code ≡ ok trip_key
    pub stage_named :
        build_stage_key ids.operator_code ids.trip_code ids.trip_stage_code ≡ ok stage_key
    pub trip_encoded : d.marshal (obj (common_trip_projection entry)) ≡ ok trip_json
    pub stage_encoded : d.marshal (obj (stage_projection entry)) ≡ ok stage_json
    pub trip_written : Wrote (cached trip_key trip_json d.hot_cache_ttl) log
    pub stage_written : Wrote (cached stage_key stage_json d.hot_cache_ttl) log

  pub record IsBusMapCached (ids : Identifiers) (entry : Members) (log : List Event) : Type 0 where
    pub busmap_key : String
    pub busmap_json : String
    pub busmap_named :
        build_busmap_key ids.operator_code ids.trip_code ids.trip_stage_code ≡ ok busmap_key
    pub busmap_encoded : d.marshal (obj entry) ≡ ok busmap_json
    pub busmap_written : Wrote (cached busmap_key busmap_json d.warm_cache_ttl) log

  -- All records of the stage for one time, and that of its schedule if it has one.
  pub record IsIndexed (ids : Identifiers) (entry : Members) (log : List Event) : Type 0 where
    pub time : ℕ
    pub routes_written :
        All
          (λ r. Wrote (route r) log)
          (stage_metadata_records (stage_metadata time ids entry) entry)
    pub schedule_written :
        is_empty (schedule_code_from_entry entry) ≡ false
        → Wrote (schedule (stage_metadata time ids entry)) log

  label-ok :
      {A : Type 0} (text : String) (r : GoResult A) (a : A) → label_result text r ≡ ok a → r ≡ ok a
  unfolding label_result
  label-ok text (ok b) a h = h
  label-ok text (err e) a h = absurd (cc h)

  pub store_search_cache-Ensures :
      (ids : Identifiers) (entry : Members)
      → Ensures (store_search_cache d ids entry) (IsCached ids entry)
  unfolding store_search_cache set_json
  store_search_cache-Ensures ids entry = ensures-with_value _ _ λ trip_key named.
      ensures-with_value _ _ λ stage_key stage_named. ensures-with_value _ _ λ trip_json encoded.
        ensures-with_value _ _ λ stage_json stage_encoded.
          ensures-weaken _
            (ensures-and_then _ _ (ensures-labelled _ _ (ensures-write _ _))
              (ensures-labelled _ _ (ensures-write _ _)) (λ log log' x. x _))
            λ log h. record {
              trip_key = trip_key;
              stage_key = stage_key;
              trip_json = trip_json;
              stage_json = stage_json;
              trip_named = named;
              stage_named = stage_named;
              trip_encoded = label-ok _ _ _ encoded;
              stage_encoded = label-ok _ _ _ stage_encoded;
              trip_written = h.0;
              stage_written = h.1;
            }

  pub store_busmap_cache-Ensures :
      (ids : Identifiers) (entry : Members)
      → Ensures (store_busmap_cache d ids entry) (IsBusMapCached ids entry)
  unfolding store_busmap_cache set_json
  store_busmap_cache-Ensures ids entry = ensures-with_value _ _ λ busmap_key named.
      ensures-with_value _ _ λ busmap_json encoded.
        ensures-weaken _ (ensures-labelled _ _ (ensures-write _ _)) λ log h. record {
          busmap_key = busmap_key;
          busmap_json = busmap_json;
          busmap_named = named;
          busmap_encoded = label-ok _ _ _ encoded;
          busmap_written = h;
        }

  pub All-IsLasting :
      (rs : List TripDetailsStageMetadata) → IsLasting (λ log. All (λ r. Wrote (route r) log) rs)
  All-IsLasting [] log log' x h = tt
  All-IsLasting (r ∷ rs) log log' x h = (x _ h.0, All-IsLasting rs log log' x h.1)

  save_routes-Ensures :
      (rs : List TripDetailsStageMetadata)
      → Ensures (save_routes d rs) (λ log. All (λ r. Wrote (route r) log) rs)
  unfolding save_routes
  save_routes-Ensures [] = ensures-skip
  save_routes-Ensures (r ∷ rs) =
      ensures-and_then _ _ (ensures-labelled _ _ (ensures-write _ _)) (save_routes-Ensures rs)
        (λ log log' x. x _)

  save_schedule-Ensures :
      (metadata : TripDetailsStageMetadata)
      → Ensures
          (save_schedule d metadata)
          (λ log. is_empty metadata.schedule_code ≡ false → Wrote (schedule metadata) log)
  unfolding save_schedule
  save_schedule-Ensures metadata = elim (Bool-cases (is_empty metadata.schedule_code)) [
    | inl t ↦ rw t (ensures-weaken _ ensures-skip (λ log h q. absurd (cc (q))))
    | inr f ↦ rw f (ensures-weaken _ (ensures-labelled _ _ (ensures-write _ _)) (λ log h q. h))
  ]

  pub store_search_metadata-Ensures :
      (ids : Identifiers) (entry : Members)
      → Ensures (store_search_metadata d ids entry) (IsIndexed ids entry)
  unfolding store_search_metadata stage_metadata
  store_search_metadata-Ensures ids entry = record {
    grows = λ s. (at_time (d.now s.world)).grows s;
    gives = λ s. (at_time (d.now s.world)).gives s;
  }
    where
      at_time :
          (now : ℕ)
          → Ensures
              (save_routes d (stage_metadata_records (stage_metadata now ids entry) entry)
                and_then save_schedule d (stage_metadata now ids entry))
              (IsIndexed ids entry)
      at_time now =
          ensures-weaken _
            (ensures-and_then _ _ (save_routes-Ensures _) (save_schedule-Ensures _)
              (All-IsLasting _))
            λ log h. record { time = now; routes_written = h.0; schedule_written = h.1 }

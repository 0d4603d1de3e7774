-- ===== src/Master/Storage/Persisted.antt =====
-- When an entry of a request is persisted in full
-- (orbitplus/internal/application/master: tripdetails_storage_coordinator.go and the storage files
-- under it).
use orbitplus.Common.{String, inl, inr, Bool, true, false, List, str_eq, Bool-cases, if◌then◌else◌}
use orbitplus.Common.Text.{to_upper}
use orbitplus.Json.{Members}
use orbitplus.Master.Metadata.{stage_metadata_records}
use orbitplus.Master.Storage.Effects.{
  IsLasting, Ensures, ensures-labelled, ensures-checked, ensures-and_then,
}
use orbitplus.Master.Exec.{Deps, Event}
use orbitplus.Master.Storage.{
  Identifiers, entry_identifiers, stage_metadata, store_search, store_entry,
  store_search_busmap_entry, entry_store,
}
use orbitplus.Master.Storage.Extract.{busmap_action, searchbusmap_action, Payload}
use orbitplus.Master.Storage.Complete.{
  IsCached, IsBusMapCached, IsIndexed, All-IsLasting, store_search_cache-Ensures,
  store_busmap_cache-Ensures, store_search_metadata-Ensures,
}

module _ {W : Type 0} (d : Deps W) where
  -- The whole of a Search entry.
  abbrev pub IsSearchStored : Identifiers → Members → List Event → Type 0
  IsSearchStored ids entry log = IsCached d ids entry log × IsIndexed d ids entry log

  IsCached-IsLasting : (ids : Identifiers) (entry : Members) → IsLasting (IsCached d ids entry)
  IsCached-IsLasting ids entry log log' x h = record {
    trip_key = h.trip_key;
    stage_key = h.stage_key;
    trip_json = h.trip_json;
    stage_json = h.stage_json;
    trip_named = h.trip_named;
    stage_named = h.stage_named;
    trip_encoded = h.trip_encoded;
    stage_encoded = h.stage_encoded;
    trip_written = x _ h.trip_written;
    stage_written = x _ h.stage_written;
  }

  IsBusMapCached-IsLasting :
      (ids : Identifiers) (entry : Members) → IsLasting (IsBusMapCached d ids entry)
  IsBusMapCached-IsLasting ids entry log log' x h = record {
    busmap_key = h.busmap_key;
    busmap_json = h.busmap_json;
    busmap_named = h.busmap_named;
    busmap_encoded = h.busmap_encoded;
    busmap_written = x _ h.busmap_written;
  }

  IsIndexed-IsLasting : (ids : Identifiers) (entry : Members) → IsLasting (IsIndexed d ids entry)
  IsIndexed-IsLasting ids entry log log' x h = record {
    time = h.time;
    routes_written =
        All-IsLasting d (stage_metadata_records (stage_metadata h.time ids entry) entry) log log' x
          h.routes_written;
    schedule_written = λ q. x _ (h.schedule_written q);
  }

  product_IsLasting :
      {P Q : List Event → Type 0} → IsLasting P → IsLasting Q → IsLasting (λ log. P log × Q log)
  product_IsLasting p q log log' x h = (p log log' x h.0, q log log' x h.1)

  IsSearchStored-IsLasting :
      (ids : Identifiers) (entry : Members) → IsLasting (IsSearchStored ids entry)
  IsSearchStored-IsLasting ids entry =
      product_IsLasting (IsCached-IsLasting ids entry) (IsIndexed-IsLasting ids entry)

  -- Which content an entry of the request has to be stored as.
  abbrev ByAction : Bool → Bool → Identifiers → Members → List Event → Type 0
  ByAction true busmap ids entry log = IsSearchStored ids entry log × IsBusMapCached d ids entry log
  ByAction false true ids entry log = IsBusMapCached d ids entry log
  ByAction false false ids entry log = IsSearchStored ids entry log

  -- An entry of the request for this action is persisted in full.
  unfoldable pub Persisted : Payload → String → Members → List Event → Type 0
  Persisted p action_type entry log =
      ByAction (str_eq (to_upper p.action_type) searchbusmap_action)
        (str_eq action_type busmap_action) (entry_identifiers p.operator_code entry) entry log

  ByAction-IsLasting :
      (a b : Bool) (ids : Identifiers) (entry : Members) → IsLasting (ByAction a b ids entry)
  ByAction-IsLasting true b ids entry =
      product_IsLasting (IsSearchStored-IsLasting ids entry) (IsBusMapCached-IsLasting ids entry)
  ByAction-IsLasting false true ids entry = IsBusMapCached-IsLasting ids entry
  ByAction-IsLasting false false ids entry = IsSearchStored-IsLasting ids entry

  pub Persisted-IsLasting :
      (p : Payload) (action_type : String) (entry : Members)
      → IsLasting (Persisted p action_type entry)
  unfolding Persisted
  Persisted-IsLasting p action_type entry = ByAction-IsLasting _ _ _ entry

  store_search-Ensures :
      (ids : Identifiers) (entry : Members)
      → Ensures (store_search d ids entry) (IsSearchStored ids entry)
  unfolding store_search
  store_search-Ensures ids entry = ensures-checked _ _ (
      ensures-and_then _ _ (store_search_cache-Ensures d ids entry)
        (store_search_metadata-Ensures d ids entry) (IsCached-IsLasting ids entry))

  store_entry-Ensures :
      (action_type operator_code : String) (entry : Members)
      → Ensures (store_entry d action_type operator_code entry) (
          ByAction false
            (str_eq action_type busmap_action)
            (entry_identifiers operator_code entry)
            entry)
  unfolding store_entry
  store_entry-Ensures action_type operator_code entry =
      elim (Bool-cases (str_eq action_type busmap_action)) [
        | inl t ↦ rw t (store_busmap_cache-Ensures d _ entry)
        | inr f ↦ rw f (store_search-Ensures _ entry)
      ]

  store_search_busmap_entry-Ensures :
      (operator_code : String) (entry : Members)
      → Ensures (store_search_busmap_entry d operator_code entry) (λ log.
        IsSearchStored (entry_identifiers operator_code entry) entry log
        × IsBusMapCached d (entry_identifiers operator_code entry) entry log)
  unfolding store_search_busmap_entry
  store_search_busmap_entry-Ensures operator_code entry =
      let ids = entry_identifiers operator_code entry in
      ensures-checked _ _ (
        ensures-and_then _ _
          (ensures-and_then _ _ (ensures-labelled _ _ (store_search_cache-Ensures d ids entry))
            (ensures-labelled _ _ (store_search_metadata-Ensures d ids entry))
            (IsCached-IsLasting ids entry))
          (ensures-labelled _ _ (store_busmap_cache-Ensures d ids entry))
          (IsSearchStored-IsLasting ids entry))

  pub entry_store-Ensures :
      (p : Payload) (action_type : String) (entry : Members)
      → Ensures (entry_store d p action_type entry) (Persisted p action_type entry)
  unfolding entry_store Persisted
  entry_store-Ensures p action_type entry =
      by_bool (str_eq (to_upper p.action_type) searchbusmap_action)
    where
      by_bool :
          (a : Bool)
          → Ensures
              ((if a
                  then store_search_busmap_entry d p.operator_code
                  else store_entry d action_type p.operator_code)
                entry)
              (ByAction a
                (str_eq action_type busmap_action)
                (entry_identifiers p.operator_code entry)
                entry)
      by_bool true = store_search_busmap_entry-Ensures p.operator_code entry
      by_bool false = store_entry-Ensures action_type p.operator_code entry

-- ===== src/Master/Lookup/Found.antt =====
-- When Search answers at all (orbitplus/internal/application/master/tripdetails_reader.go).
use orbitplus.Common.{String, ◌≡◌, Option, some}
use orbitplus.Json.{Members}
use orbitplus.Master.Errors.{ok}
use orbitplus.Master.Keys.{build_trip_key, build_stage_key}
use orbitplus.Master.Metadata.{TripDetailsStageMetadata}
use orbitplus.Master.Lookup.{Readers, ResolvedStage, merge_stored}

module _ {W : Type 0} (d : Readers W) (content : String → Option String) where
  -- The keys of the record can be built, and its documents, where both are stored, can be merged.
  pub record IsClean (c : TripDetailsStageMetadata) : Type 0 where
    pub stage_key : String
    pub trip_key : String
    pub stage_named : build_stage_key c.operator_code c.trip_code c.trip_stage_code ≡ ok stage_key
    pub trip_named : build_trip_key c.operator_code c.trip_code ≡ ok trip_key
    pub merges :
        (stage trip : String)
        → content stage_key ≡ some stage
        → content trip_key ≡ some trip
        → (entry : Members) × (merge_stored d trip stage ≡ ok entry)

  -- The same of a stage that was read.
  record IsMergeable (c : ResolvedStage) : Type 0 where
    trip_key : String
    trip_named : build_trip_key c.metadata.operator_code c.metadata.trip_code ≡ ok trip_key
    merges :
        (trip : String)
        → content trip_key ≡ some trip
        → (entry : Members) × (merge_stored d trip c.stage ≡ ok entry)

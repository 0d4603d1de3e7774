-- ===== src/Master/Keys.antt =====
-- The Dragonfly keys of trip, stage and BusMap content
-- (orbitplus/internal/application/master/tripdetails_cache_storage.go).
pub mod Apart
use Prim.Native.String.{◌++◌}
use orbitplus.Common.{ℕ, String, Option, none, some, List, [], ◌∷◌, ◌||◌, if◌then◌else◌}
use orbitplus.Common.Text.{is_blank, contains}
use orbitplus.Master.Errors.{GoError, missing_storage_identifiers, GoResult, ok, ◌>>◌}

-- The code of ':'.
abbrev pub colon : ℕ
colon = 58

unfoldable pub require_key_components : List String → Option GoError
require_key_components [] = none
require_key_components (value ∷ values) =
    if is_blank value || contains colon value
    then some missing_storage_identifiers
    else require_key_components values

unfoldable pub build_trip_key : String → String → GoResult String
build_trip_key operator_code trip_code =
    require_key_components (operator_code ∷ trip_code ∷ [])
    >> ok ("trip:" ++ (operator_code ++ (":" ++ trip_code)))

unfoldable pub build_stage_key : String → String → String → GoResult String
build_stage_key operator_code trip_code trip_stage_code =
    require_key_components (operator_code ∷ trip_code ∷ trip_stage_code ∷ [])
    >> ok ("stage:" ++ (operator_code ++ (":" ++ (trip_code ++ (":" ++ trip_stage_code)))))

unfoldable pub build_busmap_key : String → String → String → GoResult String
build_busmap_key operator_code trip_code trip_stage_code =
    require_key_components (operator_code ∷ trip_code ∷ trip_stage_code ∷ [])
    >> ok ("busmap:" ++ (operator_code ++ (":" ++ (trip_code ++ (":" ++ trip_stage_code)))))

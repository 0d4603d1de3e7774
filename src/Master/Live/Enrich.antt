-- ===== src/Master/Live/Enrich.antt =====
-- The route fields that a repaired BusMap entry is completed with
-- (orbitplus/internal/application/master/cache_freshness_verifier.go, enrichBusMapRepairEntry).
pub mod Kept
use orbitplus.Common.{String, Bool, true, false, not, Option, none, some, if◌then◌else◌}
use orbitplus.Common.Text.{is_empty, is_blank}
use orbitplus.Json.{Value, Members, str, obj, end, get, set, as_text, as_object}
use orbitplus.Master.Live.{BitsLookup}

unfoldable pub set_if_blank : String → String → Members → Members
set_if_blank key value entry =
    if is_empty value
    then entry
    else if not (is_blank (as_text (get key entry)))
    then entry
    else set key (str value) entry

-- The object is changed in place, so a blank code is set in the entry's own station.
unfoldable pub set_nested_code_if_blank : String → String → Members → Members
set_nested_code_if_blank station code entry =
    if is_empty code
    then entry
    else if not (is_blank (as_text (get "code" (as_object (get station entry)))))
    then entry
    else set station (obj (set "code" (str code) (as_object (get station entry)))) entry

unfoldable pub enrich_busmap_repair_entry : BitsLookup → Members → Members
enrich_busmap_repair_entry lookup entry = set_nested_code_if_blank "toStation" lookup.to_code (
    set_nested_code_if_blank "fromStation" lookup.from_code (
      set_if_blank "travelDate" lookup.travel_date
        (set_if_blank "tripCode" lookup.trip_code entry)))

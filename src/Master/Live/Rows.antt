-- ===== src/Master/Live/Rows.antt =====
-- The row of a difference (orbitplus/internal/application/master/cache_difference_storage.go).
use Prim.Native.String.{◌++◌ as join}
use orbitplus.Common.{ℕ, suc, zero, String, Bool, List, [], ◌∷◌, not, leb, if◌then◌else◌}
use orbitplus.Common.Text.{is_empty}
use orbitplus.Common.Pieces.{rune_count, take_runes}
use orbitplus.Master.Compare.{
  DifferenceKind, difference_value_mismatch, difference_missing_in_cache,
  difference_missing_in_bits, DifferenceEntry,
}
use orbitplus.Master.Live.{BitsLookup, VerificationOutcome, RecordedDifference}

abbrev pub max_stored_paths : ℕ
max_stored_paths = 200

abbrev pub max_stored_value_chars : ℕ
max_stored_value_chars = 120

unfoldable pub truncate_value : String → String
truncate_value value =
    if is_empty value
    then "∅"
    else if leb (rune_count value) max_stored_value_chars
    then value
    else join (take_runes max_stored_value_chars value) "…"

unfoldable pub kind_text : DifferenceKind → String
kind_text difference_value_mismatch = "VALUE_MISMATCH"
kind_text difference_missing_in_cache = "MISSING_IN_CACHE"
kind_text difference_missing_in_bits = "MISSING_IN_BITS"

unfoldable pub shown_values : DifferenceKind → String → String → String
shown_values difference_missing_in_cache cache_value bits_value = truncate_value bits_value
shown_values difference_missing_in_bits cache_value bits_value = truncate_value cache_value
shown_values difference_value_mismatch cache_value bits_value =
    join (truncate_value cache_value) (join " → " (truncate_value bits_value))

unfoldable pub format_difference_path : DifferenceEntry → String
format_difference_path d =
    join (kind_text d.kind)
      (join " " (join d.path (join ": " (shown_values d.kind d.cache_value d.bits_value))))

-- The paths of the first differences, as many as are still stored.
unfoldable pub stored_paths : ℕ → List DifferenceEntry → List String
stored_paths zero differences = []
stored_paths (suc n) [] = []
stored_paths (suc n) (d ∷ differences) = format_difference_path d ∷ stored_paths n differences

-- The trip of the first difference, if it names one.
unfoldable pub row_trip_code : String → List DifferenceEntry → String
row_trip_code trip_code [] = trip_code
row_trip_code trip_code (d ∷ differences) =
    if not (is_empty d.identity.trip_code) then d.identity.trip_code else trip_code

unfoldable pub row_trip_stage_code : List DifferenceEntry → String
row_trip_stage_code [] = ""
row_trip_stage_code (d ∷ differences) = d.identity.trip_stage_code

-- buildRecordedDifference; `detected_on` is the UTC date of `detected_at`.
unfoldable pub build_recorded_difference :
    (ℕ → String)
    → BitsLookup
    → VerificationOutcome
    → List DifferenceEntry
    → ℕ
    → Bool
    → ℕ
    → RecordedDifference
build_recorded_difference utc_date lookup outcome differences total repaired detected_at = record {
  operator_code = lookup.operator_code;
  detected_on = utc_date detected_at;
  detected_at = detected_at;
  action_type = lookup.action;
  trip_code = row_trip_code lookup.trip_code differences;
  trip_stage_code = row_trip_stage_code differences;
  from_code = lookup.from_code;
  to_code = lookup.to_code;
  trip_date = lookup.travel_date;
  verification_outcome = outcome;
  difference_count = total;
  difference_paths = stored_paths max_stored_paths differences;
  cache_repaired = repaired;
}

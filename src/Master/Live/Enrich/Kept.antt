-- ===== src/Master/Live/Enrich/Kept.antt =====
-- What enrichBusMapRepairEntry leaves as it was, and what it fills in
-- (orbitplus/internal/application/master/cache_freshness_verifier.go).
use orbitplus.Common.{String, ◌≡◌, Bool, false, ◌||◌, str_eq, if◌then◌else◌}
use orbitplus.Common.Text.{is_empty, is_blank}
use orbitplus.Json.{Members, get, as_text, as_object}
use orbitplus.Master.Live.{BitsLookup}

-- The text that the entry has, or the one it is given when that is blank.
unfoldable pub or_given : String → String → String
or_given text value = if is_empty value then text else if is_blank text then value else text

abbrev pub code_at : String → Members → String
code_at station m = as_text (get "code" (as_object (get station m)))

-- The names of the four members that are completed.
abbrev pub is_completed : String → Bool
is_completed key =
    str_eq "toStation" key
    || str_eq "fromStation" key
    || str_eq "travelDate" key
    || str_eq "tripCode" key

pub record IsEnriched (l : BitsLookup) (m m' : Members) : Type 0 where
  pub trip_code : as_text (get "tripCode" m') ≡ or_given (as_text (get "tripCode" m)) l.trip_code
  pub travel_date :
      as_text (get "travelDate" m') ≡ or_given (as_text (get "travelDate" m)) l.travel_date
  pub from_station : code_at "fromStation" m' ≡ or_given (code_at "fromStation" m) l.from_code
  pub to_station : code_at "toStation" m' ≡ or_given (code_at "toStation" m) l.to_code
  pub others : (key : String) → is_completed key ≡ false → get key m' ≡ get key m

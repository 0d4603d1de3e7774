-- ===== src/Master/Zones.antt =====
-- Which BITS endpoint a zone code addresses
-- (orbitplus/internal/application/master/orionmax_zone_url.go). The environment is a parameter.
use Prim.Native.String.{◌++◌ as join}
use orbitplus.Common.{
  String, Option, none, some, List, [], ◌∷◌, str_eq, if◌then◌else◌, not, ◌≡◌, refl,
}
use orbitplus.Common.Text.{is_empty, trim_space, to_upper}
use orbitplus.Common.Pieces.{to_lower, trim_right_of}

abbrev zone_url_by_code : List (String × String)
zone_url_by_code =
    ("bits", "http://app.ezeebits.com")
    ∷ ("r2bits", "http://app.r2.ezeebits.com")
    ∷ ("r3bits", "http://app.r3.ezeebits.com")
    ∷ ("ybmbits", "http://app.ybmtravels.in")
    ∷ ("sbltbits", "http://app.sbltbus.com")
    ∷ ("svrtbits", "http://app.srivenkataramanatravels.co.in")
    ∷ ("parveenbits", "http://app.parveentravels.in")
    ∷ ("rmtbits", "http://app.rathimeenatravels.in")
    ∷ ("gotourbits", "http://app.gotourtravels.com")
    ∷ ("vinayagabits", "http://app.vinayagaselvamtravels.in")
    ∷ ("vkvbits", "http://app.vkvtravels.com")
    ∷ ("prmbits", "http://app.prmbus.com")
    ∷ ("sbmbits", "http://app.sbmbus.com")
    ∷ []

unfoldable pub find_url : String → List (String × String) → Option String
find_url code [] = none
find_url code ((k, url) ∷ rest) = if str_eq k code then some url else find_url code rest

-- The code, if it is in the table.
unfoldable pub normalize_zone_code : String → Option (String × String)
unfolding find_url
normalize_zone_code zone_code =
    let code = to_lower (trim_space zone_code) in
    elim (find_url code zone_url_by_code) [ none ↦ none | some url ↦ some (code, url) ]

module _ (getenv : String → String) where
  unfoldable pub override_or : String → String → String
  override_or name url =
      let override = trim_space (getenv name) in
      if not (is_empty override) then trim_right_of 47 override else url

  -- The override of the zone, then the one of every zone, then the table.
  unfoldable pub zone_url_from : Option (String × String) → Option String
  zone_url_from none = none
  zone_url_from (some (code, url)) = some (
      override_or (join "BITS_ZONE_" (join (to_upper code) "_URL"))
        (override_or "BITS_ZONE_DEFAULT_URL" url))

  -- zoneURLFor, ZoneBitsBaseURL
  unfoldable pub zone_bits_base_url : String → Option String
  zone_bits_base_url zone_code = zone_url_from (normalize_zone_code zone_code)

zone_bits_base_url_runs :
    zone_bits_base_url
      (λ name. if str_eq name "BITS_ZONE_R2BITS_URL" then " http://r2/ " else "")
      " R2Bits"
    ≡ some "http://r2"
unfolding zone_bits_base_url zone_url_from override_or normalize_zone_code find_url to_lower
    to_upper trim_space trim_right_of
zone_bits_base_url_runs = refl

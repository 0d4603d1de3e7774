-- ===== src/Master/Live/Cold.antt =====
-- ColdCacheRefresher (orbitplus/internal/application/master/cold_cache_refresher.go): a live read with
-- the caller's credential, at the zone of the operator. Logging is left out.
pub mod Refreshed
use orbitplus.Common.{
  String, Bool, true, false, Option, none, some, not, ◌&&◌, if◌then◌else◌, ℤ, ◌≡◌, ◌≢◌, refl,
  Bool-cases, inl, inr, Option-cases,
}
use orbitplus.Common.Text.{is_blank}
use orbitplus.Master.Zones.{zone_bits_base_url}
use orbitplus.Master.Lookup.{RouteLookup}
use orbitplus.Master.Live.{BitsLookup, LiveError, VerifyResult}

-- domain.Operator
pub record Operator : Type 0 where
  pub code : String
  pub zone_code : String
  pub active_flag : ℤ

-- What FindOperator answers.
pub data OperatorReply : Type 0 where
  operator_found : Operator → OperatorReply
  operator_missing : OperatorReply
  operator_failed : OperatorReply

-- RefreshCredential.Valid on the credential of the lookup
unfoldable pub is_valid_credential : RouteLookup → Bool
is_valid_credential lookup = not (is_blank lookup.username) && not (is_blank lookup.api_token)

unfoldable pub bits_lookup : String → RouteLookup → String → BitsLookup
bits_lookup action lookup base_url = record {
  action = action;
  operator_code = lookup.operator_code;
  base_url = base_url;
  username = lookup.username;
  api_token = lookup.api_token;
  trip_code = lookup.trip_code;
  from_code = lookup.from_code;
  to_code = lookup.to_code;
  travel_date = lookup.trip_date;
}

-- A refresher over the state `S` of what it calls; `none` for a nil verifier or finder.
pub record ColdCacheRefresher (S : Type 0) : Type 0 where
  pub verifier : Option (BitsLookup → S → (VerifyResult × Option LiveError) × S)
  pub operators : Option (String → S → OperatorReply × S)
  pub getenv : String → String

abbrev pub is_refreshed : Option LiveError → Bool
is_refreshed none = true
is_refreshed (some e) = false

unfoldable pub zone_url_of : (String → String) → OperatorReply → Option String
zone_url_of getenv (operator_found operator) = zone_bits_base_url getenv operator.zone_code
zone_url_of getenv operator_missing = none
zone_url_of getenv operator_failed = none

module _ {S : Type 0} where
  -- From the URL of the zone on.
  unfoldable pub refresh_at_url :
      (BitsLookup → S → (VerifyResult × Option LiveError) × S)
      → String
      → RouteLookup
      → Option String
      → S
      → Bool × S
  refresh_at_url verify action lookup none s = (false, s)
  refresh_at_url verify action lookup (some url) s =
      let ((result, e), s') = verify (bits_lookup action lookup url) s in (is_refreshed e, s')

  unfoldable pub refresh_with :
      (String → String)
      → Option (BitsLookup → S → (VerifyResult × Option LiveError) × S)
      → Option (String → S → OperatorReply × S)
      → String
      → RouteLookup
      → S
      → Bool × S
  refresh_with getenv none operators action lookup s = (false, s)
  refresh_with getenv (some verify) none action lookup s = (false, s)
  refresh_with getenv (some verify) (some find_operator) action lookup s =
      if not (is_valid_credential lookup)
      then (false, s)
      else (let (reply, s') = find_operator lookup.operator_code s in
          refresh_at_url verify action lookup (zone_url_of getenv reply) s')

  -- RefreshCold
  unfoldable pub refresh_cold : ColdCacheRefresher S → String → RouteLookup → S → Bool × S
  refresh_cold r action lookup s = refresh_with r.getenv r.verifier r.operators action lookup s

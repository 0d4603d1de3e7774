-- ===== src/Master/LiveTests.antt =====
-- Live reads of a route that is not cached, and comparisons of small copies.
use orbitplus.Common.{
  ℕ, ◌+◌, ◌≡◌, refl, String, true, false, none, some, [], ◌∷◌, str_eq, if◌then◌else◌, pos,
}
use orbitplus.Common.Text.{is_blank, trim_space, to_upper}
use orbitplus.Common.Pieces.{to_lower, trim_right_of}
use orbitplus.Json.{Value, str, num, obj, end, member, get}
use orbitplus.Master.Errors.{GoResult, ok, err, other}
use orbitplus.Master.Compare.{entry_identity_of}
use orbitplus.Master.Compare.Canonical.{Formats}
use orbitplus.Master.Lookup.{RouteLookup, Readers}
use orbitplus.Master.Zones.{
  zone_bits_base_url, zone_url_from, override_or, normalize_zone_code, find_url,
}
use orbitplus.Master.Live.{BitsLookup, has_credential, BitsResult, fetched}
use orbitplus.Master.Live.Pair.{
  identity_of, identity_of_decoded, pair_and_compare, is_same_identity,
}
use orbitplus.Master.Live.Pair.Total.{live_sum, unmatched, pair_and_compare-total}
use orbitplus.Master.Live.Pair.Kept.{IsKept, pair_and_compare-IsKept}
use orbitplus.Master.Live.Pair.Equal.{AreDistinct, pair_and_compare_self}
use orbitplus.Master.Live.Verifier.{Verifier, Live, admitted, fetch_trip_details}
use orbitplus.Master.Live.Verify.{
  conclude_fetch, fetch_and_conclude, after_limiter, limit_zone, verify_in_slot, verify,
}
use orbitplus.Master.Live.Slots.Recorded.{Recording}
use orbitplus.Master.Live.Slots.{Fetching, verify-occupied, verify-Fetching, verify-Recording}
use orbitplus.Master.Live.Cold.{
  OperatorReply, operator_found, is_valid_credential, zone_url_of, bits_lookup, refresh_at_url,
  refresh_with, refresh_cold,
}
use orbitplus.Master.Live.Cold.Refreshed.{live_refresher, IsRefreshed, refresh_cold-IsRefreshed}

abbrev formats : Formats
formats = record { rat_string = λ n. some n; quote = λ s. s; itoa = λ n. "0" }

abbrev entry_value : String → Value
entry_value fare = obj (
    member "operatorCode" (str "op") (
      member "tripCode" (str "T1")
        (member "tripStageCode" (str "S1") (member "fare" (num fare) end))))

abbrev other_entry : Value
other_entry = obj (member "tripCode" (str "T2") end)

-- The bytes of three entries: two versions of one, and another.
abbrev decode : String → GoResult Value
decode body =
    if str_eq body "A500"
    then ok (entry_value "500")
    else if str_eq body "A450"
    then ok (entry_value "450")
    else if str_eq body "B"
    then ok other_entry
    else err (other "unexpected end of JSON input")

pair_and_compare-total_example :
    (pair_and_compare formats decode decode ("A500" ∷ "B" ∷ []) ("A450" ∷ [])).total
    ≡ live_sum formats decode decode ("A500" ∷ "B" ∷ []) ("A450" ∷ [])
      + unmatched formats decode decode [] ("A500" ∷ "B" ∷ []) ("A450" ∷ [])
pair_and_compare-total_example =
    pair_and_compare-total formats decode decode ("A500" ∷ "B" ∷ []) ("A450" ∷ [])

pair_and_compare-IsKept_example :
    IsKept (pair_and_compare formats decode decode ("A500" ∷ "B" ∷ []) ("A450" ∷ []))
pair_and_compare-IsKept_example =
    pair_and_compare-IsKept formats decode decode ("A500" ∷ "B" ∷ []) ("A450" ∷ [])

two-AreDistinct : AreDistinct formats decode decode ("A500" ∷ "B" ∷ [])
unfolding identity_of identity_of_decoded entry_identity_of is_same_identity get
two-AreDistinct = (((refl, tt), (entry_value "500", refl)), ((tt, (other_entry, refl)), tt))

pair_and_compare_self_example :
    (pair_and_compare formats decode decode ("A500" ∷ "B" ∷ []) ("A500" ∷ "B" ∷ [])).total ≡ 0
pair_and_compare_self_example =
    pair_and_compare_self formats decode decode ("A500" ∷ "B" ∷ []) two-AreDistinct

abbrev live_lookup : BitsLookup
live_lookup = record {
  action = "SEARCH";
  operator_code = "op";
  base_url = "http://app.ezeebits.com";
  username = "user";
  api_token = "token";
  trip_code = "T1";
  from_code = "X";
  to_code = "Y";
  travel_date = "2026-01-02";
}

abbrev answer : BitsResult
answer = record { data_text = "A500"; data_kind = "object"; is_data_empty = false }

-- Nothing is cached.
abbrev empty_readers : Readers ℕ
empty_readers = record {
  find_stages_by_route = λ o f t date w. (ok [], w);
  get_json = λ k w. (ok none, w);
  get_json_refresh = λ k w. (ok none, w);
  refresh_cold = none;
  now = λ w. w;
  max_ages = record { hot_max_age = 4; warm_max_age = 6 };
  decode = decode;
}

abbrev verifier : Verifier ℕ
verifier = record {
  fetch = λ l w. (fetched answer, w + 1);
  reader = some empty_readers;
  has_writer = true;
  repairer = none;
  rate_limiter = some (λ zone w. (admitted, w));
  capacity = 1;
  now = λ w. w;
  utc_date = λ t. "2026-01-01";
  formats = formats;
  raw = λ v. "A500";
  unmarshal = decode;
  decode = decode;
  elements = λ body. ok (body ∷ []);
}

abbrev idle : Live ℕ
idle = record { run = record { world = 0; log = [] }; occupied = 0; fetches = []; rows = [] }

verify-occupied_example : (verify verifier live_lookup idle).1.occupied ≡ 0
verify-occupied_example = verify-occupied verifier live_lookup idle

verify-Fetching_example : Fetching verifier live_lookup idle (verify verifier live_lookup idle)
verify-Fetching_example = verify-Fetching verifier live_lookup idle

verify-Recording_example :
    Recording verifier live_lookup
      (verify verifier live_lookup idle).0.0
      idle
      (verify verifier live_lookup idle).1
verify-Recording_example = verify-Recording verifier live_lookup idle

abbrev find_operator : String → ℕ → OperatorReply × ℕ
find_operator code w =
    (operator_found (record { code = code; zone_code = "BITS"; active_flag = pos 1 }), w)

abbrev no_env : String → String
no_env name = ""

abbrev route : RouteLookup
route = record {
  operator_code = "op";
  trip_code = "T1";
  from_code = "X";
  to_code = "Y";
  trip_date = "2026-01-02";
  username = "user";
  api_token = "token";
}

refresh_cold_runs :
    (refresh_cold (live_refresher verifier find_operator no_env) "SEARCH" route idle).0 ≡ true
unfolding refresh_cold refresh_with refresh_at_url zone_url_of is_valid_credential
    zone_bits_base_url zone_url_from override_or normalize_zone_code find_url to_lower to_upper
    trim_space trim_right_of is_blank verify verify_in_slot has_credential limit_zone after_limiter
    fetch_and_conclude fetch_trip_details conclude_fetch bits_lookup
refresh_cold_runs = refl

refresh_cold-IsRefreshed_example :
    IsRefreshed verifier find_operator no_env "SEARCH" route idle
      (refresh_cold (live_refresher verifier find_operator no_env) "SEARCH" route idle).1
refresh_cold-IsRefreshed_example =
    refresh_cold-IsRefreshed verifier find_operator no_env "SEARCH" route idle refresh_cold_runs

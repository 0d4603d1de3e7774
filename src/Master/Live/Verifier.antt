-- ===== src/Master/Live/Verifier.antt =====
-- What a verifier is built from, its state, and its comparison with the cached copy
-- (orbitplus/internal/application/master/cache_freshness_verifier.go).
use orbitplus.Common.{
  ℕ, ℤ, ◌-◌, String, Bool, false, ◌||◌, Option, none, some, List, [], ◌∷◌, map, str_eq, ltb,
  if◌then◌else◌,
}
use orbitplus.Common.Text.{is_empty}
use orbitplus.Json.{Value, Members, obj}
use orbitplus.Master.Errors.{GoResult, ok, err}
use orbitplus.Master.Exec as Exec
use orbitplus.Master.Exec.{Run}
use orbitplus.Master.Compare.Canonical.{Formats}
use orbitplus.Master.Lookup.{RouteLookup, Readers, bits_action_busmap, search, busmap}
use orbitplus.Master.Live.{
  BitsLookup, BitsResult, bits_data_kind_array, is_not_found, FetchReply, VerificationOutcome,
  outcome_match, outcome_different, outcome_cache_missing, outcome_source_unavailable,
  RecordedDifference, VerifyResult, Differences,
}
use orbitplus.Master.Live.Pair.{pair_and_compare}

-- What the limiter answers.
pub data LimiterReply : Type 0 where
  admitted : LimiterReply
  limited : ℤ → LimiterReply
  limiter_failed : LimiterReply

-- What the verifier is built from. `raw` gives the bytes that the reader hands out for an entry,
-- `unmarshal` and `elements` are json.Unmarshal into a value and into a list of raw entries, and
-- `decode` is a json.Decoder that keeps numbers as text.
pub record Verifier (W : Type 0) : Type 0 where
  pub fetch : BitsLookup → W → FetchReply × W
  pub reader : Option (Readers W)
  pub has_writer : Bool
  pub repairer : Option (Exec.Deps W)
  pub rate_limiter : Option (String → W → LimiterReply × W)
  pub capacity : ℕ
  pub now : W → ℕ
  pub utc_date : ℕ → String
  pub formats : Formats
  pub raw : Value → String
  pub unmarshal : String → GoResult Value
  pub decode : String → GoResult Value
  pub elements : String → GoResult (List String)

-- The world with the log of its writes, the slots that are taken, the fetches made so far and the
-- rows handed to the background writer, both newest first. No step reads the last two.
pub record Live (W : Type 0) : Type 0 where
  pub run : Run W
  pub occupied : ℕ
  pub fetches : List BitsLookup
  pub rows : List RecordedDifference

abbrev pub Verification : Type 0
Verification = VerificationOutcome × Differences

-- No entries and no differences.
abbrev pub no_differences : Differences
no_differences = record { entries = []; total = 0 }

abbrev pub turned_away : Option VerificationOutcome → VerifyResult
turned_away outcome = record {
  data_text = "";
  data_empty = false;
  outcome = outcome;
  difference_count = 0;
}

module _ {W : Type 0} where
  abbrev pub in_world : {A : Type 0} → (W → A × W) → Live W → A × Live W
  in_world f s = let (a, w) = f s.run.world in (a, record s { run = record s.run { world = w } })

  -- `<-verifier.slots`
  unfoldable pub release_slot : Live W → Live W
  release_slot s = record s { occupied = s.occupied - 1 }

module _ {W : Type 0} (v : Verifier W) where
  -- fetcher.FetchTripDetails, noted.
  unfoldable pub fetch_trip_details : BitsLookup → Live W → FetchReply × Live W
  fetch_trip_details lookup s =
      let (r, s') = in_world (v.fetch lookup) s in (r, record s' { fetches = lookup ∷ s'.fetches })

  unfoldable pub route_lookup : BitsLookup → RouteLookup
  route_lookup l = record {
    operator_code = l.operator_code;
    trip_code = l.trip_code;
    from_code = l.from_code;
    to_code = l.to_code;
    trip_date = l.travel_date;
    username = "";
    api_token = "";
  }

  unfoldable pub raw_entry : GoResult Value → GoResult (List String)
  raw_entry (ok entry) = ok (v.raw entry ∷ [])
  raw_entry (err e) = err e

  unfoldable pub raw_entries : GoResult (List Members) → GoResult (List String)
  raw_entries (ok entries) = ok (map (λ entry. v.raw (obj entry)) entries)
  raw_entries (err e) = err e

  unfoldable pub cached_entries : Readers W → BitsLookup → W → GoResult (List String) × W
  cached_entries reader lookup w =
      if str_eq lookup.action bits_action_busmap
      then (let (r, w') = busmap reader (route_lookup lookup) w in (raw_entry r, w'))
      else (let (r, w') = search reader (route_lookup lookup) w in (raw_entries r, w'))

  unfoldable pub entries_or_none : GoResult (List String) → List String
  entries_or_none (ok entries) = entries
  entries_or_none (err e) = []

  unfoldable pub split_bits_entries : BitsResult → List String
  split_bits_entries result =
      if result.is_data_empty || is_empty result.data_text
      then []
      else if str_eq result.data_kind bits_data_kind_array
      then entries_or_none (v.elements result.data_text)
      else result.data_text ∷ []

  -- The outcome of a comparison with this many differences.
  unfoldable pub compared : Differences → Verification
  compared ds = if ltb 0 ds.total then (outcome_different, ds) else (outcome_match, no_differences)

  unfoldable pub judge : BitsResult → GoResult (List String) → Verification
  judge result (ok cache_entries) =
      compared
        (pair_and_compare v.formats v.unmarshal v.decode cache_entries (split_bits_entries result))
  judge result (err e) =
      if is_not_found e
      then ((if result.is_data_empty then outcome_match else outcome_cache_missing), no_differences)
      else (outcome_source_unavailable, no_differences)

  unfoldable pub compare_against_cache :
      Option (Readers W) → BitsLookup → BitsResult → W → Verification × W
  compare_against_cache none lookup result w = ((outcome_source_unavailable, no_differences), w)
  compare_against_cache (some reader) lookup result w =
      let (r, w') = cached_entries reader lookup w in (judge result r, w')

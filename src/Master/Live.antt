-- ===== src/Master/Live.antt =====
-- Live verification: what it asks BITS for, what it answers, and its parts
-- (orbitplus/internal/application/master: cache_freshness_source.go, cache_freshness_verifier.go;
-- orbitplus/internal/domain/cache_freshness.go). Logging is left out.
pub mod Pair
pub mod Rows
pub mod Enrich
pub mod Verifier
pub mod Repair
pub mod Verify
pub mod Slots
pub mod Cold
use orbitplus.Common.{ℕ, ℤ, String, Bool, true, false, not, ◌&&◌, Option, none, some, List, [], ◌∷◌}
use orbitplus.Common.Text.{is_blank}
use orbitplus.Json.{Value}
use orbitplus.Master.Errors.{GoError, not_found, wrapped, GoResult}
use orbitplus.Master.Compare.{DifferenceEntry}

pub record BitsLookup : Type 0 where
  pub action : String
  pub operator_code : String
  pub base_url : String
  pub username : String
  pub api_token : String
  pub trip_code : String
  pub from_code : String
  pub to_code : String
  pub travel_date : String

-- HasCredential
unfoldable pub has_credential : BitsLookup → Bool
has_credential lookup = not (is_blank lookup.username) && not (is_blank lookup.api_token)

abbrev pub bits_data_kind_array : String
bits_data_kind_array = "array"

-- The `data` member of an answer, by its bytes.
pub record BitsResult : Type 0 where
  pub data_text : String
  pub data_kind : String
  pub is_data_empty : Bool

-- The errors of a live read. ErrLiveSourceUnavailable and ErrLiveSourceRejected carry a reason.
pub data LiveError : Type 0 where
  verification_busy : LiveError  -- ErrVerificationBusy
  operator_credential_unavailable : LiveError  -- ErrOperatorCredentialUnavailable
  zone_rate_limited : ℤ → LiveError  -- ZoneRateLimitError
  live_source_unavailable : LiveError  -- ErrLiveSourceUnavailable
  live_source_rejected : LiveError  -- ErrLiveSourceRejected
  other_live : String → LiveError  -- any other error
  wrapped_live : String → LiveError → LiveError  -- fmt.Errorf("...: %w", err)

-- errors.Is(err, ErrLiveSourceRejected)
unfoldable pub is_rejected : LiveError → Bool
is_rejected live_source_rejected = true
is_rejected (wrapped_live text e) = is_rejected e
is_rejected _ = false

-- errors.Is(err, ErrTripDetailsNotFound)
unfoldable pub is_not_found : GoError → Bool
is_not_found not_found = true
is_not_found (wrapped text e) = is_not_found e
is_not_found _ = false

pub data FetchReply : Type 0 where
  fetched : BitsResult → FetchReply
  failed : LiveError → FetchReply

pub data VerificationOutcome : Type 0 where
  outcome_match : VerificationOutcome
  outcome_different : VerificationOutcome
  outcome_cache_missing : VerificationOutcome
  outcome_source_unavailable : VerificationOutcome
  outcome_source_rejected : VerificationOutcome
  outcome_credential_unavailable : VerificationOutcome

-- The row of a result, without the id that the writer gives it.
pub record RecordedDifference : Type 0 where
  pub operator_code : String
  pub detected_on : String
  pub detected_at : ℕ
  pub action_type : String
  pub trip_code : String
  pub trip_stage_code : String
  pub from_code : String
  pub to_code : String
  pub trip_date : String
  pub verification_outcome : VerificationOutcome
  pub difference_count : ℕ
  pub difference_paths : List String
  pub cache_repaired : Bool

-- `none` for the outcome "" of a request that was turned away.
pub record VerifyResult : Type 0 where
  pub data_text : String
  pub data_empty : Bool
  pub outcome : Option VerificationOutcome
  pub difference_count : ℕ

-- What a comparison found: the differences that are kept, and how many there are.
pub record Differences : Type 0 where
  pub entries : List DifferenceEntry
  pub total : ℕ

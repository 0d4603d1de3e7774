-- ===== src/Master/Live/Verify.antt =====
-- CacheFreshnessVerifier (orbitplus/internal/application/master/cache_freshness_verifier.go): a live
-- read with its slot, its comparison, the repair of the cache and the row it records.
use orbitplus.Common.{
  ◌+◌, String, Bool, false, not, ◌&&◌, Option, none, some, ◌∷◌, ltb, if◌then◌else◌,
}
use orbitplus.Master.Live.{
  BitsLookup, has_credential, LiveError, verification_busy, operator_credential_unavailable,
  zone_rate_limited, is_rejected, FetchReply, fetched, failed, VerificationOutcome,
  outcome_source_unavailable, outcome_source_rejected, outcome_credential_unavailable, VerifyResult,
  Differences,
}
use orbitplus.Master.Live.Verifier.{
  LimiterReply, Verifier, Live, no_differences, turned_away, in_world, release_slot,
  fetch_trip_details, compare_against_cache, admitted, limited, limiter_failed,
}
use orbitplus.Master.Live.Repair.{is_match, is_source_rejected, repair_if_usable}
use orbitplus.Master.Live.Rows.{build_recorded_difference}

module _ {W : Type 0} (v : Verifier W) where
  -- The row, handed to a goroutine that writes it.
  unfoldable pub record_difference :
      BitsLookup → VerificationOutcome → Differences → Bool → Live W → Live W
  record_difference lookup outcome ds repaired s =
      if v.has_writer
      then record s {
        rows =
            build_recorded_difference v.utc_date lookup outcome ds.entries ds.total repaired
              (v.now s.run.world)
            ∷ s.rows;
      }
      else s

  unfoldable pub record_unless_match :
      BitsLookup → VerificationOutcome → Differences → Bool → Live W → Live W
  record_unless_match lookup outcome ds repaired s =
      if not (is_match outcome) && not (is_source_rejected outcome)
      then record_difference lookup outcome ds repaired s
      else s

  unfoldable pub failed_outcome : LiveError → VerificationOutcome
  failed_outcome e = if is_rejected e then outcome_source_rejected else outcome_source_unavailable

  -- Verify from the answer of the fetch on, the slot still taken.
  unfoldable pub conclude_fetch :
      BitsLookup → FetchReply → Live W → (VerifyResult × Option LiveError) × Live W
  conclude_fetch lookup (failed e) s = (
    (turned_away (some (failed_outcome e)), some e),
    record_unless_match lookup (failed_outcome e) no_differences false (release_slot s),
  )
  conclude_fetch lookup (fetched result) s =
      let ((outcome, ds), s') = in_world (compare_against_cache v v.reader lookup result) s in
      let (repaired, s'') = repair_if_usable v lookup result outcome (release_slot s') in
      (
        (
          record {
            data_text = result.data_text;
            data_empty = result.is_data_empty;
            outcome = some outcome;
            difference_count = ds.total;
          },
          none,
        ),
        record_unless_match lookup outcome ds repaired s'',
      )

  unfoldable pub fetch_and_conclude :
      BitsLookup → Live W → (VerifyResult × Option LiveError) × Live W
  fetch_and_conclude lookup s =
      let (r, s') = fetch_trip_details v lookup s in conclude_fetch lookup r s'

  -- A failure of the limiter lets the request through.
  unfoldable pub after_limiter :
      BitsLookup → LimiterReply → Live W → (VerifyResult × Option LiveError) × Live W
  after_limiter lookup (limited retry_after) s =
      ((turned_away none, some (zone_rate_limited retry_after)), release_slot s)
  after_limiter lookup admitted s = fetch_and_conclude lookup s
  after_limiter lookup limiter_failed s = fetch_and_conclude lookup s

  unfoldable pub limit_zone :
      Option (String → W → LimiterReply × W)
      → BitsLookup
      → Live W
      → (VerifyResult × Option LiveError) × Live W
  limit_zone none lookup s = fetch_and_conclude lookup s
  limit_zone (some acquire) lookup s =
      let (r, s') = in_world (acquire lookup.base_url) s in after_limiter lookup r s'

  -- Verify with the slot taken.
  unfoldable pub verify_in_slot : BitsLookup → Live W → (VerifyResult × Option LiveError) × Live W
  verify_in_slot lookup s =
      if not (has_credential lookup)
      then (
        (turned_away (some outcome_credential_unavailable), some operator_credential_unavailable),
        release_slot s,
      )
      else limit_zone v.rate_limiter lookup s

  unfoldable pub verify : BitsLookup → Live W → (VerifyResult × Option LiveError) × Live W
  verify lookup s =
      if ltb s.occupied v.capacity
      then verify_in_slot lookup (record s { occupied = s.occupied + 1 })
      else ((turned_away none, some verification_busy), s)

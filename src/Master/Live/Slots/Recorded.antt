-- ===== src/Master/Live/Slots/Recorded.antt =====
-- Which row a live read hands over (orbitplus/internal/application/master/
-- cache_freshness_verifier.go, record).
use orbitplus.Common.{
  ◌≡◌, ◌≢◌, refl, ap, sym, true, false, Option, none, some, List, ◌∷◌, String, Bool, ◌&&◌,
  if◌then◌else◌, arith,
}
use orbitplus.Master.Errors.{GoResult, ok, err}
use orbitplus.Master.Lookup.{Readers}
use orbitplus.Master.Live.{
  BitsLookup, BitsResult, LiveError, VerificationOutcome, Differences, VerifyResult,
  RecordedDifference, outcome_match, outcome_different, outcome_cache_missing,
  outcome_source_unavailable, outcome_source_rejected, outcome_credential_unavailable,
}
use orbitplus.Master.Live.Rows.{build_recorded_difference}
use orbitplus.Master.Live.Verifier.{Verifier, Live, compare_against_cache, judge, compared}
use orbitplus.Master.Live.Repair.{is_match, is_source_rejected}
use orbitplus.Master.Live.Verify.{record_difference, record_unless_match, failed_outcome}

pub and_false : (b : Bool) → b && false ≡ false
and_false b = ground arith

-- The outcomes that are worth a row.
unfoldable pub needs_row : Option VerificationOutcome → Bool
needs_row none = false
needs_row (some outcome_match) = false
needs_row (some outcome_source_rejected) = false
needs_row (some outcome_credential_unavailable) = false
needs_row (some outcome_different) = true
needs_row (some outcome_cache_missing) = true
needs_row (some outcome_source_unavailable) = true

module _ {W : Type 0} (v : Verifier W) where
  pub data Recording (l : BitsLookup) (r : VerifyResult) (s s' : Live W) : Type 0 where
    no_row : v.has_writer && needs_row r.outcome ≡ false → s'.rows ≡ s.rows → Recording l r s s'
    one_row :
        v.has_writer && needs_row r.outcome ≡ true
        → (row : RecordedDifference) → s'.rows ≡ row ∷ s.rows
        → r.outcome ≡ some row.verification_outcome
        → row.difference_count ≡ r.difference_count
        → (row.operator_code ≡ l.operator_code) × (row.action_type ≡ l.action)
        → Recording l r s s'

  record_difference-Recording :
      (l : BitsLookup) (o : VerificationOutcome) (ds : Differences) (b : Bool) (s s' : Live W)
      (r : VerifyResult)
      → s'.rows ≡ s.rows
      → r.outcome ≡ some o
      → needs_row (some o) ≡ true
      → r.difference_count ≡ ds.total
      → Recording l r s (record_difference v l o ds b s')
  unfolding record_difference build_recorded_difference
  record_difference-Recording l o ds b s s' r e q n c = go v.has_writer refl
    where
      row : RecordedDifference
      row = build_recorded_difference v.utc_date l o ds.entries ds.total b (v.now s'.run.world)

      go :
          (h : Bool)
          → v.has_writer ≡ h
          → Recording l r s (if h then record s' { rows = row ∷ s'.rows } else s')
      go true t = one_row (rw (t, q, n) refl) row (ap (λ rows. row ∷ rows) e) q (sym c) (refl, refl)
      go false t = no_row (rw t refl) e

  pub record_unless_match-Recording :
      (l : BitsLookup) (o : VerificationOutcome) (ds : Differences) (b : Bool) (s s' : Live W)
      (r : VerifyResult)
      → s'.rows ≡ s.rows
      → r.outcome ≡ some o
      → o ≢ outcome_credential_unavailable
      → r.difference_count ≡ ds.total
      → Recording l r s (record_unless_match v l o ds b s')
  unfolding record_unless_match is_match is_source_rejected needs_row
  record_unless_match-Recording l outcome_match ds b s s' r e q n c =
      no_row (rw q (and_false v.has_writer)) e
  record_unless_match-Recording l outcome_source_rejected ds b s s' r e q n c =
      no_row (rw q (and_false v.has_writer)) e
  record_unless_match-Recording l outcome_credential_unavailable ds b s s' r e q n c =
      absurd (n refl)
  record_unless_match-Recording l outcome_different ds b s s' r e q n c =
      record_difference-Recording l outcome_different ds b s s' r e q refl c
  record_unless_match-Recording l outcome_cache_missing ds b s s' r e q n c =
      record_difference-Recording l outcome_cache_missing ds b s s' r e q refl c
  record_unless_match-Recording l outcome_source_unavailable ds b s s' r e q n c =
      record_difference-Recording l outcome_source_unavailable ds b s s' r e q refl c

  pub record_unless_match-rest :
      (l : BitsLookup) (o : VerificationOutcome) (ds : Differences) (b : Bool) (s : Live W)
      → ((record_unless_match v l o ds b s).occupied ≡ s.occupied)
        × ((record_unless_match v l o ds b s).fetches ≡ s.fetches)
  unfolding record_unless_match record_difference
  record_unless_match-rest l o ds b s = ground arith

  -- A comparison does not claim that the credential was missing.
  pub compared_outcome :
      (l : BitsLookup) (r : BitsResult) (w : W)
      → (compare_against_cache v v.reader l r w).0.0 ≢ outcome_credential_unavailable
  unfolding compare_against_cache judge compared
  compared_outcome l r w = go v.reader
    where
      different : outcome_different ≢ outcome_credential_unavailable
      different q = cc

      judged : (x : GoResult (List String)) → (judge v r x).0 ≢ outcome_credential_unavailable
      judged (ok xs) = ground arith
      judged (err e) = ground arith

      go :
          (d : Option (Readers W))
          → (compare_against_cache v d l r w).0.0 ≢ outcome_credential_unavailable
      go none = λ q. absurd (cc q)
      go (some d) = judged _

  pub failed_outcome_ne : (e : LiveError) → failed_outcome v e ≢ outcome_credential_unavailable
  unfolding failed_outcome
  failed_outcome_ne e = ground arith

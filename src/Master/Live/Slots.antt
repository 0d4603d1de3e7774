-- ===== src/Master/Live/Slots.antt =====
-- The verification slots and the fetches of a live read
-- (orbitplus/internal/application/master/cache_freshness_verifier.go, Verify).
pub mod Repairs
pub mod Recorded
use orbitplus.Common.{
  ℕ, ◌+◌, ◌-◌, ◌⊎◌, ◌≡◌, ◌≢◌, refl, ◌∙◌, ap, sym, true, false, Option, none, some, List, [], ◌∷◌,
  String, Bool, not, ◌&&◌, ◌||◌, str_eq, if◌then◌else◌, Bool-cases, inl, inr, arith, ltb,
}
use orbitplus.Common.Text.{is_empty}
use orbitplus.Master.Errors.{GoResult, ok, err}
use orbitplus.Json.{Value}
use orbitplus.Master.Exec as Exec
use orbitplus.Master.Lookup.{Readers, bits_action_busmap}
use orbitplus.Master.Live.{
  BitsLookup, has_credential, BitsResult, LiveError, FetchReply, fetched, failed,
  VerificationOutcome, Differences, VerifyResult, RecordedDifference, outcome_match,
  outcome_different, outcome_cache_missing, outcome_source_unavailable, outcome_source_rejected,
  outcome_credential_unavailable,
}
use orbitplus.Master.Live.Rows.{build_recorded_difference}
use orbitplus.Master.Live.Verifier.{
  Verifier, Live, LimiterReply, admitted, limited, limiter_failed, in_world, release_slot,
  fetch_trip_details, compare_against_cache, judge, compared, no_differences, turned_away,
}
use orbitplus.Master.Live.Repair.{
  store_live, repair_with, repair_cache, search_lookup_of, store_companion,
  refresh_search_cache_for_busmap, repair_and_refresh, repair_if_usable, is_match,
  is_source_rejected, is_source_unavailable,
}
use orbitplus.Master.Live.Verify.{
  record_difference, record_unless_match, failed_outcome, conclude_fetch, fetch_and_conclude,
  after_limiter, limit_zone, verify_in_slot, verify,
}
use orbitplus.Master.Live.Slots.Repairs.{Asks, companion, repair_if_usable-Asks}
use orbitplus.Master.Live.Slots.Recorded.{
  and_false, needs_row, Recording, no_row, one_row, record_unless_match-Recording,
  record_unless_match-rest, compared_outcome, failed_outcome_ne,
}

module _ {W : Type 0} (v : Verifier W) where
  -- Did the limiter turn this zone away?
  abbrev is_limited : LimiterReply → Bool
  is_limited (limited d) = true
  is_limited admitted = false
  is_limited limiter_failed = false

  unfoldable pub is_refused : Option (String → W → LimiterReply × W) → BitsLookup → W → Bool
  is_refused none l w = false
  is_refused (some acquire) l w = is_limited (acquire l.base_url w).0

  -- A slot is free, both halves of the credential are there and the limiter does not refuse.
  pub record IsAdmitted (l : BitsLookup) (s : Live W) : Type 0 where
    pub free : ltb s.occupied v.capacity ≡ true
    pub credential : has_credential l ≡ true
    pub not_refused : is_refused v.rate_limiter l s.run.world ≡ false

  -- What a live read asks BITS for.
  pub data Fetching (l : BitsLookup) (s : Live W) (o : (VerifyResult × Option LiveError) × Live W)
      : Type 0 where
    not_asked : o.0.1 ≢ none → o.1.fetches ≡ s.fetches → Fetching l s o
    asked : IsAdmitted l s → o.1.fetches ≡ l ∷ s.fetches → Fetching l s o
    asked_companion : IsAdmitted l s → o.1.fetches ≡ companion l (l ∷ s.fetches) → Fetching l s o

  record Account (l : BitsLookup) (s : Live W) (o : (VerifyResult × Option LiveError) × Live W)
      : Type 0 where
    slots : o.1.occupied ≡ s.occupied
    fetching : Fetching l s o
    recording : Recording v l o.0.0 s o.1

  -- A state in which this read has its slot and has made this first fetch.
  record IsAfterFetch (l : BitsLookup) (s s' : Live W) : Type 0 where
    taken : s'.occupied ≡ s.occupied + 1
    fetched_first : s'.fetches ≡ l ∷ s.fetches
    rows_same : s'.rows ≡ s.rows

  module _ (l : BitsLookup) (s : Live W) where
    conclude_failed-Account :
        (e : LiveError) (s' : Live W)
        → IsAdmitted l s
        → IsAfterFetch l s s'
        → Account l s (conclude_fetch v l (failed e) s')
    unfolding conclude_fetch release_slot
    conclude_failed-Account e s' a t =
        let (slots, fetches) =
          record_unless_match-rest v l (failed_outcome v e) no_differences false
            (release_slot s') in
        record {
          slots = omega (arith, slots, t.taken);
          fetching = asked a (fetches ∙ t.fetched_first);
          recording =
              record_unless_match-Recording v l (failed_outcome v e) no_differences false s
                (release_slot s') _ t.rows_same refl (failed_outcome_ne v e) refl;
        }

    answered-Account :
        (r : BitsResult) (o : VerificationOutcome) (ds : Differences) (s' : Live W)
        → o ≢ outcome_credential_unavailable
        → IsAdmitted l s
        → s'.occupied ≡ s.occupied
        → s'.fetches ≡ l ∷ s.fetches
        → s'.rows ≡ s.rows
        → Account l s (
          (
            record {
              data_text = r.data_text;
              data_empty = r.is_data_empty;
              outcome = some o;
              difference_count = ds.total;
            },
            none,
          ),
          record_unless_match v l o ds
              (repair_if_usable v l r o s').0
              (repair_if_usable v l r o s').1,
        )
    answered-Account r o ds s' ne a slots fetches rows =
        let repaired : Bool × Live W = repair_if_usable v l r o s' in
        let (kept, same) = record_unless_match-rest v l o ds repaired.0 repaired.1 in
        elim (repair_if_usable-Asks v l r o s') [
          | inl k ↦ record {
            slots = kept ∙ k.slots ∙ slots;
            fetching = asked a (same ∙ k.fetched_next ∙ fetches);
            recording =
                record_unless_match-Recording v l o ds repaired.0 s repaired.1 _
                  (k.rows_same ∙ rows) refl ne refl;
          }
          | inr k ↦ record {
            slots = kept ∙ k.slots ∙ slots;
            fetching =
                asked_companion a (same ∙ k.fetched_next ∙ ap (λ fs. companion l fs) fetches);
            recording =
                record_unless_match-Recording v l o ds repaired.0 s repaired.1 _
                  (k.rows_same ∙ rows) refl ne refl;
          }
        ]

    conclude_fetched-Account :
        (r : BitsResult) (s' : Live W)
        → IsAdmitted l s
        → IsAfterFetch l s s'
        → Account l s (conclude_fetch v l (fetched r) s')
    unfolding conclude_fetch release_slot
    conclude_fetched-Account r s' a t =
        answered-Account r _ _ _ (compared_outcome v l r s'.run.world) a (omega (arith, t.taken))
          t.fetched_first t.rows_same

    fetch_and_conclude-Account :
        (s' : Live W)
        → IsAdmitted l s
        → s'.occupied ≡ s.occupied + 1
        → s'.fetches ≡ s.fetches
        → s'.rows ≡ s.rows
        → Account l s (fetch_and_conclude v l s')
    unfolding fetch_and_conclude fetch_trip_details
    fetch_and_conclude-Account s' a taken fetches rows = go (v.fetch l s'.run.world).0
      where
        state : Live W
        state = (fetch_trip_details v l s').1

        after : IsAfterFetch l s state
        after = record {
          taken = taken;
          fetched_first = ap (λ fs. l ∷ fs) fetches;
          rows_same = rows;
        }

        go : (r : FetchReply) → Account l s (conclude_fetch v l r state)
        go (failed e) = conclude_failed-Account e state a after
        go (fetched r) = conclude_fetched-Account r state a after

    -- A read that is turned away leaves everything as it was.
    turned_away-Account :
        (o : Option VerificationOutcome) (e : LiveError) (s' : Live W)
        → needs_row o ≡ false
        → s'.occupied ≡ s.occupied
        → s'.fetches ≡ s.fetches
        → s'.rows ≡ s.rows
        → Account l s ((turned_away o, some e), s')
    turned_away-Account o e s' n slots fetches rows = record {
      slots = slots;
      fetching = not_asked (λ q. absurd (cc q)) fetches;
      recording = no_row (rw n (and_false v.has_writer)) rows;
    }

    limit_zone-Account :
        (limiter : Option (String → W → LimiterReply × W))
        → v.rate_limiter ≡ limiter
        → ltb s.occupied v.capacity ≡ true
        → has_credential l ≡ true
        → Account l s (limit_zone v limiter l (record s { occupied = s.occupied + 1 }))
    unfolding limit_zone after_limiter is_refused release_slot needs_row
    limit_zone-Account none e free cred =
        fetch_and_conclude-Account _
          (record { free = free; credential = cred; not_refused = rw e refl }) refl refl refl
    limit_zone-Account (some acquire) e free cred = go (acquire l.base_url s.run.world) refl
      where
        go :
            (r : LimiterReply × W)
            → acquire l.base_url s.run.world ≡ r
            → Account l s (
                after_limiter v l r.0
                  (record s { run = record s.run { world = r.1 }; occupied = s.occupied + 1 }))
        go (limited d, w) q = turned_away-Account none _ _ refl (omega arith) refl refl
        go (admitted, w) q =
            fetch_and_conclude-Account _
              (record { free = free; credential = cred; not_refused = rw (e, q) refl }) refl refl
              refl
        go (limiter_failed, w) q =
            fetch_and_conclude-Account _
              (record { free = free; credential = cred; not_refused = rw (e, q) refl }) refl refl
              refl

    verify-Account : Account l s (verify v l s)
    unfolding verify verify_in_slot release_slot needs_row
    verify-Account = elim (Bool-cases (ltb s.occupied v.capacity)) [
      | inr busy ↦ rw busy (turned_away-Account none _ _ refl refl refl refl)
      | inl free ↦ elim (Bool-cases (has_credential l)) [
        | inr missing ↦
            rw (free, missing)
              (turned_away-Account (some outcome_credential_unavailable) _ _ refl (omega arith) refl
                refl)
        | inl cred ↦ rw (free, cred) (limit_zone-Account v.rate_limiter refl free cred)
      ]
    ]

  -- Whatever a live read meets, it gives back the slot it took: as many are taken afterwards as
  -- before.
  pub verify-occupied : (l : BitsLookup) (s : Live W) → (verify v l s).1.occupied ≡ s.occupied
  verify-occupied l s = (verify-Account l s).slots

  -- A live read asks BITS nothing and returns an error, or it asks once for its lookup, or
  -- once more for the companion search of a BusMap, and it asks only when a slot was free, both halves of the credential are there and the
  -- limiter, if there is one, did not refuse the zone.
  pub verify-Fetching : (l : BitsLookup) (s : Live W) → Fetching l s (verify v l s)
  verify-Fetching l s = (verify-Account l s).fetching

  -- When there is a writer and the answer says that the copies differ, that the cache has nothing or
  -- that a side was unavailable, a live read hands over one row, with the outcome and the number of
  -- differences it answers and with its operator and action; otherwise it hands over none.
  pub verify-Recording :
      (l : BitsLookup) (s : Live W) → Recording v l (verify v l s).0.0 s (verify v l s).1
  verify-Recording l s = (verify-Account l s).recording

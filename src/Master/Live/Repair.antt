-- ===== src/Master/Live/Repair.antt =====
-- Repairing the cache from a live copy
-- (orbitplus/internal/application/master/cache_freshness_verifier.go, repairCache,
-- refreshSearchCacheForBusMap).
use orbitplus.Common.{
  String, Bool, true, false, not, ◌&&◌, ◌||◌, Option, none, some, str_eq, if◌then◌else◌,
}
use orbitplus.Common.Text.{is_empty}
use orbitplus.Common.Pieces.{to_lower}
use orbitplus.Json.{Value, str, obj, end, member}
use orbitplus.Master.Errors.{GoError, GoResult, ok, err}
use orbitplus.Master.Exec as Exec
use orbitplus.Master.Exec.{Run}
use orbitplus.Master.Storage.{store}
use orbitplus.Master.Lookup.{bits_action_search, bits_action_busmap}
use orbitplus.Master.Live.{
  BitsLookup, BitsResult, FetchReply, fetched, failed, VerificationOutcome, outcome_match,
  outcome_source_unavailable, outcome_source_rejected,
}
use orbitplus.Master.Live.Verifier.{Verifier, Live, fetch_trip_details}
use orbitplus.Master.Live.Enrich.{enrich_busmap_repair_entry}

unfoldable pub is_match : VerificationOutcome → Bool
is_match outcome_match = true
is_match _ = false

unfoldable pub is_source_rejected : VerificationOutcome → Bool
is_source_rejected outcome_source_rejected = true
is_source_rejected _ = false

unfoldable pub is_source_unavailable : VerificationOutcome → Bool
is_source_unavailable outcome_source_unavailable = true
is_source_unavailable _ = false

unfoldable pub search_lookup_of : BitsLookup → BitsLookup
search_lookup_of l = record l { action = bits_action_search; trip_code = "" }

module _ {W : Type 0} (v : Verifier W) where
  -- The action a live copy is stored under.
  unfoldable pub repair_action : BitsLookup → String
  repair_action lookup =
      if str_eq lookup.action bits_action_busmap then "searchbusmap" else to_lower lookup.action

  unfoldable pub enrich_live_data : BitsLookup → Value → Value
  enrich_live_data lookup (obj entry) =
      if str_eq lookup.action bits_action_busmap
      then obj (enrich_busmap_repair_entry lookup entry)
      else obj entry
  enrich_live_data lookup live_data = live_data

  unfoldable pub repair_envelope : BitsLookup → Value → Value
  repair_envelope lookup live_data = obj (
      member "actionType" (str (repair_action lookup)) (
        member "operatorCode" (str lookup.operator_code) (
          member "orbitResponse" (obj (member "data" (enrich_live_data lookup live_data) end))
            end)))

  abbrev pub is_stored : Option GoError → Bool
  is_stored none = true
  is_stored (some e) = false

  unfoldable pub store_live : Exec.Deps W → BitsLookup → GoResult Value → Live W → Bool × Live W
  store_live repairer lookup (err e) s = (false, s)
  store_live repairer lookup (ok live_data) s =
      let ((codes, e), run) = store repairer (repair_envelope lookup live_data) s.run in
      (is_stored e, record s { run = run })

  unfoldable pub repair_with :
      Option (Exec.Deps W) → BitsLookup → BitsResult → Live W → Bool × Live W
  repair_with none lookup result s = (false, s)
  repair_with (some repairer) lookup result s =
      if result.is_data_empty || is_empty result.data_text
      then (false, s)
      else store_live repairer lookup (v.unmarshal result.data_text) s

  unfoldable pub repair_cache : BitsLookup → BitsResult → Live W → Bool × Live W
  repair_cache lookup result s = repair_with v.repairer lookup result s

  unfoldable pub store_companion : BitsLookup → FetchReply → Live W → Live W
  store_companion lookup (failed e) s = s
  store_companion lookup (fetched result) s =
      if result.is_data_empty || is_empty result.data_text
      then s
      else (repair_cache lookup result s).1

  unfoldable pub refresh_search_cache_for_busmap : BitsLookup → Live W → Live W
  refresh_search_cache_for_busmap l s =
      let (r, s') = fetch_trip_details v (search_lookup_of l) s in
      if is_empty l.from_code || is_empty l.to_code || is_empty l.travel_date
      then s
      else store_companion (search_lookup_of l) r s'

  -- The repair of a usable live copy, and the companion search of a BusMap.
  unfoldable pub repair_and_refresh : BitsLookup → BitsResult → Live W → Bool × Live W
  repair_and_refresh lookup result s =
      let (repaired, s') = repair_cache lookup result s in
      if str_eq lookup.action bits_action_busmap
      then (repaired, refresh_search_cache_for_busmap lookup s')
      else (repaired, s')

  unfoldable pub repair_if_usable :
      BitsLookup → BitsResult → VerificationOutcome → Live W → Bool × Live W
  repair_if_usable lookup result outcome s =
      if not (is_source_rejected outcome) && not (is_source_unavailable outcome)
      then repair_and_refresh lookup result s
      else (false, s)

-- ===== src/Master/Live/Slots/Repairs.antt =====
-- What a repair leaves alone and asks for (orbitplus/internal/application/master/
-- cache_freshness_verifier.go, repairCache and refreshSearchCacheForBusMap).
use orbitplus.Common.{
  ◌⊎◌, ◌≡◌, refl, ◌∙◌, ap, true, false, Option, none, some, List, ◌∷◌, Bool, not, ◌&&◌, ◌||◌,
  str_eq, if◌then◌else◌, Bool-cases, inl, inr,
}
use orbitplus.Common.Text.{is_empty}
use orbitplus.Master.Errors.{GoResult, ok, err}
use orbitplus.Json.{Value}
use orbitplus.Master.Exec as Exec
use orbitplus.Master.Lookup.{bits_action_busmap}
use orbitplus.Master.Live.{BitsLookup, BitsResult, FetchReply, fetched, failed, VerificationOutcome}
use orbitplus.Master.Live.Verifier.{Verifier, Live, fetch_trip_details}
use orbitplus.Master.Live.Repair.{
  store_live, repair_with, repair_cache, search_lookup_of, store_companion,
  refresh_search_cache_for_busmap, repair_and_refresh, repair_if_usable, is_source_rejected,
  is_source_unavailable,
}

-- The companion search asks once more, and only for a route that is named in full.
unfoldable pub has_route : BitsLookup → Bool
has_route l = not (is_empty l.from_code || is_empty l.to_code || is_empty l.travel_date)

abbrev asked_again : BitsLookup → List BitsLookup → List BitsLookup
asked_again l fetches = if has_route l then search_lookup_of l ∷ fetches else fetches

-- The fetches of a usable answer: the companion search of a BusMap.
unfoldable pub companion : BitsLookup → List BitsLookup → List BitsLookup
companion l fetches =
    if str_eq l.action bits_action_busmap && has_route l
    then search_lookup_of l ∷ fetches
    else fetches

module _ {W : Type 0} (v : Verifier W) where
  -- What a step leaves alone (the slots and the rows), and the fetches after it.
  pub record Asks (fetches : List BitsLookup) (s s' : Live W) : Type 0 where
    pub slots : s'.occupied ≡ s.occupied
    pub fetched_next : s'.fetches ≡ fetches
    pub rows_same : s'.rows ≡ s.rows

  Asks-self : (s : Live W) → Asks s.fetches s s
  Asks-self s = record { slots = refl; fetched_next = refl; rows_same = refl }

  Asks-if :
      (b : Bool) (fetches : List BitsLookup) (s x y : Live W)
      → Asks fetches s x
      → Asks fetches s y
      → Asks fetches s (if b then x else y)
  Asks-if true fetches s x y p q = p
  Asks-if false fetches s x y p q = q

  store_live-Asks :
      (d : Exec.Deps W) (l : BitsLookup) (r : GoResult Value) (s : Live W)
      → Asks s.fetches s (store_live v d l r s).1
  unfolding store_live
  store_live-Asks d l (err e) s = Asks-self s
  store_live-Asks d l (ok x) s = record { slots = refl; fetched_next = refl; rows_same = refl }

  repair_with-Asks :
      (d : Option (Exec.Deps W)) (l : BitsLookup) (r : BitsResult) (s : Live W)
      → Asks s.fetches s (repair_with v d l r s).1
  unfolding repair_with
  repair_with-Asks none l r s = Asks-self s
  repair_with-Asks (some d) l r s = elim (Bool-cases (r.is_data_empty || is_empty r.data_text)) [
    | inl t ↦ rw t (Asks-self s)
    | inr f ↦ rw f (store_live-Asks d l (v.unmarshal r.data_text) s)
  ]

  repair_cache-Asks :
      (l : BitsLookup) (r : BitsResult) (s : Live W) → Asks s.fetches s (repair_cache v l r s).1
  unfolding repair_cache
  repair_cache-Asks l r s = repair_with-Asks v.repairer l r s

  store_companion-Asks :
      (l : BitsLookup) (r : FetchReply) (s : Live W) → Asks s.fetches s (store_companion v l r s)
  unfolding store_companion
  store_companion-Asks l (failed e) s = Asks-self s
  store_companion-Asks l (fetched r) s =
      Asks-if (r.is_data_empty || is_empty r.data_text) s.fetches s s _ (Asks-self s)
        (repair_cache-Asks l r s)

  refresh-Asks :
      (l : BitsLookup) (s : Live W)
      → Asks (asked_again l s.fetches) s (refresh_search_cache_for_busmap v l s)
  unfolding has_route refresh_search_cache_for_busmap fetch_trip_details
  refresh-Asks l s =
      elim (Bool-cases (is_empty l.from_code || is_empty l.to_code || is_empty l.travel_date)) [
        | inl t ↦ rw t (Asks-self s)
        | inr f ↦
            let kept =
              store_companion-Asks (search_lookup_of l)
                (fetch_trip_details v (search_lookup_of l) s).0
                (fetch_trip_details v (search_lookup_of l) s).1 in
            rw f (record {
              slots = kept.slots;
              fetched_next = kept.fetched_next;
              rows_same = kept.rows_same;
            })
      ]

  repair_and_refresh-Asks :
      (l : BitsLookup) (r : BitsResult) (s : Live W)
      → Asks (companion l s.fetches) s (repair_and_refresh v l r s).1
  unfolding repair_and_refresh companion
  repair_and_refresh-Asks l r s =
      let kept = repair_cache-Asks l r s in
      elim (Bool-cases (str_eq l.action bits_action_busmap)) [
        | inl t ↦
            let again = refresh-Asks l (repair_cache v l r s).1 in
            rw t (record {
              slots = again.slots ∙ kept.slots;
              fetched_next = again.fetched_next ∙ ap (λ fs. asked_again l fs) kept.fetched_next;
              rows_same = again.rows_same ∙ kept.rows_same;
            })
        | inr f ↦ rw f kept
      ]

  pub repair_if_usable-Asks :
      (l : BitsLookup) (r : BitsResult) (o : VerificationOutcome) (s : Live W)
      → Asks s.fetches s (repair_if_usable v l r o s).1
        ⊎ Asks (companion l s.fetches) s (repair_if_usable v l r o s).1
  unfolding repair_if_usable
  repair_if_usable-Asks l r o s =
      elim (Bool-cases (not (is_source_rejected o) && not (is_source_unavailable o))) [
        | inl t ↦ rw t (inr (repair_and_refresh-Asks l r s))
        | inr f ↦ rw f (inl (Asks-self s))
      ]

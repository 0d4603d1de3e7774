-- ===== src/Worker/SearchBusMap.antt =====
-- The searchbusmap workflow: one Search request, then one BusMap request for each Search entry, and
-- nothing is returned unless all succeed
-- (orbitplusworker/internal/application/worker/search_busmap.go, fetchSearchAndBusMaps).
use orbitplus.Common.{ℕ, ◌+◌, String, none, some, List, [], ◌∷◌, map, if◌then◌else◌}
use orbitplus.Common.Text.{is_empty}
use orbitplus.Json.{Members, arr, obj, set, from_list}
use orbitplus.Worker.Errors.{GoResult, ok, err, other, at_entry, wrapped, wrapped_at}
use orbitplus.Worker.Message.{TripDetailsRefreshMessage, action_search, action_busmap}
use orbitplus.Worker.Deps.{Deps, Codec, BitsOperatorCredential, BitsTripDetailsRequest}
use orbitplus.Worker.Exec.{M, pure, call, ◌>>=◌, on_result, on_error, fetched}
use orbitplus.Worker.Await.{await_zone_rate_limit}
use orbitplus.Worker.Combine.{
  SearchBusMapIdentifiers, search_entry_identifiers, decode_search_response, decode_busmap_response,
  validate_busmap_identity, combine, clone_object, SearchResponse,
}

-- The message of the BusMap request for one Search entry.
abbrev pub busmap_message :
    TripDetailsRefreshMessage → SearchBusMapIdentifiers → TripDetailsRefreshMessage
busmap_message m ids = record m {
  action_type = action_busmap;
  trip_code = ids.trip_code;
  from_station_code = ids.from_code;
  to_station_code = ids.to_code;
  travel_date = ids.travel_date;
}

-- The checks on one BusMap response and the merge, for the Search entry number `index`.
unfoldable pub combine_response :
    Codec → ℕ → Members → SearchBusMapIdentifiers → String → GoResult Members
combine_response c index search_entry ids body =
    if is_empty body
    then err (at_entry "Bits BusMap response is empty for Search entry" index)
    else elim (decode_busmap_response c body) [
      | err e ↦ err (wrapped_at "Bits BusMap response for Search entry is invalid" index e)
      | ok busmap_entry ↦ elim (validate_busmap_identity busmap_entry ids) [
        | some e ↦
            err (wrapped_at "Bits BusMap response for Search entry does not match Search" index e)
        | none ↦ ok (combine search_entry busmap_entry ids)
      ]
    ]

-- The combined envelope, as the response body.
unfoldable pub encode_combined : Codec → Members → List Members → GoResult String
encode_combined c envelope combined =
    elim (c.marshal
      (obj (set "data" (arr (from_list (map obj combined))) (clone_object envelope)))) [
        | ok body ↦ ok body
        | err e ↦ err (wrapped "encode combined Search and BusMap response" e)
      ]

-- The Search response, decoded.
unfoldable pub read_search : Codec → GoResult String → GoResult SearchResponse
read_search c (err e) = err e
read_search c (ok body) =
    if is_empty body
    then err (other "Bits Search response is empty")
    else decode_search_response c body

module _ {W : Type 0} (d : Deps W) (polls : ℕ) where
  -- A slot of the zone's quota, then the request.
  unfoldable pub fetch_in_slot : String → BitsTripDetailsRequest → M W (GoResult String)
  fetch_in_slot zone request = await_zone_rate_limit d polls zone >>= λ w.
      on_error w (λ e. pure (err e))
        (call (d.fetch_trip_details request) (fetched request.message.action_type))

module _ {W : Type 0} (d : Deps W) (c : Codec) (polls : ℕ) where
  module _ (message : TripDetailsRefreshMessage) (credential : BitsOperatorCredential) where
    -- One round of the loop over the Search entries.
    unfoldable pub fetch_busmap : ℕ → Members → M W (GoResult Members)
    fetch_busmap index search_entry =
        on_result (search_entry_identifiers search_entry)
          (λ e. pure (err (wrapped_at "Bits Search entry is invalid" index e)))
          λ ids.
            fetch_in_slot d polls message.zone_url
              (record { message = busmap_message message ids; credential = credential })
            >>= λ r.
                on_result r (λ e. pure (err e))
                  λ body. pure (combine_response c index search_entry ids body)

    unfoldable pub fetch_busmaps : ℕ → List Members → M W (GoResult (List Members))
    fetch_busmaps index [] = pure (ok [])
    fetch_busmaps index (entry ∷ entries) =
        let rest = fetch_busmaps (index + 1) entries in
        fetch_busmap index entry >>= λ r.
        on_result r (λ e. pure (err e))
          λ combined.
            rest >>= λ rs. on_result rs (λ e. pure (err e)) λ others. pure (ok (combined ∷ others))

    unfoldable pub fetch_search_and_busmaps : M W (GoResult String)
    fetch_search_and_busmaps =
        fetch_in_slot d polls message.zone_url (record {
          message = record message { action_type = action_search };
          credential = credential;
        })
        >>= λ r.
            on_result (read_search c r) (λ e. pure (err e))
              λ search. fetch_busmaps 0 search.entries >>= λ bs.
                on_result bs (λ e. pure (err e))
                  λ combined. pure (encode_combined c search.envelope combined)

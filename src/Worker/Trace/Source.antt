-- ===== src/Worker/Trace/Source.antt =====
-- Where the body comes from that an attempt submits
-- (orbitplusworker/internal/application/worker/worker.go and search_busmap.go).
use orbitplus.Common.{
  map, ◌∙◌, sym, ℕ, zero, suc, ◌+◌, String, ◌≡◌, refl, ap, true, false, Option, none, some, List,
  [], ◌∷◌, str_eq, if◌then◌else◌, Bool-cases, inl, inr,
}
use orbitplus.Common.Text.{is_empty}
use orbitplus.Json.{Members, arr, obj, set, from_list}
use orbitplus.Worker.Errors.{wrapped, wrapped_at, GoError, GoResult, ok, err}
use orbitplus.Worker.Message.{TripDetailsRefreshMessage, action_searchbusmap}
use orbitplus.Worker.Deps.{
  Deps, Codec, BitsOperatorCredential, BitsTripDetailsRequest, AcquireReply, granted, over_quota,
  failed, OrbitPlusStatus, accepted, acknowledgement_eligible,
}
use orbitplus.Worker.Exec.{
  Event, credential, acquired, waited, fetched, health, pushed, M, Step, done, exhausted, panicked,
  call,
}
use orbitplus.Worker.Await.{poll_delay, wait_for_retry, await_reply, await_zone_rate_limit}
use orbitplus.Worker.Combine.{
  SearchBusMapIdentifiers, SearchResponse, search_entry_identifiers, decode_search_response,
  decode_busmap_response, validate_busmap_identity, combine,
}
use orbitplus.Worker.Combine.Merge.{later-if, clone_object-eq}
use orbitplus.Worker.SearchBusMap.{
  busmap_message, combine_response, encode_combined, fetch_in_slot, fetch_busmap, fetch_busmaps,
  read_search, fetch_search_and_busmaps,
}
use orbitplus.Worker.Attempt.{
  Attempt, push_outcome, non_empty, resolve_credential, check_credential, check_orbitplus_health,
  credential_failure, health_failure, source_failure, fetch_trip_details, push_trip_details,
  process_once,
}
use orbitplus.Worker.Trace.{
  Post, Triple, Keeps, Triple-pure, Triple-call, Triple-bind, Triple-result, Triple-error,
  Triple-weaken,
}

-- The bodies of the BITS responses since the last health check, newest first.
abbrev pub bodies : List Event → List String
bodies [] = []
bodies (fetched a (ok body) ∷ t) = body ∷ bodies t
bodies (health r ∷ t) = []
bodies (_ ∷ t) = bodies t

-- The Search entry and the BusMap response for it make this entry: the response is read, names no other
-- trip than the Search entry, and is merged into it under the identifiers of the Search entry.
pub record IsCombinedFrom (c : Codec) (search_entry : Members) (body : String) (combined : Members)
    : Type 0 where
  pub ids : SearchBusMapIdentifiers
  pub busmap_entry : Members
  pub is_identified : search_entry_identifiers search_entry ≡ ok ids
  pub is_busmap : decode_busmap_response c body ≡ ok busmap_entry
  pub is_same_trip : validate_busmap_identity busmap_entry ids ≡ none
  pub is_combined : combined ≡ combine search_entry busmap_entry ids

-- Each Search entry is combined with the next response. The two
-- lists of bodies are those before and after.
abbrev pub AreCombinedFrom :
    Codec → List Members → List Members → List String → List String → Type 0
AreCombinedFrom c [] [] before after = after ≡ before
AreCombinedFrom c (entry ∷ entries) (combined ∷ others) before after =
    (body : String) × IsCombinedFrom c entry body combined
    × AreCombinedFrom c entries others (body ∷ before) after
AreCombinedFrom c _ _ before after = ⊥

-- The body is the Search response with each of its entries combined with the BusMap response for it.
pub record JoinedFrom (c : Codec) (body : String) (t : List Event) : Type 0 where
  pub search_body : String
  pub search : SearchResponse
  pub combined : List Members
  pub is_search : decode_search_response c search_body ≡ ok search
  pub are_combined : AreCombinedFrom c search.entries combined (search_body ∷ []) (bodies t)
  pub is_encoded :
      c.marshal (obj (set "data" (arr (from_list (map obj combined))) search.envelope)) ≡ ok body

-- The text is what BITS answered in this attempt: its one response as it is, or for a searchbusmap
-- job its responses joined.
pub data IsSource (c : Codec) (m : TripDetailsRefreshMessage) (body : String) (t : List Event)
    : Type 0 where
  direct :
      str_eq m.action_type action_searchbusmap ≡ false → bodies t ≡ body ∷ [] → IsSource c m body t
  joined :
      str_eq m.action_type action_searchbusmap ≡ true → JoinedFrom c body t → IsSource c m body t

-- An attempt without a failure ended with OrbitPlus's ACCEPTED to what BITS answered.
abbrev pub WasAccepted : Codec → TripDetailsRefreshMessage → Attempt → List Event → Type 0
WasAccepted c m a t =
    a.failure ≡ none
    → (body : String) × (rest : List Event) × (t ≡ pushed body (ok accepted) ∷ rest)
      × IsSource c m body rest

combine_response-ok :
    (c : Codec) (index : ℕ) (entry : Members) (ids : SearchBusMapIdentifiers) (body : String)
    (combined : Members)
    → search_entry_identifiers entry ≡ ok ids
    → combine_response c index entry ids body ≡ ok combined
    → IsCombinedFrom c entry body combined
unfolding combine_response
combine_response-ok c index entry ids body combined found h =
    decoded (decode_busmap_response c body) refl (later-if (is_empty body) _ _ combined h)
  where
    checked :
        (busmap : Members) (o : Option GoError)
        → decode_busmap_response c body ≡ ok busmap
        → validate_busmap_identity busmap ids ≡ o
        → (elim o [
          | some e ↦
              err (wrapped_at "Bits BusMap response for Search entry does not match Search" index e)
          | none ↦ ok (combine entry busmap ids)
        ])
          ≡ ok combined
        → IsCombinedFrom c entry body combined
    checked busmap (some e) q v h = absurd (cc h)
    checked busmap none q v h = record {
      ids = ids;
      busmap_entry = busmap;
      is_identified = found;
      is_busmap = q;
      is_same_trip = v;
      is_combined = sym (ap (λ r. elim r [ ok x ↦ x | err e ↦ combined ]) h);
    }

    decoded :
        (r : GoResult Members)
        → decode_busmap_response c body ≡ r
        → (elim r [
          | err e ↦ err (wrapped_at "Bits BusMap response for Search entry is invalid" index e)
          | ok busmap ↦ elim (validate_busmap_identity busmap ids) [
            | some e ↦
                err
                  (wrapped_at "Bits BusMap response for Search entry does not match Search" index e)
            | none ↦ ok (combine entry busmap ids)
          ]
        ])
          ≡ ok combined
        → IsCombinedFrom c entry body combined
    decoded (err e) q h = absurd (cc h)
    decoded (ok busmap) q h = checked busmap (validate_busmap_identity busmap ids) q refl h

encode_combined-ok :
    (c : Codec) (envelope : Members) (combined : List Members) (body : String)
    → encode_combined c envelope combined ≡ ok body
    → c.marshal (obj (set "data" (arr (from_list (map obj combined))) envelope)) ≡ ok body
unfolding encode_combined
encode_combined-ok c envelope combined body h =
    ap (λ m. c.marshal (obj (set "data" (arr (from_list (map obj combined))) m)))
      (sym (clone_object-eq envelope))
    ∙ go (c.marshal _) h
  where
    go :
        (r : GoResult String)
        → (elim r [
          | ok body ↦ ok body
          | err e ↦ err (wrapped "encode combined Search and BusMap response" e)
        ])
          ≡ ok body
        → r ≡ ok body
    go (ok x) h = h
    go (err e) h = absurd (cc h)

-- What is known before a step and does not depend on the calls is known after it.
Triple-known :
    {W A : Type 0} {P : List Event → Type 0} {Q : A → List Event → Type 0} (K : Type 0) (m : M W A)
    → Triple P m Q
    → Triple (λ t. K × P t) m (λ a t. K × Q a t)
Triple-known {W = W} {A = A} {Q = Q} K m h = record { at = λ s (k, p). go k (m s) (h.at s p) }
  where
    go : K → (r : Step W A) → Post Q r → Post (λ a t. K × Q a t) r
    go k (done a s) q = (k, q)
    go k exhausted q = tt
    go k panicked q = q

Triple-some :
    {W A B : Type 0} {Q : A → List Event → Type 0} (P : B → List Event → Type 0) (m : M W A)
    → ((b : B) → Triple (P b) m Q)
    → Triple (λ t. (b : B) × P b t) m Q
Triple-some P m h = record { at = λ s (b, p). (h b).at s p }

-- Two assertions on one step.
pub Triple-both :
    {W A : Type 0} {P P' : List Event → Type 0} {Q Q' : A → List Event → Type 0} (m : M W A)
    → Triple P m Q
    → Triple P' m Q'
    → Triple (λ t. P t × P' t) m (λ a t. Q a t × Q' a t)
Triple-both {W = W} {A = A} {Q = Q} {Q' = Q'} m h h' = record {
  at = λ s (p, p'). go (m s) (h.at s p) (h'.at s p');
}
  where
    go : (r : Step W A) → Post Q r → Post Q' r → Post (λ a t. Q a t × Q' a t) r
    go (done a s) q q' = (q, q')
    go exhausted q q' = tt
    go panicked q q' = q

module _ {W : Type 0} (d : Deps W) (bs : List String) where
  abbrev Has : List Event → Type 0
  Has t = bodies t ≡ bs

  await_reply-Has :
      (rest : M W (Option GoError)) (r : AcquireReply)
      → Keeps Has rest
      → Keeps Has (await_reply d rest r)
  unfolding await_reply
  await_reply-Has rest granted h = Triple-pure none (λ t p. p)
  await_reply-Has rest (failed e) h = Triple-pure none (λ t p. p)
  await_reply-Has rest (over_quota delay) h =
      Triple-bind (λ w. Has) (wait_for_retry d (poll_delay d delay)) _
        (Triple-call _ (waited (poll_delay d delay)) (λ r t p. p))
        λ w. Triple-error (λ r. Has) w _ _ (λ e. Triple-pure (some e) (λ t p. p)) h

  await-Has : (polls : ℕ) (zone : String) → Keeps Has (await_zone_rate_limit d polls zone)
  unfolding await_zone_rate_limit
  await-Has zero zone = record { at = λ s p. tt }
  await-Has (suc polls) zone =
      Triple-bind (λ r. Has) (call (d.acquire zone) (acquired zone))
        (await_reply d (await_zone_rate_limit d polls zone))
        (Triple-call (d.acquire zone) (acquired zone) (λ r t p. p))
        λ r. await_reply-Has (await_zone_rate_limit d polls zone) r (await-Has polls zone)

  -- A response is the newest body.
  abbrev Got : GoResult String → List Event → Type 0
  Got (ok body) t = bodies t ≡ body ∷ bs
  Got (err e) t = Unit

  fetch_in_slot-Got :
      (polls : ℕ) (zone : String) (q : BitsTripDetailsRequest)
      → Triple Has (fetch_in_slot d polls zone q) Got
  unfolding fetch_in_slot
  fetch_in_slot-Got polls zone q =
      Triple-bind (λ w. Has) (await_zone_rate_limit d polls zone) _ (await-Has polls zone)
        λ w.
          Triple-error (λ r. Has) w _ _ (λ e. Triple-pure (err e) (λ t p. tt))
            (Triple-call (d.fetch_trip_details q) (fetched q.message.action_type) got)
    where
      got :
          (r : GoResult String) (t : List Event)
          → Has t
          → Got r (fetched q.message.action_type r ∷ t)
      got (ok body) t p = ap (λ (x : List String). body ∷ x) p
      got (err e) t p = tt

module _ {W : Type 0} (d : Deps W) (c : Codec) (polls : ℕ) (m : TripDetailsRefreshMessage)
    (cred : BitsOperatorCredential) where
  abbrev CombinedOne : ℕ → Members → List String → GoResult Members → List Event → Type 0
  CombinedOne index entry bs (err e) t = Unit
  CombinedOne index entry bs (ok combined) t =
      (body : String) × (IsCombinedFrom c entry body combined × (bodies t ≡ body ∷ bs))

  combined_one :
      (index : ℕ) (entry : Members) (ids : SearchBusMapIdentifiers) (bs : List String)
      (body : String)
      → search_entry_identifiers entry ≡ ok ids
      → (t : List Event) → bodies t ≡ body ∷ bs
      → CombinedOne index entry bs (combine_response c index entry ids body) t
  combined_one index entry ids bs body found t p = go (combine_response c index entry ids body) refl
    where
      go :
          (r : GoResult Members)
          → combine_response c index entry ids body ≡ r
          → CombinedOne index entry bs r t
      go (err e) q = tt
      go (ok combined) q = (body, (combine_response-ok c index entry ids body combined found q, p))

  fetch_busmap-CombinedOne :
      (index : ℕ) (entry : Members) (bs : List String)
      → Triple
          (λ t. bodies t ≡ bs)
          (fetch_busmap d c polls m cred index entry)
          (CombinedOne index entry bs)
  unfolding fetch_busmap
  fetch_busmap-CombinedOne index entry bs =
      Triple-weaken _
        (Triple-result (λ r t. (search_entry_identifiers entry ≡ r) × (bodies t ≡ bs))
          (search_entry_identifiers entry) _ _ (λ e. Triple-pure _ (λ t p. tt))
          λ ids.
            Triple-bind (λ r t. (search_entry_identifiers entry ≡ ok ids) × Got d bs r t)
              (fetch_in_slot d polls m.zone_url _) _
              (Triple-known (search_entry_identifiers entry ≡ ok ids) _ (
                fetch_in_slot-Got d bs polls m.zone_url
                  (record { message = busmap_message m ids; credential = cred })))
              λ r.
                Triple-result (λ r t. (search_entry_identifiers entry ≡ ok ids) × Got d bs r t) r _
                  _ (λ e. Triple-pure (err e) (λ t p. tt))
                  (λ body.
                    Triple-pure (combine_response c index entry ids body)
                      (λ t (q, p). combined_one index entry ids bs body q t p)))
        (λ t p. (refl, p)) (λ r t q. q)

  abbrev CombinedAll :
      ℕ → List Members → List String → GoResult (List Members) → List Event → Type 0
  CombinedAll index entries bs (err e) t = Unit
  CombinedAll index entries bs (ok combined) t = AreCombinedFrom c entries combined bs (bodies t)

  fetch_busmaps-CombinedAll :
      (index : ℕ) (entries : List Members) (bs : List String)
      → Triple
          (λ t. bodies t ≡ bs)
          (fetch_busmaps d c polls m cred index entries)
          (CombinedAll index entries bs)
  unfolding fetch_busmaps
  fetch_busmaps-CombinedAll index [] bs = Triple-pure _ (λ t p. p)
  fetch_busmaps-CombinedAll index (entry ∷ entries) bs =
      Triple-bind (CombinedOne index entry bs) (fetch_busmap d c polls m cred index entry) _
        (fetch_busmap-CombinedOne index entry bs)
        λ r.
          Triple-result (CombinedOne index entry bs) r _ _ (λ e. Triple-pure _ (λ t p. tt))
            λ combined.
              Triple-some (λ body t. IsCombinedFrom c entry body combined × (bodies t ≡ body ∷ bs))
                _
                λ body.
                  Triple-bind
                    (λ rs t.
                      IsCombinedFrom c entry body combined
                      × CombinedAll (index + 1) entries (body ∷ bs) rs t)
                    (fetch_busmaps d c polls m cred (index + 1) entries) _
                    (Triple-known (IsCombinedFrom c entry body combined) _
                      (fetch_busmaps-CombinedAll (index + 1) entries (body ∷ bs)))
                    λ rs.
                      Triple-result
                        (λ rs t.
                          IsCombinedFrom c entry body combined
                          × CombinedAll (index + 1) entries (body ∷ bs) rs t)
                        rs _ _ (λ e. Triple-pure _ (λ t p. tt))
                        (λ others. Triple-pure _ (λ t (one, rest). (body, one, rest)))

  -- The Search response, read.
  abbrev ReadFrom : GoResult SearchResponse → List Event → Type 0
  ReadFrom (err e) t = Unit
  ReadFrom (ok search) t =
      (body : String) × ((read_search c (ok body) ≡ ok search) × (bodies t ≡ body ∷ []))

  read_from : (r : GoResult String) (t : List Event) → Got d [] r t → ReadFrom (read_search c r) t
  unfolding read_search
  read_from (err e) t p = tt
  read_from (ok body) t p = go (read_search c (ok body)) refl
    where
      go : (r : GoResult SearchResponse) → read_search c (ok body) ≡ r → ReadFrom r t
      go (err e) q = tt
      go (ok search) q = (body, (q, p))

  -- What the combined body is made of.
  abbrev Joined : GoResult String → List Event → Type 0
  Joined (err e) t = Unit
  Joined (ok body) t = JoinedFrom c body t

  Joined-from :
      (search_body : String) (search : SearchResponse) (combined : List Members) (t : List Event)
      → read_search c (ok search_body) ≡ ok search
      → AreCombinedFrom c search.entries combined (search_body ∷ []) (bodies t)
      → Joined (encode_combined c search.envelope combined) t
  unfolding read_search
  Joined-from search_body search combined t read all =
      go (encode_combined c search.envelope combined) refl
    where
      go : (r : GoResult String) → encode_combined c search.envelope combined ≡ r → Joined r t
      go (err e) q = tt
      go (ok body) q = record {
        search_body = search_body;
        search = search;
        combined = combined;
        is_search =
            later-if (is_empty search_body) _ (decode_search_response c search_body) search read;
        are_combined = all;
        is_encoded = encode_combined-ok c search.envelope combined body q;
      }

  fetch_search_and_busmaps-Joined :
      Triple (λ t. bodies t ≡ []) (fetch_search_and_busmaps d c polls m cred) Joined
  unfolding fetch_search_and_busmaps
  fetch_search_and_busmaps-Joined =
      Triple-bind (Got d []) (fetch_in_slot d polls m.zone_url _) _
        (fetch_in_slot-Got d [] polls m.zone_url _)
        λ r.
          Triple-weaken _
            (Triple-result ReadFrom (read_search c r) _ _ (λ e. Triple-pure _ (λ t p. tt))
              λ search.
                Triple-some (λ b t. (read_search c (ok b) ≡ ok search) × (bodies t ≡ b ∷ [])) _
                  λ b.
                    Triple-bind
                      (λ bs t.
                        (read_search c (ok b) ≡ ok search)
                        × CombinedAll 0 search.entries (b ∷ []) bs t)
                      (fetch_busmaps d c polls m cred 0 search.entries) _
                      (Triple-known (read_search c (ok b) ≡ ok search) _
                        (fetch_busmaps-CombinedAll 0 search.entries (b ∷ [])))
                      λ bs.
                        Triple-result
                          (λ bs t.
                            (read_search c (ok b) ≡ ok search)
                            × CombinedAll 0 search.entries (b ∷ []) bs t)
                          bs _ _ (λ e. Triple-pure _ (λ t p. tt))
                          (λ combined.
                            Triple-pure _
                              (λ t (read, all). Joined-from b search combined t read all)))
            (read_from r) (λ x t q. q)

  -- A body that is returned comes from the responses.
  abbrev Sourced : GoResult String → List Event → Type 0
  Sourced (err e) t = Unit
  Sourced (ok body) t = IsSource c m body t

  non_empty-Sourced : (r : GoResult String) (t : List Event) → Sourced r t → Sourced (non_empty r) t
  unfolding non_empty
  non_empty-Sourced (err e) t p = tt
  non_empty-Sourced (ok body) t p = elim (Bool-cases (is_empty body)) [
    | inl e ↦ rw e tt
    | inr f ↦ rw f p
  ]

  direct-Sourced :
      str_eq m.action_type action_searchbusmap ≡ false
      → (r : GoResult String) (t : List Event) → Got d [] r t
      → Sourced r t
  direct-Sourced f (err e) t p = tt
  direct-Sourced f (ok body) t p = direct f p

  Joined-Sourced :
      str_eq m.action_type action_searchbusmap ≡ true
      → (r : GoResult String) (t : List Event) → Joined r t
      → Sourced r t
  Joined-Sourced f (err e) t p = tt
  Joined-Sourced f (ok body) t p = joined f p

  fetch_trip_details-Sourced :
      Triple (λ t. bodies t ≡ []) (fetch_trip_details d c polls m cred) Sourced
  unfolding fetch_trip_details
  fetch_trip_details-Sourced =
      Triple-bind Sourced _ _ fetched_body λ r. Triple-pure (non_empty r) (non_empty-Sourced r)
    where
      fetched_body :
          Triple
            (λ t. bodies t ≡ [])
            (if str_eq m.action_type action_searchbusmap
              then fetch_search_and_busmaps d c polls m cred
              else fetch_in_slot d polls m.zone_url (record { message = m; credential = cred }))
            Sourced
      fetched_body = elim (Bool-cases (str_eq m.action_type action_searchbusmap)) [
        | inl e ↦
            rw e (Triple-weaken _ fetch_search_and_busmaps-Joined (λ t p. p) (Joined-Sourced e))
        | inr f ↦ rw f (
            Triple-weaken _ (fetch_in_slot-Got d [] polls m.zone_url _) (λ t p. p)
              (direct-Sourced f))
      ]

module _ {W : Type 0} (d : Deps W) (c : Codec) (polls : ℕ) (m : TripDetailsRefreshMessage) where
  pushed_lem :
      (body : String) (r : GoResult OrbitPlusStatus) (t : List Event)
      → IsSource c m body t
      → WasAccepted c m (push_outcome r) (pushed body r ∷ t)
  unfolding push_outcome acknowledgement_eligible
  pushed_lem body (err e) t p = λ h. absurd (cc h)
  pushed_lem body (ok accepted) t p = λ h. (body, t, refl, p)
  pushed_lem body (ok _) t p = λ h. absurd (cc h)

  -- Whatever an attempt submits is what BITS answered in it.
  pub process_once-WasAccepted : Triple (λ t. Unit) (process_once d c polls m) (WasAccepted c m)
  unfolding process_once check_orbitplus_health resolve_credential push_trip_details
  process_once-WasAccepted =
      Triple-bind (λ r t. Unit) (resolve_credential d c polls m) _
        (Triple-bind (λ r t. Unit)
          (call (d.fetch_operator_credential m.operator_code) (credential m.operator_code)) _
          (Triple-call _ (credential m.operator_code) (λ r t p. tt))
          λ r. Triple-pure (check_credential m r) (λ t p. tt))
        λ cr.
          Triple-result (λ r t. Unit) cr _ _
            (λ e. Triple-pure (credential_failure e) (λ t p h. absurd (cc h)))
            λ cred.
              Triple-bind (λ h t. bodies t ≡ []) (call d.check_health health) _
                (Triple-call d.check_health health (λ h t p. refl))
                λ h.
                  Triple-error (λ h t. bodies t ≡ []) h _ _
                    (λ e. Triple-pure (health_failure e) (λ t p h. absurd (cc h)))
                    (Triple-bind (Sourced d c polls m cred) (fetch_trip_details d c polls m cred) _
                      (fetch_trip_details-Sourced d c polls m cred)
                      λ f.
                        Triple-result (Sourced d c polls m cred) f _ _
                          (λ e. Triple-pure (source_failure e) (λ t p h. absurd (cc h)))
                          λ body.
                            Triple-bind (λ r. WasAccepted c m (push_outcome r))
                              (call (d.send_trip_details m body) (pushed body)) _
                              (Triple-call _ (pushed body) (λ r t p. pushed_lem body r t p))
                              λ r. Triple-pure (push_outcome r) (λ t q. q))

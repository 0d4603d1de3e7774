-- ===== src/Master/Metadata/Routes.antt =====
-- Which routes the records of a stage cover
-- (orbitplus/internal/application/master/tripdetails_metadata_storage.go).
use Prim.Native.Char.{nul}
use orbitplus.Common.{
  ℕ, String, ◌≡◌, Bool, true, false, not, List, [], ◌∷◌, ◌++◌, ◌&&◌, ◌||◌, elem, str_eq, eq_iff,
  arith, if◌then◌else◌, Bool-cases, sym, ◌∙◌, inl, inr, ◌+◌,
}
use orbitplus.Common.Text.{is_empty, contains}
use orbitplus.Common.Separator.{append-first_separator}
use orbitplus.Json.{Members}
use orbitplus.Master.Stations.{station_codes_from_object}
use orbitplus.Master.Stations.Route.{before, all_named, station_codes_from_object-all_named}
use orbitplus.Master.Metadata.{
  TripDetailsStageMetadata, route_key, Found, on_route, add_route, add_routes_from, add_routes,
  stage_metadata_records,
}

abbrev pub is_route : String → String → TripDetailsStageMetadata → Bool
is_route a b r = str_eq r.from_station_code a && str_eq r.to_station_code b

-- How many of the records are for the route from `a` to `b`.
unfoldable pub on_route_count : String → String → List TripDetailsStageMetadata → ℕ
on_route_count a b [] = 0
on_route_count a b (r ∷ rs) = (if is_route a b r then 1 else 0) + on_route_count a b rs

abbrev pub no_nul : String → Bool
no_nul s = not (contains 0 s)

abbrev clean : List TripDetailsStageMetadata → Bool
clean [] = true
clean (r ∷ rs) = no_nul r.from_station_code && clean rs

abbrev pub all_no_nul : List String → Bool
all_no_nul [] = true
all_no_nul (c ∷ cs) = no_nul c && all_no_nul cs

route_key-inj :
    (a b a' b' : String)
    → no_nul a ≡ true
    → no_nul a' ≡ true
    → route_key a b ≡ route_key a' b'
    → (a ≡ a') × (b ≡ b')
unfolding route_key
route_key-inj a b a' b' h h' e =
    append-first_separator nul a a' b b' (ground arith) (ground arith) e

-- Two keys are the same text exactly for the same route.
route_key-str_eq :
    (a b a' b' : String)
    → no_nul a ≡ true
    → no_nul a' ≡ true
    → str_eq (route_key a b) (route_key a' b') ≡ (str_eq a a' && str_eq b b')
route_key-str_eq a b a' b' h h' = elim (Bool-cases (str_eq (route_key a b) (route_key a' b'))) [
  | inl t ↦
      let (p, q) = route_key-inj a b a' b' h h' ((eq_iff _ _).0 t) in
      ground (arith, t, eq_iff a a', eq_iff b b', p, q)
  | inr f ↦ different f
]
  where
    different :
        str_eq (route_key a b) (route_key a' b') ≡ false
        → str_eq (route_key a b) (route_key a' b') ≡ (str_eq a a' && str_eq b b')
    different f = elim (Bool-cases (str_eq a a' && str_eq b b')) [
      | inr g ↦ f ∙ sym g
      | inl g ↦
          let same : route_key a b ≡ route_key a' b' =
            cc ((eq_iff a a').0 (ground arith), (eq_iff b b').0 (ground arith)) in
          absurd (ground (arith, f, (eq_iff (route_key a b) (route_key a' b')).1 same))
    ]

-- The number of records for a route, and whether its key was seen.
record IsSound (found : Found) : Type 0 where
  clean_records : clean found.records ≡ true
  seen_once :
      (a b : String)
      → no_nul a ≡ true
      → on_route_count a b found.records ≡ (if elem (route_key a b) found.seen then 1 else 0)

on_route_count-snoc :
    (a b : String) (rs : List TripDetailsStageMetadata) (r : TripDetailsStageMetadata)
    → on_route_count a b (rs ++ (r ∷ []))
      ≡ on_route_count a b rs + (if is_route a b r then 1 else 0)
unfolding on_route_count
on_route_count-snoc a b [] r = ground arith
on_route_count-snoc a b (x ∷ rs) r = ground (arith, on_route_count-snoc a b rs r)

clean-snoc :
    (rs : List TripDetailsStageMetadata) (r : TripDetailsStageMetadata)
    → clean (rs ++ (r ∷ [])) ≡ (clean rs && no_nul r.from_station_code)
clean-snoc [] r = ground arith
clean-snoc (x ∷ rs) r = ground (arith, clean-snoc rs r)

-- The keys that were seen, after the step, are those before it and the key of a route.
record Adds (found found' : Found) (now : String → String → Bool) : Type 0 where
  sound : IsSound found'
  seen_now :
      (a b : String)
      → no_nul a ≡ true
      → elem (route_key a b) found'.seen ≡ (now a b || elem (route_key a b) found.seen)

same_route :
    (from to a b : String) (seen : List String)
    → (str_eq from a && str_eq to b) ≡ true
    → elem (route_key a b) seen ≡ elem (route_key from to) seen
same_route from to a b seen h =
    cc ((eq_iff from a).0 (ground (arith, h)), (eq_iff to b).0 (ground (arith, h)))

module _ (base : TripDetailsStageMetadata) where
  add_route-Adds :
      (from to : String) (found : Found)
      → no_nul from ≡ true
      → is_empty from ≡ false
      → is_empty to ≡ false
      → IsSound found
      → Adds found (add_route base from to found) (λ a b. str_eq from a && str_eq to b)
  unfolding add_route
  add_route-Adds from to found hn hf ht s =
      elim (Bool-cases (elem (route_key from to) found.seen)) [
        | inl t ↦
            rw (hf, ht, t)
              (record {
                sound = s;
                seen_now = λ a b h. ground (arith, t, same_route from to a b found.seen);
              })
        | inr f ↦
            rw (hf, ht, f)
              (record {
                sound = record {
                  clean_records = ground (
                    arith,
                    clean-snoc found.records (on_route base from to),
                    s.clean_records,
                    hn,
                  );
                  seen_once = λ a b h. ground (
                    arith,
                    on_route_count-snoc a b found.records (on_route base from to),
                    s.seen_once a b h,
                    route_key-str_eq from to a b hn h,
                    same_route from to a b found.seen,
                    f,
                  );
                };
                seen_now = λ a b h. ground (arith, route_key-str_eq from to a b hn h);
              })
      ]

  add_routes_from-Adds :
      (from : String) (tos : List String) (found : Found)
      → no_nul from ≡ true
      → is_empty from ≡ false
      → all_named tos ≡ true
      → IsSound found
      → Adds found (add_routes_from base from tos found) (λ a b. str_eq from a && elem b tos)
  unfolding add_routes_from
  add_routes_from-Adds from [] found hn hf ht s = record {
    sound = s;
    seen_now = λ a b h. ground arith;
  }
  add_routes_from-Adds from (to ∷ tos) found hn hf ht s =
      let one = add_route-Adds from to found hn hf (ground (arith, ht)) s in
      let rest =
        add_routes_from-Adds from tos (add_route base from to found) hn hf (ground (arith, ht))
          one.sound in
      record {
        sound = rest.sound;
        seen_now = λ a b h. ground (arith, one.seen_now a b h, rest.seen_now a b h);
      }

  add_routes-Adds :
      (stations : List String) (found : Found)
      → all_no_nul stations ≡ true
      → all_named stations ≡ true
      → IsSound found
      → Adds found (add_routes base stations found) (λ a b. before a b stations)
  unfolding add_routes before
  add_routes-Adds [] found hn ht s = record { sound = s; seen_now = λ a b h. ground arith }
  add_routes-Adds (from ∷ stations) found hn ht s =
      let one =
        add_routes_from-Adds from stations found (ground (arith, hn)) (ground (arith, ht))
          (ground (arith, ht)) s in
      let rest =
        add_routes-Adds stations (add_routes_from base from stations found) (ground (arith, hn))
          (ground (arith, ht)) one.sound in
      record {
        sound = rest.sound;
        seen_now = λ a b h. ground (arith, one.seen_now a b h, rest.seen_now a b h);
      }

  base-IsSound :
      no_nul base.from_station_code ≡ true
      → IsSound (record {
        seen = route_key base.from_station_code base.to_station_code ∷ [];
        records = base ∷ [];
      })
  unfolding on_route_count
  base-IsSound hn = record {
    clean_records = ground arith;
    seen_once = λ a b h.
        ground (arith, route_key-str_eq base.from_station_code base.to_station_code a b hn h);
  }

  -- When no station code holds a NUL, there is exactly one record for the stage's own route and for
  -- each route from a station of the stage to a later one, and no record for another route.
  pub stage_metadata_records-route :
      (entry : Members) (a b : String)
      → no_nul base.from_station_code ≡ true
      → all_no_nul (station_codes_from_object entry) ≡ true
      → no_nul a ≡ true
      → on_route_count a b (stage_metadata_records base entry)
        ≡ (if is_route a b base || before a b (station_codes_from_object entry) then 1 else 0)
  unfolding stage_metadata_records
  stage_metadata_records-route entry a b hn hs h =
      let all =
        add_routes-Adds (station_codes_from_object entry) _ hs
          (station_codes_from_object-all_named entry) (base-IsSound hn) in
      ground (
        arith,
        all.sound.seen_once a b h,
        all.seen_now a b h,
        route_key-str_eq base.from_station_code base.to_station_code a b hn h,
      )

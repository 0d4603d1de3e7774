-- ===== src/Master/Lookup.antt =====
-- Reading trip details: TripDetailsReadService
-- (orbitplus/internal/application/master/tripdetails_reader.go). Logging is left out.
pub mod Answer
pub mod Found
use orbitplus.Common.{
  ℕ, String, Bool, true, false, not, ◌&&◌, ◌||◌, Option, none, some, List, [], ◌∷◌, str_eq,
  if◌then◌else◌,
}
use orbitplus.Common.Text.{is_blank, contains}
use orbitplus.Json.{Value, Members, obj}
use orbitplus.Master.Errors.{GoError, not_found, GoResult, ok, err}
use orbitplus.Master.Errors as Errors
use orbitplus.Master.Keys.{colon, build_trip_key, build_stage_key, build_busmap_key}
use orbitplus.Master.Metadata.{TripDetailsStageMetadata}
use orbitplus.Master.Stations.{stage_contains_route}
use orbitplus.Master.Freshness.{
  FreshnessTier, hot, warm, cold, MaxAges, classify_freshness, newest_updated_at,
}
use orbitplus.Master.Read.{
  without_stage_bus, merge_json_objects, merge_trip_stage_busmap, is_complete_busmap_response,
}

pub record RouteLookup : Type 0 where
  pub operator_code : String
  pub trip_code : String
  pub from_code : String
  pub to_code : String
  pub trip_date : String
  pub username : String
  pub api_token : String

-- The readers, the clock, json.Unmarshal of a stored document, and the refresher if there is one. A
-- read gives `none` for a missing key.
pub record Readers (W : Type 0) : Type 0 where
  pub find_stages_by_route :
      String → String → String → String → W → GoResult (List TripDetailsStageMetadata) × W
  pub get_json : String → W → GoResult (Option String) × W
  pub get_json_refresh : String → W → GoResult (Option String) × W
  pub refresh_cold : Option (String → RouteLookup → W → Bool × W)
  pub now : W → ℕ
  pub max_ages : MaxAges
  pub decode : String → GoResult Value

abbrev pub bits_action_search : String
bits_action_search = "SEARCH"

abbrev pub bits_action_busmap : String
bits_action_busmap = "BUSMAP"

-- validLookupComponents
unfoldable pub valid_lookup_components : List String → Bool
valid_lookup_components [] = true
valid_lookup_components (value ∷ values) =
    if is_blank value || contains colon value then false else valid_lookup_components values

unfoldable pub valid_search_lookup : RouteLookup → Bool
valid_search_lookup l =
    valid_lookup_components (l.operator_code ∷ l.from_code ∷ l.to_code ∷ l.trip_date ∷ [])

unfoldable pub valid_busmap_lookup : RouteLookup → Bool
valid_busmap_lookup l =
    valid_lookup_components
      (l.operator_code ∷ l.trip_code ∷ l.from_code ∷ l.to_code ∷ l.trip_date ∷ [])

unfoldable pub filter_stages_by_trip_code :
    List TripDetailsStageMetadata → String → List TripDetailsStageMetadata
filter_stages_by_trip_code [] trip_code = []
filter_stages_by_trip_code (c ∷ candidates) trip_code =
    let rest = filter_stages_by_trip_code candidates trip_code in
    if str_eq c.trip_code trip_code then c ∷ rest else rest

-- A step of a read: it may fail, and reading may extend a TTL.
abbrev pub Reading : Type 0 → Type 0 → Type 0
Reading W A = W → GoResult A × W

module _ {W A B : Type 0} where
  abbrev pub continue : GoResult A × W → (A → Reading W B) → GoResult B × W
  continue (ok a, w) f = f a w
  continue (err e, w) f = (err e, w)

  infixl 5 ◌>>=◌
  abbrev pub ◌>>=◌ : Reading W A → (A → Reading W B) → Reading W B
  ◌>>=◌ m f w = continue (m w) f

module _ {W A : Type 0} where
  abbrev pub give : GoResult A → Reading W A
  give r w = (r, w)

-- ErrTripDetailsNotFound for nothing.
module _ {A : Type 0} where
  unfoldable pub require_some : List A → GoResult (List A)
  require_some [] = err not_found
  require_some (x ∷ xs) = ok (x ∷ xs)

  unfoldable pub require_found : Option A → GoResult A
  require_found none = err not_found
  require_found (some x) = ok x

  unfoldable pub first : List A → Option A
  first [] = none
  first (x ∷ xs) = some x

pub record ResolvedStage : Type 0 where
  pub stage : String
  pub metadata : TripDetailsStageMetadata

module _ {W : Type 0} (d : Readers W) where
  -- The step of refreshIfCold that asks the refresher.
  unfoldable pub refresh_at :
      FreshnessTier
      → Option (String → RouteLookup → W → Bool × W)
      → String
      → RouteLookup
      → W
      → Bool × W
  refresh_at cold (some refresh) action lookup w = refresh action lookup w
  refresh_at cold none action lookup w = (false, w)
  refresh_at hot refresher action lookup w = (false, w)
  refresh_at warm refresher action lookup w = (false, w)

  unfoldable pub refresh_if_cold :
      String → RouteLookup → List TripDetailsStageMetadata → W → Bool × W
  refresh_if_cold action lookup candidates w =
      refresh_at (classify_freshness d.max_ages (newest_updated_at candidates) (d.now w))
        d.refresh_cold action lookup w

  abbrev pub find : RouteLookup → Reading W (List TripDetailsStageMetadata)
  find l = d.find_stages_by_route l.operator_code l.from_code l.to_code l.trip_date

  -- The refreshed candidates when there are any, the old ones otherwise.
  unfoldable pub refreshed_or :
      List TripDetailsStageMetadata
      → GoResult (List TripDetailsStageMetadata)
      → List TripDetailsStageMetadata
  refreshed_or candidates (err e) = candidates
  refreshed_or candidates (ok []) = candidates
  refreshed_or candidates (ok (c ∷ cs)) = c ∷ cs

  -- What is kept of the rows found again, before it is compared with the old candidates.
  unfoldable pub select_again :
      (List TripDetailsStageMetadata → List TripDetailsStageMetadata)
      → GoResult (List TripDetailsStageMetadata)
      → GoResult (List TripDetailsStageMetadata)
  select_again select (err e) = err e
  select_again select (ok cs) = ok (select cs)

  -- `if service.refreshIfCold(...) { ... }`
  unfoldable pub freshen :
      String
      → RouteLookup
      → (List TripDetailsStageMetadata → List TripDetailsStageMetadata)
      → List TripDetailsStageMetadata
      → Reading W (List TripDetailsStageMetadata)
  freshen action lookup select candidates w =
      let (refreshed, w') = refresh_if_cold action lookup candidates w in
      if refreshed
      then (let (r, w'') = find lookup w' in
          (ok (refreshed_or candidates (select_again select r)), w''))
      else (ok candidates, w')

  -- stageContainsRoute on the stored bytes
  unfoldable pub serves : RouteLookup → GoResult Value → Bool
  serves l (ok stage) = stage_contains_route stage l.from_code l.to_code
  serves l (err e) = false

  -- What one candidate adds to the resolved stages.
  unfoldable pub add_stage :
      RouteLookup
      → TripDetailsStageMetadata
      → Option String
      → List ResolvedStage
      → List ResolvedStage
  add_stage lookup c none rest = rest
  add_stage lookup c (some stage) rest =
      if serves lookup (d.decode stage)
      then (record { stage = stage; metadata = c }) ∷ rest
      else rest

  unfoldable pub resolve_stages :
      RouteLookup → List TripDetailsStageMetadata → Reading W (List ResolvedStage)
  resolve_stages lookup [] w = (ok [], w)
  resolve_stages lookup (c ∷ candidates) w =
      let rest = resolve_stages lookup candidates in
      ◌>>=◌ (give (build_stage_key c.operator_code c.trip_code c.trip_stage_code))
        (λ key. d.get_json_refresh key >>= λ stage.
          rest >>= λ resolved. give (ok (add_stage lookup c stage resolved)))
        w

  -- withoutStageBus and mergeJSONObjects on stored bytes.
  unfoldable pub merge_stored : String → String → GoResult Members
  merge_stored trip stage = Errors.◌>>=◌ (d.decode stage) λ s.
      Errors.◌>>=◌ (without_stage_bus s)
        λ stripped. Errors.◌>>=◌ (d.decode trip) λ t. merge_json_objects (t ∷ stripped ∷ [])

  -- What one resolved stage adds to the answer of Search.
  unfoldable pub merge_found : ResolvedStage → Option String → GoResult (Option Members)
  merge_found c none = ok none
  merge_found c (some trip) = Errors.◌>>=◌ (merge_stored trip c.stage) λ entry. ok (some entry)

  unfoldable pub add_entry : Option Members → List Members → List Members
  add_entry none rest = rest
  add_entry (some entry) rest = entry ∷ rest

  unfoldable pub collect_entries : List ResolvedStage → Reading W (List Members)
  collect_entries [] w = (ok [], w)
  collect_entries (c ∷ resolved) w =
      let rest = collect_entries resolved in
      ◌>>=◌ (give (build_trip_key c.metadata.operator_code c.metadata.trip_code))
        (λ key. d.get_json_refresh key >>= λ trip. give (merge_found c trip) >>= λ entry.
          rest >>= λ entries. give (ok (add_entry entry entries)))
        w

  -- Search from the resolved stages on, from the candidates on, and from the rows on.
  unfoldable pub search_stages : List ResolvedStage → Reading W (List Members)
  search_stages resolved = collect_entries resolved >>= λ entries. give (require_some entries)

  unfoldable pub search_resolved : List ResolvedStage → Reading W (List Members)
  search_resolved stages = give (require_some stages) >>= search_stages

  unfoldable pub search_fresh :
      RouteLookup → List TripDetailsStageMetadata → Reading W (List Members)
  search_fresh lookup fresh = resolve_stages lookup fresh >>= search_resolved

  unfoldable pub search_candidates :
      RouteLookup → List TripDetailsStageMetadata → Reading W (List Members)
  search_candidates lookup candidates =
      freshen bits_action_search lookup (λ cs. cs) candidates >>= search_fresh lookup

  unfoldable pub search_rows :
      RouteLookup → List TripDetailsStageMetadata → Reading W (List Members)
  search_rows lookup found = give (require_some found) >>= search_candidates lookup

  unfoldable pub search : RouteLookup → Reading W (List Members)
  search lookup = find lookup >>= search_rows lookup

  -- mergeTripStageBusMap on stored bytes; the layout is decoded last.
  unfoldable pub merge_legacy : String → String → String → GoResult Value
  merge_legacy trip stage body = Errors.◌>>=◌ (merge_stored trip stage) λ merged.
      Errors.◌>>=◌ (d.decode stage) λ s. Errors.◌>>=◌ (d.decode trip) λ t.
        Errors.◌>>=◌ (d.decode body)
          λ b. Errors.◌>>=◌ (merge_trip_stage_busmap t s b) λ entry. ok (obj entry)

  unfoldable pub legacy_answer : ResolvedStage → String → Reading W Value
  legacy_answer c body =
      give (build_trip_key c.metadata.operator_code c.metadata.trip_code) >>= λ key.
      d.get_json key >>= λ trip.
      give (require_found trip) >>= λ found. give (merge_legacy found c.stage body)

  -- The answer of BusMap from its document: as it is stored, or merged into the trip and stage.
  unfoldable pub busmap_answer : ResolvedStage → String → GoResult Value → Reading W Value
  busmap_answer c body (err e) = legacy_answer c body
  busmap_answer c body (ok document) =
      if is_complete_busmap_response document then give (ok document) else legacy_answer c body

  unfoldable pub busmap : RouteLookup → Reading W Value
  busmap lookup = find lookup >>= λ found.
      give (require_some (filter_stages_by_trip_code found lookup.trip_code)) >>= λ candidates.
      freshen bits_action_busmap lookup (λ cs. filter_stages_by_trip_code cs lookup.trip_code)
        candidates
      >>= λ fresh. resolve_stages lookup fresh >>= λ stages.
          give (require_found (first stages)) >>= λ c.
          give (
            build_busmap_key c.metadata.operator_code c.metadata.trip_code
              c.metadata.trip_stage_code)
          >>= λ key. d.get_json key >>= λ stored.
              give (require_found stored) >>= λ body. busmap_answer c body (d.decode body)

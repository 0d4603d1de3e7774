-- ===== src/Master/Lookup/Answer.antt =====
-- What Search answers, candidate by candidate
-- (orbitplus/internal/application/master/tripdetails_reader.go).
use orbitplus.Common.{
  String, ◌≡◌, ◌≢◌, refl, ap, ◌∙◌, Option, none, some, List, [], ◌∷◌, Bool-cases, inl, inr,
  if◌then◌else◌,
}
use orbitplus.Json.{Members}
use orbitplus.Master.Errors.{GoError, GoResult, ok, err}
use orbitplus.Master.Errors as Errors
use orbitplus.Master.Keys.{build_trip_key, build_stage_key}
use orbitplus.Master.Metadata.{TripDetailsStageMetadata}
use orbitplus.Master.Lookup.{
  RouteLookup, Readers, Reading, ResolvedStage, find, freshen, bits_action_search, serves,
  add_stage, merge_stored, add_entry,
}

module _ {W A B : Type 0} where
  -- A sequence that gives a value went through its first step.
  record Passed (m : Reading W A) (f : A → Reading W B) (w : W) (b : B) : Type 0 where
    value : A
    world : W
    first : m w ≡ (ok value, world)
    rest : (f value world).0 ≡ ok b

module _ {W : Type 0} (d : Readers W) (content : String → Option String) where
  -- Nobody writes: a key has the same content at all times.
  pub record IsStill : Type 0 where
    pub reads : (key : String) (w : W) → (d.get_json_refresh key w).0 ≡ ok (content key)

  -- The records of a route that a search uses: those it found, or those found again after a refresh.
  pub record IsUsed (l : RouteLookup) (w : W) (used : List TripDetailsStageMetadata) : Type 0 where
    pub found : List TripDetailsStageMetadata
    pub world : W
    pub first : find d l w ≡ (ok found, world)
    pub fresh : (freshen d bits_action_search l (λ cs. cs) found world).0 ≡ ok used

  unfoldable pub stored : GoResult String → Option String
  stored (ok key) = content key
  stored (err e) = none

  unfoldable pub entry_or_none : GoResult Members → Option Members
  entry_or_none (ok entry) = some entry
  entry_or_none (err e) = none

  -- The entry of a stage whose trip document is stored.
  unfoldable pub with_trip : String → Option String → Option Members
  with_trip stage none = none
  with_trip stage (some trip) = entry_or_none (merge_stored d trip stage)

  unfoldable pub with_stage :
      RouteLookup → TripDetailsStageMetadata → Option String → Option Members
  with_stage l c none = none
  with_stage l c (some stage) =
      if serves d l (d.decode stage)
      then with_trip stage (stored (build_trip_key c.operator_code c.trip_code))
      else none

  -- The answer for one candidate: its stage document must be stored and serve the route, and its trip
  -- document must be stored.
  unfoldable pub answer : RouteLookup → TripDetailsStageMetadata → Option Members
  unfolding with_stage with_trip stored entry_or_none
  answer l c =
      with_stage l c (stored (build_stage_key c.operator_code c.trip_code c.trip_stage_code))

  unfoldable pub answers : RouteLookup → List TripDetailsStageMetadata → List Members
  answers l [] = []
  answers l (c ∷ cs) = add_entry d (answer l c) (answers l cs)

  pub record IsAnswer (l : RouteLookup) (w : W) (es : List Members) : Type 0 where
    pub used : List TripDetailsStageMetadata
    pub rows : IsUsed l w used
    pub not_empty : es ≢ []
    pub entries : es ≡ answers l used

  unfoldable pub stages_of : RouteLookup → List TripDetailsStageMetadata → List ResolvedStage
  stages_of l [] = []
  stages_of l (c ∷ cs) =
      add_stage d l c (stored (build_stage_key c.operator_code c.trip_code c.trip_stage_code))
        (stages_of l cs)

  unfoldable pub entries_of : List ResolvedStage → List Members
  entries_of [] = []
  entries_of (c ∷ cs) =
      add_entry d
        (with_trip c.stage (stored (build_trip_key c.metadata.operator_code c.metadata.trip_code)))
        (entries_of cs)

  entries_of-add_stage :
      (l : RouteLookup) (c : TripDetailsStageMetadata) (o : Option String)
      (rest : List ResolvedStage)
      → entries_of (add_stage d l c o rest) ≡ add_entry d (with_stage l c o) (entries_of rest)
  unfolding add_stage with_stage entries_of add_entry
  entries_of-add_stage l c none rest = refl
  entries_of-add_stage l c (some stage) rest = elim (Bool-cases (serves d l (d.decode stage))) [
    | inl t ↦ rw t refl
    | inr f ↦ rw f refl
  ]

  pub entries_of-stages_of :
      (l : RouteLookup) (cs : List TripDetailsStageMetadata)
      → entries_of (stages_of l cs) ≡ answers l cs
  unfolding stages_of answers answer entries_of
  entries_of-stages_of l [] = refl
  entries_of-stages_of l (c ∷ cs) =
      entries_of-add_stage l c _ (stages_of l cs)
      ∙ ap (add_entry d (answer l c)) (entries_of-stages_of l cs)

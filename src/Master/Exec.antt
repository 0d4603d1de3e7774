-- ===== src/Master/Exec.antt =====
-- The effects of storing trip details: a step runs in the world behind the repositories, and every
-- write is also noted in a log, newest first, that no step reads.
use orbitplus.Common.{String, Option, none, some, List, ◌∷◌, ℕ, ℤ, Bool}
use orbitplus.Json.{Value}
use orbitplus.Master.Errors.{GoError, wrapped, GoResult, ok, err}
use orbitplus.Master.Metadata.{TripDetailsStageMetadata}

-- A write to Dragonfly or Cassandra, or to the job's row of queue metrics.
pub data Write : Type 0 where
  cached : String → String → ℤ → Write  -- key, content, TTL
  route : TripDetailsStageMetadata → Write
  schedule : TripDetailsStageMetadata → Write
  completed : String → List String → Write  -- reference id, updated trip codes
  dead : String → List String → String → Write  -- the same with the failure message

-- What the write returned.
pub data Event : Type 0 where
  written : Write → Option GoError → Event

-- The repositories, the clock and json.Marshal. `cache_configured` and `metrix_configured`: the
-- persistence and the metrics of the service are not nil.
pub record Deps (W : Type 0) : Type 0 where
  pub cache_configured : Bool
  pub metrix_configured : Bool
  pub set_json_with_ttl : String → String → ℤ → W → Option GoError × W
  pub save_route_metadata : TripDetailsStageMetadata → W → Option GoError × W
  pub save_schedule_metadata : TripDetailsStageMetadata → W → Option GoError × W
  pub mark_completed : String → List String → W → Option GoError × W
  pub mark_dead : String → List String → String → W → Option GoError × W
  pub now : W → ℕ
  pub marshal : Value → GoResult String
  pub hot_cache_ttl : ℤ
  pub warm_cache_ttl : ℤ

pub record Run (W : Type 0) : Type 0 where
  pub world : W
  pub log : List Event

abbrev pub M : Type 0 → Type 0 → Type 0
M W A = Run W → A × Run W

-- `fmt.Errorf("text: %w", err)` around a step's error
unfoldable pub wrap_error : String → Option GoError → Option GoError
wrap_error text none = none
wrap_error text (some e) = some (wrapped text e)

module _ {W : Type 0} where
  -- A write that is noted.
  unfoldable pub write : Write → (W → Option GoError × W) → M W (Option GoError)
  write w f s =
      let (e, world) = f s.world in (e, record { world = world; log = written w e ∷ s.log })

  -- `if err := m; err != nil { return err }` and the rest
  unfoldable pub next : M W (Option GoError) → Option GoError → M W (Option GoError)
  next k none s = k s
  next k (some e) s = (some e, s)

  infixl 5 ◌and_then◌
  unfoldable pub ◌and_then◌ : M W (Option GoError) → M W (Option GoError) → M W (Option GoError)
  unfolding next
  ◌and_then◌ m k s = let (e, s') = m s in next k e s'

  unfoldable pub labelled : String → M W (Option GoError) → M W (Option GoError)
  unfolding wrap_error
  labelled text m s = let (e, s') = m s in (wrap_error text e, s')

  -- A value that is needed first.
  unfoldable pub with_value :
      {A : Type 0} → GoResult A → (A → M W (Option GoError)) → M W (Option GoError)
  with_value (ok a) f s = f a s
  with_value (err e) f s = (some e, s)

  -- A check before the rest.
  unfoldable pub checked : Option GoError → M W (Option GoError) → M W (Option GoError)
  checked none k s = k s
  checked (some e) k s = (some e, s)

  unfoldable pub skip : M W (Option GoError)
  skip s = (none, s)

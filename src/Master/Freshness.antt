-- ===== src/Master/Freshness.antt =====
-- How fresh a cached entry is by its age
-- (orbitplus/internal/application/master/tripdetails_cache_storage.go and tripdetails_reader.go).
-- Times count nanoseconds from Go's zero time, so 0 is the missing timestamp.
pub mod Tiers
use orbitplus.Common.{ℕ, Bool, ◌+◌, ◌==◌, leb, ltb, List, [], ◌∷◌, if◌then◌else◌}
use orbitplus.Master.Metadata.{TripDetailsStageMetadata}

pub data FreshnessTier : Type 0 where
  hot : FreshnessTier
  warm : FreshnessTier
  cold : FreshnessTier

-- hotMaxAge and warmMaxAge
pub record MaxAges : Type 0 where
  pub hot_max_age : ℕ
  pub warm_max_age : ℕ

-- `age <= max` with age = now - updatedAt, which may be negative.
unfoldable pub is_within : ℕ → ℕ → ℕ → Bool
is_within updated_at now max = leb now (updated_at + max)

unfoldable pub classify_freshness : MaxAges → ℕ → ℕ → FreshnessTier
classify_freshness ages updated_at now =
    if updated_at == 0
    then cold
    else if is_within updated_at now ages.hot_max_age
    then hot
    else if is_within updated_at now ages.warm_max_age
    then warm
    else cold

unfoldable pub newest_from : ℕ → List TripDetailsStageMetadata → ℕ
newest_from newest [] = newest
newest_from newest (c ∷ candidates) =
    newest_from (if ltb newest c.updated_at then c.updated_at else newest) candidates

unfoldable pub newest_updated_at : List TripDetailsStageMetadata → ℕ
newest_updated_at candidates = newest_from 0 candidates

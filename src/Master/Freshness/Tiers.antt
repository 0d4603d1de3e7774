-- ===== src/Master/Freshness/Tiers.antt =====
-- When a route counts as stale
-- (orbitplus/internal/application/master/tripdetails_cache_storage.go and tripdetails_reader.go).
use orbitplus.Common.{
  ℕ, ◌+◌, ◌≤◌, ◌≡◌, ◌&&◌, ◌||◌, Bool, true, false, List, [], ◌∷◌, ltb, ◌==◌, arith, if◌then◌else◌,
}
use orbitplus.Master.Metadata.{TripDetailsStageMetadata}
use orbitplus.Master.Freshness.{
  FreshnessTier, cold, MaxAges, is_within, classify_freshness, newest_from, newest_updated_at,
}

abbrev pub is_cold : FreshnessTier → Bool
is_cold cold = true
is_cold _ = false

-- The update has no timestamp, or it is older than `max`.
abbrev pub is_older : ℕ → ℕ → ℕ → Bool
is_older now max updated_at = updated_at == 0 || ltb (updated_at + max) now

abbrev pub all_older : ℕ → ℕ → List TripDetailsStageMetadata → Bool
all_older now max [] = true
all_older now max (c ∷ cs) = is_older now max c.updated_at && all_older now max cs

classify_freshness-older :
    (ages : MaxAges) (updated_at now : ℕ)
    → ages.hot_max_age ≤ ages.warm_max_age
    → is_cold (classify_freshness ages updated_at now) ≡ is_older now ages.warm_max_age updated_at
unfolding classify_freshness is_within
classify_freshness-older ages updated_at now h = ground arith

newest_from-older :
    (newest now max : ℕ) (cs : List TripDetailsStageMetadata)
    → is_older now max (newest_from newest cs) ≡ (is_older now max newest && all_older now max cs)
unfolding newest_from
newest_from-older newest now max [] = ground arith
newest_from-older newest now max (c ∷ cs) =
    ground (
      arith,
      newest_from-older (if ltb newest c.updated_at then c.updated_at else newest) now max cs,
    )

-- When the hot age is at most the warm age, a route is cold exactly when each of its records is older
-- than the warm age or has no timestamp. A record of exactly the warm age keeps its route warm.
pub classify_freshness-cold :
    (ages : MaxAges) (cs : List TripDetailsStageMetadata) (now : ℕ)
    → ages.hot_max_age ≤ ages.warm_max_age
    → is_cold (classify_freshness ages (newest_updated_at cs) now)
      ≡ all_older now ages.warm_max_age cs
unfolding newest_updated_at
classify_freshness-cold ages cs now h = ground (
  arith,
  classify_freshness-older ages (newest_from 0 cs) now h,
  newest_from-older 0 now ages.warm_max_age cs,
)

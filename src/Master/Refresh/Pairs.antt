-- ===== src/Master/Refresh/Pairs.antt =====
-- Which routes are refreshed (orbitplus/internal/application/master/orbit_route_refresh.go,
-- futureRoutePairs).
use orbitplus.Common.{
  String, ◌≡◌, refl, sym, ◌∙◌, ◌≤◌, ◌<◌, ◌⊎◌, inl, inr, Bool, true, false, List, [], ◌∷◌, All, Any,
  ltb, str_eq, eq_iff, if◌then◌else◌, Bool-cases, arith, ltb→lt, ltb-false,
}
use orbitplus.Common.Date.{Date}
use orbitplus.Master.Metadata.{TripDetailsStageMetadata}
use orbitplus.Master.Refresh.{
  RouteRefreshPair, pair_key, is_candidate, pair_of_row, row_key, put_pair, collect_pairs,
}

abbrev pub Pairs : Type 0
Pairs = List (String × RouteRefreshPair)

unfoldable pub route_key_of : RouteRefreshPair → String
route_key_of r = pair_key r.operator_code r.trip_date r.from_station r.to_station

-- The route of the row, as it was updated then or later.
abbrev pub Covers : TripDetailsStageMetadata → RouteRefreshPair → Type 0
Covers row r = (route_key_of r ≡ row_key row) × (row.updated_at ≤ r.updated_at)

-- Every pair is under its own key.
abbrev pub IsKeyed : Pairs → Type 0
IsKeyed pairs = All (λ p. p.0 ≡ route_key_of p.1) pairs

put_pair-All :
    (P : RouteRefreshPair → Type 0) (key : String) (c : RouteRefreshPair) (pairs : Pairs)
    → P c
    → All (λ p. P p.1) pairs
    → All (λ p. P p.1) (put_pair key c pairs)
unfolding put_pair
put_pair-All P key c [] h hs = (h, tt)
put_pair-All P key c ((k, e) ∷ pairs) h hs = elim (Bool-cases (str_eq k key)) [
  | inr f ↦ rw f (hs.0, put_pair-All P key c pairs h hs.1)
  | inl t ↦ rw t (newer (ltb e.updated_at c.updated_at), hs.1)
]
  where
    newer : (b : Bool) → P (if b then c else e)
    newer true = h
    newer false = hs.0

put_pair-IsKeyed :
    (key : String) (c : RouteRefreshPair) (pairs : Pairs)
    → key ≡ route_key_of c
    → IsKeyed pairs
    → IsKeyed (put_pair key c pairs)
unfolding put_pair
put_pair-IsKeyed key c [] h hs = (h, tt)
put_pair-IsKeyed key c ((k, e) ∷ pairs) h hs = elim (Bool-cases (str_eq k key)) [
  | inr f ↦ rw f (hs.0, put_pair-IsKeyed key c pairs h hs.1)
  | inl t ↦ rw t (newer ((eq_iff k key).0 t) (ltb e.updated_at c.updated_at), hs.1)
]
  where
    newer : k ≡ key → (b : Bool) → k ≡ route_key_of (if b then c else e)
    newer same true = same ∙ h
    newer same false = hs.0

-- The newer of two pairs of one route covers what either covers.
newer-Covers :
    (row : TripDetailsStageMetadata) (c e : RouteRefreshPair)
    → route_key_of c ≡ route_key_of e
    → Covers row c ⊎ Covers row e
    → Covers row (if ltb e.updated_at c.updated_at then c else e)
newer-Covers row c e same h = elim (Bool-cases (ltb e.updated_at c.updated_at)) [
  | inl t ↦ rw t (on_newer h (ltb→lt e.updated_at c.updated_at t))
  | inr f ↦ rw f (on_older h (ltb-false e.updated_at c.updated_at f))
]
  where
    on_newer : Covers row c ⊎ Covers row e → e.updated_at < c.updated_at → Covers row c
    on_newer (inl p) lt = p
    on_newer (inr p) lt = (same ∙ p.0, omega (arith, p.1, lt))

    on_older : Covers row c ⊎ Covers row e → c.updated_at ≤ e.updated_at → Covers row e
    on_older (inl p) le = (sym same ∙ p.0, omega (arith, p.1, le))
    on_older (inr p) le = p

-- The pair that is put covers its row, and what was covered stays covered.
put_pair-Covers :
    (row : TripDetailsStageMetadata) (key : String) (c : RouteRefreshPair) (pairs : Pairs)
    → key ≡ route_key_of c
    → IsKeyed pairs
    → Covers row c ⊎ Any (λ p. Covers row p.1) pairs
    → Any (λ p. Covers row p.1) (put_pair key c pairs)
unfolding put_pair
put_pair-Covers row key c [] k hs (inl h) = inl h
put_pair-Covers row key c [] k hs (inr x) = absurd x
put_pair-Covers row key c ((j, e) ∷ pairs) k hs h = elim (Bool-cases (str_eq j key)) [
  | inr f ↦ rw f (apart (put_pair-Covers row key c pairs k hs.1) h)
  | inl t ↦ rw t (same (sym hs.0 ∙ (eq_iff j key).0 t ∙ k) h)
]
  where
    apart :
        (Covers row c ⊎ Any (λ p. Covers row p.1) pairs
          → Any (λ p. Covers row p.1) (put_pair key c pairs))
        → Covers row c ⊎ (Covers row e ⊎ Any (λ p. Covers row p.1) pairs)
        → Covers row e ⊎ Any (λ p. Covers row p.1) (put_pair key c pairs)
    apart rest (inl x) = inr (rest (inl x))
    apart rest (inr (inl x)) = inl x
    apart rest (inr (inr x)) = inr (rest (inr x))

    same :
        route_key_of e ≡ route_key_of c
        → Covers row c ⊎ (Covers row e ⊎ Any (λ p. Covers row p.1) pairs)
        → Covers row (if ltb e.updated_at c.updated_at then c else e)
          ⊎ Any (λ p. Covers row p.1) pairs
    same q (inl x) = inl (newer-Covers row c e (sym q) (inl x))
    same q (inr (inl x)) = inl (newer-Covers row c e (sym q) (inr x))
    same q (inr (inr x)) = inr x

module _ (today : Date) (active : List (String × String)) where
  -- The pairs after all rows: what holds of the pairs of candidates and of the first pairs holds of
  -- them.
  pub collect_pairs-All :
      (P : RouteRefreshPair → Type 0) (rows : List TripDetailsStageMetadata) (pairs : Pairs)
      → All (λ row. is_candidate today active row ≡ true → P (pair_of_row row)) rows
      → All (λ p. P p.1) pairs
      → All (λ p. P p.1) (collect_pairs today active rows pairs)
  unfolding collect_pairs
  collect_pairs-All P [] pairs h hs = hs
  collect_pairs-All P (row ∷ rows) pairs h hs = elim (Bool-cases (is_candidate today active row)) [
    | inr f ↦ rw f (collect_pairs-All P rows pairs h.1 hs)
    | inl t ↦ rw t (
        collect_pairs-All P rows (put_pair (row_key row) (pair_of_row row) pairs) h.1
          (put_pair-All P (row_key row) (pair_of_row row) pairs (h.0 t) hs))
  ]

  row_key-pair : (row : TripDetailsStageMetadata) → row_key row ≡ route_key_of (pair_of_row row)
  unfolding row_key route_key_of pair_of_row
  row_key-pair row = refl

  -- One round of the loop.
  abbrev round : TripDetailsStageMetadata → Pairs → Pairs
  round row pairs =
      if is_candidate today active row
      then put_pair (row_key row) (pair_of_row row) pairs
      else pairs

  round-IsKeyed :
      (row : TripDetailsStageMetadata) (pairs : Pairs) → IsKeyed pairs → IsKeyed (round row pairs)
  round-IsKeyed row pairs k = elim (Bool-cases (is_candidate today active row)) [
    | inr f ↦ rw f k
    | inl t ↦ rw t (put_pair-IsKeyed (row_key row) (pair_of_row row) pairs (row_key-pair row) k)
  ]

  round-still :
      (row r : TripDetailsStageMetadata) (pairs : Pairs)
      → IsKeyed pairs
      → Any (λ p. Covers row p.1) pairs
      → Any (λ p. Covers row p.1) (round r pairs)
  round-still row r pairs k h = elim (Bool-cases (is_candidate today active r)) [
    | inr f ↦ rw f h
    | inl t ↦
        rw t (put_pair-Covers row (row_key r) (pair_of_row r) pairs (row_key-pair r) k (inr h))
  ]

  round-Covers :
      (row : TripDetailsStageMetadata) (pairs : Pairs)
      → IsKeyed pairs
      → is_candidate today active row ≡ true
      → Any (λ p. Covers row p.1) (round row pairs)
  unfolding pair_of_row route_key_of row_key
  round-Covers row pairs k t = rw t (
      put_pair-Covers row (row_key row) (pair_of_row row) pairs (row_key-pair row) k
        (inl (refl, omega arith)))

  collect_pairs-still :
      (row : TripDetailsStageMetadata) (rows : List TripDetailsStageMetadata) (pairs : Pairs)
      → IsKeyed pairs
      → Any (λ p. Covers row p.1) pairs
      → Any (λ p. Covers row p.1) (collect_pairs today active rows pairs)
  unfolding collect_pairs
  collect_pairs-still row [] pairs k h = h
  collect_pairs-still row (r ∷ rows) pairs k h =
      collect_pairs-still row rows (round r pairs) (round-IsKeyed r pairs k)
        (round-still row r pairs k h)

  pub collect_pairs-Covers :
      (rows : List TripDetailsStageMetadata) (pairs : Pairs)
      → IsKeyed pairs
      → All
          (λ row.
            is_candidate today active row ≡ true
            → Any (λ p. Covers row p.1) (collect_pairs today active rows pairs))
          rows
  unfolding collect_pairs
  collect_pairs-Covers [] pairs k = tt
  collect_pairs-Covers (row ∷ rows) pairs k = (
    (λ t.
        collect_pairs-still row rows (round row pairs) (round-IsKeyed row pairs k)
          (round-Covers row pairs k t)),
    collect_pairs-Covers rows (round row pairs) (round-IsKeyed row pairs k),
  )

-- ===== src/Master/Refresh/Future.antt =====
-- The routes of a refresh by operator (orbitplus/internal/application/master/orbit_route_refresh.go,
-- futureRoutePairs).
use Prim.Native.Char.{nul, code}
use orbitplus.Common.{
  String, ◌≡◌, refl, sym, ◌∙◌, ap, ◌≤◌, ◌⊎◌, inl, inr, Bool, true, false, not, ◌&&◌, and_true,
  Option, none, some, List, [], ◌∷◌, All, Any, str_eq, eq_iff, Bool-cases, arith, if◌then◌else◌,
}
use orbitplus.Common.Separator.{append-first_separator}
use orbitplus.Common.Text.{contains, is_empty}
use orbitplus.Common.Date.{Date, parse_date, before, add_week}
use orbitplus.Master.Metadata.{TripDetailsStageMetadata}
use orbitplus.Master.Refresh.{
  RouteRefreshPair, pair_key, url_of, is_some, is_in_week, is_candidate, pair_of_row, row_key,
  collect_pairs, group_pairs, future_route_pairs,
}
use orbitplus.Master.Refresh.Pairs.{
  Pairs, Covers, route_key_of, collect_pairs-All, collect_pairs-Covers,
}
use orbitplus.Master.Refresh.Groups.{
  Groups, AnyRoute, AreCoded, group_pairs-AllRoutes, group_pairs-AnyRoute, group_pairs-AreCoded,
}

-- The date is one of today and the seven days that follow.
abbrev pub IsWithinWeek : Date → String → Type 0
IsWithinWeek today trip_date =
    (date : Date) × (parse_date trip_date ≡ some date)
    × (before date today ≡ false)
    × (before (add_week today) date ≡ false)

-- A row of an active operator, for a day of the week, with both stations named.
pub record IsDue (today : Date) (active : List (String × String)) (row : TripDetailsStageMetadata)
    : Type 0 where
  pub operator : Any (λ a. a.0 ≡ row.operator_code) active
  pub week : IsWithinWeek today row.trip_date
  pub from : is_empty row.from_station_code ≡ false
  pub to : is_empty row.to_station_code ≡ false

-- The route is the one of the row.
pub record IsRouteOf (row : TripDetailsStageMetadata) (r : RouteRefreshPair) : Type 0 where
  pub operator : r.operator_code ≡ row.operator_code
  pub date : r.trip_date ≡ row.trip_date
  pub from : r.from_station ≡ row.from_station_code
  pub to : r.to_station ≡ row.to_station_code

abbrev pub HasNoNul : TripDetailsStageMetadata → Type 0
HasNoNul row =
    (contains (code nul) row.operator_code ≡ false)
    × (contains (code nul) row.trip_date ≡ false)
    × (contains (code nul) row.from_station_code ≡ false)

is_some-if :
    {A : Type 0} (b : Bool) (a : A) (o : Option A)
    → is_some (if b then some a else o) ≡ true
    → (b ≡ true) ⊎ (is_some o ≡ true)
is_some-if true a o h = inl refl
is_some-if false a o h = inr h

operator-active :
    (op : String) (active : List (String × String))
    → is_some (url_of op active) ≡ true
    → Any (λ a. a.0 ≡ op) active
unfolding url_of
operator-active op [] h = absurd (cc h)
operator-active op ((c, url) ∷ active) h =
    elim (is_some-if (str_eq c op) url (url_of op active) h) [
      | inl t ↦ inl ((eq_iff c op).0 t)
      | inr later ↦ inr (operator-active op active later)
    ]

active-operator :
    (op : String) (active : List (String × String))
    → Any (λ a. a.0 ≡ op) active
    → is_some (url_of op active) ≡ true
unfolding url_of
active-operator op [] h = absurd h
active-operator op ((c, url) ∷ active) (inl same) = rw ((eq_iff c op).1 same) refl
active-operator op ((c, url) ∷ active) (inr later) = elim (Bool-cases (str_eq c op)) [
  | inl t ↦ rw t refl
  | inr f ↦ rw f (active-operator op active later)
]

abbrev in_week : Date → Option Date → Bool
in_week today none = false
in_week today (some date) = not (before date today) && not (before (add_week today) date)

is_in_week-parsed : (today : Date) (t : String) → is_in_week today t ≡ in_week today (parse_date t)
unfolding is_in_week
is_in_week-parsed today t = go (parse_date t)
  where
    go :
        (o : Option Date)
        → (elim o [
          | none ↦ false
          | some date ↦ not (before date today) && not (before (add_week today) date)
        ])
          ≡ in_week today o
    go none = refl
    go (some d) = refl

week-IsWithinWeek : (today : Date) (t : String) → is_in_week today t ≡ true → IsWithinWeek today t
week-IsWithinWeek today t h = go (parse_date t) refl (sym (is_in_week-parsed today t) ∙ h)
  where
    go : (o : Option Date) → parse_date t ≡ o → in_week today o ≡ true → IsWithinWeek today t
    go none e h = absurd (cc h)
    go (some d) e h = (d, e, ground arith, ground arith)

IsWithinWeek-week : (today : Date) (t : String) → IsWithinWeek today t → is_in_week today t ≡ true
IsWithinWeek-week today t (d, e, b, a) =
    is_in_week-parsed today t ∙ ap (in_week today) e ∙ rw (b, a) refl

module _ (today : Date) (active : List (String × String)) where
  candidate-IsDue :
      (row : TripDetailsStageMetadata)
      → is_candidate today active row ≡ true
      → IsDue today active row
  unfolding is_candidate
  candidate-IsDue row h =
      let (h1, t) = and_true _ (not (is_empty row.to_station_code)) h in
      let (h2, f) = and_true _ (not (is_empty row.from_station_code)) h1 in
      let (o, w) = and_true (is_some (url_of row.operator_code active)) _ h2 in
      record {
        operator = operator-active row.operator_code active o;
        week = week-IsWithinWeek today row.trip_date w;
        from = ground arith;
        to = ground arith;
      }

  IsDue-candidate :
      (row : TripDetailsStageMetadata)
      → IsDue today active row
      → is_candidate today active row ≡ true
  unfolding is_candidate
  IsDue-candidate row due =
      rw
        (
          active-operator row.operator_code active due.operator,
          IsWithinWeek-week today row.trip_date due.week,
          due.from,
          due.to,
        )
        refl

-- Two routes without a NUL in what stands before the last part of the key.
NulFree : RouteRefreshPair → Type 0
NulFree r =
    (contains (code nul) r.operator_code ≡ false)
    × (contains (code nul) r.trip_date ≡ false)
    × (contains (code nul) r.from_station ≡ false)

Covers-IsRouteOf :
    (row : TripDetailsStageMetadata) (r : RouteRefreshPair)
    → HasNoNul row
    → NulFree r
    → route_key_of r ≡ row_key row
    → IsRouteOf row r
unfolding route_key_of row_key pair_key NulFree
Covers-IsRouteOf row r (o, d, f) (o', d', f') e =
    let (op, e1) = append-first_separator nul r.operator_code row.operator_code _ _ o' o e in
    let (date, e2) = append-first_separator nul r.trip_date row.trip_date _ _ d' d e1 in
    let (from, to) = append-first_separator nul r.from_station row.from_station_code _ _ f' f e2 in
    record { operator = op; date = date; from = from; to = to }

module _ {A : Type 0} (P Q : A → Type 0) where
  All-both : (xs : List A) → All P xs → All Q xs → All (λ x. P x × Q x) xs
  All-both [] ps qs = tt
  All-both (x ∷ xs) ps qs = ((ps.0, qs.0), All-both xs ps.1 qs.1)

  Any-both : (xs : List A) → All P xs → Any Q xs → Any (λ x. P x × Q x) xs
  Any-both [] ps q = q
  Any-both (x ∷ xs) ps (inl q) = inl (ps.0, q)
  Any-both (x ∷ xs) ps (inr q) = inr (Any-both xs ps.1 q)

  All-map : (xs : List A) → ((x : A) → P x → Q x) → All P xs → All Q xs
  All-map [] f ps = tt
  All-map (x ∷ xs) f ps = (f x ps.0, All-map xs f ps.1)

  Any-map : (xs : List A) → ((x : A) → P x → Q x) → Any P xs → Any Q xs
  Any-map [] f p = p
  Any-map (x ∷ xs) f (inl p) = inl (f x p)
  Any-map (x ∷ xs) f (inr p) = inr (Any-map xs f p)

module _ (today : Date) (active : List (String × String)) where
  -- The route is the one of the row, as it was updated then or later.
  abbrev pub Refreshes : TripDetailsStageMetadata → RouteRefreshPair → Type 0
  Refreshes row r = IsRouteOf row r × (row.updated_at ≤ r.updated_at)

  -- The route is the one of a row that is due.
  abbrev pub ComesFrom : RouteRefreshPair → TripDetailsStageMetadata → Type 0
  ComesFrom r row = IsDue today active row × IsRouteOf row r × (r.updated_at ≡ row.updated_at)

  pub record IsFuture (rows : List TripDetailsStageMetadata) (groups : Groups) : Type 0 where
    pub complete :
        All
          (λ row.
            IsDue today active row
            → Any (λ g. (g.0 ≡ row.operator_code) × Any (Refreshes row) g.1) groups)
          rows
    pub sound : All (λ g. All (λ r. (r.operator_code ≡ g.0) × Any (ComesFrom r) rows) g.1) groups

  candidate-ComesFrom :
      (row : TripDetailsStageMetadata)
      → is_candidate today active row ≡ true
      → ComesFrom (pair_of_row row) row
  unfolding pair_of_row
  candidate-ComesFrom row t = (
    candidate-IsDue today active row t,
    record { operator = refl; date = refl; from = refl; to = refl },
    refl,
  )

  of_some_row :
      (rows : List TripDetailsStageMetadata)
      → All
          (λ row. is_candidate today active row ≡ true → Any (ComesFrom (pair_of_row row)) rows)
          rows
  of_some_row [] = tt
  of_some_row (row ∷ rows) = (
    (λ t. inl (candidate-ComesFrom row t)),
    All-map (λ r. is_candidate today active r ≡ true → Any (ComesFrom (pair_of_row r)) rows)
        (λ r. is_candidate today active r ≡ true → Any (ComesFrom (pair_of_row r)) (row ∷ rows))
        rows (λ r f t. inr (f t)) (of_some_row rows),
  )

  -- A refreshed route of the row stands in the group of its operator.
  in_group :
      (row : TripDetailsStageMetadata) (groups : Groups)
      → AreCoded groups
      → AnyRoute (Refreshes row) groups
      → Any (λ g. (g.0 ≡ row.operator_code) × Any (Refreshes row) g.1) groups
  in_group row groups coded h =
      Any-map _ (λ g. (g.0 ≡ row.operator_code) × Any (Refreshes row) g.1) groups
        (λ g (c, a). (code_of g.0 g.1 c a, a))
        (Any-both (λ g. All (λ r. r.operator_code ≡ g.0) g.1) (λ g. Any (Refreshes row) g.1) groups
          coded h)
    where
      code_of :
          (code : String) (rs : List RouteRefreshPair)
          → All (λ r. r.operator_code ≡ code) rs
          → Any (Refreshes row) rs
          → code ≡ row.operator_code
      code_of code [] c a = absurd a
      code_of code (r ∷ rs) c (inl a) = sym c.0 ∙ a.0.operator
      code_of code (r ∷ rs) c (inr a) = code_of code rs c.1 a

  module _ (rows : List TripDetailsStageMetadata) (free : All HasNoNul rows) where
    abbrev pairs : Pairs
    pairs = collect_pairs today active rows []

    pairs-NulFree : All (λ p. NulFree p.1) pairs
    unfolding NulFree pair_of_row
    pairs-NulFree =
        collect_pairs-All today active NulFree rows []
          (All-map HasNoNul
            (λ row. is_candidate today active row ≡ true → NulFree (pair_of_row row)) rows
            (λ row f t. f) free)
          tt

    refreshed :
        (row : TripDetailsStageMetadata)
        → HasNoNul row
        → Any (λ p. Covers row p.1) pairs
        → AnyRoute (Refreshes row) (group_pairs pairs [])
    refreshed row f h = group_pairs-AnyRoute (Refreshes row) pairs [] (
        inl (
          Any-map _ (λ p. Refreshes row p.1) pairs
            (λ p (n, c). (Covers-IsRouteOf row p.1 f n c.0, c.1))
            (Any-both (λ p. NulFree p.1) (λ p. Covers row p.1) pairs pairs-NulFree h)))

    -- When no operator, date or first station of a row holds a NUL: for every stale row of an active
    -- operator, for today or one of the seven days after it and with both stations named, a route with
    -- its operator, date and stations, updated then or later, is refreshed in the group of the row's
    -- operator. And every route that is refreshed stands in the group of its operator and is the one
    -- of such a row.
    pub future_route_pairs-IsFuture : IsFuture rows (future_route_pairs today active rows)
    unfolding future_route_pairs
    future_route_pairs-IsFuture =
        let groups : Groups = group_pairs pairs [] in
        let coded : AreCoded groups = group_pairs-AreCoded pairs [] tt in
        record {
          complete =
              All-map _
                (λ row.
                  IsDue today active row
                  → Any (λ g. (g.0 ≡ row.operator_code) × Any (Refreshes row) g.1) groups)
                rows
                (λ row (f, covered) due.
                  in_group row groups coded
                    (refreshed row f (covered (IsDue-candidate today active row due))))
                (All-both HasNoNul
                  (λ row. is_candidate today active row ≡ true → Any (λ p. Covers row p.1) pairs)
                  rows free (collect_pairs-Covers today active rows [] tt));
          sound =
              All-map _ (λ g. All (λ r. (r.operator_code ≡ g.0) × Any (ComesFrom r) rows) g.1)
                groups
                (λ g (c, f).
                  All-both (λ r. r.operator_code ≡ g.0) (λ r. Any (ComesFrom r) rows) g.1 c f)
                (All-both (λ g. All (λ r. r.operator_code ≡ g.0) g.1)
                  (λ g. All (λ r. Any (ComesFrom r) rows) g.1) groups coded
                  (group_pairs-AllRoutes (λ r. Any (ComesFrom r) rows) pairs []
                    (collect_pairs-All today active (λ r. Any (ComesFrom r) rows) rows []
                      (of_some_row rows) tt)
                    tt));
        }

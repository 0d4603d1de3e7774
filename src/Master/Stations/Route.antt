-- ===== src/Master/Stations/Route.antt =====
-- What it means for a stage to serve a route
-- (orbitplus/internal/application/master/stage_route_matcher.go).
use orbitplus.Common.{
  String, ◌≡◌, refl, inl, inr, Bool, true, false, Option, none, some, List, [], ◌∷◌, ◌&&◌, ◌||◌,
  not, ◌++◌, elem, str_eq, arith, Option-cases, Bool-cases, if◌then◌else◌,
}
use orbitplus.Json.{
  Value, Items, Members, str, arr, obj, nil, cons, end, member, get, null, bool, num,
}
use orbitplus.Common.Text.{is_empty}
use orbitplus.Master.Stations.{
  index_of_station, codes_contain_route, station_code, nested_code, codes_of_point, codes_of_points,
  listed_codes, first_found, station_codes_from_object,
}

-- `from` comes somewhere before `to` in the codes.
unfoldable pub before : String → String → List String → Bool
before from to [] = false
before from to (code ∷ codes) = (str_eq code from && elem to codes) || before from to codes

before-elem :
    (codes : List String) (from to : String) → before from to codes ≡ true → elem to codes ≡ true
unfolding before
before-elem [] from to h = h
before-elem (c ∷ codes) from to h = ground (arith, before-elem codes from to)

codes_contain_route-cons :
    (c : String) (codes : List String) (from to : String)
    → codes_contain_route (c ∷ codes) from to
      ≡ (if str_eq c from then elem to codes else codes_contain_route codes from to)
unfolding codes_contain_route index_of_station
codes_contain_route-cons c codes from to = elim (Bool-cases (str_eq c from)) [
  | inl t ↦ ground (arith, t)
  | inr f ↦ elim (Option-cases (index_of_station codes from)) [
    | inl e ↦ ground (arith, f, e)
    | inr (j, e) ↦ ground (arith, f, e)
  ]
]

-- The stage serves a route exactly when one of its stations is `from` and a later one is `to`.
pub codes_contain_route-eq :
    (codes : List String) (from to : String)
    → codes_contain_route codes from to ≡ before from to codes
unfolding before codes_contain_route index_of_station
codes_contain_route-eq [] from to = refl
codes_contain_route-eq (c ∷ codes) from to = ground (
  arith,
  codes_contain_route-cons c codes from to,
  codes_contain_route-eq codes from to,
  before-elem codes from to,
)

-- nested_code is stationCode of the member, "" when there is none.
pub nested_code-get :
    (key : String) (m : Members)
    → nested_code key m ≡ elim (get key m) [ none ↦ "" | some v ↦ station_code v ]
unfolding nested_code get
nested_code-get key end = refl
nested_code-get key (member k v m) = ground (arith, nested_code-get key m)

-- No code of the list is the empty text.
abbrev pub all_named : List String → Bool
all_named [] = true
all_named (c ∷ cs) = not (is_empty c) && all_named cs

all_named-append :
    (xs ys : List String) → all_named xs ≡ true → all_named ys ≡ true → all_named (xs ++ ys) ≡ true
all_named-append [] ys h k = k
all_named-append (x ∷ xs) ys h k = ground (arith, all_named-append xs ys)

codes_of_point-all_named : (code : String) → all_named (codes_of_point code) ≡ true
unfolding codes_of_point
codes_of_point-all_named code = elim (Bool-cases (is_empty code)) [
  | inl t ↦ rw t refl
  | inr f ↦ ground (arith, f)
]

codes_of_points-all_named : (points : Items) → all_named (codes_of_points points) ≡ true
unfolding codes_of_points
codes_of_points-all_named nil = refl
codes_of_points-all_named (cons point points) =
    all_named-append (codes_of_point (station_code point)) (codes_of_points points)
      (codes_of_point-all_named (station_code point)) (codes_of_points-all_named points)

listed_codes-all_named : (o : Option Value) → all_named (listed_codes o) ≡ true
unfolding listed_codes
listed_codes-all_named (some (arr points)) = codes_of_points-all_named points
listed_codes-all_named (some null) = refl
listed_codes-all_named (some (bool b)) = refl
listed_codes-all_named (some (num n)) = refl
listed_codes-all_named (some (str s)) = refl
listed_codes-all_named (some (obj m)) = refl
listed_codes-all_named none = refl

first_found-all_named :
    (xs ys : List String)
    → all_named xs ≡ true
    → all_named ys ≡ true
    → all_named (first_found xs ys) ≡ true
unfolding first_found
first_found-all_named [] ys h k = k
first_found-all_named (x ∷ xs) ys h k = h

-- Empty codes are left out of the stations of an entry.
pub station_codes_from_object-all_named :
    (m : Members) → all_named (station_codes_from_object m) ≡ true
unfolding station_codes_from_object
station_codes_from_object-all_named m =
    first_found-all_named _ _ (listed_codes-all_named (get "stationPoint" m)) (
      first_found-all_named _ _ (listed_codes-all_named (get "stationPoints" m)) (
        first_found-all_named _ _ (listed_codes-all_named (get "stations" m)) (
          all_named-append (codes_of_point (nested_code "fromStation" m))
            (codes_of_point (nested_code "toStation" m))
            (codes_of_point-all_named (nested_code "fromStation" m))
            (codes_of_point-all_named (nested_code "toStation" m)))))

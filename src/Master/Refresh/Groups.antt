-- ===== src/Master/Refresh/Groups.antt =====
-- How routes are put into the groups of their operators (orbitplus/internal/application/master/orbit_route_refresh.go,
-- futureRoutePairs).
use orbitplus.Common.{
  String, ◌≡◌, refl, ◌⊎◌, inl, inr, List, [], ◌∷◌, ◌++◌, All, Any, str_eq, Bool-cases, eq_iff, sym,
}
use orbitplus.Master.Refresh.{RouteRefreshPair, add_to_group, group_pairs}
use orbitplus.Master.Refresh.Pairs.{Pairs}

abbrev pub Groups : Type 0
Groups = List (String × List RouteRefreshPair)

-- A route of some group.
abbrev pub AnyRoute : (RouteRefreshPair → Type 0) → Groups → Type 0
AnyRoute P groups = Any (λ g. Any P g.1) groups

abbrev pub AllRoutes : (RouteRefreshPair → Type 0) → Groups → Type 0
AllRoutes P groups = All (λ g. All P g.1) groups

module _ (P : RouteRefreshPair → Type 0) where
  Any-snoc : (r : RouteRefreshPair) (rs : List RouteRefreshPair) → P r → Any P (rs ++ (r ∷ []))
  Any-snoc r [] h = inl h
  Any-snoc r (x ∷ rs) h = inr (Any-snoc r rs h)

  Any-append : (rs ss : List RouteRefreshPair) → Any P rs → Any P (rs ++ ss)
  Any-append (x ∷ rs) ss (inl h) = inl h
  Any-append (x ∷ rs) ss (inr h) = inr (Any-append rs ss h)
  Any-append [] ss h = absurd h

  All-snoc :
      (r : RouteRefreshPair) (rs : List RouteRefreshPair) → P r → All P rs → All P (rs ++ (r ∷ []))
  All-snoc r [] h hs = (h, tt)
  All-snoc r (x ∷ rs) h hs = (hs.0, All-snoc r rs h hs.1)

  add_to_group-AllRoutes :
      (r : RouteRefreshPair) (groups : Groups)
      → P r
      → AllRoutes P groups
      → AllRoutes P (add_to_group r groups)
  unfolding add_to_group
  add_to_group-AllRoutes r [] h hs = ((h, tt), tt)
  add_to_group-AllRoutes r ((code, rs) ∷ groups) h hs =
      elim (Bool-cases (str_eq code r.operator_code)) [
        | inl t ↦ rw t (All-snoc r rs h hs.0, hs.1)
        | inr f ↦ rw f (hs.0, add_to_group-AllRoutes r groups h hs.1)
      ]

  add_to_group-AnyRoute :
      (r : RouteRefreshPair) (groups : Groups)
      → P r ⊎ AnyRoute P groups
      → AnyRoute P (add_to_group r groups)
  unfolding add_to_group
  add_to_group-AnyRoute r [] (inl h) = inl (inl h)
  add_to_group-AnyRoute r [] (inr x) = absurd x
  add_to_group-AnyRoute r ((code, rs) ∷ groups) h =
      elim (Bool-cases (str_eq code r.operator_code)) [
        | inl t ↦ rw t (here h)
        | inr f ↦ rw f (there (add_to_group-AnyRoute r groups) h)
      ]
    where
      here : P r ⊎ (Any P rs ⊎ AnyRoute P groups) → Any P (rs ++ (r ∷ [])) ⊎ AnyRoute P groups
      here (inl x) = inl (Any-snoc r rs x)
      here (inr (inl x)) = inl (Any-append rs (r ∷ []) x)
      here (inr (inr x)) = inr x

      there :
          (P r ⊎ AnyRoute P groups → AnyRoute P (add_to_group r groups))
          → P r ⊎ (Any P rs ⊎ AnyRoute P groups)
          → Any P rs ⊎ AnyRoute P (add_to_group r groups)
      there rest (inl x) = inr (rest (inl x))
      there rest (inr (inl x)) = inl x
      there rest (inr (inr x)) = inr (rest (inr x))

  pub group_pairs-AllRoutes :
      (pairs : Pairs) (groups : Groups)
      → All (λ p. P p.1) pairs
      → AllRoutes P groups
      → AllRoutes P (group_pairs pairs groups)
  unfolding group_pairs
  group_pairs-AllRoutes [] groups h hs = hs
  group_pairs-AllRoutes ((k, r) ∷ pairs) groups h hs =
      group_pairs-AllRoutes pairs (add_to_group r groups) h.1
        (add_to_group-AllRoutes r groups h.0 hs)

  pub group_pairs-AnyRoute :
      (pairs : Pairs) (groups : Groups)
      → Any (λ p. P p.1) pairs ⊎ AnyRoute P groups
      → AnyRoute P (group_pairs pairs groups)
  unfolding group_pairs
  group_pairs-AnyRoute [] groups (inl x) = absurd x
  group_pairs-AnyRoute [] groups (inr x) = x
  group_pairs-AnyRoute ((k, r) ∷ pairs) groups (inl (inl x)) =
      group_pairs-AnyRoute pairs (add_to_group r groups)
        (inr (add_to_group-AnyRoute r groups (inl x)))
  group_pairs-AnyRoute ((k, r) ∷ pairs) groups (inl (inr x)) =
      group_pairs-AnyRoute pairs (add_to_group r groups) (inl x)
  group_pairs-AnyRoute ((k, r) ∷ pairs) groups (inr x) =
      group_pairs-AnyRoute pairs (add_to_group r groups)
        (inr (add_to_group-AnyRoute r groups (inr x)))

-- Every route is in the group of its operator.
abbrev pub AreCoded : Groups → Type 0
AreCoded groups = All (λ g. All (λ r. r.operator_code ≡ g.0) g.1) groups

add_to_group-AreCoded :
    (r : RouteRefreshPair) (groups : Groups) → AreCoded groups → AreCoded (add_to_group r groups)
unfolding add_to_group
add_to_group-AreCoded r [] hs = ((refl, tt), tt)
add_to_group-AreCoded r ((code, rs) ∷ groups) hs = elim (Bool-cases (str_eq code r.operator_code)) [
  | inl t ↦ rw t (
    All-snoc (λ x. x.operator_code ≡ code) r rs (sym ((eq_iff code r.operator_code).0 t)) hs.0,
    hs.1,
  )
  | inr f ↦ rw f (hs.0, add_to_group-AreCoded r groups hs.1)
]

pub group_pairs-AreCoded :
    (pairs : Pairs) (groups : Groups) → AreCoded groups → AreCoded (group_pairs pairs groups)
unfolding group_pairs
group_pairs-AreCoded [] groups hs = hs
group_pairs-AreCoded ((k, r) ∷ pairs) groups hs =
    group_pairs-AreCoded pairs (add_to_group r groups) (add_to_group-AreCoded r groups hs)

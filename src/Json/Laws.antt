-- ===== src/Json/Laws.antt =====
-- The laws of Go's maps: reads after writes and deletions.
use orbitplus.Common.{
  String, ◌≡◌, refl, true, false, none, some, arith, str_eq, eq_iff, eq_refl, if◌then◌else◌, List,
  [], ◌∷◌,
}
use orbitplus.Json.{Value, Members, end, member, get, set, delete, has, is_map, from_list, to_list}

pub get-set :
    (k j : String) (v : Value) (m : Members)
    → get j (set k v m) ≡ (if str_eq k j then some v else get j m)
unfolding get set
get-set k j v end = refl
get-set k j v (member i w m) = ground (arith, eq_iff k j, eq_iff i k, eq_iff i j, get-set k j v m)

pub get-set_self : (k : String) (v : Value) (m : Members) → get k (set k v m) ≡ some v
get-set_self k v m = simp (get-set, eq_refl)

pub get-delete :
    (k j : String) (m : Members) → get j (delete k m) ≡ (if str_eq k j then none else get j m)
unfolding get delete
get-delete k j end = ground arith
get-delete k j (member i w m) = ground (arith, eq_iff k j, eq_iff i k, eq_iff i j, get-delete k j m)

pub has-false-get : (k : String) (m : Members) → has k m ≡ false → get k m ≡ none
unfolding has get
has-false-get k end h = refl
has-false-get k (member j v m) h = ground (arith, has-false-get k m)

pub has-set :
    (k j : String) (v : Value) (m : Members)
    → has j (set k v m) ≡ (if str_eq k j then true else has j m)
unfolding has set
has-set k j v end = ground arith
has-set k j v (member i w m) = ground (arith, eq_iff k j, eq_iff i k, eq_iff i j, has-set k j v m)

-- A write keeps the keys of a map different.
pub set-is_map :
    (k : String) (v : Value) (m : Members) → is_map m ≡ true → is_map (set k v m) ≡ true
unfolding is_map set has
set-is_map k v end h = refl
set-is_map k v (member j w m) h =
    ground (arith, eq_iff j k, eq_iff k j, has-set k j v m, set-is_map k v m)

pub to_list-from_list : (vs : List Value) → to_list (from_list vs) ≡ vs
unfolding to_list from_list
to_list-from_list [] = refl
to_list-from_list (v ∷ vs) = rw (to_list-from_list vs)

pub get-member :
    (k j : String) (v : Value) (m : Members)
    → get k (member j v m) ≡ (if str_eq j k then some v else get k m)
unfolding get
get-member k j v m = refl

pub is_map-member :
    (k : String) (v : Value) (m : Members)
    → is_map (member k v m) ≡ true
    → (has k m ≡ false) × (is_map m ≡ true)
unfolding is_map
is_map-member k v m h = ground arith

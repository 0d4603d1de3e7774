-- ===== src/Master/Read/RoundTrip.antt =====
-- A Search entry that was split into its trip and stage documents is put together again by a read
-- (orbitplus/internal/application/master/tripdetails_cache_storage.go and tripdetails_reader.go).
use orbitplus.Common.{
  String, ◌≡◌, refl, sym, ap, ◌∙◌, inl, inr, Bool, true, false, Option, none, some, List, [], ◌∷◌,
  elem, str_eq, eq_iff, arith, if◌then◌else◌, Bool-cases,
}
use orbitplus.Json.{
  Value, Members, null, bool, num, str, arr, obj, end, member, get, set, delete, has, is_map,
}
use orbitplus.Json.Laws.{get-set, set-is_map, get-delete, has-false-get}
use orbitplus.Master.Errors.{ok}
use orbitplus.Master.Projection.{
  search_stage_fields, is_stage_field, copy_without_seat_layout_list, trip_value,
  common_trip_projection, copy_field, copy_fields, stage_projection,
}
use orbitplus.Master.Read.{
  put_all, unmarshal_object, merge_into, merge_json_objects, without_stage_bus, stage_without_bus,
  search_entry, require_object,
}

-- The value there is, if any, and its image.
abbrev or_else : Option Value → Option Value → Option Value
or_else none o = o
or_else (some v) o = some v

abbrev pub map_option : (Value → Value) → Option Value → Option Value
map_option f none = none
map_option f (some v) = some (f v)

-- Writing all members of a map over another.
get-put_all :
    (k : String) (base o : Members)
    → is_map o ≡ true
    → get k (put_all base o) ≡ or_else (get k o) (get k base)
unfolding put_all get is_map
get-put_all k base end h = refl
get-put_all k base (member j v o) h =
    ground
      (arith, get-put_all k (set j v base) o, get-set j k v base, has-false-get j o, eq_iff j k)

has-common_trip_projection :
    (k : String) (entry : Members)
    → has k entry ≡ false
    → has k (common_trip_projection entry) ≡ false
unfolding common_trip_projection has
has-common_trip_projection k end h = refl
has-common_trip_projection k (member j v entry) h =
    ground (arith, has-common_trip_projection k entry)

common_trip_projection-is_map :
    (entry : Members) → is_map entry ≡ true → is_map (common_trip_projection entry) ≡ true
unfolding common_trip_projection is_map
common_trip_projection-is_map end h = refl
common_trip_projection-is_map (member j v entry) h =
    ground (arith, common_trip_projection-is_map entry, has-common_trip_projection j entry)

-- The trip document holds every key but those of the stage.
get-common_trip_projection :
    (k : String) (entry : Members)
    → get k (common_trip_projection entry)
      ≡ (if is_stage_field k then none else map_option (trip_value k) (get k entry))
unfolding common_trip_projection get
get-common_trip_projection k end = ground arith
get-common_trip_projection k (member j v entry) =
    ground (arith, get-common_trip_projection k entry, eq_iff j k)

get-copy_field :
    (j k : String) (o : Option Value) (stage : Members)
    → get k (copy_field j o stage) ≡ (if str_eq j k then or_else o (get k stage) else get k stage)
unfolding copy_field
get-copy_field j k none stage = ground arith
get-copy_field j k (some v) stage = ground (arith, get-set j k v stage)

get-copy_fields :
    (k : String) (keys : List String) (entry stage : Members)
    → get k (copy_fields keys entry stage)
      ≡ or_else (if elem k keys then get k entry else none) (get k stage)
unfolding copy_fields
get-copy_fields k [] entry stage = refl
get-copy_fields k (j ∷ keys) entry stage = elim (Bool-cases (str_eq j k)) [
  | inl t ↦
      same ((eq_iff j k).0 t) (get-copy_fields k keys entry (copy_field j (get j entry) stage))
  | inr f ↦ ground (
    arith,
    get-copy_fields k keys entry (copy_field j (get j entry) stage),
    get-copy_field j k (get j entry) stage,
    f,
  )
]
  where
    same :
        j ≡ k
        → get k (copy_fields keys entry (copy_field j (get j entry) stage))
          ≡ or_else
              (if elem k keys then get k entry else none)
              (get k (copy_field j (get j entry) stage))
        → get k (copy_fields (j ∷ keys) entry stage)
          ≡ or_else (if elem k (j ∷ keys) then get k entry else none) (get k stage)
    same e rest = ground (
      arith,
      rest,
      get-copy_field j k (get j entry) stage,
      (eq_iff j k).1 e,
      ap (λ x. get x entry) e,
    )

copy_field-is_map :
    (j : String) (o : Option Value) (stage : Members)
    → is_map stage ≡ true
    → is_map (copy_field j o stage) ≡ true
unfolding copy_field
copy_field-is_map j none stage h = h
copy_field-is_map j (some v) stage h = set-is_map j v stage h

copy_fields-is_map :
    (keys : List String) (entry stage : Members)
    → is_map stage ≡ true
    → is_map (copy_fields keys entry stage) ≡ true
unfolding copy_fields
copy_fields-is_map [] entry stage h = h
copy_fields-is_map (j ∷ keys) entry stage h =
    copy_fields-is_map keys entry (copy_field j (get j entry) stage)
      (copy_field-is_map j (get j entry) stage h)

-- The stage document holds exactly the keys of the stage.
pub get-stage_projection :
    (k : String) (entry : Members)
    → get k (stage_projection entry) ≡ (if is_stage_field k then get k entry else none)
unfolding stage_projection is_stage_field get
get-stage_projection k entry = ground (arith, get-copy_fields k search_stage_fields entry end)

has-delete : (j k : String) (m : Members) → has k m ≡ false → has k (delete j m) ≡ false
unfolding has delete
has-delete j k end h = refl
has-delete j k (member i v m) h = ground (arith, has-delete j k m)

delete-is_map : (j : String) (m : Members) → is_map m ≡ true → is_map (delete j m) ≡ true
unfolding is_map delete
delete-is_map j end h = refl
delete-is_map j (member i v m) h = ground (arith, delete-is_map j m, has-delete j i m)

-- The bus as it is served: without its seat layout.
unfoldable pub without_layout : Value → Value
without_layout (obj bus) = obj (delete "seatLayoutList" bus)
without_layout v = v

-- What storing an entry and reading it back leaves of the value of a key.
unfoldable pub served_value : String → Members → Option Value
served_value k entry =
    if str_eq k "bus" then map_option without_layout (get k entry) else get k entry

trip_value-eq :
    (k : String) (v : Value) → trip_value k v ≡ (if str_eq k "bus" then without_layout v else v)
unfolding trip_value without_layout copy_without_seat_layout_list
trip_value-eq k (obj bus) = elim (Bool-cases (str_eq k "bus")) [
  | inl t ↦ rw t refl
  | inr f ↦ rw f refl
]
trip_value-eq k null = ground arith
trip_value-eq k (bool b) = ground arith
trip_value-eq k (num n) = ground arith
trip_value-eq k (str t) = ground arith
trip_value-eq k (arr xs) = ground arith

map_option-trip_value :
    (k : String) (o : Option Value)
    → map_option (trip_value k) o ≡ (if str_eq k "bus" then map_option without_layout o else o)
map_option-trip_value k none = ground arith
map_option-trip_value k (some v) = ground (arith, trip_value-eq k v)

read_back : Members → Members
read_back entry =
    put_all (put_all end (common_trip_projection entry)) (delete "bus" (stage_projection entry))

stage_projection-is_map : (entry : Members) → is_map (stage_projection entry) ≡ true
unfolding stage_projection is_map
stage_projection-is_map entry = copy_fields-is_map search_stage_fields entry end refl

or_else-none : (o : Option Value) → or_else o none ≡ o
or_else-none none = refl
or_else-none (some v) = refl

-- One value of a key, in the stage document or in the trip document.
one_part :
    (stage bus : Bool) (o trip : Option Value)
    → (bus ≡ true → stage ≡ false)
    → or_else (if bus then none else if stage then o else none) (if stage then none else trip)
      ≡ (if stage then o else trip)
one_part true true o trip h = absurd (cc (h refl))
one_part true false o trip h = or_else-none o
one_part false true o trip h = refl
one_part false false o trip h = refl

bus-stage_field : (k : String) → str_eq "bus" k ≡ true → is_stage_field k ≡ false
unfolding is_stage_field
bus-stage_field k h = ap is_stage_field (sym ((eq_iff "bus" k).0 h))

str_eq_comm : (a b : String) → str_eq a b ≡ str_eq b a
str_eq_comm a b = elim (Bool-cases (str_eq a b)) [
  | inl t ↦ t ∙ sym ((eq_iff b a).1 (sym ((eq_iff a b).0 t)))
  | inr f ↦ elim (Bool-cases (str_eq b a)) [
    | inr g ↦ f ∙ sym g
    | inl g ↦ absurd (ground (arith, f, (eq_iff a b).1 (sym ((eq_iff b a).0 g))))
  ]
]

-- Without the stage's fields, which are served as they are, the trip document serves the rest.
served_parts :
    (k : String) (o : Option Value)
    → (if is_stage_field k then o else map_option (trip_value k) o)
      ≡ (if str_eq k "bus" then map_option without_layout o else o)
served_parts k o = elim (Bool-cases (is_stage_field k)) [
  | inl t ↦ ground (arith, t, bus-stage_field k, str_eq_comm k "bus")
  | inr f ↦ ground (arith, f, map_option-trip_value k o)
]

get-read_back :
    (entry : Members) (k : String)
    → is_map entry ≡ true
    → get k (read_back entry) ≡ served_value k entry
unfolding read_back served_value get
get-read_back entry k h =
    get-put_all k (put_all end (common_trip_projection entry))
      (delete "bus" (stage_projection entry))
      (delete-is_map "bus" (stage_projection entry) (stage_projection-is_map entry))
    ∙ rw
        (
          get-delete "bus" k (stage_projection entry),
          get-stage_projection k entry,
          get-put_all k end (common_trip_projection entry) (common_trip_projection-is_map entry h),
          get-common_trip_projection k entry,
          or_else-none _,
        )
        (one_part (is_stage_field k) (str_eq "bus" k) (get k entry)
            (map_option (trip_value k) (get k entry)) (bus-stage_field k)
          ∙ served_parts k (get k entry))

-- For an entry that has no key twice, the documents that storing it as a Search entry writes are
-- read back to an entry that has, under every key, the value of the stored entry, but for the seat
-- layout of its bus.
pub search_entry-projections :
    (entry : Members) (k : String)
    → is_map entry ≡ true
    → (merged : Members) × (search_entry
          (obj (common_trip_projection entry))
          (obj (stage_projection entry))
        ≡ ok merged)
      × (get k merged ≡ served_value k entry)
unfolding search_entry without_stage_bus unmarshal_object stage_without_bus merge_json_objects
    merge_into require_object read_back
search_entry-projections entry k h = (read_back entry, refl, get-read_back entry k h)

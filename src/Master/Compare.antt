-- ===== src/Master/Compare.antt =====
-- Comparing a cached entry with the live one
-- (orbitplus/internal/application/master/cache_freshness_comparator.go).
pub mod Canonical
pub mod Same
pub mod Cap
use Prim.Native.String.{compare, ◌++◌ as join}
use Prim.Native.Nat.{Ordering}
use orbitplus.Common.{
  ℕ, zero, suc, ◌+◌, String, Bool, true, false, Option, none, some, List, [], ◌∷◌, ◌++◌, length,
  leb, ◌&&◌, ◌||◌, not, str_eq, if◌then◌else◌,
}
use orbitplus.Common.Text.{is_empty, contains}
use orbitplus.Json.{
  Value, Items, Members, null, bool, num, str, arr, obj, nil, cons, end, member, get, as_text,
}
use orbitplus.Master.Compare.Canonical.{
  Formats, CanonicalValue, canonical_null, canonical_bool, canonical_string, canonical_number,
  canonical_array, canonical_object, Elements, none_left, element, Fields, no_field, field,
  is_empty_value, comes_before, insert_field, canonicalise, canonicalise_items,
  canonicalise_members, render, render_elements, render_fields,
}

pub data DifferenceKind : Type 0 where
  difference_value_mismatch : DifferenceKind
  difference_missing_in_cache : DifferenceKind
  difference_missing_in_bits : DifferenceKind

pub record EntryIdentity : Type 0 where
  pub operator_code : String
  pub trip_code : String
  pub trip_stage_code : String

-- EntryIdentityOf
unfoldable pub entry_identity_of : Value → EntryIdentity
entry_identity_of (obj m) = record {
  operator_code = as_text (get "operatorCode" m);
  trip_code = as_text (get "tripCode" m);
  trip_stage_code = as_text (get "tripStageCode" m);
}
entry_identity_of _ = record { operator_code = ""; trip_code = ""; trip_stage_code = "" }

-- One disagreement.
pub record DifferenceEntry : Type 0 where
  pub identity : EntryIdentity
  pub path : String
  pub kind : DifferenceKind
  pub cache_value : String
  pub bits_value : String

-- The state of differenceCollector.
pub record DifferenceCollector : Type 0 where
  pub identity : EntryIdentity
  pub entries : List DifferenceEntry
  pub total : ℕ

abbrev pub max_collected_differences : ℕ
max_collected_differences = 1000

-- entryRootPath for the entry itself.
unfoldable pub path_or_root : String → String
path_or_root path = if is_empty path then "$" else path

unfoldable pub add : String → String → String → DifferenceCollector → DifferenceCollector
add path cache_value bits_value c =
    if leb max_collected_differences (length c.entries)
    then record c { total = c.total + 1 }
    else record c {
      entries =
          c.entries
          ++ (record {
            identity = c.identity;
            path = path_or_root path;
            kind = difference_value_mismatch;
            cache_value = cache_value;
            bits_value = bits_value;
          }
              ∷ []);
      total = c.total + 1;
    }

-- The members whose names come before `name`, and those that do not.
unfoldable pub fields_before : String → Fields → Fields
fields_before name no_field = no_field
fields_before name (field k v fs) =
    if comes_before k name then field k v (fields_before name fs) else no_field

unfoldable pub fields_from : String → Fields → Fields
fields_from name no_field = no_field
fields_from name (field k v fs) = if comes_before k name then fields_from name fs else field k v fs

-- The first member, if it has this name, and the members after it.
unfoldable pub head_named : String → Fields → Option CanonicalValue
head_named name no_field = none
head_named name (field k v fs) = if str_eq k name then some v else none

unfoldable pub tail_fields : Fields → Fields
tail_fields no_field = no_field
tail_fields (field k v fs) = fs

-- !strings.ContainsAny(name, `.[]"`)
unfoldable pub is_plain_name : String → Bool
is_plain_name name =
    not (contains 46 name || contains 91 name || contains 93 name || contains 34 name)

module _ (f : Formats) where
  unfoldable pub append_member : String → String → String
  append_member path name =
      if not (is_empty name) && is_plain_name name
      then join path (join "." name)
      else join path (join "[" (join (f.quote name) "]"))

  unfoldable pub index_path : String → ℕ → String
  index_path path index = join path (join "[" (join (f.itoa index) "]"))

  -- A value on one side only is a difference unless it is empty.
  unfoldable pub add_cache_only :
      String → CanonicalValue → DifferenceCollector → DifferenceCollector
  add_cache_only path v c = if is_empty_value v then c else add path (render f v) "null" c

  unfoldable pub add_bits_only : String → CanonicalValue → DifferenceCollector → DifferenceCollector
  add_bits_only path v c = if is_empty_value v then c else add path "null" (render f v) c

  unfoldable pub add_bits_fields : String → Fields → DifferenceCollector → DifferenceCollector
  add_bits_fields path no_field c = c
  add_bits_fields path (field k v fs) c =
      add_bits_fields path fs (add_bits_only (append_member path k) v c)

  unfoldable pub add_bits_elements :
      String → ℕ → Elements → DifferenceCollector → DifferenceCollector
  add_bits_elements path index none_left c = c
  add_bits_elements path index (element v vs) c =
      add_bits_elements path (suc index) vs (add_bits_only (index_path path index) v c)

  unfoldable pub add_cache_elements :
      String → ℕ → Elements → DifferenceCollector → DifferenceCollector
  add_cache_elements path index none_left c = c
  add_cache_elements path index (element v vs) c =
      add_cache_elements path (suc index) vs (add_cache_only (index_path path index) v c)

  -- Different kinds, or two scalars: compare renderings.
  unfoldable pub compare_rendered :
      String → CanonicalValue → CanonicalValue → DifferenceCollector → DifferenceCollector
  compare_rendered path cache bits c =
      if is_empty_value cache && is_empty_value bits
      then c
      else if str_eq (render f cache) (render f bits)
      then c
      else add path (render f cache) (render f bits) c

  -- walk. Both objects are sorted, so the names of both are visited in order by taking the members of
  -- `bits` that come before each member of `cache` first.
  unfoldable mutual
    pub walk : String → CanonicalValue → CanonicalValue → DifferenceCollector → DifferenceCollector
    walk path (canonical_object cs) (canonical_object bs) c = walk_fields path cs bs c
    walk path (canonical_array xs) (canonical_array ys) c = walk_elements path 0 xs ys c
    walk path cache bits c = compare_rendered path cache bits c

    pub walk_fields : String → Fields → Fields → DifferenceCollector → DifferenceCollector
    walk_fields path no_field bs c = add_bits_fields path bs c
    walk_fields path (field k v cs) bs c =
        let c' = add_bits_fields path (fields_before k bs) c in
        elim (head_named k (fields_from k bs)) [
          | some w ↦
              walk_fields path cs (tail_fields (fields_from k bs))
                (walk (append_member path k) v w c')
          | none ↦
              walk_fields path cs (fields_from k bs) (add_cache_only (append_member path k) v c')
        ]

    pub walk_elements : String → ℕ → Elements → Elements → DifferenceCollector → DifferenceCollector
    walk_elements path index none_left ys c = add_bits_elements path index ys c
    walk_elements path index (element x xs) none_left c =
        add_cache_elements path index (element x xs) c
    walk_elements path index (element x xs) (element y ys) c =
        walk_elements path (suc index) xs ys (walk (index_path path index) x y c)

  -- CompareEntries on decoded entries: the differences and the untruncated total.
  unfoldable pub compare_entries : EntryIdentity → Value → Value → DifferenceCollector
  compare_entries identity cache bits =
      walk "" (canonicalise f cache) (canonicalise f bits)
        (record { identity = identity; entries = []; total = 0 })

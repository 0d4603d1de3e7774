-- ===== src/Master/CompareTests.antt =====
-- The comparison of two entries that differ in the fare of a seat and in a missing field.
use orbitplus.Common.{some, ◌≡◌, refl}
use orbitplus.Common.Text.{contains}
use orbitplus.Json.{Value, num, str, arr, obj, nil, cons, end, member}
use orbitplus.Master.Compare.Canonical.{
  Formats, canonicalise, insert_field, comes_before, render, is_empty_value,
}
use orbitplus.Master.Compare.{
  EntryIdentity, walk, compare_rendered, add, add_cache_only, add_bits_only, add_bits_fields,
  fields_before, fields_from, head_named, tail_fields, append_member, index_path, path_or_root,
  is_plain_name, add_cache_elements, add_bits_elements, compare_entries,
}

-- Numbers and quoted texts as they are written, and an index that is always 0.
abbrev formats : Formats
formats = record { rat_string = λ n. some n; quote = λ s. s; itoa = λ n. "0" }

abbrev identity : EntryIdentity
identity = record { operator_code = "op"; trip_code = "T1"; trip_stage_code = "S1" }

abbrev cached : Value
cached = obj (
    member "seats" (arr (cons (obj (member "fare" (num "500") end)) nil))
      (member "name" (str "AC") end))

abbrev live : Value
live = obj (
    member "tax" (num "5") (
      member "seats" (arr (cons (obj (member "fare" (num "450") end)) nil))
        (member "name" (str "AC") end)))

compare_entries_runs : (compare_entries formats identity cached live).total ≡ 2
unfolding compare_entries canonicalise insert_field comes_before walk compare_rendered render
    is_empty_value add add_cache_only add_bits_only add_bits_fields fields_before fields_from
    head_named tail_fields append_member index_path path_or_root is_plain_name contains
    add_cache_elements add_bits_elements
compare_entries_runs = refl

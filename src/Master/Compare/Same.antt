-- ===== src/Master/Compare/Same.antt =====
-- What a comparison reports of equal entries, and how many differences it keeps
-- (orbitplus/internal/application/master/cache_freshness_comparator.go).
use orbitplus.Common.{ℕ, suc, String, ◌≡◌, refl, ◌∙◌, false, some, [], eq_refl, arith}
use orbitplus.Json.{Value}
use orbitplus.Master.Compare.Canonical.{
  Formats, CanonicalValue, canonical_null, canonical_bool, canonical_string, canonical_number,
  canonical_array, canonical_object, Elements, none_left, element, Fields, no_field, field,
  comes_before, canonicalise, render,
}
use orbitplus.Master.Compare.{
  DifferenceCollector, fields_before, fields_from, head_named, tail_fields, append_member,
  index_path, add_bits_fields, add_bits_elements, compare_rendered, walk, walk_fields,
  walk_elements, compare_entries, EntryIdentity,
}

comes_before_self : (k : String) → comes_before k k ≡ false
unfolding comes_before
comes_before_self k = ground (arith, eq_refl k)

fields_from_self :
    (k : String) (v : CanonicalValue) (fs : Fields) → fields_from k (field k v fs) ≡ field k v fs
unfolding fields_from
fields_from_self k v fs = rw (comes_before_self k) refl

fields_before_self :
    (k : String) (v : CanonicalValue) (fs : Fields) → fields_before k (field k v fs) ≡ no_field
unfolding fields_before
fields_before_self k v fs = rw (comes_before_self k) refl

head_named_self :
    (k : String) (v : CanonicalValue) (fs : Fields)
    → head_named k (fields_from k (field k v fs)) ≡ some v
unfolding head_named
head_named_self k v fs = rw (fields_from_self k v fs, eq_refl k) refl

module _ (f : Formats) where
  compare_rendered_self :
      (path : String) (v : CanonicalValue) (c : DifferenceCollector)
      → compare_rendered f path v v c ≡ c
  unfolding compare_rendered
  compare_rendered_self path v c = ground (arith, eq_refl (render f v))

  walk_fields-matched :
      (path k : String) (v w : CanonicalValue) (cs bs : Fields) (c : DifferenceCollector)
      → head_named k (fields_from k bs) ≡ some w
      → walk_fields f path (field k v cs) bs c
        ≡ walk_fields f path cs
            (tail_fields (fields_from k bs))
            (walk f (append_member f path k) v w (add_bits_fields f path (fields_before k bs) c))
  unfolding walk
  walk_fields-matched path k v w cs bs c h = rw (h, walk_fields) refl

  mutual
    unfolding walk render add_bits_fields add_bits_elements fields_before fields_from head_named
        tail_fields

    walk_self :
        (path : String) (v : CanonicalValue) (c : DifferenceCollector) → walk f path v v c ≡ c
    walk_self path canonical_null c = compare_rendered_self path canonical_null c
    walk_self path (canonical_bool b) c = compare_rendered_self path (canonical_bool b) c
    walk_self path (canonical_string s) c = compare_rendered_self path (canonical_string s) c
    walk_self path (canonical_number n) c = compare_rendered_self path (canonical_number n) c
    walk_self path (canonical_array xs) c = walk_elements_self path 0 xs c
    walk_self path (canonical_object fs) c = walk_fields_self path fs c

    walk_elements_self :
        (path : String) (index : ℕ) (xs : Elements) (c : DifferenceCollector)
        → walk_elements f path index xs xs c ≡ c
    walk_elements_self path index none_left c = refl
    walk_elements_self path index (element x xs) c =
        walk_elements_self path (suc index) xs (walk f (index_path f path index) x x c)
        ∙ walk_self (index_path f path index) x c

    walk_fields_self :
        (path : String) (fs : Fields) (c : DifferenceCollector) → walk_fields f path fs fs c ≡ c
    walk_fields_self path no_field c = refl
    walk_fields_self path (field k v fs) c =
        walk_fields-matched path k v v fs (field k v fs) c (head_named_self k v fs)
        ∙ rw (fields_from_self k v fs, fields_before_self k v fs)
            (walk_fields_self path fs (walk f (append_member f path k) v v c)
              ∙ walk_self (append_member f path k) v c)

  -- An entry does not differ from itself: the comparison collects nothing and counts nothing.
  pub compare_entries_self :
      (identity : EntryIdentity) (v : Value)
      → compare_entries f identity v v ≡ record { identity = identity; entries = []; total = 0 }
  unfolding compare_entries
  compare_entries_self identity v =
      walk_self "" (canonicalise f v) (record { identity = identity; entries = []; total = 0 })

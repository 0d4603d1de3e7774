-- ===== src/Master/Compare/Cap.antt =====
-- The cap on the differences that a comparison keeps
-- (orbitplus/internal/application/master/cache_freshness_comparator.go).
use orbitplus.Common.{
  ℕ, suc, ◌+◌, min, String, ◌≡◌, refl, ◌∙◌, List, [], ◌∷◌, ◌++◌, length, length-append, leb, ◌&&◌,
  str_eq, arith, inl, inr, Bool-cases, Option-cases,
}
use orbitplus.Json.{Value}
use orbitplus.Master.Compare.Canonical.{
  Formats, CanonicalValue, canonical_array, canonical_object, Elements, none_left, element, Fields,
  no_field, field, is_empty_value, canonicalise, render,
}
use orbitplus.Master.Compare.{
  DifferenceEntry, DifferenceCollector, max_collected_differences, add, fields_before, fields_from,
  head_named, tail_fields, append_member, index_path, add_cache_only, add_bits_only,
  add_bits_fields, add_bits_elements, add_cache_elements, compare_rendered, walk, walk_fields,
  walk_elements, compare_entries, EntryIdentity,
}

-- As many differences are kept as were found, up to the cap.
pub record IsCapped (c : DifferenceCollector) : Type 0 where
  pub kept : length c.entries ≡ min c.total max_collected_differences

length-snoc :
    (es : List DifferenceEntry) (e : DifferenceEntry) → length (es ++ (e ∷ [])) ≡ length es + 1
length-snoc es e = length-append es (e ∷ [])

add-IsCapped :
    (path cache bits : String) (c : DifferenceCollector)
    → IsCapped c
    → IsCapped (add path cache bits c)
unfolding add
add-IsCapped path cache bits c h =
    elim (Bool-cases (leb max_collected_differences (length c.entries))) [
      | inl t ↦ rw t (record { kept = ground (arith, h.kept, t) })
      | inr e ↦ rw e (record { kept = length-snoc c.entries _ ∙ ground (arith, h.kept, e) })
    ]

module _ (f : Formats) where
  add_cache_only-IsCapped :
      (path : String) (v : CanonicalValue) (c : DifferenceCollector)
      → IsCapped c
      → IsCapped (add_cache_only f path v c)
  unfolding add_cache_only
  add_cache_only-IsCapped path v c h = elim (Bool-cases (is_empty_value v)) [
    | inl t ↦ rw t h
    | inr e ↦ rw e (add-IsCapped path (render f v) "null" c h)
  ]

  add_bits_only-IsCapped :
      (path : String) (v : CanonicalValue) (c : DifferenceCollector)
      → IsCapped c
      → IsCapped (add_bits_only f path v c)
  unfolding add_bits_only
  add_bits_only-IsCapped path v c h = elim (Bool-cases (is_empty_value v)) [
    | inl t ↦ rw t h
    | inr e ↦ rw e (add-IsCapped path "null" (render f v) c h)
  ]

  compare_rendered-IsCapped :
      (path : String) (v w : CanonicalValue) (c : DifferenceCollector)
      → IsCapped c
      → IsCapped (compare_rendered f path v w c)
  unfolding compare_rendered
  compare_rendered-IsCapped path v w c h =
      elim (Bool-cases (is_empty_value v && is_empty_value w)) [
        | inl t ↦ rw t h
        | inr e ↦ elim (Bool-cases (str_eq (render f v) (render f w))) [
          | inl t ↦ rw (e, t) h
          | inr q ↦ rw (e, q) (add-IsCapped path (render f v) (render f w) c h)
        ]
      ]

  add_bits_fields-IsCapped :
      (path : String) (fs : Fields) (c : DifferenceCollector)
      → IsCapped c
      → IsCapped (add_bits_fields f path fs c)
  unfolding add_bits_fields
  add_bits_fields-IsCapped path no_field c h = h
  add_bits_fields-IsCapped path (field k v fs) c h =
      add_bits_fields-IsCapped path fs _ (add_bits_only-IsCapped (append_member f path k) v c h)

  add_bits_elements-IsCapped :
      (path : String) (index : ℕ) (xs : Elements) (c : DifferenceCollector)
      → IsCapped c
      → IsCapped (add_bits_elements f path index xs c)
  unfolding add_bits_elements
  add_bits_elements-IsCapped path index none_left c h = h
  add_bits_elements-IsCapped path index (element x xs) c h =
      add_bits_elements-IsCapped path (suc index) xs _
        (add_bits_only-IsCapped (index_path f path index) x c h)

  add_cache_elements-IsCapped :
      (path : String) (index : ℕ) (xs : Elements) (c : DifferenceCollector)
      → IsCapped c
      → IsCapped (add_cache_elements f path index xs c)
  unfolding add_cache_elements
  add_cache_elements-IsCapped path index none_left c h = h
  add_cache_elements-IsCapped path index (element x xs) c h =
      add_cache_elements-IsCapped path (suc index) xs _
        (add_cache_only-IsCapped (index_path f path index) x c h)

  mutual
    unfolding walk

    walk-IsCapped :
        (path : String) (v w : CanonicalValue) (c : DifferenceCollector)
        → IsCapped c
        → IsCapped (walk f path v w c)
    walk-IsCapped path (canonical_object cs) (canonical_object bs) c h =
        walk_fields-IsCapped path cs bs c h
    walk-IsCapped path (canonical_array xs) (canonical_array ys) c h =
        walk_elements-IsCapped path 0 xs ys c h
    walk-IsCapped path v w c h = compare_rendered-IsCapped path v w c h

    walk_elements-IsCapped :
        (path : String) (index : ℕ) (xs ys : Elements) (c : DifferenceCollector)
        → IsCapped c
        → IsCapped (walk_elements f path index xs ys c)
    walk_elements-IsCapped path index none_left ys c h =
        add_bits_elements-IsCapped path index ys c h
    walk_elements-IsCapped path index (element x xs) none_left c h =
        add_cache_elements-IsCapped path index (element x xs) c h
    walk_elements-IsCapped path index (element x xs) (element y ys) c h =
        walk_elements-IsCapped path (suc index) xs ys _
          (walk-IsCapped (index_path f path index) x y c h)

    walk_fields-IsCapped :
        (path : String) (cs bs : Fields) (c : DifferenceCollector)
        → IsCapped c
        → IsCapped (walk_fields f path cs bs c)
    walk_fields-IsCapped path no_field bs c h = add_bits_fields-IsCapped path bs c h
    walk_fields-IsCapped path (field k v cs) bs c h =
        let before = add_bits_fields-IsCapped path (fields_before k bs) c h in
        elim (Option-cases (head_named k (fields_from k bs))) [
          | inl e ↦
              rw (e, walk_fields)
                (walk_fields-IsCapped path cs (fields_from k bs) _
                  (add_cache_only-IsCapped (append_member f path k) v _ before))
          | inr (w, e) ↦
              rw (e, walk_fields)
                (walk_fields-IsCapped path cs (tail_fields (fields_from k bs)) _
                  (walk-IsCapped (append_member f path k) v w _ before))
        ]

  -- A comparison keeps as many differences as it counts, up to the cap.
  pub compare_entries-IsCapped :
      (identity : EntryIdentity) (cache bits : Value)
      → IsCapped (compare_entries f identity cache bits)
  unfolding compare_entries
  compare_entries-IsCapped identity cache bits =
      walk-IsCapped "" (canonicalise f cache) (canonicalise f bits) _ (record { kept = refl })

-- ===== src/Master/Live/Pair/Kept.antt =====
-- How many of the differences that pairAndCompare counts it keeps
-- (orbitplus/internal/application/master/cache_freshness_verifier.go).
use orbitplus.Common.{
  ◌≤◌, ◌<◌, String, Bool, true, false, Option, none, some, List, [], ◌∷◌, if◌then◌else◌, length,
  length-append, arith,
}
use orbitplus.Json.{Value}
use orbitplus.Master.Errors.{GoResult, ok, err}
use orbitplus.Master.Compare.Canonical.{Formats}
use orbitplus.Master.Compare.{EntryIdentity, DifferenceCollector, DifferenceEntry}
use orbitplus.Master.Compare.Cap.{IsCapped, compare_entries-IsCapped}
use orbitplus.Master.Live.{Differences}
use orbitplus.Master.Live.Pair.{
  EntriesByIdentity, entry_of, is_matched, Pairing, count_difference, add_collected, identity_of,
  index_entries, compare_decoded, add_compared, pair_entry, pair_entries, add_missing_in_bits,
  pair_and_compare,
}

-- No more differences are kept than there are, and one at least when there are any.
pub record IsKept (ds : Differences) : Type 0 where
  pub at_most : length ds.entries ≤ ds.total
  pub some_kept : 0 < ds.total → 0 < length ds.entries

count_difference-IsKept :
    (d : DifferenceEntry) (ds : Differences) → IsKept ds → IsKept (count_difference d ds)
unfolding count_difference
count_difference-IsKept d ds h = record {
  at_most = omega (arith, h.at_most, length-append ds.entries (d ∷ []));
  some_kept = λ p. omega (arith, length-append ds.entries (d ∷ []));
}

add_collected-IsKept :
    (c : DifferenceCollector) (ds : Differences)
    → IsCapped c
    → IsKept ds
    → IsKept (add_collected c ds)
unfolding add_collected
add_collected-IsKept c ds cap h = record {
  at_most = omega (arith, h.at_most, length-append ds.entries c.entries, cap.kept);
  some_kept = λ p. ground (arith, h.some_kept, length-append ds.entries c.entries, cap.kept);
}

IsKept-if : (b : Bool) (x y : Differences) → IsKept x → IsKept y → IsKept (if b then x else y)
IsKept-if true x y p q = p
IsKept-if false x y p q = q

module _ (f : Formats) (unmarshal decode : String → GoResult Value) where
  add_compared-IsKept :
      (identity : EntryIdentity) (x y : GoResult Value) (ds : Differences)
      → IsKept ds
      → IsKept (
          add_compared f unmarshal decode identity
            (compare_decoded f unmarshal decode identity x y)
            ds)
  unfolding add_compared compare_decoded
  add_compared-IsKept identity (ok x) (ok y) ds h =
      add_collected-IsKept _ ds (compare_entries-IsCapped f identity x y) h
  add_compared-IsKept identity (ok x) (err e) ds h = count_difference-IsKept _ ds h
  add_compared-IsKept identity (err e) y ds h = count_difference-IsKept _ ds h

  pair_entry-IsKept :
      (identity : EntryIdentity) (b : String) (o : Option String) (p : Pairing)
      → IsKept p.differences
      → IsKept (pair_entry f unmarshal decode identity b o p).differences
  unfolding pair_entry
  pair_entry-IsKept identity b none p h = count_difference-IsKept _ p.differences h
  pair_entry-IsKept identity b (some c) p h =
      add_compared-IsKept identity (decode c) (decode b) p.differences h

  pair_entries-IsKept :
      (index : EntriesByIdentity) (bs : List String) (p : Pairing)
      → IsKept p.differences
      → IsKept (pair_entries f unmarshal decode index bs p).differences
  unfolding pair_entries
  pair_entries-IsKept index [] p h = h
  pair_entries-IsKept index (b ∷ bs) p h = pair_entries-IsKept index bs _ (
      pair_entry-IsKept (identity_of f unmarshal decode b) b
        (entry_of (identity_of f unmarshal decode b) index) p h)

  add_missing_in_bits-IsKept :
      (matched : List EntryIdentity) (index : EntriesByIdentity) (ds : Differences)
      → IsKept ds
      → IsKept (add_missing_in_bits f unmarshal decode matched index ds)
  unfolding add_missing_in_bits
  add_missing_in_bits-IsKept matched [] ds h = h
  add_missing_in_bits-IsKept matched ((i, e) ∷ rest) ds h =
      add_missing_in_bits-IsKept matched rest _
        (IsKept-if (is_matched i matched) ds _ h (count_difference-IsKept _ ds h))

  -- A verification keeps no more differences than it counts, and when it counts any it keeps one at
  -- least.
  pub pair_and_compare-IsKept :
      (cache bits : List String) → IsKept (pair_and_compare f unmarshal decode cache bits)
  unfolding pair_and_compare
  pair_and_compare-IsKept cache bits =
      add_missing_in_bits-IsKept _ (index_entries f unmarshal decode [] cache) _ (
        pair_entries-IsKept (index_entries f unmarshal decode [] cache) bits _
          (record { at_most = omega arith; some_kept = λ p. p }))

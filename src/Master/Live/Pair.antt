-- ===== src/Master/Live/Pair.antt =====
-- pairAndCompare (orbitplus/internal/application/master/cache_freshness_verifier.go): cached and live
-- entries are matched by their identity.
pub mod Counted
pub mod Total
pub mod Kept
pub mod Equal
use orbitplus.Common.{
  ℕ, ◌+◌, String, Bool, true, false, Option, none, some, List, [], ◌∷◌, ◌++◌, ◌&&◌, ◌||◌, str_eq,
  if◌then◌else◌, length,
}
use orbitplus.Json.{Value}
use orbitplus.Master.Errors.{GoResult, ok, err}
use orbitplus.Master.Compare.Canonical.{Formats}
use orbitplus.Master.Compare.{
  DifferenceKind, difference_value_mismatch, difference_missing_in_cache,
  difference_missing_in_bits, EntryIdentity, entry_identity_of, DifferenceEntry,
  DifferenceCollector, compare_entries,
}
use orbitplus.Master.Live.{Differences}

-- `==` on identities
unfoldable pub is_same_identity : EntryIdentity → EntryIdentity → Bool
is_same_identity a b =
    str_eq a.operator_code b.operator_code
    && str_eq a.trip_code b.trip_code
    && str_eq a.trip_stage_code b.trip_stage_code

-- cacheByIdentity in the order of cacheOrder.
abbrev pub EntriesByIdentity : Type 0
EntriesByIdentity = List (EntryIdentity × String)

unfoldable pub put_entry : EntryIdentity → String → EntriesByIdentity → EntriesByIdentity
put_entry identity entry [] = (identity, entry) ∷ []
put_entry identity entry ((i, e) ∷ rest) =
    let others = put_entry identity entry rest in
    if is_same_identity i identity then (i, entry) ∷ rest else (i, e) ∷ others

unfoldable pub entry_of : EntryIdentity → EntriesByIdentity → Option String
entry_of identity [] = none
entry_of identity ((i, e) ∷ rest) =
    if is_same_identity i identity then some e else entry_of identity rest

unfoldable pub is_matched : EntryIdentity → List EntryIdentity → Bool
is_matched identity [] = false
is_matched identity (i ∷ matched) = is_same_identity i identity || is_matched identity matched

pub record Pairing : Type 0 where
  pub differences : Differences
  pub matched : List EntryIdentity

-- The path of a difference that concerns a whole entry.
abbrev pub entry_root_path : String
entry_root_path = "$"

unfoldable pub count_difference : DifferenceEntry → Differences → Differences
count_difference difference ds = record {
  entries = ds.entries ++ (difference ∷ []);
  total = ds.total + 1;
}

unfoldable pub whole_entry : EntryIdentity → DifferenceKind → String → String → DifferenceEntry
whole_entry identity kind cache_value bits_value = record {
  identity = identity;
  path = entry_root_path;
  kind = kind;
  cache_value = cache_value;
  bits_value = bits_value;
}

unfoldable pub add_collected : DifferenceCollector → Differences → Differences
add_collected c ds = record { entries = ds.entries ++ c.entries; total = ds.total + c.total }

module _ (f : Formats) (unmarshal decode : String → GoResult Value) where
  -- `unmarshal` is json.Unmarshal, and `decode` a json.Decoder that keeps numbers as text.
  -- EntryIdentityOf on the bytes of an entry: no names when they cannot be read.
  unfoldable pub identity_of_decoded : GoResult Value → EntryIdentity
  identity_of_decoded (ok v) = entry_identity_of v
  identity_of_decoded (err e) = record { operator_code = ""; trip_code = ""; trip_stage_code = "" }

  unfoldable pub identity_of : String → EntryIdentity
  identity_of entry = identity_of_decoded (unmarshal entry)

  unfoldable pub index_entries : EntriesByIdentity → List String → EntriesByIdentity
  index_entries index [] = index
  index_entries index (entry ∷ entries) =
      index_entries (put_entry (identity_of entry) entry index) entries

  -- CompareEntries on the bytes; `none` for its error.
  unfoldable pub compare_decoded :
      EntryIdentity → GoResult Value → GoResult Value → Option DifferenceCollector
  compare_decoded identity (ok cache) (ok bits) = some (compare_entries f identity cache bits)
  compare_decoded identity (ok cache) (err e) = none
  compare_decoded identity (err e) bits = none

  unfoldable pub add_compared :
      EntryIdentity → Option DifferenceCollector → Differences → Differences
  add_compared identity none ds =
      count_difference (whole_entry identity difference_value_mismatch "" "") ds
  add_compared identity (some c) ds = add_collected c ds

  -- One live entry with the cached entry of its identity, if there is one.
  unfoldable pub pair_entry : EntryIdentity → String → Option String → Pairing → Pairing
  pair_entry identity bits_entry none p = record p {
    differences =
        count_difference (whole_entry identity difference_missing_in_cache "" bits_entry)
          p.differences;
  }
  pair_entry identity bits_entry (some cache_entry) p = record {
    differences =
        add_compared identity (compare_decoded identity (decode cache_entry) (decode bits_entry))
          p.differences;
    matched = identity ∷ p.matched;
  }

  unfoldable pub pair_entries : EntriesByIdentity → List String → Pairing → Pairing
  pair_entries index [] p = p
  pair_entries index (bits_entry ∷ bits_entries) p =
      let identity = identity_of bits_entry in
      pair_entries index bits_entries (pair_entry identity bits_entry (entry_of identity index) p)

  -- The cached entries that no live entry matched.
  unfoldable pub add_missing_in_bits :
      List EntryIdentity → EntriesByIdentity → Differences → Differences
  add_missing_in_bits matched [] ds = ds
  add_missing_in_bits matched ((i, e) ∷ rest) ds = add_missing_in_bits matched rest (
      if is_matched i matched
      then ds
      else count_difference (whole_entry i difference_missing_in_bits e "") ds)

  unfoldable pub pair_and_compare : List String → List String → Differences
  pair_and_compare cache_entries bits_entries =
      let index = index_entries [] cache_entries in
      let p =
        pair_entries index bits_entries
          (record { differences = record { entries = []; total = 0 }; matched = [] }) in
      add_missing_in_bits p.matched index p.differences

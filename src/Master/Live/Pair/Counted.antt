-- ===== src/Master/Live/Pair/Counted.antt =====
-- How many differences pairAndCompare counts, by its index
-- (orbitplus/internal/application/master/cache_freshness_verifier.go).
use orbitplus.Common.{
  ℕ, ◌+◌, ◌≡◌, refl, ◌∙◌, ap, String, Bool, true, false, Option, none, some, List, [], ◌∷◌,
  if◌then◌else◌, arith,
}
use orbitplus.Json.{Value}
use orbitplus.Master.Errors.{GoResult, ok, err}
use orbitplus.Master.Compare.Canonical.{Formats}
use orbitplus.Master.Compare.{
  difference_missing_in_bits, EntryIdentity, DifferenceCollector, DifferenceEntry,
}
use orbitplus.Master.Live.{Differences}
use orbitplus.Master.Live.Pair.{
  EntriesByIdentity, entry_of, is_matched, Pairing, count_difference, add_collected, identity_of,
  index_entries, compare_decoded, add_compared, pair_entry, pair_entries, add_missing_in_bits,
  whole_entry, pair_and_compare,
}

abbrev no_pairs : Pairing
no_pairs = record { differences = record { entries = []; total = 0 }; matched = [] }

module _ (f : Formats) (unmarshal decode : String → GoResult Value) where
  abbrev pub collected : Option DifferenceCollector → ℕ
  collected none = 1
  collected (some c) = c.total

  -- What a live entry counts: one when nothing is cached for it or when one of the two cannot be read,
  -- and the differences of the two otherwise.
  unfoldable pub entry_count : EntryIdentity → String → Option String → ℕ
  entry_count identity bits_entry none = 1
  entry_count identity bits_entry (some cache_entry) =
      collected
        (compare_decoded f unmarshal decode identity (decode cache_entry) (decode bits_entry))

  unfoldable pub live_count : EntriesByIdentity → List String → ℕ
  live_count index [] = 0
  live_count index (b ∷ bs) =
      entry_count (identity_of f unmarshal decode b) b
        (entry_of (identity_of f unmarshal decode b) index)
      + live_count index bs

  -- The identities that were matched, the last one first.
  abbrev pub add_match : EntryIdentity → Option String → List EntryIdentity → List EntryIdentity
  add_match identity none matched = matched
  add_match identity (some e) matched = identity ∷ matched

  unfoldable pub matches : EntriesByIdentity → List String → List EntryIdentity → List EntryIdentity
  matches index [] matched = matched
  matches index (b ∷ bs) matched = matches index bs (
      add_match (identity_of f unmarshal decode b)
        (entry_of (identity_of f unmarshal decode b) index) matched)

  unfoldable pub missing_count : List EntryIdentity → EntriesByIdentity → ℕ
  missing_count matched [] = 0
  missing_count matched ((i, e) ∷ rest) =
      (if is_matched i matched then 0 else 1) + missing_count matched rest

  pair_entry-total :
      (identity : EntryIdentity) (b : String) (o : Option String) (p : Pairing)
      → ((pair_entry f unmarshal decode identity b o p).differences.total
          ≡ p.differences.total + entry_count identity b o)
        × ((pair_entry f unmarshal decode identity b o p).matched ≡ add_match identity o p.matched)
  unfolding pair_entry entry_count count_difference add_compared add_collected compare_decoded
  pair_entry-total identity b none p = (refl, refl)
  pair_entry-total identity b (some c) p = (go (decode c) (decode b), refl)
    where
      go :
          (x y : GoResult Value)
          → (add_compared f unmarshal decode identity
              (compare_decoded f unmarshal decode identity x y)
              p.differences).total
            ≡ p.differences.total + collected (compare_decoded f unmarshal decode identity x y)
      go (ok x) (ok y) = refl
      go (ok x) (err e) = refl
      go (err e) y = refl

  pair_entries-total :
      (index : EntriesByIdentity) (bs : List String) (p : Pairing)
      → ((pair_entries f unmarshal decode index bs p).differences.total
          ≡ p.differences.total + live_count index bs)
        × ((pair_entries f unmarshal decode index bs p).matched ≡ matches index bs p.matched)
  unfolding pair_entries live_count matches
  pair_entries-total index [] p = (omega arith, refl)
  pair_entries-total index (b ∷ bs) p =
      let identity : EntryIdentity = identity_of f unmarshal decode b in
      let (one, m) = pair_entry-total identity b (entry_of identity index) p in
      let (rest, ms) =
        pair_entries-total index bs
          (pair_entry f unmarshal decode identity b (entry_of identity index) p) in
      (omega (arith, one, rest), ms ∙ ap (matches index bs) m)

  count_unless :
      (b : Bool) (d : DifferenceEntry) (ds : Differences)
      → (if b then ds else count_difference d ds).total ≡ ds.total + (if b then 0 else 1)
  unfolding count_difference
  count_unless true d ds = omega arith
  count_unless false d ds = refl

  add_missing-total :
      (matched : List EntryIdentity) (index : EntriesByIdentity) (ds : Differences)
      → (add_missing_in_bits f unmarshal decode matched index ds).total
        ≡ ds.total + missing_count matched index
  unfolding add_missing_in_bits missing_count
  add_missing-total matched [] ds = omega arith
  add_missing-total matched ((i, e) ∷ rest) ds =
      let missing : DifferenceEntry = whole_entry i difference_missing_in_bits e "" in
      omega (
        arith,
        count_unless (is_matched i matched) missing ds,
        add_missing-total matched rest
            (if is_matched i matched then ds else count_difference missing ds),
      )

  pub pair_and_compare-counted :
      (cache bits : List String)
      → (pair_and_compare f unmarshal decode cache bits).total
        ≡ live_count (index_entries f unmarshal decode [] cache) bits
          + missing_count
              (matches (index_entries f unmarshal decode [] cache) bits [])
              (index_entries f unmarshal decode [] cache)
  unfolding pair_and_compare
  pair_and_compare-counted cache bits =
      let index : EntriesByIdentity = index_entries f unmarshal decode [] cache in
      let p : Pairing = pair_entries f unmarshal decode index bits no_pairs in
      let (counts, m) = pair_entries-total index bits no_pairs in
      omega (
        arith,
        add_missing-total p.matched index p.differences,
        counts,
        ap (λ ms. missing_count ms index) m,
      )

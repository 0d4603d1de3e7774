-- ===== src/Master/Live/Pair/Equal.antt =====
-- pairAndCompare on two equal copies
-- (orbitplus/internal/application/master/cache_freshness_verifier.go).
use orbitplus.Common.{
  ◌≡◌, refl, ◌∙◌, sym, String, true, false, Option, none, some, List, [], ◌∷◌, ◌++◌, All, arith,
  eq_refl,
}
use mathlib.Core.List.{append-nil, append_assoc}
use orbitplus.Json.{Value}
use orbitplus.Master.Errors.{GoResult, ok}
use orbitplus.Master.Compare.Canonical.{Formats}
use orbitplus.Master.Compare.{EntryIdentity}
use orbitplus.Master.Compare.Same.{compare_entries_self}
use orbitplus.Master.Live.Pair.{
  EntriesByIdentity, put_entry, entry_of, is_matched, identity_of, index_entries, compare_decoded,
  pair_and_compare, is_same_identity,
}
use orbitplus.Master.Live.Pair.Counted.{
  entry_count, live_count, add_match, matches, missing_count, pair_and_compare-counted,
}

pub is_same_identity_self : (i : EntryIdentity) → is_same_identity i i ≡ true
unfolding is_same_identity
is_same_identity_self i =
    ground (arith, eq_refl i.operator_code, eq_refl i.trip_code, eq_refl i.trip_stage_code)

put_entry_new :
    (i : EntryIdentity) (e : String) (index : EntriesByIdentity)
    → entry_of i index ≡ none
    → put_entry i e index ≡ index ++ ((i, e) ∷ [])
unfolding put_entry entry_of
put_entry_new i e [] h = refl
put_entry_new i e ((j, x) ∷ rest) h = ground (arith, put_entry_new i e rest)

entry_of-append :
    (i : EntryIdentity) (xs ys : EntriesByIdentity)
    → entry_of i xs ≡ none
    → entry_of i ys ≡ none
    → entry_of i (xs ++ ys) ≡ none
unfolding entry_of
entry_of-append i [] ys p q = q
entry_of-append i ((j, x) ∷ xs) ys p q = ground (arith, entry_of-append i xs ys)

module _ (f : Formats) (unmarshal decode : String → GoResult Value) where
  abbrev tagged : List String → EntriesByIdentity
  tagged [] = []
  tagged (e ∷ es) = (identity_of f unmarshal decode e, e) ∷ tagged es

  -- No other entry has the identity of `e`.
  abbrev IsAlone : String → List String → Type 0
  IsAlone e es =
      All
        (λ b.
          is_same_identity (identity_of f unmarshal decode e) (identity_of f unmarshal decode b)
          ≡ false)
        es

  abbrev IsReadable : String → Type 0
  IsReadable e = (v : Value) × (decode e ≡ ok v)

  -- Entries of different identities that can be read.
  abbrev pub AreDistinct : List String → Type 0
  AreDistinct [] = Unit
  AreDistinct (e ∷ es) = (IsAlone e es × IsReadable e) × AreDistinct es

  IsNew : EntriesByIdentity → List String → Type 0
  IsNew index es = All (λ b. entry_of (identity_of f unmarshal decode b) index ≡ none) es

  IsNew-next :
      (e : String) (es : List String) (index : EntriesByIdentity)
      → IsAlone e es
      → IsNew index es
      → IsNew (index ++ ((identity_of f unmarshal decode e, e) ∷ [])) es
  unfolding IsNew entry_of
  IsNew-next e [] index a n = tt
  IsNew-next e (b ∷ es) index a n = (
    entry_of-append (identity_of f unmarshal decode b) index _ n.0 (rw (a.0) refl),
    IsNew-next e es index a.1 n.1,
  )

  index_entries-tagged :
      (index : EntriesByIdentity) (es : List String)
      → IsNew index es
      → AreDistinct es
      → index_entries f unmarshal decode index es ≡ index ++ tagged es
  unfolding index_entries IsNew
  index_entries-tagged index [] n d = sym (append-nil index)
  index_entries-tagged index (e ∷ es) n d =
      rw (put_entry_new (identity_of f unmarshal decode e) e index n.0) (
        index_entries-tagged (index ++ ((identity_of f unmarshal decode e, e) ∷ [])) es
          (IsNew-next e es index d.0.0 n.1) d.1
        ∙ append_assoc index ((identity_of f unmarshal decode e, e) ∷ []) (tagged es))

  -- Every entry of `bs` is the one that the index has for its identity.
  IsFound : EntriesByIdentity → List String → Type 0
  IsFound index bs = All (λ b. entry_of (identity_of f unmarshal decode b) index ≡ some b) bs

  IsFound-next :
      (e : String) (bs : List String) (index : EntriesByIdentity)
      → IsAlone e bs
      → IsFound index bs
      → IsFound ((identity_of f unmarshal decode e, e) ∷ index) bs
  unfolding IsFound entry_of
  IsFound-next e [] index a n = tt
  IsFound-next e (b ∷ bs) index a n = (rw (a.0) n.0, IsFound-next e bs index a.1 n.1)

  tagged-IsFound : (es : List String) → AreDistinct es → IsFound (tagged es) es
  unfolding IsFound entry_of
  tagged-IsFound [] d = tt
  tagged-IsFound (e ∷ es) d = (
    rw (is_same_identity_self (identity_of f unmarshal decode e)) refl,
    IsFound-next e es (tagged es) d.0.0 (tagged-IsFound es d.1),
  )

  entry_count_self :
      (e : String)
      → IsReadable e
      → (i : EntryIdentity) → entry_count f unmarshal decode i e (some e) ≡ 0
  unfolding entry_count compare_decoded
  entry_count_self e (v, q) i = rw (q, compare_entries_self f i v) refl

  live_count_self :
      (index : EntriesByIdentity) (bs : List String)
      → IsFound index bs
      → AreDistinct bs
      → live_count f unmarshal decode index bs ≡ 0
  unfolding live_count IsFound
  live_count_self index [] n d = refl
  live_count_self index (b ∷ bs) n d = rw (n.0) (
      omega (
        arith,
        entry_count_self b d.0.1 (identity_of f unmarshal decode b),
        live_count_self index bs n.1 d.1,
      ))

  matches_mono :
      (index : EntriesByIdentity) (bs : List String) (m : List EntryIdentity) (i : EntryIdentity)
      → is_matched i m ≡ true
      → is_matched i (matches f unmarshal decode index bs m) ≡ true
  unfolding matches is_matched
  matches_mono index [] m i h = h
  matches_mono index (b ∷ bs) m i h =
      matches_mono index bs _ i (go (entry_of (identity_of f unmarshal decode b) index))
    where
      go :
          (o : Option String)
          → is_matched i (add_match f unmarshal decode (identity_of f unmarshal decode b) o m)
            ≡ true
      go none = h
      go (some e) = ground (arith, h)

  AllMatched : List EntryIdentity → List String → Type 0
  AllMatched m es = All (λ b. is_matched (identity_of f unmarshal decode b) m ≡ true) es

  matches_self :
      (index : EntriesByIdentity) (bs : List String) (m : List EntryIdentity)
      → IsFound index bs
      → AllMatched (matches f unmarshal decode index bs m) bs
  unfolding matches IsFound AllMatched is_matched
  matches_self index [] m n = tt
  matches_self index (b ∷ bs) m n = rw (n.0) (
    matches_mono index bs _ (identity_of f unmarshal decode b)
        (rw (is_same_identity_self (identity_of f unmarshal decode b)) refl),
    matches_self index bs _ n.1,
  )

  missing_count_none :
      (m : List EntryIdentity) (es : List String)
      → AllMatched m es
      → missing_count f unmarshal decode m (tagged es) ≡ 0
  unfolding missing_count AllMatched
  missing_count_none m [] h = refl
  missing_count_none m (e ∷ es) h = rw (h.0) (omega (arith, missing_count_none m es h.1))

  IsNew-empty : (bs : List String) → IsNew [] bs
  unfolding IsNew entry_of
  IsNew-empty [] = tt
  IsNew-empty (b ∷ bs) = (refl, IsNew-empty bs)

  -- Two copies of the same entries, of different identities and all of them readable, have no
  -- difference.
  pub pair_and_compare_self :
      (es : List String) → AreDistinct es → (pair_and_compare f unmarshal decode es es).total ≡ 0
  pair_and_compare_self es d =
      let found = tagged-IsFound es d in
      pair_and_compare-counted f unmarshal decode es es
      ∙ rw (index_entries-tagged [] es (IsNew-empty es) d) (
          omega (
            arith,
            live_count_self (tagged es) es found d,
            missing_count_none _ es (matches_self (tagged es) es [] found),
          ))

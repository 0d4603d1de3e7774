-- ===== src/Master/Live/Pair/Total.antt =====
-- How many differences pairAndCompare counts
-- (orbitplus/internal/application/master/cache_freshness_verifier.go).
use mathlib.Core.Path.{subst}
use orbitplus.Common.{
  ℕ, ◌+◌, ◌≡◌, refl, sym, ◌∙◌, ap, String, Bool, true, false, ◌||◌, and_true, Option, none, some,
  List, [], ◌∷◌, All, if◌then◌else◌, arith, Bool-cases, inl, inr, str_eq, eq_iff,
}
use orbitplus.Json.{Value}
use orbitplus.Master.Errors.{GoResult, ok, err}
use orbitplus.Master.Compare.Canonical.{Formats}
use orbitplus.Master.Compare.{EntryIdentity, compare_entries}
use orbitplus.Master.Live.Pair.{
  EntriesByIdentity, put_entry, entry_of, is_matched, is_same_identity, identity_of, index_entries,
  compare_decoded, pair_and_compare,
}
use orbitplus.Master.Live.Pair.Counted.{
  entry_count, live_count, collected, add_match, matches, missing_count, pair_and_compare-counted,
}
use orbitplus.Master.Live.Pair.Equal.{is_same_identity_self}

abbrev pub later_or : Option String → Option String → Option String
later_or none earlier = earlier
later_or (some e) earlier = some e

same-eq : (a b : EntryIdentity) → is_same_identity a b ≡ true → a ≡ b
unfolding is_same_identity
same-eq a b h =
    let (h1, stage) = and_true _ (str_eq a.trip_stage_code b.trip_stage_code) h in
    let (operator, trip) = and_true _ (str_eq a.trip_code b.trip_code) h1 in
    cc (
      (eq_iff a.operator_code b.operator_code).0 operator,
      (eq_iff a.trip_code b.trip_code).0 trip,
      (eq_iff a.trip_stage_code b.trip_stage_code).0 stage,
    )

same_both :
    (k j i : EntryIdentity)
    → is_same_identity k i ≡ true
    → is_same_identity j i ≡ true
    → is_same_identity k j ≡ true
same_both k j i p q = subst (λ x. is_same_identity k x ≡ true) (sym (same-eq j i q)) p

if_again :
    (b : Bool) (e x r : Option String)
    → (if b then e else r) ≡ (if b then e else if b then x else r)
if_again true e x r = refl
if_again false e x r = refl

abbrev count_if : Bool → ℕ
count_if b = if b then 0 else 1

abbrev is_present : Option String → Bool
is_present none = false
is_present (some e) = true

entry_of-put :
    (i j : EntryIdentity) (e : String) (index : EntriesByIdentity)
    → entry_of i (put_entry j e index) ≡ (if is_same_identity j i then some e else entry_of i index)
unfolding entry_of put_entry
entry_of-put i j e [] = refl
entry_of-put i j e ((k, x) ∷ index) = elim (Bool-cases (is_same_identity k j)) [
  | inr f ↦ rw f (elim (Bool-cases (is_same_identity k i)) [
    | inr g ↦ rw g (entry_of-put i j e index)
    | inl u ↦ elim (Bool-cases (is_same_identity j i)) [
      | inr g ↦ rw (u, g) refl
      | inl v ↦ absurd (cc (same_both k j i u v, f))
    ]
  ])
  | inl t ↦ rw t (
      subst
        (λ l. (if is_same_identity l i then some e else entry_of i index) ≡ (
          if is_same_identity j i
          then some e
          else if is_same_identity l i
          then some x
          else entry_of i index))
        (sym (same-eq k j t))
        (if_again (is_same_identity j i) (some e) (some x) (entry_of i index)))
]

missing_put :
    (f : Formats) (unmarshal decode : String → GoResult Value) (ms : List EntryIdentity)
    (j : EntryIdentity) (e : String) (index : EntriesByIdentity)
    → missing_count f unmarshal decode ms (put_entry j e index)
      ≡ missing_count f unmarshal decode ms index
        + (if is_present (entry_of j index) || is_matched j ms then 0 else 1)
unfolding put_entry entry_of missing_count
missing_put f unmarshal decode ms j e [] = omega arith
missing_put f unmarshal decode ms j e ((k, x) ∷ index) = elim (Bool-cases (is_same_identity k j)) [
  | inr n ↦ rw n (omega (arith, missing_put f unmarshal decode ms j e index))
  | inl t ↦ rw t (omega arith)
]

module _ (f : Formats) (unmarshal decode : String → GoResult Value) where
  abbrev id : String → EntryIdentity
  id entry = identity_of f unmarshal decode entry

  -- Does some entry have the identity?
  unfoldable pub holds : EntryIdentity → List String → Bool
  holds i [] = false
  holds i (c ∷ cs) = is_same_identity (id c) i || holds i cs

  -- The last entry that has the identity.
  unfoldable pub last_of : EntryIdentity → List String → Option String
  last_of i [] = none
  last_of i (c ∷ cs) = later_or (last_of i cs) (if is_same_identity (id c) i then some c else none)

  -- What two entries differ in: one difference when one of them cannot be read.
  abbrev pub differ : EntryIdentity → GoResult Value → GoResult Value → ℕ
  differ i (ok x) (ok y) = (compare_entries f i x y).total
  differ i (ok x) (err e) = 1
  differ i (err e) y = 1

  -- What a live entry counts against the cached one: one difference when nothing is cached.
  abbrev pub differences_from : Option String → String → ℕ
  differences_from none live = 1
  differences_from (some cached) live = differ (id live) (decode cached) (decode live)

  -- The live entries, each against the last cached entry of its identity.
  unfoldable pub live_sum : List String → List String → ℕ
  live_sum cache [] = 0
  live_sum cache (b ∷ bs) = differences_from (last_of (id b) cache) b + live_sum cache bs

  -- How many identities of the cached entries, but for those of `seen`, no live entry has.
  unfoldable pub unmatched : List String → List String → List String → ℕ
  unmatched seen [] bits = 0
  unmatched seen (c ∷ cs) bits =
      (if holds (id c) seen || holds (id c) bits then 0 else 1) + unmatched (c ∷ seen) cs bits

  later_or_if :
      (o earlier : Option String) (b : Bool) (c : String)
      → later_or o (if b then some c else earlier)
        ≡ later_or (later_or o (if b then some c else none)) earlier
  later_or_if (some e) earlier b c = refl
  later_or_if none earlier true c = refl
  later_or_if none earlier false c = refl

  entry_of-index :
      (i : EntryIdentity) (cs : List String) (index : EntriesByIdentity)
      → entry_of i (index_entries f unmarshal decode index cs)
        ≡ later_or (last_of i cs) (entry_of i index)
  unfolding index_entries last_of
  entry_of-index i [] index = refl
  entry_of-index i (c ∷ cs) index =
      entry_of-index i cs (put_entry (id c) c index)
      ∙ ap (later_or (last_of i cs)) (entry_of-put i (id c) c index)
      ∙ later_or_if (last_of i cs) (entry_of i index) (is_same_identity (id c) i) c

  entry_count-differ :
      (b : String) (o : Option String)
      → entry_count f unmarshal decode (id b) b o ≡ differences_from o b
  unfolding entry_count compare_decoded
  entry_count-differ b none = refl
  entry_count-differ b (some c) = go (decode c) (decode b)
    where
      go :
          (x y : GoResult Value)
          → collected f unmarshal decode (compare_decoded f unmarshal decode (id b) x y)
            ≡ differ (id b) x y
      go (ok x) (ok y) = refl
      go (ok x) (err e) = refl
      go (err e) y = refl

  last_or-none : (o : Option String) → later_or o none ≡ o
  last_or-none none = refl
  last_or-none (some e) = refl

  live_count-sum :
      (cache bs : List String)
      → live_count f unmarshal decode (index_entries f unmarshal decode [] cache) bs
        ≡ live_sum cache bs
  unfolding live_count live_sum entry_of
  live_count-sum cache [] = refl
  live_count-sum cache (b ∷ bs) =
      let found = entry_of-index (id b) cache [] ∙ last_or-none (last_of (id b) cache) in
      omega (
        arith,
        ap (λ o. entry_count f unmarshal decode (id b) b o) found,
        entry_count-differ b (last_of (id b) cache),
        live_count-sum cache bs,
      )

  add_match-matched :
      (i j : EntryIdentity) (o : Option String) (ms : List EntryIdentity)
      → (is_same_identity j i ≡ true → is_present o ≡ true)
      → is_matched i (add_match f unmarshal decode j o ms)
        ≡ (is_same_identity j i || is_matched i ms)
  unfolding is_matched
  add_match-matched i j (some e) ms h = refl
  add_match-matched i j none ms h = elim (Bool-cases (is_same_identity j i)) [
    | inl t ↦ absurd (cc (h t))
    | inr n ↦ rw n refl
  ]

  or_swap : (a b c : Bool) → ((a || b) || c) ≡ (b || (a || c))
  or_swap true true c = refl
  or_swap true false c = refl
  or_swap false true c = refl
  or_swap false false c = refl

  or_false : (a : Bool) → a ≡ (a || false)
  or_false true = refl
  or_false false = refl

  -- An identity is matched when a live entry has it and a cached one too.
  matched-holds :
      (i : EntryIdentity) (index : EntriesByIdentity) (bs : List String) (ms : List EntryIdentity)
      → is_present (entry_of i index) ≡ true
      → is_matched i (matches f unmarshal decode index bs ms) ≡ (is_matched i ms || holds i bs)
  unfolding matches holds
  matched-holds i index [] ms h = or_false (is_matched i ms)
  matched-holds i index (b ∷ bs) ms h =
      matched-holds i index bs (add_match f unmarshal decode (id b) (entry_of (id b) index) ms) h
      ∙ ap (λ m. m || holds i bs)
          (add_match-matched i (id b) (entry_of (id b) index) ms
            (λ t. subst (λ j. is_present (entry_of j index) ≡ true) (sym (same-eq (id b) i t)) h))
      ∙ or_swap (is_same_identity (id b) i) (is_matched i ms) (holds i bs)

  -- The index has the identities that were seen.
  abbrev HasSeen : EntriesByIdentity → List String → Type 0
  HasSeen index seen = (i : EntryIdentity) → is_present (entry_of i index) ≡ holds i seen

  present-if :
      (b : Bool) (c : String) (o : Option String)
      → is_present (if b then some c else o) ≡ (b || is_present o)
  present-if true c o = refl
  present-if false c o = refl

  HasSeen-put :
      (c : String) (index : EntriesByIdentity) (seen : List String)
      → HasSeen index seen
      → HasSeen (put_entry (id c) c index) (c ∷ seen)
  unfolding holds
  HasSeen-put c index seen h i =
      ap is_present (entry_of-put i (id c) c index)
      ∙ present-if (is_same_identity (id c) i) c (entry_of i index)
      ∙ ap (λ b. is_same_identity (id c) i || b) (h i)

  missing-unmatched :
      (ms : List EntryIdentity) (bits cs : List String) (index : EntriesByIdentity)
      (seen : List String)
      → HasSeen index seen
      → All (λ c. is_matched (id c) ms ≡ holds (id c) bits) cs
      → missing_count f unmarshal decode ms (index_entries f unmarshal decode index cs)
        ≡ missing_count f unmarshal decode ms index + unmatched seen cs bits
  unfolding index_entries unmatched
  missing-unmatched ms bits [] index seen h all = omega arith
  missing-unmatched ms bits (c ∷ cs) index seen h all =
      let rest =
        missing-unmatched ms bits cs (put_entry (id c) c index) (c ∷ seen)
          (HasSeen-put c index seen h) all.1 in
      let step = missing_put f unmarshal decode ms (id c) c index in
      let same =
        ap (λ b. count_if (b || is_matched (id c) ms)) (h (id c))
        ∙ ap (λ b. count_if (holds (id c) seen || b)) all.0 in
      omega (arith, rest, step, same)

  -- Each of the entries is found under its identity.
  held : (i : EntryIdentity) (cs : List String) → is_present (last_of i cs) ≡ holds i cs
  unfolding last_of holds
  held i [] = refl
  held i (c ∷ cs) = go (last_of i cs) (is_same_identity (id c) i) (holds i cs) (held i cs)
    where
      go :
          (o : Option String) (b h : Bool)
          → is_present o ≡ h
          → is_present (later_or o (if b then some c else none)) ≡ (b || h)
      go none true h e = refl
      go none false h e = e
      go (some x) true h e = refl
      go (some x) false h e = e

  or_true : (a : Bool) → (a || true) ≡ true
  or_true true = refl
  or_true false = refl

  module _ (P Q : String → Type 0) (f' : (c : String) → P c → Q c) where
    All-map : (cs : List String) → All P cs → All Q cs
    All-map [] ps = tt
    All-map (c ∷ cs) ps = (f' c ps.0, All-map cs ps.1)

  All-held : (cs : List String) → All (λ c. holds (id c) cs ≡ true) cs
  unfolding holds
  All-held [] = tt
  All-held (c ∷ cs) = (
    ap (λ b. b || holds (id c) cs) (is_same_identity_self (id c)),
    All-map (λ x. holds (id x) cs ≡ true) (λ x. holds (id x) (c ∷ cs) ≡ true)
        (λ x h.
          ap (λ b. is_same_identity (id c) (id x) || b) h
          ∙ or_true (is_same_identity (id c) (id x)))
        cs (All-held cs),
  )

  All-matched :
      (cache bits : List String)
      → All
          (λ c.
            is_matched
              (id c)
              (matches f unmarshal decode (index_entries f unmarshal decode [] cache) bits [])
            ≡ holds (id c) bits)
          cache
  unfolding is_matched entry_of
  All-matched cache bits =
      let index : EntriesByIdentity = index_entries f unmarshal decode [] cache in
      All-map (λ c. holds (id c) cache ≡ true)
        (λ c. is_matched (id c) (matches f unmarshal decode index bits []) ≡ holds (id c) bits)
        (λ c h. matched-holds (id c) index bits [] (
          ap is_present (entry_of-index (id c) cache [] ∙ last_or-none (last_of (id c) cache))
          ∙ held (id c) cache
          ∙ h))
        cache (All-held cache)

  -- A verification counts, for each live entry, its differences from the last cached entry of the same
  -- identity (one when there is none, or when one of the two cannot be read), and one for each identity
  -- of a cached entry that no live entry has.
  pub pair_and_compare-total :
      (cache bits : List String)
      → (pair_and_compare f unmarshal decode cache bits).total
        ≡ live_sum cache bits + unmatched [] cache bits
  unfolding missing_count entry_of holds
  pair_and_compare-total cache bits =
      let index : EntriesByIdentity = index_entries f unmarshal decode [] cache in
      omega (
        arith,
        pair_and_compare-counted f unmarshal decode cache bits,
        live_count-sum cache bits,
        missing-unmatched (matches f unmarshal decode index bits []) bits cache [] [] (λ i. refl)
            (All-matched cache bits),
      )

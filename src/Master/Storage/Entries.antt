-- ===== src/Master/Storage/Entries.antt =====
-- The loop over the entries, for any way to store one entry
-- (orbitplus/internal/application/master/tripdetails_storage_coordinator.go and
-- tripdetails_searchbusmap_storage.go).
use orbitplus.Common.{
  String, ◌≡◌, refl, ◌⊎◌, inl, inr, true, Option, none, some, List, [], ◌∷◌, ◌++◌, ◌||◌, elem, All,
  str_eq, eq_iff, arith, Bool-cases,
}
use orbitplus.Common.Text.{trim_space}
use orbitplus.Json.{Value, Members, obj, null, bool, num, str, arr}
use orbitplus.Master.Errors.{GoError}
use orbitplus.Master.Metadata.{string_field}
use orbitplus.Master.Exec.{M, Run, Event}
use orbitplus.Master.Storage.{append_updated_trip_code, after_entry, store_value, store_entries}
use orbitplus.Master.Storage.Effects.{Extends, IsLasting, Ensures}

abbrev pub Any : (Value → Type 0) → List Value → Type 0
Any P [] = ⊥
Any P (v ∷ vs) = P v ⊎ Any P vs

pub elem-snoc :
    (c x : String) (cs : List String) → elem c (cs ++ (x ∷ [])) ≡ (elem c cs || str_eq x c)
elem-snoc c x [] = ground arith
elem-snoc c x (y ∷ cs) = ground (arith, elem-snoc c x cs)

-- A trip code that is reported after an entry was reported before or is the entry's.
elem-append_updated :
    (c code : String) (codes : List String)
    → elem c (append_updated_trip_code codes code) ≡ true
    → (elem c codes ≡ true) ⊎ (trim_space code ≡ c)
unfolding append_updated_trip_code
elem-append_updated c code codes h = elim (Bool-cases (elem c codes)) [
  | inl t ↦ inl t
  | inr f ↦
      inr ((eq_iff (trim_space code) c).0 (ground (arith, f, elem-snoc c (trim_space code) codes)))
]

module _ {W : Type 0} (store : Members → M W (Option GoError))
    (Stored : Members → List Event → Type 0)
    (lasting : (entry : Members) → IsLasting (Stored entry))
    (ensures : (entry : Members) → Ensures (store entry) (Stored entry)) where
  abbrev Loop : Type 0
  Loop = List String → M W (List String × Option GoError)

  Grows : Loop → Type 0
  Grows rest = (codes : List String) (s : Run W) → Extends s.log (rest codes s).1.log

  Grows-after_entry :
      (rest : Loop) (codes : List String) (code : String) (e : Option GoError) (s : Run W)
      → Grows rest
      → Extends s.log (after_entry rest codes code e s).1.log
  unfolding after_entry Grows
  Grows-after_entry rest codes code none s g w h = g (append_updated_trip_code codes code) s w h
  Grows-after_entry rest codes code (some e) s g w h = h

  Grows-store_value :
      (rest : Loop) (v : Value) → Grows rest → Grows (λ codes. store_value store rest codes v)
  unfolding store_value Grows
  Grows-store_value rest (obj entry) g codes s w h =
      Grows-after_entry rest codes (string_field entry "tripCode") (store entry s).0
        (store entry s).1 g w ((ensures entry).grows s w h)
  Grows-store_value rest null g codes s w h = h
  Grows-store_value rest (bool b) g codes s w h = h
  Grows-store_value rest (num n) g codes s w h = h
  Grows-store_value rest (str t) g codes s w h = h
  Grows-store_value rest (arr xs) g codes s w h = h

  Grows-store_entries : (vs : List Value) → Grows (store_entries store vs)
  unfolding store_entries Grows
  Grows-store_entries [] codes s w h = h
  Grows-store_entries (v ∷ vs) codes s w h =
      Grows-store_value (store_entries store vs) v (Grows-store_entries vs) codes s w h

  -- The value is an entry that was stored.
  abbrev pub IsStored : List Event → Value → Type 0
  IsStored log v = (entry : Members) × (v ≡ obj entry) × Stored entry log

  -- The same, with the trip code that is reported for it.
  abbrev pub IsReported : String → List Event → Value → Type 0
  IsReported c log v =
      (entry : Members) × (v ≡ obj entry)
      × (trim_space (string_field entry "tripCode") ≡ c)
      × Stored entry log

  AllStored : List Value → Loop → Type 0
  AllStored vs rest =
      (codes : List String) (s : Run W)
      → (rest codes s).0.1 ≡ none
      → All (IsStored (rest codes s).1.log) vs

  after_entry-AllStored :
      (vs : List Value) (rest : Loop) (entry : Members) (codes : List String) (code : String)
      (e : Option GoError) (s : Run W)
      → Grows rest
      → AllStored vs rest
      → (e ≡ none → Stored entry s.log)
      → (after_entry rest codes code e s).0.1 ≡ none
      → Stored entry (after_entry rest codes code e s).1.log
        × All (IsStored (after_entry rest codes code e s).1.log) vs
  unfolding after_entry Grows AllStored
  after_entry-AllStored vs rest entry codes code none s g a h q = (
    lasting entry s.log _ (g (append_updated_trip_code codes code) s) (h refl),
    a (append_updated_trip_code codes code) s q,
  )
  after_entry-AllStored vs rest entry codes code (some e) s g a h q = absurd (cc q)

  failed : {A : Type 0} {e : GoError} → some e ≡ none → A
  failed q = absurd (cc q)

  store_value-AllStored :
      (vs : List Value) (rest : Loop) (v : Value)
      → Grows rest
      → AllStored vs rest
      → AllStored (v ∷ vs) (λ codes. store_value store rest codes v)
  unfolding store_value AllStored
  store_value-AllStored vs rest (obj entry) g a codes s h =
      let (stored, others) =
        after_entry-AllStored vs rest entry codes (string_field entry "tripCode") (store entry s).0
          (store entry s).1 g a ((ensures entry).gives s) h in
      ((entry, refl, stored), others)
  store_value-AllStored vs rest null g a codes s h = failed h
  store_value-AllStored vs rest (bool b) g a codes s h = failed h
  store_value-AllStored vs rest (num n) g a codes s h = failed h
  store_value-AllStored vs rest (str t) g a codes s h = failed h
  store_value-AllStored vs rest (arr xs) g a codes s h = failed h

  store_entries-AllStored : (vs : List Value) → AllStored vs (store_entries store vs)
  unfolding store_entries AllStored
  store_entries-AllStored [] codes s h = tt
  store_entries-AllStored (v ∷ vs) codes s h =
      store_value-AllStored vs (store_entries store vs) v (Grows-store_entries vs)
        (store_entries-AllStored vs) codes s h

  -- A loop over the entries that ends without an error has stored every entry.
  pub store_entries-All :
      (vs : List Value) (codes : List String) (s : Run W)
      → (store_entries store vs codes s).0.1 ≡ none
      → All (IsStored (store_entries store vs codes s).1.log) vs
  unfolding AllStored
  store_entries-All = store_entries-AllStored

  Reports : List Value → Loop → Type 0
  Reports vs rest =
      (codes : List String) (s : Run W) (c : String)
      → elem c (rest codes s).0.0 ≡ true
      → (elem c codes ≡ true) ⊎ Any (IsReported c (rest codes s).1.log) vs

  after_entry-Reports :
      (vs : List Value) (rest : Loop) (entry : Members) (codes : List String) (code c : String)
      (e : Option GoError) (s : Run W)
      → Grows rest
      → Reports vs rest
      → (e ≡ none → Stored entry s.log)
      → elem c (after_entry rest codes code e s).0.0 ≡ true
      → (elem c codes ≡ true)
        ⊎ (((trim_space code ≡ c) × Stored entry (after_entry rest codes code e s).1.log)
            ⊎ Any (IsReported c (after_entry rest codes code e s).1.log) vs)
  unfolding after_entry Grows Reports
  after_entry-Reports vs rest entry codes code c none s g r h q =
      elim (r (append_updated_trip_code codes code) s c q) [
        | inr others ↦ inr (inr others)
        | inl now ↦ elim (elem-append_updated c code codes now) [
          | inl before ↦ inl before
          | inr same ↦ inr (
              inl
                (same, lasting entry s.log _ (g (append_updated_trip_code codes code) s) (h refl)))
        ]
      ]
  after_entry-Reports vs rest entry codes code c (some e) s g r h q = inl q

  store_value-Reports :
      (vs : List Value) (rest : Loop) (v : Value)
      → Grows rest
      → Reports vs rest
      → Reports (v ∷ vs) (λ codes. store_value store rest codes v)
  unfolding store_value Reports
  store_value-Reports vs rest (obj entry) g r codes s c h =
      elim (after_entry-Reports vs rest entry codes (string_field entry "tripCode") c
        (store entry s).0 (store entry s).1 g r ((ensures entry).gives s) h) [
          | inl before ↦ inl before
          | inr (inl (same, stored)) ↦ inr (inl (entry, refl, same, stored))
          | inr (inr others) ↦ inr (inr others)
        ]
  store_value-Reports vs rest null g r codes s c h = inl h
  store_value-Reports vs rest (bool b) g r codes s c h = inl h
  store_value-Reports vs rest (num n) g r codes s c h = inl h
  store_value-Reports vs rest (str t) g r codes s c h = inl h
  store_value-Reports vs rest (arr xs) g r codes s c h = inl h

  store_entries-Reports : (vs : List Value) → Reports vs (store_entries store vs)
  unfolding store_entries Reports
  store_entries-Reports [] codes s c h = inl h
  store_entries-Reports (v ∷ vs) codes s c h =
      store_value-Reports vs (store_entries store vs) v (Grows-store_entries vs)
        (store_entries-Reports vs) codes s c h

  -- Whether or not the loop fails, a trip code that it reports is that of an entry it has stored.
  pub store_entries-IsReported :
      (vs : List Value) (s : Run W) (c : String)
      → elem c (store_entries store vs [] s).0.0 ≡ true
      → Any (IsReported c (store_entries store vs [] s).1.log) vs
  unfolding Reports
  store_entries-IsReported vs s c h = elim (store_entries-Reports vs [] s c h) [
    | inl none_before ↦ absurd (cc none_before)
    | inr found ↦ found
  ]

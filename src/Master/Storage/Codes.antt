-- ===== src/Master/Storage/Codes.antt =====
-- The trip codes that the loop over the entries reports
-- (orbitplus/internal/application/master/tripdetails_storage_coordinator.go).
use orbitplus.Common.{
  String, ◌≡◌, refl, Bool, true, false, not, Option, none, some, List, [], ◌∷◌, ◌++◌, ◌&&◌, elem,
  eq_iff, arith,
}
use orbitplus.Common.Text.{trim_space}
use orbitplus.Json.{Value, Members, obj, null, bool, num, str, arr}
use orbitplus.Master.Errors.{GoError}
use orbitplus.Master.Metadata.{string_field}
use orbitplus.Master.Exec.{M, Run}
use orbitplus.Master.Storage.{append_updated_trip_code, after_entry, store_value, store_entries}
use orbitplus.Master.Storage.Entries.{elem-snoc}

-- No code is in the list twice.
unfoldable pub no_repeat : List String → Bool
no_repeat [] = true
no_repeat (c ∷ cs) = not (elem c cs) && no_repeat cs

no_repeat-snoc :
    (x : String) (cs : List String)
    → no_repeat cs ≡ true
    → elem x cs ≡ false
    → no_repeat (cs ++ (x ∷ [])) ≡ true
unfolding no_repeat
no_repeat-snoc x [] h f = refl
no_repeat-snoc x (c ∷ cs) h f =
    ground (arith, no_repeat-snoc x cs, elem-snoc c x cs, eq_iff x c, eq_iff c x)

no_repeat-append_updated :
    (codes : List String) (code : String)
    → no_repeat codes ≡ true
    → no_repeat (append_updated_trip_code codes code) ≡ true
unfolding append_updated_trip_code
no_repeat-append_updated codes code h = ground (arith, no_repeat-snoc (trim_space code) codes h)

-- The loop reports no trip code twice.
module _ {W : Type 0} (store : Members → M W (Option GoError)) where
  Distinct : (List String → M W (List String × Option GoError)) → Type 0
  Distinct rest =
      (codes : List String) (s : Run W)
      → no_repeat codes ≡ true
      → no_repeat (rest codes s).0.0 ≡ true

  after_entry-Distinct :
      (rest : List String → M W (List String × Option GoError)) (codes : List String)
      (code : String) (e : Option GoError) (s : Run W)
      → Distinct rest
      → no_repeat codes ≡ true
      → no_repeat (after_entry rest codes code e s).0.0 ≡ true
  unfolding after_entry Distinct
  after_entry-Distinct rest codes code none s g h =
      g (append_updated_trip_code codes code) s (no_repeat-append_updated codes code h)
  after_entry-Distinct rest codes code (some e) s g h = h

  store_value-Distinct :
      (rest : List String → M W (List String × Option GoError)) (v : Value)
      → Distinct rest
      → Distinct (λ codes. store_value store rest codes v)
  unfolding store_value Distinct
  store_value-Distinct rest (obj entry) g codes s h =
      after_entry-Distinct rest codes (string_field entry "tripCode") (store entry s).0
        (store entry s).1 g h
  store_value-Distinct rest null g codes s h = h
  store_value-Distinct rest (bool b) g codes s h = h
  store_value-Distinct rest (num n) g codes s h = h
  store_value-Distinct rest (str t) g codes s h = h
  store_value-Distinct rest (arr xs) g codes s h = h

  pub store_entries-no_repeat :
      (vs : List Value) (codes : List String) (s : Run W)
      → no_repeat codes ≡ true
      → no_repeat (store_entries store vs codes s).0.0 ≡ true
  unfolding store_entries Distinct
  store_entries-no_repeat [] codes s h = h
  store_entries-no_repeat (v ∷ vs) codes s h =
      store_value-Distinct (store_entries store vs) v (store_entries-no_repeat vs) codes s h

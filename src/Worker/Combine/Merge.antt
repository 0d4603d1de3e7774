-- ===== src/Worker/Combine/Merge.antt =====
-- What a merge holds
-- (orbitplusworker/internal/application/worker/search_busmap.go, mergeJSONObjects).
use mathlib.Core.Path.{subst}
use orbitplus.Common.{
  String, ◌≡◌, refl, Bool, true, false, Option, none, some, arith, str_eq, eq_iff, ap, ◌∙◌,
  if◌then◌else◌, Bool-cases, inl, inr,
}
use orbitplus.Json.{
  Value, Items, Members, null, bool, num, str, arr, obj, nil, cons, end, member, get, set, has,
  is_map, as_object, as_text,
}
use orbitplus.Common.Text.{trim_space, is_empty}
use orbitplus.Worker.Errors.{GoError, GoResult, ok, err}
use orbitplus.Json.Laws.{get-set, get-member, is_map-member}
use orbitplus.Worker.Combine.{
  search_entry_identifiers, identifiers_of, text_field, nested_text_field, clone_value, clone_items,
  clone_object, merge_objects, merge_value, set_nested_code, combine, SearchBusMapIdentifiers,
}

mutual
  unfolding clone_value

  pub clone_value-eq : (v : Value) → clone_value v ≡ v
  clone_value-eq null = refl
  clone_value-eq (bool b) = refl
  clone_value-eq (num n) = refl
  clone_value-eq (str s) = refl
  clone_value-eq (arr xs) = ap arr (clone_items-eq xs)
  clone_value-eq (obj m) = ap obj (clone_object-eq m)

  clone_items-eq : (xs : Items) → clone_items xs ≡ xs
  clone_items-eq nil = refl
  clone_items-eq (cons v vs) = cc (clone_value-eq v, clone_items-eq vs)

  pub clone_object-eq : (m : Members) → clone_object m ≡ m
  clone_object-eq end = refl
  clone_object-eq (member k v m) = cc (clone_value-eq v, clone_object-eq m)

-- One step of the merge.
pub get-merge_member :
    (k j : String) (v : Value) (base rest : Members)
    → get k (merge_objects base (member j v rest)) ≡ (
        if str_eq j k
        then some (merge_value (get j (merge_objects base rest)) v)
        else get k (merge_objects base rest))
unfolding merge_objects
get-merge_member k j v base rest = rw get-set

pub get-merge_absent :
    (k : String) (base overlay : Members)
    → has k overlay ≡ false
    → get k (merge_objects base overlay) ≡ get k base
unfolding has
get-merge_absent k base end h = unfold merge_objects in ap (get k) (clone_object-eq base)
get-merge_absent k base (member j v rest) h =
    get-merge_member k j v base rest ∙ ground (arith, get-merge_absent k base rest)

-- What a merge holds at a key: the overlay's value, merged into the base's where both are objects,
-- and the base's value where the overlay has none.
abbrev pub merged : Option Value → Option Value → Option Value
merged b none = b
merged b (some v) = some (merge_value b v)

pub get-merge :
    (k : String) (base overlay : Members)
    → is_map overlay ≡ true
    → get k (merge_objects base overlay) ≡ merged (get k base) (get k overlay)
get-merge k base end h = unfold merge_objects get in ap (get k) (clone_object-eq base)
get-merge k base (member j v rest) h =
    let (fresh, ok_rest) = is_map-member j v rest h in
    rw (get-merge_member, get-member)
      (elim (Bool-cases (str_eq j k)) [
        | inl same ↦
            rw (same, (eq_iff j k).0 same)
              (rw (
                get-merge_absent k base rest
                  (subst (λ x. has x rest ≡ false) ((eq_iff j k).0 same) fresh)))
        | inr other ↦ rw other (get-merge k base rest ok_rest)
      ])

module _ (search_entry busmap_entry : Members) (ids : SearchBusMapIdentifiers) where
  combined_set_nested :
      (k field code : String) (m : Members)
      → get k (set_nested_code m field code) ≡ (
          if str_eq field k
          then some (obj (set "code" (str code) (as_object (get field m))))
          else get k m)
  unfolding set_nested_code
  combined_set_nested k field code m = rw (get-set, clone_object-eq)

  combined_ids :
      let c = combine search_entry busmap_entry ids in
      (get "tripCode" c ≡ some (str ids.trip_code))
      × (get "tripStageCode" c ≡ some (str ids.trip_stage_code))
      × (get "travelDate" c ≡ some (str ids.travel_date))
      × (get "code" (as_object (get "fromStation" c)) ≡ some (str ids.from_code))
      × (get "code" (as_object (get "toStation" c)) ≡ some (str ids.to_code))
  unfolding combine
  combined_ids = (
    simp (combined_set_nested, get-set),
    simp (combined_set_nested, get-set),
    simp (combined_set_nested, get-set),
    simp (combined_set_nested, get-set),
    simp (combined_set_nested, get-set),
  )

  -- Every other member is that of the plain merge.
  pub combine_other :
      (k : String)
      → str_eq "tripCode" k ≡ false
      → str_eq "tripStageCode" k ≡ false
      → str_eq "travelDate" k ≡ false
      → str_eq "fromStation" k ≡ false
      → str_eq "toStation" k ≡ false
      → get k (combine search_entry busmap_entry ids)
        ≡ get k (merge_objects search_entry busmap_entry)
  unfolding combine
  combine_other k a b c d e = simp (combined_set_nested, get-set, a, b, c, d, e)

-- The text under `key`, and under `key` of the object under `parent`, without the space around it.
abbrev pub trimmed : String → Members → String
trimmed key m = trim_space (as_text (get key m))

abbrev pub code_of : String → Members → String
code_of parent m = trim_space (as_text (get "code" (as_object (get parent m))))

-- The entry carries the five identifiers of the Search entry.
abbrev pub CarriesIdentity : Members → Members → Type 0
CarriesIdentity search_entry c =
    (get "tripCode" c ≡ some (str (trimmed "tripCode" search_entry)))
    × (get "tripStageCode" c ≡ some (str (trimmed "tripStageCode" search_entry)))
    × (get "travelDate" c ≡ some (str (trimmed "travelDate" search_entry)))
    × (get "code" (as_object (get "fromStation" c))
        ≡ some (str (code_of "fromStation" search_entry)))
    × (get "code" (as_object (get "toStation" c)) ≡ some (str (code_of "toStation" search_entry)))

identifiers_of-CarriesIdentity :
    (search_entry busmap_entry : Members)
    → CarriesIdentity search_entry (combine search_entry busmap_entry (identifiers_of search_entry))
unfolding text_field nested_text_field
identifiers_of-CarriesIdentity search_entry busmap_entry =
    combined_ids search_entry busmap_entry (identifiers_of search_entry)

pub later-if :
    {A : Type 0} (b : Bool) (e : GoError) (r : GoResult A) (a : A)
    → (if b then err e else r) ≡ ok a
    → r ≡ ok a
later-if true e r a h = absurd (cc h)
later-if false e r a h = h

identifiers-ok :
    (entry : Members) (ids : SearchBusMapIdentifiers)
    → search_entry_identifiers entry ≡ ok ids
    → identifiers_of entry ≡ ids
unfolding search_entry_identifiers
identifiers-ok entry ids h =
    let found : SearchBusMapIdentifiers = identifiers_of entry in
    ap (λ r. elim r [ ok x ↦ x | err e ↦ ids ])
      (later-if (is_empty found.to_code) _ (ok found) ids (
        later-if (is_empty found.from_code) _ _ ids (
          later-if (is_empty found.travel_date) _ _ ids (
            later-if (is_empty found.trip_stage_code) _ _ ids
              (later-if (is_empty found.trip_code) _ _ ids h)))))

-- Whatever the BusMap response holds, the entry that is combined with the identifiers read from the
-- Search entry carries the trip code, stage code, travel date and both station codes of the Search
-- entry.
pub combine_identity :
    (search_entry busmap_entry : Members) (ids : SearchBusMapIdentifiers)
    → search_entry_identifiers search_entry ≡ ok ids
    → CarriesIdentity search_entry (combine search_entry busmap_entry ids)
combine_identity search_entry busmap_entry ids h =
    subst (λ i. CarriesIdentity search_entry (combine search_entry busmap_entry i))
      (identifiers-ok search_entry ids h) (identifiers_of-CarriesIdentity search_entry busmap_entry)

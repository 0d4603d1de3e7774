-- ===== src/Worker/Combine/Deep.antt =====
-- Merging at every depth
-- (orbitplusworker/internal/application/worker/search_busmap.go, mergeJSONObjects).
use mathlib.Core.Path.{subst}
use orbitplus.Common.{
  String, ◌≡◌, refl, true, false, Bool, ◌&&◌, and_true, Option, none, some, str_eq, eq_iff,
  Bool-cases, inl, inr,
}
use orbitplus.Json.{Value, Members, null, bool, num, str, arr, obj, end, member, get, has, is_map}
use orbitplus.Json.Laws.{get-member, is_map-member}
use orbitplus.Worker.Combine.{clone_value, clone_object, merge_objects, merge_value}
use orbitplus.Worker.Combine.Merge.{
  clone_object-eq, clone_value-eq, get-merge_member, get-merge_absent,
}

abbrev pub IsObject : Option Value → Type 0
IsObject (some (obj m)) = Unit
IsObject _ = ⊥

-- What a merge leaves under a key, by what the base and the overlay have there.
pub data IsMerged : Option Value → Option Value → Option Value → Type 0 where
  -- The overlay has no value: the one of the base stays.
  kept : (b : Option Value) → IsMerged b none b
  -- One of the two is no object: the overlay's value takes the place.
  replaced :
      (b : Option Value) (v : Value)
      → ((IsObject b × IsObject (some v)) → ⊥)
      → IsMerged b (some v) (some v)
  -- Both are objects: so is the result, and it is merged under each key.
  merged :
      (b o r : Members)
      → ((k : String) → IsMerged (get k b) (get k o) (get k r))
      → IsMerged (some (obj b)) (some (obj o)) (some (obj r))

-- No object in the value has a key twice; values in arrays are not merged.
unfoldable mutual
  pub is_deep_map : Members → Bool
  is_deep_map end = true
  is_deep_map (member k v m) = is_map (member k v m) && is_deep_value v && is_deep_map m

  pub is_deep_value : Value → Bool
  is_deep_value (obj m) = is_deep_map m
  is_deep_value _ = true

is_deep_map-member :
    (k : String) (v : Value) (m : Members)
    → is_deep_map (member k v m) ≡ true
    → (has k m ≡ false) × (is_deep_value v ≡ true) × (is_deep_map m ≡ true)
unfolding is_deep_map
is_deep_map-member k v m h =
    let (h1, rest) = and_true (is_map (member k v m) && is_deep_value v) (is_deep_map m) h in
    let (is_member, deep) = and_true (is_map (member k v m)) (is_deep_value v) h1 in
    ((is_map-member k v m is_member).0, deep, rest)

-- A value that is no object takes the place of any other, and so does an object where the base has none.
replaced_plain :
    (b : Option Value) (v : Value)
    → (IsObject (some v) → ⊥)
    → merge_value b v ≡ clone_value v
    → IsMerged b (some v) (some (merge_value b v))
replaced_plain b v plain e = rw (e, clone_value-eq v) (replaced b v (λ x. plain x.1))

replaced_object :
    (b : Option Value) (o : Members)
    → (IsObject b → ⊥)
    → IsMerged b (some (obj o)) (some (obj (clone_object o)))
replaced_object b o other = rw (clone_object-eq o) (replaced b (obj o) (λ x. other x.0))

merge_value-plain :
    (b : Option Value) (v : Value) → (IsObject (some v) → ⊥) → merge_value b v ≡ clone_value v
unfolding merge_value
merge_value-plain b (obj o) plain = absurd (plain tt)
merge_value-plain (some (obj b)) v plain = refl
merge_value-plain _ v plain = refl

merged_end :
    (k : String) (base : Members)
    → IsMerged (get k base) (get k end) (get k (merge_objects base end))
unfolding get merge_objects
merged_end k base = rw (clone_object-eq base) (kept (get k base))

merged_member :
    (k j : String) (v : Value) (base rest : Members)
    → has j rest ≡ false
    → IsMerged (get k base) (some v) (some (merge_value (get k base) v))
    → IsMerged (get k base) (get k rest) (get k (merge_objects base rest))
    → IsMerged (get k base) (get k (member j v rest)) (get k (merge_objects base (member j v rest)))
merged_member k j v base rest fresh head tail =
    rw (get-merge_member, get-member)
      (elim (Bool-cases (str_eq j k)) [
        | inl same ↦
            rw
              (
                same,
                (eq_iff j k).0 same,
                get-merge_absent k base rest
                    (subst (λ x. has x rest ≡ false) ((eq_iff j k).0 same) fresh),
              )
              head
        | inr other ↦ rw other tail
      ])

mutual
  unfolding merge_value is_deep_value

  merge_value-IsMerged :
      (b : Option Value) (v : Value)
      → is_deep_value v ≡ true
      → IsMerged b (some v) (some (merge_value b v))
  merge_value-IsMerged (some (obj b)) (obj o) h =
      merged b o (merge_objects b o) (merge_members-IsMerged b o h)
  merge_value-IsMerged none (obj o) h = replaced_object none o (λ x. x)
  merge_value-IsMerged (some null) (obj o) h = replaced_object (some null) o (λ x. x)
  merge_value-IsMerged (some (bool x)) (obj o) h = replaced_object (some (bool x)) o (λ x. x)
  merge_value-IsMerged (some (num x)) (obj o) h = replaced_object (some (num x)) o (λ x. x)
  merge_value-IsMerged (some (str x)) (obj o) h = replaced_object (some (str x)) o (λ x. x)
  merge_value-IsMerged (some (arr x)) (obj o) h = replaced_object (some (arr x)) o (λ x. x)
  merge_value-IsMerged b null h = replaced_plain b null (λ x. x) (merge_value-plain b null (λ x. x))
  merge_value-IsMerged b (bool x) h =
      replaced_plain b (bool x) (λ x. x) (merge_value-plain b (bool x) (λ x. x))
  merge_value-IsMerged b (num x) h =
      replaced_plain b (num x) (λ x. x) (merge_value-plain b (num x) (λ x. x))
  merge_value-IsMerged b (str x) h =
      replaced_plain b (str x) (λ x. x) (merge_value-plain b (str x) (λ x. x))
  merge_value-IsMerged b (arr x) h =
      replaced_plain b (arr x) (λ x. x) (merge_value-plain b (arr x) (λ x. x))

  merge_members-IsMerged :
      (base overlay : Members)
      → is_deep_map overlay ≡ true
      → (k : String) → IsMerged (get k base) (get k overlay) (get k (merge_objects base overlay))
  merge_members-IsMerged base end h k = merged_end k base
  merge_members-IsMerged base (member j v rest) h k =
      let (fresh, deep, deep_rest) = is_deep_map-member j v rest h in
      merged_member k j v base rest fresh (merge_value-IsMerged (get k base) v deep)
        (merge_members-IsMerged base rest deep_rest k)

-- When no object of the overlay has a key twice, a merge holds under each key, and so on at every
-- depth: the value of the base where the overlay has none, the merge of the two values where both are
-- objects, and the value of the overlay otherwise.
pub merge_objects-IsMerged :
    (base overlay : Members)
    → is_deep_map overlay ≡ true
    → (k : String) → IsMerged (get k base) (get k overlay) (get k (merge_objects base overlay))
merge_objects-IsMerged = merge_members-IsMerged

-- ===== src/Master/Keys/Apart.antt =====
-- Keys of different content are different
-- (orbitplus/internal/application/master/tripdetails_cache_storage.go).
use Prim.Native.String.{◌++◌}
use orbitplus.Common.Separator.{append-first_separator}
use text.Mathlib.TextLemmas.{append_assoc}
use orbitplus.Common.{
  String, Option, ◌≡◌, ◌≢◌, refl, sym, ◌∙◌, false, none, some, List, [], ◌∷◌, arith, str_eq,
  eq_refl,
}
use orbitplus.Common.Text.{contains}
use orbitplus.Master.Errors.{GoError, GoResult, ok, ◌>>◌}
use orbitplus.Master.Keys.{
  colon, require_key_components, build_trip_key, build_stage_key, build_busmap_key,
}

-- What a key made of accepted components says of its first component.
accepted-no_colon :
    (v : String) (vs : List String)
    → require_key_components (v ∷ vs) ≡ none
    → (contains colon v ≡ false) × (require_key_components vs ≡ none)
unfolding require_key_components
accepted-no_colon v vs h = (ground arith, ground arith)

-- `step >> ok body` returned this value, so the step passed.
ok-passed :
    (o : Option GoError) (body key : String) → (o >> ok body) ≡ ok key → (o ≡ none) × (body ≡ key)
ok-passed none body key h = (refl, cc)
ok-passed (some e) body key h = absurd (cc h)

texts-ne : {a b : String} → str_eq a b ≡ false → a ≢ b
texts-ne {a} {b} h e = ground (arith, eq_refl a, e)

-- Two keys with the same text are of the same kind and agree after it.
kind_colon :
    (kind kind' x y k : String)
    → contains colon kind ≡ false
    → contains colon kind' ≡ false
    → (kind ++ ":") ++ x ≡ k
    → (kind' ++ ":") ++ y ≡ k
    → (kind ≡ kind') × (x ≡ y)
kind_colon kind kind' x y k h h' e e' =
    append-first_separator ":" kind kind' x y h h'
      (sym (append_assoc kind ":" x) ∙ e ∙ sym e' ∙ append_assoc kind' ":" y)

two_components :
    (o t o' t' : String)
    → require_key_components (o ∷ t ∷ []) ≡ none
    → require_key_components (o' ∷ t' ∷ []) ≡ none
    → o ++ (":" ++ t) ≡ o' ++ (":" ++ t')
    → (o ≡ o') × (t ≡ t')
two_components o t o' t' p p' e =
    append-first_separator ":" o o' t t' (accepted-no_colon o _ p).0 (accepted-no_colon o' _ p').0 e

three_components :
    (o t g o' t' g' : String)
    → require_key_components (o ∷ t ∷ g ∷ []) ≡ none
    → require_key_components (o' ∷ t' ∷ g' ∷ []) ≡ none
    → o ++ (":" ++ (t ++ (":" ++ g))) ≡ o' ++ (":" ++ (t' ++ (":" ++ g')))
    → (o ≡ o') × ((t ≡ t') × (g ≡ g'))
three_components o t g o' t' g' p p' e =
    let a = accepted-no_colon o _ p in
    let a' = accepted-no_colon o' _ p' in
    let (eo, rest) = append-first_separator ":" o o' _ _ a.0 a'.0 e in
    (eo, two_components t g t' g' a.1 a'.1 rest)

-- What a key stands for: content of a kind, named by its components.
pub data Content : Type 0 where
  trip : String → String → Content
  stage : String → String → String → Content
  busmap : String → String → String → Content

unfoldable pub key_of : Content → GoResult String
key_of (trip o t) = build_trip_key o t
key_of (stage o t g) = build_stage_key o t g
key_of (busmap o t g) = build_busmap_key o t g

abbrev kind_of : Content → String
kind_of (trip o t) = "trip"
kind_of (stage o t g) = "stage"
kind_of (busmap o t g) = "busmap"

abbrev components : Content → List String
components (trip o t) = o ∷ t ∷ []
components (stage o t g) = o ∷ t ∷ g ∷ []
components (busmap o t g) = o ∷ t ∷ g ∷ []

abbrev body : Content → String
body (trip o t) = o ++ (":" ++ t)
body (stage o t g) = o ++ (":" ++ (t ++ (":" ++ g)))
body (busmap o t g) = o ++ (":" ++ (t ++ (":" ++ g)))

kind_of-no_colon : (x : Content) → contains colon (kind_of x) ≡ false
unfolding contains
kind_of-no_colon (trip o t) = refl
kind_of-no_colon (stage o t g) = refl
kind_of-no_colon (busmap o t g) = refl

key_of-parts :
    (x : Content) (k : String)
    → key_of x ≡ ok k
    → (require_key_components (components x) ≡ none) × ((kind_of x ++ ":") ++ body x ≡ k)
unfolding key_of build_trip_key build_stage_key build_busmap_key
key_of-parts (trip o t) k h = ok-passed (require_key_components (o ∷ t ∷ [])) _ k h
key_of-parts (stage o t g) k h = ok-passed (require_key_components (o ∷ t ∷ g ∷ [])) _ k h
key_of-parts (busmap o t g) k h = ok-passed (require_key_components (o ∷ t ∷ g ∷ [])) _ k h

same_kind :
    (x y : Content)
    → require_key_components (components x) ≡ none
    → require_key_components (components y) ≡ none
    → kind_of x ≡ kind_of y
    → body x ≡ body y
    → x ≡ y
same_kind (trip o t) (trip o' t') p q e f = let (a, b) = two_components o t o' t' p q f in cc (a, b)
same_kind (stage o t g) (stage o' t' g') p q e f =
    let (a, b) = three_components o t g o' t' g' p q f in cc (a, b.0, b.1)
same_kind (busmap o t g) (busmap o' t' g') p q e f =
    let (a, b) = three_components o t g o' t' g' p q f in cc (a, b.0, b.1)
same_kind (trip o t) (stage o' t' g') p q e f = absurd (texts-ne refl e)
same_kind (trip o t) (busmap o' t' g') p q e f = absurd (texts-ne refl e)
same_kind (stage o t g) (trip o' t') p q e f = absurd (texts-ne refl e)
same_kind (stage o t g) (busmap o' t' g') p q e f = absurd (texts-ne refl e)
same_kind (busmap o t g) (trip o' t') p q e f = absurd (texts-ne refl e)
same_kind (busmap o t g) (stage o' t' g') p q e f = absurd (texts-ne refl e)

-- Two contents that are given the same key are of the same kind and have the same operator, trip
-- and stage code.
pub key_of-inj : (x y : Content) (k : String) → key_of x ≡ ok k → key_of y ≡ ok k → x ≡ y
key_of-inj x y k h h' =
    let (p, e) = key_of-parts x k h in
    let (p', e') = key_of-parts y k h' in
    let (same, rest) =
      kind_colon (kind_of x) (kind_of y) (body x) (body y) k (kind_of-no_colon x)
        (kind_of-no_colon y) e e' in
    same_kind x y p p' same rest

-- ===== src/Master/Compare/Canonical.antt =====
-- JSON values in a form in which representation does not matter, and their renderings
-- (orbitplus/internal/application/master/cache_freshness_comparator.go).
use Prim.Native.String.{compare, ◌++◌ as join}
use Prim.Native.Nat.{Ordering}
use orbitplus.Common.{ℕ, String, Bool, true, false, Option, none, some, if◌then◌else◌}
use orbitplus.Json.{Value, Items, Members, null, bool, num, str, arr, obj, nil, cons, end, member}

-- What the comparison takes from math/big and strconv: the text of the reduced fraction of a JSON
-- number, `none` for a text that is no number, a quoted text, a decimal number.
pub record Formats : Type 0 where
  pub rat_string : String → Option String
  pub quote : String → String
  pub itoa : ℕ → String

mutual
  pub data CanonicalValue : Type 0 where
    canonical_null : CanonicalValue
    canonical_bool : Bool → CanonicalValue
    canonical_string : String → CanonicalValue
    canonical_number : String → CanonicalValue
    canonical_array : Elements → CanonicalValue
    canonical_object : Fields → CanonicalValue

  pub data Elements : Type 0 where
    none_left : Elements
    element : CanonicalValue → Elements → Elements

  -- The members of an object, sorted by name.
  pub data Fields : Type 0 where
    no_field : Fields
    field : String → CanonicalValue → Fields → Fields

unfoldable pub is_empty_value : CanonicalValue → Bool
is_empty_value canonical_null = true
is_empty_value (canonical_array none_left) = true
is_empty_value (canonical_object no_field) = true
is_empty_value _ = false

-- name < other, bytewise
unfoldable pub comes_before : String → String → Bool
comes_before name other = elim (compare name other) [ Ordering.lt ↦ true | _ ↦ false ]

unfoldable pub insert_field : String → CanonicalValue → Fields → Fields
insert_field name v no_field = field name v no_field
insert_field name v (field other w fields) =
    if comes_before other name
    then field other w (insert_field name v fields)
    else field name v (field other w fields)

-- A number by its fraction, and by its text where it has none.
abbrev pub number_or_text : String → Option String → CanonicalValue
number_or_text n none = canonical_string n
number_or_text n (some fraction) = canonical_number fraction

module _ (f : Formats) where
  -- canonicalise; a member that is null is left out.
  unfoldable mutual
    pub canonicalise : Value → CanonicalValue
    canonicalise null = canonical_null
    canonicalise (bool b) = canonical_bool b
    canonicalise (num n) = number_or_text n (f.rat_string n)
    canonicalise (str s) = canonical_string s
    canonicalise (arr xs) = canonical_array (canonicalise_items xs)
    canonicalise (obj m) = canonical_object (canonicalise_members m)

    pub canonicalise_items : Items → Elements
    canonicalise_items nil = none_left
    canonicalise_items (cons v vs) = element (canonicalise v) (canonicalise_items vs)

    pub canonicalise_members : Members → Fields
    canonicalise_members end = no_field
    canonicalise_members (member k null m) = canonicalise_members m
    canonicalise_members (member k v m) = insert_field k (canonicalise v) (canonicalise_members m)

  unfoldable mutual
    pub render : CanonicalValue → String
    render canonical_null = "null"
    render (canonical_bool true) = "true"
    render (canonical_bool false) = "false"
    render (canonical_string s) = f.quote s
    render (canonical_number n) = n
    render (canonical_array none_left) = "[]"
    render (canonical_array (element v vs)) =
        join "[" (join (render v) (join (render_elements vs) "]"))
    render (canonical_object no_field) = "{}"
    render (canonical_object (field k v fs)) =
        join "{" (join (f.quote k) (join ":" (join (render v) (join (render_fields fs) "}"))))

    -- The rest of the parts, each after a comma.
    pub render_elements : Elements → String
    render_elements none_left = ""
    render_elements (element v vs) = join "," (join (render v) (render_elements vs))

    pub render_fields : Fields → String
    render_fields no_field = ""
    render_fields (field k v fs) =
        join "," (join (f.quote k) (join ":" (join (render v) (render_fields fs))))

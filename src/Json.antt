-- ===== src/Json.antt =====
-- JSON values as encoding/json decodes them: `any`, `[]any` and `map[string]any`. A map is its list
-- of members; what the program does with a map goes through `get`, `set` and `delete`, and the order
-- of the members stands for the order in which Go ranges over the map. Numbers are kept as text
-- (json.Number).
pub mod Laws
use Prim.Native.String.{[]}
use orbitplus.Common.{
  String, Bool, true, false, Option, none, some, List, ◌∷◌, not, ◌||◌, ◌&&◌, str_eq, if◌then◌else◌,
}
use orbitplus.Common.Text.{trim_space}
use mathlib.Core.List

mutual
  pub data Value : Type 0 where
    null : Value
    bool : Bool → Value
    num : String → Value
    str : String → Value
    arr : Items → Value
    obj : Members → Value

  pub data Items : Type 0 where
    nil : Items
    cons : Value → Items → Items

  pub data Members : Type 0 where
    end : Members
    member : String → Value → Members → Members

-- object[key], with `none` for a missing key
unfoldable pub get : String → Members → Option Value
get k end = none
get k (member j v m) = if str_eq j k then some v else get k m

-- object[key] = value
unfoldable pub set : String → Value → Members → Members
set k v end = member k v end
set k v (member j w m) = if str_eq j k then member k v m else member j w (set k v m)

-- delete(object, key)
unfoldable pub delete : String → Members → Members
delete k end = end
delete k (member j v m) = let rest = delete k m in if str_eq j k then rest else member j v rest

unfoldable pub has : String → Members → Bool
has k end = false
has k (member j v m) = str_eq j k || has k m

-- No key twice, as in every Go map.
unfoldable pub is_map : Members → Bool
is_map end = true
is_map (member k v m) = not (has k m) && is_map m

unfoldable pub from_list : List Value → Items
from_list List.[] = nil
from_list (v ∷ vs) = cons v (from_list vs)

unfoldable pub to_list : Items → List Value
to_list nil = List.[]
to_list (cons v vs) = v ∷ to_list vs

-- value.(string), "" when it is something else
abbrev pub as_text : Option Value → String
as_text (some (str s)) = s
as_text _ = ""

-- value.(map[string]any), the nil map when it is something else; a nil map reads as an empty one
abbrev pub as_object : Option Value → Members
as_object (some (obj m)) = m
as_object _ = end

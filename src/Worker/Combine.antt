-- ===== src/Worker/Combine.antt =====
-- The JSON half of the searchbusmap workflow: reading a Search and a BusMap response and merging
-- their entries (orbitplusworker/internal/application/worker/search_busmap.go).
pub mod Merge
pub mod Deep
use orbitplus.Common.{
  ℕ, zero, suc, ◌+◌, String, Bool, true, false, Option, none, some, List, [], ◌∷◌, ◌&&◌, ◌||◌, not,
  str_eq, if◌then◌else◌, map,
}
use orbitplus.Common.Text.{trim_space, is_empty}
use orbitplus.Json.{
  Value, Items, Members, null, bool, num, str, arr, obj, nil, cons, end, member, get, set, delete,
  has, as_text, as_object,
}
use orbitplus.Worker.Errors.{
  GoError, GoResult, ok, err, other, missing, mismatch, at_entry, wrapped, wrap_error, ◌>>=◌, ◌>>◌,
}
use orbitplus.Worker.Deps.{Codec, DecodeStep, value, end_of_input, malformed}

-- cloneJSONValue and cloneJSONObject
unfoldable mutual
  pub clone_value : Value → Value
  clone_value null = null
  clone_value (bool b) = bool b
  clone_value (num n) = num n
  clone_value (str s) = str s
  clone_value (arr xs) = arr (clone_items xs)
  clone_value (obj m) = obj (clone_object m)

  pub clone_items : Items → Items
  clone_items nil = nil
  clone_items (cons v vs) = cons (clone_value v) (clone_items vs)

  pub clone_object : Members → Members
  clone_object end = end
  clone_object (member k v m) = member k (clone_value v) (clone_object m)

-- mergeJSONObjects; the keys of `overlay` differ, so the order in which they are visited is free,
-- and here the last one comes first.
unfoldable mutual
  pub merge_objects : Members → Members → Members
  merge_objects base end = clone_object base
  merge_objects base (member k v rest) =
      let result = merge_objects base rest in set k (merge_value (get k result) v) result

  pub merge_value : Option Value → Value → Value
  merge_value (some (obj b)) (obj o) = obj (merge_objects b o)
  merge_value _ (obj o) = obj (clone_object o)
  merge_value _ v = clone_value v

-- textField and nestedTextField
unfoldable pub text_field : Members → String → String
text_field object key = trim_space (as_text (get key object))

unfoldable pub nested_text_field : Members → String → String → String
unfolding text_field
nested_text_field object parent key = text_field (as_object (get parent object)) key

-- setNestedCode
unfoldable pub set_nested_code : Members → String → String → Members
set_nested_code object field code =
    set field (obj (set "code" (str code) (clone_object (as_object (get field object))))) object

pub record SearchBusMapIdentifiers : Type 0 where
  pub trip_code : String
  pub trip_stage_code : String
  pub travel_date : String
  pub from_code : String
  pub to_code : String

abbrev pub identifiers_of : Members → SearchBusMapIdentifiers
identifiers_of entry = record {
  trip_code = text_field entry "tripCode";
  trip_stage_code = text_field entry "tripStageCode";
  travel_date = text_field entry "travelDate";
  from_code = nested_text_field entry "fromStation" "code";
  to_code = nested_text_field entry "toStation" "code";
}

-- searchEntryIdentifiers. Go ranges over its five checks in any order, so the error may name any
-- missing field; here it names the first.
unfoldable pub search_entry_identifiers : Members → GoResult SearchBusMapIdentifiers
search_entry_identifiers entry =
    let ids = identifiers_of entry in
    if is_empty ids.trip_code
    then err (missing "tripCode")
    else if is_empty ids.trip_stage_code
    then err (missing "tripStageCode")
    else if is_empty ids.travel_date
    then err (missing "travelDate")
    else if is_empty ids.from_code
    then err (missing "fromStation.code")
    else if is_empty ids.to_code
    then err (missing "toStation.code")
    else ok ids

-- One row of validateBusMapIdentity.
unfoldable pub check_identity : String → String → String → Option GoError → Option GoError
check_identity name actual expected rest =
    if not (is_empty actual) && not (str_eq actual expected)
    then some (mismatch name actual expected)
    else rest

unfoldable pub validate_busmap_identity : Members → SearchBusMapIdentifiers → Option GoError
unfolding check_identity
validate_busmap_identity entry expected =
    let actual = identifiers_of entry in
    check_identity "tripCode" actual.trip_code expected.trip_code (
      check_identity "tripStageCode" actual.trip_stage_code expected.trip_stage_code (
        check_identity "travelDate" actual.travel_date expected.travel_date (
          check_identity "fromStation.code" actual.from_code expected.from_code
            (check_identity "toStation.code" actual.to_code expected.to_code none))))

-- The merge of one Search entry with its BusMap entry; Search is the routing authority.
unfoldable pub combine : Members → Members → SearchBusMapIdentifiers → Members
combine search_entry busmap_entry ids =
    let c = merge_objects search_entry busmap_entry in
    let c = set "tripCode" (str ids.trip_code) c in
    let c = set "tripStageCode" (str ids.trip_stage_code) c in
    let c = set "travelDate" (str ids.travel_date) c in
    let c = set_nested_code c "fromStation" ids.from_code in
    set_nested_code c "toStation" ids.to_code

-- decodeJSONObject
unfoldable pub only_value : Members → DecodeStep → GoResult Members
only_value m end_of_input = ok m
only_value m (value v rest) = err (other "response contains more than one JSON value")
only_value m (malformed e) = err e

first_value : Codec → DecodeStep → GoResult Members
first_value c (value (obj m) rest) = only_value m (c.next_value rest)
first_value c (value null rest) = err (other "response is not a JSON object")
first_value c (value v rest) =
    err (other "json: cannot unmarshal into Go value of type map[string]any")
first_value c end_of_input = err (other "EOF")
first_value c (malformed e) = err e

unfoldable pub decode_json_object : Codec → String → GoResult Members
unfolding only_value first_value
decode_json_object c body = first_value c (c.next_value body)

-- requireSuccessfulBitsStatus; the decoder keeps numbers as text.
status_error : Option Value → Option GoError
status_error none = none
status_error (some (num n)) =
    if str_eq n "1" then none else some (other "Bits returned unsuccessful status")
status_error (some v) = some (other "Bits returned unsuccessful status")

unfoldable pub require_successful_bits_status : Members → Option GoError
unfolding status_error
require_successful_bits_status m = status_error (get "status" m)

-- The loop of decodeSearchResponse over the raw entries.
unfoldable pub object_entries : ℕ → Items → GoResult (List Members)
object_entries i nil = ok []
object_entries i (cons (obj m) vs) = object_entries (i + 1) vs >>= λ ms. ok (m ∷ ms)
object_entries i (cons v vs) = err (at_entry "Bits Search data entry is not an object" i)

search_entries : Option Value → GoResult (List Members)
search_entries (some (arr (cons v vs))) = object_entries 0 (cons v vs)
search_entries _ = err (other "Bits Search response has no data entries")

pub record SearchResponse : Type 0 where
  pub envelope : Members
  pub entries : List Members

unfoldable pub decode_search_response : Codec → String → GoResult SearchResponse
unfolding search_entries
decode_search_response c body = do
  envelope ← wrap_error "decode Bits Search response" (decode_json_object c body)
  require_successful_bits_status envelope
  entries ← search_entries (get "data" envelope)
  ok (record { envelope = envelope; entries = entries })

abbrev is_no_members : Members → Bool
is_no_members end = true
is_no_members (member k v m) = false

-- The data member of a BusMap response, where it has one.
busmap_data : Value → GoResult Members
busmap_data (obj m) =
    if is_no_members m then err (other "Bits BusMap response data is empty") else ok m
busmap_data (arr (cons (obj m) nil)) =
    if is_no_members m then err (other "Bits BusMap response data entry is invalid") else ok m
busmap_data (arr (cons v nil)) = err (other "Bits BusMap response data entry is invalid")
busmap_data (arr vs) = err (other "Bits BusMap response must contain exactly one data entry")
busmap_data v = err (other "Bits BusMap response data is invalid")

busmap_entry : Members → Option Value → GoResult Members
busmap_entry envelope (some v) = busmap_data v
busmap_entry envelope none =
    if is_empty (text_field envelope "tripCode") && is_empty (text_field envelope "tripStageCode")
    then err (other "Bits BusMap response has no data entry")
    else ok (delete "status" (clone_object envelope))

unfoldable pub decode_busmap_response : Codec → String → GoResult Members
unfolding busmap_data busmap_entry
decode_busmap_response c body = do
  envelope ← wrap_error "decode Bits BusMap response" (decode_json_object c body)
  require_successful_bits_status envelope
  busmap_entry envelope (get "data" envelope)

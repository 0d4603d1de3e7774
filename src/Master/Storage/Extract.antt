-- ===== src/Master/Storage/Extract.antt =====
-- What Store takes out of a request: its envelope, its action and its entries
-- (orbitplus/internal/application/master/tripdetails_storage_coordinator.go).
use orbitplus.Common.{
  String, Bool, true, false, Option, none, some, List, [], ◌∷◌, ◌&&◌, ◌||◌, not, str_eq,
  if◌then◌else◌,
}
use orbitplus.Common.Text.{is_empty}
use orbitplus.Json.{Value, Members, arr, obj, nil, cons, get, has, to_list}
use orbitplus.Master.Errors.{missing_storage_identifiers, GoResult, ok, err}
use orbitplus.Master.Metadata.{string_field}

abbrev pub busmap_action : String
busmap_action = "BUSMAP"

abbrev pub searchbusmap_action : String
searchbusmap_action = "SEARCHBUSMAP"

pub data Envelope : Type 0 where
  worker : Envelope
  direct_bits : Envelope

abbrev pub is_worker : Envelope → Bool
is_worker worker = true
is_worker direct_bits = false

-- The results of resolveTripDetailsPayload.
pub record Payload : Type 0 where
  pub payload : Members
  pub action_type : String
  pub operator_code : String
  pub envelope : Envelope

-- `if value == "" { value = other }`
unfoldable pub or_else : String → String → String
or_else value other = if is_empty value then other else value

unfoldable pub payload_of : Members → Members → Envelope → Payload
payload_of root payload envelope = record {
  payload = payload;
  action_type = or_else (string_field root "actionType") (string_field payload "actionType");
  operator_code = or_else (string_field root "operatorCode") (string_field payload "operatorCode");
  envelope = envelope;
}

unfoldable pub resolve_root : Members → Option Value → GoResult Payload
resolve_root root none = ok (payload_of root root direct_bits)
resolve_root root (some (obj payload)) = ok (payload_of root payload worker)
resolve_root root (some _) = err missing_storage_identifiers

unfoldable pub resolve_trip_details_payload : Value → GoResult Payload
resolve_trip_details_payload (obj root) = resolve_root root (get "orbitResponse" root)
resolve_trip_details_payload _ = err missing_storage_identifiers

unfoldable pub accepts_single_data_entry : Envelope → String → Bool
accepts_single_data_entry envelope action_type =
    not (is_worker envelope) || is_worker envelope && str_eq action_type busmap_action

-- inferBusMapAction, its first result
unfoldable pub infer_busmap_action : Envelope → String → String
infer_busmap_action envelope action_type =
    if not (is_worker envelope) && is_empty action_type then busmap_action else action_type

unfoldable pub is_worker_root_busmap : Envelope → String → Members → Bool
is_worker_root_busmap envelope action_type payload =
    is_worker envelope && str_eq action_type busmap_action && not (has "data" payload)

-- The last case of extractEntries.
unfoldable pub root_entry : Members → Envelope → String → GoResult (List Value × String)
root_entry payload envelope action_type =
    if is_worker_root_busmap envelope action_type payload
    then ok (obj payload ∷ [], action_type)
    else err missing_storage_identifiers

unfoldable pub extract_data :
    Members → Envelope → String → Option Value → GoResult (List Value × String)
extract_data payload envelope action_type (some (arr nil)) = err missing_storage_identifiers
extract_data payload envelope action_type (some (arr (cons v vs))) =
    ok (v ∷ to_list vs, action_type)
extract_data payload envelope action_type (some (obj entry)) =
    if accepts_single_data_entry envelope action_type
    then ok (obj entry ∷ [], infer_busmap_action envelope action_type)
    else root_entry payload envelope action_type
extract_data payload envelope action_type _ = root_entry payload envelope action_type

-- extractEntries: the entries and the action
unfoldable pub extract_entries : Members → Envelope → String → GoResult (List Value × String)
extract_entries payload envelope action_type =
    extract_data payload envelope action_type (get "data" payload)

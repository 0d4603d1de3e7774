-- ===== src/Master/Inventory.antt =====
-- Inventory changes of Orionmax and the jobs they become: the data
-- (orbitplus/internal/application/master/orionmax_inventory_job_builder.go and
-- orionmax_inventory_change_receiver.go; orbitplus/internal/domain/queue_metrix.go). Logging is left
-- out.
pub mod Job
pub mod Receive
use orbitplus.Common.{
  leb, ℕ, zero, suc, ◌+◌, ◌-◌, String, Bool, true, false, Option, none, some, List, [], ◌∷◌, str_eq,
  if◌then◌else◌,
}
use orbitplus.Common.Text.{is_empty}
use orbitplus.Common.Pieces.{byte_count, take_bytes}
use orbitplus.Master.Errors.{GoError, other}

pub data QueueStatus : Type 0 where
  queue_status_received : QueueStatus
  queue_status_queued : QueueStatus
  queue_status_completed : QueueStatus
  queue_status_dead : QueueStatus

-- Times are `none` for Go's zero time.
pub record QueueMetrix : Type 0 where
  pub reference_id : String
  pub activity_type : String
  pub action_type : String
  pub operator_code : String
  pub schedule_code : String
  pub trip_code : String
  pub source_station_code : String
  pub destination_station_code : String
  pub trip_date : String
  pub zone : String
  pub worker_payload : String
  pub updated_trip_codes : List String
  pub queue_status : QueueStatus
  pub queued_at : Option ℕ
  pub completed_at : Option ℕ
  pub dead_lettered_at : Option ℕ
  pub failure_message : String
  pub updated_at : ℕ

-- orionmaxInventoryItem
pub record InventoryItem : Type 0 where
  pub reference_id : String
  pub doj : String
  pub source : String
  pub destination : String
  pub operator_code : String
  pub schedule_code : String
  pub trip_code : String

-- orionmaxInventoryEvent
pub record InventoryEvent : Type 0 where
  pub activity_type : String
  pub data_items : List InventoryItem
  pub zone : String

-- inventoryRefreshJob
pub record InventoryRefreshJob : Type 0 where
  pub metric : QueueMetrix
  pub payload : String

abbrev pub invalid_inventory_event : GoError
invalid_inventory_event = other "invalid inventory event"

abbrev pub action_type_by_activity_type : List (String × String)
action_type_by_activity_type =
    ("daily-job", "searchbusmap")
    ∷ ("ticket-tentative-block-cancel", "searchbusmap")
    ∷ ("block-release", "searchbusmap")
    ∷ ("quick-fare-change", "searchbusmap")
    ∷ ("dp-fare-change", "searchbusmap")
    ∷ ("seat-block-release", "searchbusmap")
    ∷ ("ticket-cancel", "searchbusmap")
    ∷ ("manual-refresh", "searchbusmap")
    ∷ ("notify-schedule", "searchbusmap")
    ∷ ("fare-change", "searchbusmap")
    ∷ ("phone-ticket-cancel", "searchbusmap")
    ∷ ("not-travel", "searchbusmap")
    ∷ ("service_inactive", "searchbusmap")
    ∷ ("vsd_toggle", "searchbusmap")
    ∷ ("no_show", "searchbusmap")
    ∷ ("shift", "searchbusmap")
    ∷ ("push_trip_info", "searchbusmap")
    ∷ []

-- The action of an activity type, "" for an unlisted one.
unfoldable pub action_from : List (String × String) → String → String
action_from [] activity_type = ""
action_from ((a, action_type) ∷ rest) activity_type =
    if str_eq a activity_type then action_type else action_from rest activity_type

unfoldable pub action_type_of : String → String
action_type_of activity_type =
    let action_type = action_from action_type_by_activity_type activity_type in
    if is_empty action_type then "searchbusmap" else action_type

abbrev pub default_inventory_priority : ℕ
default_inventory_priority = 5

abbrev pub priority_by_activity_type : List (String × ℕ)
priority_by_activity_type =
    ("block-release", 10)
    ∷ ("seat-block-release", 10)
    ∷ ("ticket-tentative-block-cancel", 10)
    ∷ ("ticket-cancel", 9)
    ∷ ("phone-ticket-cancel", 9)
    ∷ ("no_show", 9)
    ∷ ("not-travel", 9)
    ∷ ("quick-fare-change", 8)
    ∷ ("dp-fare-change", 8)
    ∷ ("fare-change", 8)
    ∷ ("service_inactive", 7)
    ∷ ("vsd_toggle", 7)
    ∷ ("shift", 7)
    ∷ ("notify-schedule", 6)
    ∷ ("push_trip_info", 6)
    ∷ ("manual-refresh", 6)
    ∷ ("daily-job", 10)
    ∷ []

unfoldable pub priority_from : List (String × ℕ) → String → ℕ
priority_from [] activity_type = default_inventory_priority
priority_from ((a, p) ∷ rest) activity_type =
    if str_eq a activity_type then p else priority_from rest activity_type

-- priorityForActivityType
unfoldable pub priority_for_activity_type : String → ℕ
priority_for_activity_type activity_type = priority_from priority_by_activity_type activity_type

-- queueMetrixFailureReason, without a character that the cut would split; `error_text` is the Error
-- method.
unfoldable pub failure_reason : (GoError → String) → GoError → String
failure_reason error_text e =
    let message = error_text e in
    if leb (byte_count message) 500 then message else take_bytes 500 message

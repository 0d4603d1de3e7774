-- ===== src/Jobs/JobTests.antt =====
-- An inventory change with one item, and the job that it becomes.
use orbitplus.Common.{ℕ, ◌+◌, ◌≡◌, refl, String, true, false, none, some, [], ◌∷◌, some_inj}
use orbitplus.Common.Text.{is_blank, trim_space}
use orbitplus.Common.Pieces.{to_lower, byte_count, take_bytes}
use orbitplus.Common.Date.{Date, parse_date, before}
use orbitplus.Master.Errors.{ok, other}
use orbitplus.Master.Zones.{
  zone_bits_base_url, zone_url_from, override_or, normalize_zone_code, find_url,
}
use orbitplus.Master.Inventory.{
  QueueMetrix, InventoryItem, InventoryEvent, InventoryRefreshJob, action_type_of,
}
use orbitplus.Master.Inventory.Job.{
  JobDeps, new_queue_metrix, metric_trip_date, normalize_trip_date, with_payload, build_for_zone,
  build_for_date, build_inventory_refresh_job, resolve_inventory_trip_code, resolve_by_schedule,
}
use orbitplus.Master.Inventory.Receive.{Inbox, Receiving, receive_inventory_change}
use orbitplus.Master.Inventory.Receive.Claims.{receive_inventory_change-in_flight}
use orbitplus.Master.Inventory.Receive.Orderly.{IsOrderly, receive_inventory_change-IsOrderly}
use orbitplus.Jobs.Accepted.{IsFilled, IsAccepted, build_inventory_refresh_job-IsAccepted}

abbrev item : InventoryItem
item = record {
  reference_id = "R1";
  doj = "2026-01-02 10:00";
  source = "A";
  destination = "B";
  operator_code = "op";
  schedule_code = "";
  trip_code = "";
}

abbrev deps : JobDeps ℕ
deps = record { find_stages_by_schedule = none; getenv = λ name. ""; marshal = λ v. ok "payload" }

abbrev inbox : Inbox ℕ
inbox = record {
  has_publisher = true;
  has_metrix = true;
  register = some (λ code zone w. (ok true, w));
  job = deps;
  save_received = λ m w. (none, w + 1);
  publish = λ r p priority w. (some (other "no broker"), w + 1);
  mark_queued = λ m w. (none, w + 1);
  mark_dead = λ m w. (none, w + 1);
  now = λ w. w;
  error_text = λ e. "no broker";
  to_lower = λ s. to_lower s;
}

abbrev start : Receiving ℕ
start = record { world = 0; in_flight = "bits|op|X|Y|2026-01-03|" ∷ []; log = [] }

abbrev event : InventoryEvent
event = record { activity_type = ""; data_items = item ∷ []; zone = "bits" }

receive_inventory_change-in_flight_example :
    (receive_inventory_change inbox "daily-job" (ok event) start).1.in_flight
    ≡ "bits|op|X|Y|2026-01-03|" ∷ []
receive_inventory_change-in_flight_example =
    receive_inventory_change-in_flight inbox "daily-job" (ok event) start

receive_inventory_change-IsOrderly_example :
    IsOrderly (receive_inventory_change inbox "daily-job" (ok event) start).1.log
receive_inventory_change-IsOrderly_example =
    receive_inventory_change-IsOrderly inbox "daily-job" (ok event) start tt

abbrev today : Date
today = record { year = 2026; month = 1; day = 1 }

abbrev metric : QueueMetrix
metric = new_queue_metrix "daily-job" "searchbusmap" "bits" item 7

abbrev job : InventoryRefreshJob
job = record {
  metric = record metric {
    trip_date = "2026-01-02";
    trip_code = metric.trip_code;
    worker_payload = "payload";
  };
  payload = "payload";
}

job_built : (build_inventory_refresh_job deps (action_type_of "daily-job") item metric 0).0 ≡ ok job
unfolding build_inventory_refresh_job build_for_date normalize_trip_date metric_trip_date byte_count
    take_bytes trim_space parse_date build_for_zone new_queue_metrix zone_bits_base_url
    zone_url_from override_or normalize_zone_code find_url to_lower resolve_inventory_trip_code
    resolve_by_schedule with_payload
job_built = refl

zone_not_blank :
    (u : String) → zone_bits_base_url deps.getenv metric.zone ≡ some u → is_blank u ≡ false
unfolding new_queue_metrix zone_bits_base_url zone_url_from override_or normalize_zone_code find_url
    to_lower trim_space is_blank
zone_not_blank u h = rw (← some_inj h) refl

date_current :
    (date : Date) → parse_date (metric_trip_date item.doj) ≡ some date → before date today ≡ false
unfolding metric_trip_date byte_count take_bytes trim_space parse_date before
date_current date h = rw (← some_inj h) refl

item-IsFilled : IsFilled item
unfolding is_blank trim_space
item-IsFilled = record { operator_code = refl; source = refl; destination = refl }

build_inventory_refresh_job-IsAccepted_example : IsAccepted deps today job
build_inventory_refresh_job-IsAccepted_example =
    build_inventory_refresh_job-IsAccepted deps today "daily-job" item metric 0 job item-IsFilled
      zone_not_blank date_current job_built

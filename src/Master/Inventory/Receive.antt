-- ===== src/Master/Inventory/Receive.antt =====
-- Receiving an inventory change (orbitplus/internal/application/master/
-- orionmax_inventory_change_receiver.go).
pub mod Claims
pub mod Induct
pub mod Orderly
use Prim.Native.String.{◌++◌ as join}
use orbitplus.Common.{
  ℕ, ℤ, String, Bool, true, false, Option, none, some, List, [], ◌∷◌, not, ◌==◌, elem, str_eq, leb,
  if◌then◌else◌,
}
use orbitplus.Common.Text.{is_empty, trim_space}
use orbitplus.Common.Pieces.{byte_count, take_bytes}
use orbitplus.Master.Errors.{GoError, GoResult, ok, err, other, wrapped}
use orbitplus.Master.Inventory.{
  QueueMetrix, queue_status_queued, queue_status_dead, InventoryItem, InventoryEvent,
  InventoryRefreshJob, invalid_inventory_event, failure_reason, priority_for_activity_type,
}
use orbitplus.Master.Inventory.Job.{
  JobDeps, check_event, new_queue_metrix, build_inventory_refresh_job,
}

-- A call that changes a row or sends a message, with what it returned.
pub data QueueEvent : Type 0 where
  saved : QueueMetrix → Option GoError → QueueEvent
  published : String → String → ℕ → Option GoError → QueueEvent  -- reference id, payload, priority
  queued : QueueMetrix → Option GoError → QueueEvent
  died : QueueMetrix → Option GoError → QueueEvent

-- The service with what it calls. `register` answers whether the operator is active, and is `none`
-- for a nil registry; `error_text` is the Error method, and `to_lower` is strings.ToLower.
pub record Inbox (W : Type 0) : Type 0 where
  pub has_publisher : Bool
  pub has_metrix : Bool
  pub register : Option (String → String → W → GoResult Bool × W)
  pub job : JobDeps W
  pub save_received : QueueMetrix → W → Option GoError × W
  pub publish : String → String → ℕ → W → Option GoError × W
  pub mark_queued : QueueMetrix → W → Option GoError × W
  pub mark_dead : QueueMetrix → W → Option GoError × W
  pub now : W → ℕ
  pub error_text : GoError → String
  pub to_lower : String → String

-- The world, the routes in flight, and the calls so far, newest first, which no step reads.
pub record Receiving (W : Type 0) : Type 0 where
  pub world : W
  pub in_flight : List String
  pub log : List QueueEvent

-- dedupKey
unfoldable pub dedup_key : (String → String) → String → InventoryItem → String
dedup_key lower zone item = join (lower (trim_space zone)) (
    join "|" (
      join (trim_space item.operator_code) (
        join "|" (
          join (trim_space item.source) (
            join "|" (
              join (trim_space item.destination)
                (join "|" (join (trim_space item.doj) (join "|" (trim_space item.trip_code))))))))))

-- delete(inFlight, key)
unfoldable pub remove_key : String → List String → List String
remove_key key [] = []
remove_key key (k ∷ keys) =
    let rest = remove_key key keys in if str_eq k key then rest else k ∷ rest

module _ {W : Type 0} where
  unfoldable pub note :
      (Option GoError → QueueEvent)
      → (W → Option GoError × W)
      → Receiving W
      → Option GoError × Receiving W
  note event f s = let (e, w) = f s.world in (e, record s { world = w; log = event e ∷ s.log })

  -- claimInFlight, when the key is free
  unfoldable pub claim : String → Receiving W → Receiving W
  claim key s = record s { in_flight = key ∷ s.in_flight }

  -- releaseInFlight
  unfoldable pub release_in_flight : String → Receiving W → Receiving W
  release_in_flight key s = record s { in_flight = remove_key key s.in_flight }

module _ {W : Type 0} (d : Inbox W) where
  -- markDead; its own failure is only logged.
  unfoldable pub mark_metric_dead : QueueMetrix → GoError → Receiving W → Receiving W
  mark_metric_dead metric cause s =
      let dead : QueueMetrix = record metric {
        queue_status = queue_status_dead;
        dead_lettered_at = some (d.now s.world);
        failure_message = failure_reason d.error_text cause;
        updated_at = d.now s.world;
      } in
      (note (died dead) (d.mark_dead dead) s).1

  -- After MarkQueued: the route is released either way.
  unfoldable pub after_mark_queued :
      String → Option GoError → Receiving W → Option GoError × Receiving W
  after_mark_queued key (some e) s =
      (some (wrapped "mark queue metrix queued" e), release_in_flight key s)
  after_mark_queued key none s = (none, release_in_flight key s)

  -- After the publication: the row is marked queued, or dead when the broker failed.
  unfoldable pub after_publish :
      String → InventoryRefreshJob → Option GoError → Receiving W → Option GoError × Receiving W
  after_publish key job (some e) s =
      (some e, release_in_flight key (mark_metric_dead job.metric e s))
  after_publish key job none s =
      let metric : QueueMetrix = record job.metric {
        queue_status = queue_status_queued;
        queued_at = some (d.now s.world);
        updated_at = d.now s.world;
      } in
      let (e, s') = note (queued metric) (d.mark_queued metric) s in after_mark_queued key e s'

  unfoldable pub publish_job :
      String → ℕ → InventoryRefreshJob → Receiving W → Option GoError × Receiving W
  publish_job key priority job s =
      let (e, s') =
        note (published job.metric.reference_id job.payload priority)
          (d.publish job.metric.reference_id job.payload priority) s in
      after_publish key job e s'

  -- After SaveReceived of a job.
  unfoldable pub after_save :
      String → ℕ → InventoryRefreshJob → Option GoError → Receiving W → Option GoError × Receiving W
  after_save key priority job (some e) s =
      (some (wrapped "save queue metrix record" e), release_in_flight key s)
  after_save key priority job none s = publish_job key priority job s

  -- After SaveReceived of an item that makes no job.
  unfoldable pub after_save_invalid :
      String → QueueMetrix → GoError → Option GoError → Receiving W → Option GoError × Receiving W
  after_save_invalid key metric cause (some e) s =
      (some (wrapped "save queue metrix record" e), release_in_flight key s)
  after_save_invalid key metric cause none s =
      (some cause, release_in_flight key (mark_metric_dead metric cause s))

  unfoldable pub save_and_send :
      String
      → ℕ
      → QueueMetrix
      → GoResult InventoryRefreshJob
      → Receiving W
      → Option GoError × Receiving W
  save_and_send key priority metric (ok job) s =
      let (e, s') = note (saved job.metric) (d.save_received job.metric) s in
      after_save key priority job e s'
  save_and_send key priority metric (err cause) s =
      let (e, s') = note (saved metric) (d.save_received metric) s in
      after_save_invalid key metric cause e s'

  -- One item from its claimed route on; each way to end releases the route itself.
  unfoldable pub send_claimed :
      String
      → String
      → String
      → InventoryItem
      → QueueMetrix
      → Receiving W
      → Option GoError × Receiving W
  send_claimed key activity_type action_type item metric s =
      let (job, w) = build_inventory_refresh_job d.job action_type item metric s.world in
      save_and_send key (priority_for_activity_type activity_type) metric job
        (record s { world = w })

  -- One item of an active operator: skipped when its route is in flight.
  unfoldable pub send_item :
      String → String → String → InventoryItem → Receiving W → Option GoError × Receiving W
  send_item activity_type action_type zone item s =
      let metric = new_queue_metrix activity_type action_type zone item (d.now s.world) in
      let key = dedup_key d.to_lower zone item in
      let sent = send_claimed key activity_type action_type item metric (claim key s) in
      if is_empty metric.reference_id
      then (some invalid_inventory_event, s)
      else if elem key s.in_flight
      then (none, s)
      else sent

  unfoldable pub when_active :
      GoResult Bool
      → (Receiving W → Option GoError × Receiving W)
      → Receiving W
      → Option GoError × Receiving W
  when_active (err e) send s = (some e, s)
  when_active (ok active) send s = if active then send s else (none, s)

  unfoldable pub receive_item :
      Option (String → String → W → GoResult Bool × W)
      → String
      → String
      → String
      → InventoryItem
      → Receiving W
      → Option GoError × Receiving W
  receive_item none activity_type action_type zone item s =
      send_item activity_type action_type zone item s
  receive_item (some register) activity_type action_type zone item s =
      let (r, w) = register item.operator_code zone s.world in
      when_active r (send_item activity_type action_type zone item) (record s { world = w })

  -- The next item, unless this one failed.
  unfoldable pub unless_failed :
      Option GoError
      → (Receiving W → Option GoError × Receiving W)
      → Receiving W
      → Option GoError × Receiving W
  unless_failed none rest s = rest s
  unless_failed (some e) rest s = (some e, s)

  unfoldable pub receive_items :
      String → String → String → List InventoryItem → Receiving W → Option GoError × Receiving W
  receive_items activity_type action_type zone [] s = (none, s)
  receive_items activity_type action_type zone (item ∷ items) s =
      let rest = receive_items activity_type action_type zone items in
      let (e, s') = receive_item d.register activity_type action_type zone item s in
      unless_failed e rest s'

  unfoldable pub receive_checked :
      String → GoResult (String × InventoryEvent) → Receiving W → Option GoError × Receiving W
  receive_checked activity_type (err e) s = (some e, s)
  receive_checked activity_type (ok (action_type, event)) s =
      receive_items activity_type action_type event.zone event.data_items s

  unfoldable pub receive_body :
      String → GoResult InventoryEvent → Receiving W → Option GoError × Receiving W
  receive_body activity_type (err e) s = (some (wrapped "decode Orionmax inventory event" e), s)
  receive_body activity_type (ok event) s =
      receive_checked activity_type (check_event activity_type event) s

  -- ReceiveInventoryChange on the decoded body
  unfoldable pub receive_inventory_change :
      String → GoResult InventoryEvent → Receiving W → Option GoError × Receiving W
  receive_inventory_change activity_type body s =
      if not d.has_publisher
      then (some (other "inventory event publisher is not configured"), s)
      else if not d.has_metrix
      then (some (other "queue metrix storage is not configured"), s)
      else receive_body activity_type body s

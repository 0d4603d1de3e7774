-- ===== src/Master/Inventory/Receive/Orderly.antt =====
-- The order of a job's calls (orbitplus/internal/application/master/
-- orionmax_inventory_change_receiver.go).
use mathlib.Core.Path.{subst}
use orbitplus.Common.{
  ℕ, String, ◌≡◌, refl, sym, Bool, true, false, ◌||◌, if◌then◌else◌, Option, none, some, List, [],
  ◌∷◌,
}
use orbitplus.Common.Text.{is_empty}
use orbitplus.Master.Errors.{GoError, GoResult, ok, err}
use orbitplus.Master.Inventory.{
  QueueMetrix, queue_status_queued, queue_status_dead, InventoryItem, InventoryEvent,
  InventoryRefreshJob, invalid_inventory_event,
}
use orbitplus.Master.Inventory.Job.{
  with_payload, build_for_zone, build_for_date, normalize_trip_date, build_inventory_refresh_job,
}
use orbitplus.Master.Inventory.Receive.{
  QueueEvent, saved, published, queued, died, Inbox, Receiving, note, claim, release_in_flight,
  mark_metric_dead, after_mark_queued, after_publish, publish_job, after_save, after_save_invalid,
  save_and_send, send_claimed, send_item, receive_inventory_change,
}
use orbitplus.Master.Inventory.Receive.Induct.{send_item_cases, receive_inventory_change_induct}

-- The call before a message: the row of the job was saved.
abbrev pub SavedAs : String → String → List QueueEvent → Type 0
SavedAs reference_id payload (saved m none ∷ log) =
    (m.reference_id ≡ reference_id) × (m.worker_payload ≡ payload)
SavedAs reference_id payload _ = ⊥

-- The call before a row is marked queued: its message was sent.
abbrev pub SentAs : String → String → List QueueEvent → Type 0
SentAs reference_id payload (published r p priority none ∷ log) = (r ≡ reference_id) × (p ≡ payload)
SentAs reference_id payload _ = ⊥

-- The call before a row is marked dead: it was saved, or its message was not sent.
abbrev pub FailedAs : String → List QueueEvent → Type 0
FailedAs reference_id (saved m none ∷ log) = m.reference_id ≡ reference_id
FailedAs reference_id (published r p priority (some e) ∷ log) = r ≡ reference_id
FailedAs reference_id _ = ⊥

abbrev pub Follows : QueueEvent → List QueueEvent → Type 0
Follows (saved m e) log = Unit
Follows (published r p priority e) log = SavedAs r p log
Follows (queued m e) log =
    SentAs m.reference_id m.worker_payload log × (m.queue_status ≡ queue_status_queued)
Follows (died m e) log = FailedAs m.reference_id log × (m.queue_status ≡ queue_status_dead)

-- Every call follows the one that it needs.
abbrev pub IsOrderly : List QueueEvent → Type 0
IsOrderly [] = Unit
IsOrderly (e ∷ log) = Follows e log × IsOrderly log

module _ {W : Type 0} (d : Inbox W) where
  -- A job carries the payload of its row.
  abbrev IsWhole : InventoryRefreshJob → Type 0
  IsWhole job = job.metric.worker_payload ≡ job.payload

  mark_metric_dead-IsOrderly :
      (metric : QueueMetrix) (cause : GoError) (s : Receiving W)
      → FailedAs metric.reference_id s.log
      → IsOrderly s.log
      → IsOrderly (mark_metric_dead d metric cause s).log
  unfolding mark_metric_dead note
  mark_metric_dead-IsOrderly metric cause s f h = ((f, refl), h)

  after_mark_queued-log :
      (key : String) (e : Option GoError) (s : Receiving W)
      → (after_mark_queued d key e s).1.log ≡ s.log
  unfolding after_mark_queued release_in_flight
  after_mark_queued-log key none s = refl
  after_mark_queued-log key (some e) s = refl

  after_publish-IsOrderly :
      (key : String) (priority : ℕ) (job : InventoryRefreshJob) (e : Option GoError)
      (s : Receiving W) (log : List QueueEvent)
      → IsWhole job
      → s.log ≡ published job.metric.reference_id job.payload priority e ∷ log
      → IsOrderly s.log
      → IsOrderly (after_publish d key job e s).1.log
  unfolding after_publish note release_in_flight
  after_publish-IsOrderly key priority job none s log whole q h =
      subst IsOrderly (sym (after_mark_queued-log key _ _)) ((rw q (refl, sym whole), refl), h)
  after_publish-IsOrderly key priority job (some e) s log whole q h =
      mark_metric_dead-IsOrderly job.metric e s (rw q refl) h

  -- The state after a row was saved.
  abbrev after_saved : QueueMetrix → Option GoError → Receiving W → Receiving W
  after_saved metric e s = record s {
    world = (d.save_received metric s.world).1;
    log = saved metric e ∷ s.log;
  }

  publish_job-IsOrderly :
      (key : String) (priority : ℕ) (job : InventoryRefreshJob) (s : Receiving W)
      → IsWhole job
      → IsOrderly s.log
      → IsOrderly (publish_job d key priority job (after_saved job.metric none s)).1.log
  unfolding publish_job note
  publish_job-IsOrderly key priority job s whole h =
      after_publish-IsOrderly key priority job _ _ _ whole refl ((refl, whole), (tt, h))

  save_job-IsOrderly :
      (key : String) (priority : ℕ) (job : InventoryRefreshJob) (e : Option GoError)
      (s : Receiving W)
      → IsWhole job
      → IsOrderly s.log
      → IsOrderly (after_save d key priority job e (after_saved job.metric e s)).1.log
  unfolding after_save release_in_flight
  save_job-IsOrderly key priority job (some e) s whole h = (tt, h)
  save_job-IsOrderly key priority job none s whole h =
      publish_job-IsOrderly key priority job s whole h

  save_invalid-IsOrderly :
      (key : String) (metric : QueueMetrix) (cause : GoError) (e : Option GoError) (s : Receiving W)
      → IsOrderly s.log
      → IsOrderly (after_save_invalid d key metric cause e (after_saved metric e s)).1.log
  unfolding after_save_invalid release_in_flight
  save_invalid-IsOrderly key metric cause (some e) s h = (tt, h)
  save_invalid-IsOrderly key metric cause none s h =
      mark_metric_dead-IsOrderly metric cause (after_saved metric none s) refl (tt, h)

  abbrev AreWhole : GoResult InventoryRefreshJob → Type 0
  AreWhole (ok job) = IsWhole job
  AreWhole (err e) = Unit

  save_and_send-IsOrderly :
      (key : String) (priority : ℕ) (metric : QueueMetrix) (job : GoResult InventoryRefreshJob)
      (s : Receiving W)
      → AreWhole job
      → IsOrderly s.log
      → IsOrderly (save_and_send d key priority metric job s).1.log
  unfolding save_and_send note
  save_and_send-IsOrderly key priority metric (ok job) s whole h =
      save_job-IsOrderly key priority job _ s whole h
  save_and_send-IsOrderly key priority metric (err cause) s whole h =
      save_invalid-IsOrderly key metric cause _ s h

  AreWhole-if :
      (b : Bool) (x y : GoResult InventoryRefreshJob × W)
      → AreWhole x.0
      → AreWhole y.0
      → AreWhole (if b then x else y).0
  AreWhole-if true x y p q = p
  AreWhole-if false x y p q = q

  with_payload-AreWhole :
      (metric : QueueMetrix) (trip_code : String) (r : GoResult String)
      → AreWhole (with_payload d.job metric trip_code r)
  unfolding with_payload
  with_payload-AreWhole metric trip_code (ok payload) = refl
  with_payload-AreWhole metric trip_code (err e) = tt

  build_for_zone-AreWhole :
      (action_type : String) (item : InventoryItem) (metric : QueueMetrix) (trip_date : String)
      (url : Option String) (w : W)
      → AreWhole (build_for_zone d.job action_type item metric trip_date url w).0
  unfolding build_for_zone
  build_for_zone-AreWhole action_type item metric trip_date none w = tt
  build_for_zone-AreWhole action_type item metric trip_date (some url) w =
      with_payload-AreWhole _ _ _

  build_for_date-AreWhole :
      (action_type : String) (item : InventoryItem) (metric : QueueMetrix) (date : Option String)
      (w : W)
      → AreWhole (build_for_date d.job action_type item metric date w).0
  unfolding build_for_date
  build_for_date-AreWhole action_type item metric none w = tt
  build_for_date-AreWhole action_type item metric (some date) w =
      build_for_zone-AreWhole action_type item metric date _ w

  build-AreWhole :
      (action_type : String) (item : InventoryItem) (metric : QueueMetrix) (w : W)
      → AreWhole (build_inventory_refresh_job d.job action_type item metric w).0
  unfolding build_inventory_refresh_job
  build-AreWhole action_type item metric w =
      AreWhole-if
        (is_empty item.reference_id
          || is_empty item.operator_code
          || is_empty item.source
          || is_empty item.destination)
        (err invalid_inventory_event, w)
        (build_for_date d.job action_type item metric (normalize_trip_date item.doj) w) tt
        (build_for_date-AreWhole action_type item metric (normalize_trip_date item.doj) w)

  send_item-IsOrderly :
      (activity_type action_type zone : String) (item : InventoryItem) (s : Receiving W)
      → IsOrderly s.log
      → IsOrderly (send_item d activity_type action_type zone item s).1.log
  unfolding send_claimed claim
  send_item-IsOrderly activity_type action_type zone item s h =
      send_item_cases d (λ r. IsOrderly r.1.log) activity_type action_type zone item s h h
        (λ free. save_and_send-IsOrderly _ _ _ _ _ (build-AreWhole action_type item _ s.world) h)

  -- When the calls before an inventory change are in order, so are its own: a message is sent only
  -- directly after the row of its job, with its reference and its payload, was saved; a row is marked
  -- queued only directly after its message was sent; and it is marked dead only directly after it was
  -- saved or after its message could not be sent.
  pub receive_inventory_change-IsOrderly :
      (activity_type : String) (body : GoResult InventoryEvent) (s : Receiving W)
      → IsOrderly s.log
      → IsOrderly (receive_inventory_change d activity_type body s).1.log
  receive_inventory_change-IsOrderly =
      receive_inventory_change_induct d (λ r. IsOrderly r.log) (λ r w h. h) send_item-IsOrderly

-- ===== src/Master/Inventory/Receive/Claims.antt =====
-- The routes in flight (orbitplus/internal/application/master/orionmax_inventory_change_receiver.go).
use orbitplus.Common.{
  ℕ, String, ◌≡◌, refl, ◌∙◌, false, Option, none, some, List, [], ◌∷◌, elem, eq_refl, arith,
}
use orbitplus.Master.Errors.{GoError, GoResult, ok, err}
use orbitplus.Master.Inventory.{QueueMetrix, InventoryItem, InventoryEvent, InventoryRefreshJob}
use orbitplus.Master.Inventory.Receive.{
  Inbox, Receiving, remove_key, dedup_key, note, claim, release_in_flight, mark_metric_dead,
  after_mark_queued, after_publish, publish_job, after_save, after_save_invalid, save_and_send,
  send_claimed, send_item, receive_inventory_change,
}
use orbitplus.Master.Inventory.Receive.Induct.{send_item_cases, receive_inventory_change_induct}

remove_key_absent :
    (key : String) (keys : List String) → elem key keys ≡ false → remove_key key keys ≡ keys
unfolding remove_key
remove_key_absent key [] h = refl
remove_key_absent key (k ∷ keys) h = ground (arith, remove_key_absent key keys)

remove_key-claimed :
    (key : String) (keys : List String) → elem key keys ≡ false → remove_key key (key ∷ keys) ≡ keys
unfolding remove_key
remove_key-claimed key keys h = rw (eq_refl key) (remove_key_absent key keys h)

module _ {W : Type 0} (d : Inbox W) where
  after_mark_queued-in_flight :
      (key : String) (e : Option GoError) (s : Receiving W)
      → (after_mark_queued d key e s).1.in_flight ≡ remove_key key s.in_flight
  unfolding after_mark_queued release_in_flight
  after_mark_queued-in_flight key none s = refl
  after_mark_queued-in_flight key (some e) s = refl

  after_publish-in_flight :
      (key : String) (job : InventoryRefreshJob) (e : Option GoError) (s : Receiving W)
      → (after_publish d key job e s).1.in_flight ≡ remove_key key s.in_flight
  unfolding after_publish mark_metric_dead note release_in_flight
  after_publish-in_flight key job none s = after_mark_queued-in_flight key _ _
  after_publish-in_flight key job (some e) s = refl

  after_save-in_flight :
      (key : String) (priority : ℕ) (job : InventoryRefreshJob) (e : Option GoError)
      (s : Receiving W)
      → (after_save d key priority job e s).1.in_flight ≡ remove_key key s.in_flight
  unfolding after_save publish_job note release_in_flight
  after_save-in_flight key priority job (some e) s = refl
  after_save-in_flight key priority job none s = after_publish-in_flight key job _ _

  after_save_invalid-in_flight :
      (key : String) (metric : QueueMetrix) (cause : GoError) (e : Option GoError) (s : Receiving W)
      → (after_save_invalid d key metric cause e s).1.in_flight ≡ remove_key key s.in_flight
  unfolding after_save_invalid mark_metric_dead note release_in_flight
  after_save_invalid-in_flight key metric cause none s = refl
  after_save_invalid-in_flight key metric cause (some e) s = refl

  save_and_send-in_flight :
      (key : String) (priority : ℕ) (metric : QueueMetrix) (job : GoResult InventoryRefreshJob)
      (s : Receiving W)
      → (save_and_send d key priority metric job s).1.in_flight ≡ remove_key key s.in_flight
  unfolding save_and_send note
  save_and_send-in_flight key priority metric (ok job) s = after_save-in_flight key priority job _ _
  save_and_send-in_flight key priority metric (err e) s =
      after_save_invalid-in_flight key metric e _ _

  send_item-in_flight :
      (keys : List String) (activity_type action_type zone : String) (item : InventoryItem)
      (s : Receiving W)
      → s.in_flight ≡ keys
      → (send_item d activity_type action_type zone item s).1.in_flight ≡ keys
  unfolding send_claimed claim
  send_item-in_flight keys activity_type action_type zone item s same =
      send_item_cases d (λ r. r.1.in_flight ≡ keys) activity_type action_type zone item s same same
        (λ free.
          save_and_send-in_flight (dedup_key d.to_lower zone item) _ _ _ _
          ∙ remove_key-claimed (dedup_key d.to_lower zone item) s.in_flight free
          ∙ same)

  -- However an inventory change ends, no route stays in flight: the same routes are in flight
  -- afterwards as before.
  pub receive_inventory_change-in_flight :
      (activity_type : String) (body : GoResult InventoryEvent) (s : Receiving W)
      → (receive_inventory_change d activity_type body s).1.in_flight ≡ s.in_flight
  receive_inventory_change-in_flight activity_type body s =
      receive_inventory_change_induct d (λ r. r.in_flight ≡ s.in_flight) (λ r w h. h)
        (send_item-in_flight s.in_flight) activity_type body s refl

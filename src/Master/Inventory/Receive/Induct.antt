-- ===== src/Master/Inventory/Receive/Induct.antt =====
-- What each item of an inventory change keeps, the whole change keeps
-- (orbitplus/internal/application/master/orionmax_inventory_change_receiver.go).
use orbitplus.Common.{
  String, ◌≡◌, refl, Bool, true, false, not, Option, none, some, List, [], ◌∷◌, elem, if◌then◌else◌,
}
use orbitplus.Common.Text.{is_empty}
use orbitplus.Master.Errors.{GoError, GoResult, ok, err}
use orbitplus.Master.Inventory.{InventoryItem, InventoryEvent, invalid_inventory_event}
use orbitplus.Master.Inventory.Job.{check_event, new_queue_metrix}
use orbitplus.Master.Inventory.Receive.{
  Inbox, Receiving, dedup_key, claim, send_claimed, send_item, when_active, receive_item,
  unless_failed, receive_items, receive_checked, receive_body, receive_inventory_change,
}

module _ {W : Type 0} (d : Inbox W) where
  pub send_item_cases :
      (P : Option GoError × Receiving W → Type 0) (activity_type action_type zone : String)
      (item : InventoryItem) (s : Receiving W)
      → P (some invalid_inventory_event, s)
      → P (none, s)
      → (elem (dedup_key d.to_lower zone item) s.in_flight ≡ false
          → P (
              send_claimed d
                (dedup_key d.to_lower zone item)
                activity_type
                action_type
                item
                (new_queue_metrix activity_type action_type zone item (d.now s.world))
                (claim (dedup_key d.to_lower zone item) s)))
      → P (send_item d activity_type action_type zone item s)
  unfolding send_item new_queue_metrix
  send_item_cases P activity_type action_type zone item s invalid duplicate sent =
      go (is_empty item.reference_id) (elem (dedup_key d.to_lower zone item) s.in_flight) refl
    where
      result : Option GoError × Receiving W
      result =
          send_claimed d (dedup_key d.to_lower zone item) activity_type action_type item
            (new_queue_metrix activity_type action_type zone item (d.now s.world))
            (claim (dedup_key d.to_lower zone item) s)

      go :
          (a b : Bool)
          → elem (dedup_key d.to_lower zone item) s.in_flight ≡ b
          → P (if a then (some invalid_inventory_event, s) else if b then (none, s) else result)
      go true b q = invalid
      go false true q = duplicate
      go false false q = sent q

  module _ (P : Receiving W → Type 0)
      (world : (s : Receiving W) (w : W) → P s → P (record s { world = w }))
      (step : (activity_type action_type zone : String) (item : InventoryItem) (s : Receiving W)
        → P s
        → P (send_item d activity_type action_type zone item s).1) where
    receive_item_induct :
        (register : Option (String → String → W → GoResult Bool × W))
        (activity_type action_type zone : String) (item : InventoryItem) (s : Receiving W)
        → P s
        → P (receive_item d register activity_type action_type zone item s).1
    unfolding receive_item when_active
    receive_item_induct none activity_type action_type zone item s h =
        step activity_type action_type zone item s h
    receive_item_induct (some register) activity_type action_type zone item s h =
        go (register item.operator_code zone s.world).0
      where
        state : Receiving W
        state = record s { world = (register item.operator_code zone s.world).1 }

        go :
            (r : GoResult Bool)
            → P (when_active d r (send_item d activity_type action_type zone item) state).1
        go (err e) = world s _ h
        go (ok true) = step activity_type action_type zone item state (world s _ h)
        go (ok false) = world s _ h

    unless_failed_induct :
        (e : Option GoError) (rest : Receiving W → Option GoError × Receiving W) (s : Receiving W)
        → P s
        → P (rest s).1
        → P (unless_failed d e rest s).1
    unfolding unless_failed
    unless_failed_induct none rest s h r = r
    unless_failed_induct (some e) rest s h r = h

    receive_items_induct :
        (activity_type action_type zone : String) (items : List InventoryItem) (s : Receiving W)
        → P s
        → P (receive_items d activity_type action_type zone items s).1
    unfolding receive_items
    receive_items_induct activity_type action_type zone [] s h = h
    receive_items_induct activity_type action_type zone (item ∷ items) s h =
        let kept = receive_item_induct d.register activity_type action_type zone item s h in
        unless_failed_induct _ (receive_items d activity_type action_type zone items) _ kept
          (receive_items_induct activity_type action_type zone items _ kept)

    receive_checked_induct :
        (activity_type : String) (r : GoResult (String × InventoryEvent)) (s : Receiving W)
        → P s
        → P (receive_checked d activity_type r s).1
    unfolding receive_checked
    receive_checked_induct activity_type (err e) s h = h
    receive_checked_induct activity_type (ok (action_type, event)) s h =
        receive_items_induct activity_type action_type event.zone event.data_items s h

    receive_body_induct :
        (activity_type : String) (body : GoResult InventoryEvent) (s : Receiving W)
        → P s
        → P (receive_body d activity_type body s).1
    unfolding receive_body
    receive_body_induct activity_type (err e) s h = h
    receive_body_induct activity_type (ok event) s h =
        receive_checked_induct activity_type (check_event activity_type event) s h

    if_induct :
        (b : Bool) (x y : Option GoError × Receiving W) → P x.1 → P y.1 → P (if b then x else y).1
    if_induct true x y p q = p
    if_induct false x y p q = q

    pub receive_inventory_change_induct :
        (activity_type : String) (body : GoResult InventoryEvent) (s : Receiving W)
        → P s
        → P (receive_inventory_change d activity_type body s).1
    unfolding receive_inventory_change
    receive_inventory_change_induct activity_type body s h =
        if_induct (not d.has_publisher) _ _ h
          (if_induct (not d.has_metrix) _ _ h (receive_body_induct activity_type body s h))

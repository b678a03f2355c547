-- ===== src/Delivery/Apply/Retry.antt =====
-- internal/infrastructure/mysql/delivery.go `ApplyDeliveryEvent`: an operation that a client has
-- numbered is applied once.
use project_management.Base.{
  ℕ, ◌≡◌, refl, ap, ◌∙◌, String, false, List, ◌∷◌, some, find, any, is_empty, str_eq, ok, err,
  already_applied, >>=-eq-ok, Answers, Answers-ok, guard,
}
use project_management.Delivery.Schema.{ServiceItem, DeliveryEvent}
use project_management.Delivery.Store.{Store, Platform, item_of}
use project_management.Delivery.Json.{type_code}
use project_management.Delivery.Json.Laws.{str_eq_refl, json_semantically_equal_refl}
use project_management.Delivery.Apply.{
  apply_delivery_event, apply_to_project, apply_to_item, create_event, locate_event,
  check_supplement, is_type, check_operation,
}
use project_management.Delivery.Apply.Kept.{project-items, item-stays}

check-again :
    (store : Store) (event : DeliveryEvent) (before now : String) (rest : List DeliveryEvent)
    → is_empty event.client_operation_id ≡ false
    → store.events ≡ record event { project_id = before } ∷ rest
    → check_operation store (record event { project_id = now }) ≡ err already_applied
unfolding check_operation
check-again store event before now rest numbered stored =
    rw
      (
        numbered,
        stored,
        str_eq_refl event.service_item_id,
        str_eq_refl event.actor_user_id,
        str_eq_refl event.client_operation_id,
        str_eq_refl (type_code event.event_type),
        json_semantically_equal_refl event.payload,
      )
      refl

item-again :
    (platform : Platform) (store : Store) (event : DeliveryEvent) (now : ℕ) (id : String)
    {item : ServiceItem} (before : String) (rest : List DeliveryEvent)
    → is_empty event.service_item_id ≡ false
    → is_empty event.client_operation_id ≡ false
    → item_of store event.service_item_id ≡ some item
    → store.events ≡ record event { project_id = before } ∷ rest
    → apply_to_item platform store event now id ≡ err already_applied
unfolding apply_to_item
item-again platform store event now id {item = item} before rest named numbered found stored =
    rw (named, found, check-again store event before item.project_id rest numbered stored) refl

locate-kept :
    (store : Store) (event : DeliveryEvent)
    → is_type "DEVIATION_REVIEWED" event.event_type ≡ false
    → locate_event store event ≡ ok event
unfolding locate_event
locate-kept store event other = rw other refl

create-stored :
    (store : Store) (event : DeliveryEvent)
    → Answers
        (λ s. (s.items ≡ store.items) × (s.events ≡ event ∷ store.events))
        (create_event store event)
unfolding create_event
create-stored store event =
    guard _ (any (λ e. str_eq e.id event.id) store.events) _ _ λ _. (refl, refl)

-- An accepted event on an item that the client has numbered may be sent again right after it, unless
-- it replaces the items of its project or reviews a deviation: it is answered as applied already.
pub apply_delivery_event-replay :
    (platform : Platform) (store : Store) (event : DeliveryEvent) (now later : ℕ)
    (package_id other_id : String) {store' : Store}
    → is_empty event.service_item_id ≡ false
    → is_empty event.client_operation_id ≡ false
    → is_type "DECOMPOSITION_ADJUSTED" event.event_type ≡ false
    → is_type "DEVIATION_REVIEWED" event.event_type ≡ false
    → apply_delivery_event platform store event now package_id ≡ ok store'
    → apply_delivery_event platform store' event later other_id ≡ err already_applied
unfolding apply_delivery_event
apply_delivery_event-replay platform store event now later package_id other_id {store' = store'}
      named numbered kept other h =
    let (_, _, h1) = >>=-eq-ok (check_supplement store event) _ h in
    let h2 = rw (locate-kept store event other) at h1 in
    let (pair, e, h3) = >>=-eq-ok (apply_to_item platform store event now package_id) _ h2 in
    let (synced, e', h4) = >>=-eq-ok (apply_to_project pair.1 pair.0) _ h3 in
    let (placed, (item, found)) =
      Answers-ok _ _ e (item-stays platform store event now package_id named) in
    let type_kept : is_type "DECOMPOSITION_ADJUSTED" pair.0.event_type ≡ false =
      ap (λ x. is_type "DECOMPOSITION_ADJUSTED" x.event_type) placed ∙ kept in
    let same_items = Answers-ok _ _ e' (project-items pair.1 pair.0 type_kept) in
    let (items, events) = Answers-ok _ _ h4 (create-stored synced pair.0) in
    let at_last : item_of store' event.service_item_id ≡ some item =
      ap (find (λ i. str_eq i.id event.service_item_id)) (items ∙ same_items) ∙ found in
    rw
      (
        kept,
        locate-kept store' event other,
        item-again platform store' event later other_id {item = item} pair.0.project_id
            synced.events named numbered at_last (events ∙ ap (λ x. x ∷ synced.events) placed),
      )
      refl

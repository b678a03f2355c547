-- ===== src/Delivery/Apply.antt =====
-- internal/infrastructure/mysql/delivery.go: `ApplyDeliveryEvent`, one transaction per event. The
-- rows that it queues for the audit, the notifications and the derived tasks are left out: nothing of
-- the workflow reads them.
pub mod Synced
pub mod Kept
pub mod Retry
mod Tests
use Prim.Native.String.{compare, ◌++◌}
use text.Mathlib.Text.{is_lt}
use project_management.Base.{
  ℕ, String, Bool, ◌&&◌, ◌||◌, not, List, [], ◌∷◌, Option, none, some, any, find, if◌then◌else◌,
  is_empty, str_eq, Result, Check, ok, err, ◌>>=◌, ◌>>◌, refuse_if, conflict, not_found,
  already_applied, storage, import_conflict,
}
use project_management.Delivery.Payload.{string_value, has_text}
use project_management.Delivery.Schema.{ServiceItem, DeliveryEvent, EventType}
use project_management.Delivery.Store.{Store, Platform, item_of, project_of}
use project_management.Delivery.Json.{type_code, json_semantically_equal}
use project_management.Delivery.Items.{apply_item_event}
use project_management.Delivery.Projects.{apply_project_event, sync_project_status_column}
use project_management.Penetration.Package.{Desk, Command, ensure_embedded_penetration_package}

abbrev pub is_type : String → EventType → Bool
is_type code type = str_eq (type_code type) code

-- `checkOrdinarySupplementImport`, without its locks
unfoldable pub check_ordinary_supplement_import : Store → String → String → Check
check_ordinary_supplement_import store contract_id project_id =
    refuse_if
      (any
        (λ b.
          str_eq b.source_application "contract_management"
          && str_eq b.contract_id contract_id
          && not (is_empty b.project_id)
          && not (str_eq b.project_id project_id))
        store.import_bindings)
      import_conflict

abbrev pub check_supplement : Store → DeliveryEvent → Check
check_supplement store event =
    let id = string_value event.payload "supplement_contract_id" in
    if is_type "DECOMPOSITION_ADJUSTED" event.event_type && not (is_empty id)
    then check_ordinary_supplement_import store id event.project_id
    else ok tt

-- `First`: the row with the least key
abbrev lesser : DeliveryEvent → Option DeliveryEvent → DeliveryEvent
lesser e none = e
lesser e (some least) = if is_lt (compare e.id least.id) then e else least

abbrev first_event : (DeliveryEvent → Bool) → List DeliveryEvent → Option DeliveryEvent
first_event test [] = none
first_event test (e ∷ events) =
    let rest = first_event test events in if test e then some (lesser e rest) else rest

abbrev pub reported_of : Store → DeliveryEvent → Option DeliveryEvent
reported_of store event =
    let id = string_value event.payload "deviation_id" in
    first_event
      (λ e. is_type "DEVIATION_REPORTED" e.event_type && has_text e.payload "deviation_id" id)
      store.events

abbrev pub beside : DeliveryEvent → Option DeliveryEvent → Result DeliveryEvent
beside event none = err not_found
beside event (some reported) =
    ok (record event {
      project_id = reported.project_id;
      service_item_id = reported.service_item_id;
    })

-- A review belongs to the item of the report that it is of.
unfoldable pub locate_event : Store → DeliveryEvent → Result DeliveryEvent
locate_event store event =
    if is_type "DEVIATION_REVIEWED" event.event_type
    then beside event (reported_of store event)
    else ok event

abbrev pub is_same_operation : DeliveryEvent → DeliveryEvent → Bool
is_same_operation event e =
    str_eq e.service_item_id event.service_item_id
    && str_eq e.actor_user_id event.actor_user_id
    && str_eq e.client_operation_id event.client_operation_id

-- An operation that the client has numbered is applied once; the same number for something else is
-- refused.
unfoldable pub check_operation : Store → DeliveryEvent → Check
check_operation store event =
    if is_empty event.client_operation_id
    then ok tt
    else elim (find (is_same_operation event) store.events) [
      | none ↦ ok tt
      | some existing ↦
          if str_eq (type_code existing.event_type) (type_code event.event_type)
            && json_semantically_equal existing.payload event.payload
          then err already_applied
          else err conflict
    ]

abbrev pub desk_of : Store → Desk
desk_of store = record {
  packages = store.packages;
  revisions = store.revisions;
  events = store.package_events;
}

-- The package that comes with an execution team; `package_id` is the generated key of its row.
abbrev pub embed_package : Store → DeliveryEvent → String → Option ServiceItem → Result Store
embed_package store event package_id none = err storage
embed_package store event package_id (some item) =
    ensure_embedded_penetration_package (desk_of store) item package_id (record {
      item_id = item.id;
      expected_version = 0;
      idempotency_key = event.id ++ "-penetration-package";
      event_type = "WORK_PACKAGE_CREATED";
      actor = event.actor_user_id;
      now = event.created_at;
    })
    >>= λ desk. ok (record store {
      packages = desk.packages;
      revisions = desk.revisions;
      package_events = desk.events;
    })

abbrev pub with_package : Store → ServiceItem → DeliveryEvent → String → Result Store
with_package store item event package_id =
    if is_type "EXECUTION_TEAM_ASSIGNED" event.event_type
    then embed_package store event package_id (item_of store item.id)
    else ok store

-- The part of the event that concerns its service item.
unfoldable pub apply_to_item :
    Platform → Store → DeliveryEvent → ℕ → String → Result (DeliveryEvent × Store)
apply_to_item platform store event now package_id =
    if is_empty event.service_item_id
    then ok (event, store)
    else elim (item_of store event.service_item_id) [
      | none ↦ err not_found
      | some item ↦
          let placed = record event { project_id = item.project_id } in
          check_operation store placed
          >> apply_item_event platform store item placed now
          >>= λ written.
              with_package written item placed package_id >>= λ packed. ok (placed, packed)
    ]

-- The part that concerns its project.
unfoldable pub apply_to_project : Store → DeliveryEvent → Result Store
apply_to_project store event =
    if is_empty event.project_id then ok store else elim (project_of store event.project_id) [
      | none ↦ err not_found
      | some project ↦ apply_project_event store project event >>= λ written.
          sync_project_status_column written event.project_id
    ]

-- `createEvent`; the key of the row is unique.
unfoldable pub create_event : Store → DeliveryEvent → Result Store
create_event store event =
    refuse_if (any (λ e. str_eq e.id event.id) store.events) storage
    >> ok (record store { events = event ∷ store.events })

-- `ApplyDeliveryEvent`
unfoldable pub apply_delivery_event : Platform → Store → DeliveryEvent → ℕ → String → Result Store
apply_delivery_event platform store event now package_id =
    check_supplement store event >> locate_event store event >>= λ located.
    apply_to_item platform store located now package_id >>= λ (placed, moved).
    apply_to_project moved placed >>= λ synced. create_event synced placed

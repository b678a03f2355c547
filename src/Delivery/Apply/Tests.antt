-- ===== src/Delivery/Apply/Tests.antt =====
-- Runs of `ApplyDeliveryEvent` and of the numbering of service items.
use project_management.Base.{
  ◌≡◌, ◌≢◌, refl, List, [], ◌∷◌, some, ok, err, already_applied, All, arith, get_by, trim_space,
  to_upper, equal_fold, update_one, is_empty, false,
}
use project_management.Base.Text.Decimal.{atoi, decimal, digits_value, padded_decimal}
use project_management.Base.Text.Serial.{last_part, trim_prefix}
use project_management.Domain.Status.{
  derive_project_status, derive_project_progress, service_item_lifecycle_rank, is_terminated,
}
use project_management.Domain.Phase.{report_phase_rank, normalize_report_phase}
use project_management.Delivery.Payload.{expected_version_value, string_value}
use project_management.Delivery.Schema.{Project, DeliveryEvent, field_started}
use project_management.Delivery.Store.{Store}
use project_management.Delivery.Gates.{guard_native_scope_mutation}
use project_management.Delivery.Change.{updated_item, write_item}
use project_management.Delivery.Field.{start_field}
use project_management.Delivery.Items.{apply_item_event, handle_event}
use project_management.Delivery.Json.{type_code}
use project_management.Delivery.Serial.{
  service_item_sequence, service_item_id_for, max_sequence, service_item_sequence-id_for,
  service_item_id_for-fresh,
}
use project_management.Delivery.Projects.{
  apply_project_event, project_columns, status_items, sync_project_status_column,
}
use project_management.Delivery.Apply.{
  apply_delivery_event, locate_event, check_operation, apply_to_item, apply_to_project,
  create_event,
}
use project_management.Delivery.Apply.Synced.{Synced, apply_delivery_event-Synced}
use project_management.Delivery.Apply.Retry.{apply_delivery_event-replay}
use project_management.Delivery.Tests.{platform, item, store_with, event_of}

abbrev project : Project
project = record {
  id = "PJ-1";
  source_kind = "CONTRACT";
  source_id = "W-1";
  scope_version = 0;
  services = 1;
  supplement_status = "NONE";
  status = "实施准备中";
  progress = 37;
  version = 2;
  updated_at = 0;
}

abbrev starting : DeliveryEvent
starting = record (event_of field_started "engineer") { client_operation_id = "op-1" }

abbrev before : Store
before = record (store_with item) { projects = project ∷ [] }

abbrev afterwards : Store
afterwards = record before {
  projects = record project { status = "实施中"; progress = 50 } ∷ [];
  items =
      record item {
        status = "实施中";
        status_changed_at = some 9;
        version = 5;
        updated_at = 9;
        updated_by = "engineer";
      }
      ∷ [];
  events = starting ∷ [];
}

start_accepted : apply_delivery_event platform before starting 9 "WP-1" ≡ ok afterwards
unfolding apply_delivery_event locate_event apply_to_item check_operation apply_to_project
    create_event apply_project_event project_columns sync_project_status_column status_items
    type_code string_value apply_item_event guard_native_scope_mutation expected_version_value
    get_by handle_event start_field write_item update_one updated_item trim_space to_upper
    equal_fold derive_project_status derive_project_progress service_item_lifecycle_rank
    is_terminated report_phase_rank normalize_report_phase
start_accepted = refl

apply_delivery_event-Synced_example :
    (placed : DeliveryEvent) × (rest : List DeliveryEvent) × (afterwards.events ≡ placed ∷ rest)
    × (placed.id ≡ starting.id)
    × (is_empty placed.project_id ≡ false → Synced afterwards placed.project_id)
apply_delivery_event-Synced_example =
    apply_delivery_event-Synced platform before starting 9 "WP-1" start_accepted

apply_delivery_event-replay_example :
    apply_delivery_event platform afterwards starting 20 "WP-2" ≡ err already_applied
unfolding type_code
apply_delivery_event-replay_example =
    apply_delivery_event-replay platform before starting 9 20 "WP-1" "WP-2" refl refl refl refl
      start_accepted

numbered : service_item_id_for "PJ-2024-1" 7 ≡ "SI-2024-1-007"
unfolding service_item_id_for trim_prefix padded_decimal decimal
numbered = refl

read_back : service_item_sequence "SI-2024-1-0123" ≡ 123
unfolding service_item_sequence atoi last_part trim_space digits_value
read_back = refl

service_item_sequence-id_for_example :
    service_item_sequence (service_item_id_for "PJ-2024-1" 1007) ≡ 1007
service_item_sequence-id_for_example = service_item_sequence-id_for "PJ-2024-1" 1007 (omega arith)

highest : max_sequence (item ∷ []) 0 ≡ 1
unfolding max_sequence service_item_sequence atoi last_part trim_space digits_value
highest = refl

service_item_id_for-fresh_example : All (λ old. old.id ≢ service_item_id_for "PJ-1" 2) (item ∷ [])
service_item_id_for-fresh_example =
    service_item_id_for-fresh "PJ-1" (item ∷ []) 2 (omega (arith, highest)) (omega arith)

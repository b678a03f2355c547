-- ===== src/Delivery/Tests.antt =====
-- Runs of the delivery workflow on one small store.
use project_management.Base.{
  ℕ, ◌≡◌, ◌≢◌, ap, refl, ◌≤◌, String, [], ◌∷◌, none, some, ok, Pointwise, get_by, trim_space,
  to_upper, equal_fold, update_one, str_eq, arith,
}
use project_management.Domain.Status.{terminated}
use project_management.Domain.Phase.{report_phase_rank, normalize_report_phase}
use project_management.Delivery.Payload.{
  resources, json_bytes, PlanResource, texts, text, expected_version_value, string_value, number,
}
use project_management.Delivery.Schema.{
  Equipment, Reservation, ImplPlan, preparation_started, ServiceItem, ReportRevision, DeliveryEvent,
  EventType, field_started, field_checked_in, report_status_updated,
}
use project_management.Delivery.Store.{Store, Platform, item_of}
use project_management.Delivery.Gates.{
  guard_native_scope_mutation, validate_penetration_report_gate, is_equal_protection_category,
}
use project_management.Delivery.Change.{updated_item, write_item}
use project_management.Delivery.Plan.{update_impl_plan_equipment}
use project_management.Delivery.Equipment.{
  sync_equipment_reservations, delete_reservation_rows, reserve_all, equipment_window, reserve_days,
}
use project_management.Delivery.Equipment.Schedule.{
  Scheduled, sync_equipment_reservations-Scheduled,
}
use project_management.Delivery.EquipmentLocks.{lock_item_equipment, lock_equipment_resources}
use project_management.Delivery.Field.{start_preparation, start_field}
use project_management.Delivery.Reporting.{advance_report}
use project_management.Delivery.Report.{
  lock_report_revision, advance_report_revision, advance_columns, ensure_report_revision,
  initial_status, allowed_report_phase,
}
use project_management.Delivery.Report.Table.{next_id}
use project_management.Delivery.Report.Ledger.{Ledger}
use project_management.Delivery.Items.{apply_item_event, handle_event}
use project_management.Delivery.Items.Runs.{
  apply_item_event-no_lost_update, Evolves, apply_item_event-Evolves, Run, done, next, Run-Ledger,
  Run-terminated,
}

abbrev pub platform : Platform
platform = record {
  parse_time = λ s. none;
  format_time = λ t. "";
  parse_date = λ s. none;
  same_resource = str_eq;
  to_lower = λ s. s;
}

abbrev pub item : ServiceItem
item = record {
  id = "SI-1";
  project_id = "PJ-1";
  source_service_id = "";
  batch = "B1";
  site = "";
  site_code = "";
  category = "软件测试";
  requirement = "";
  system = "";
  system_level = "";
  system_standard = "";
  special = "否";
  test_mode = "STANDARD";
  team_lead_id = "lead";
  project_manager_id = "manager";
  engineer_ids = texts [];
  equipment_ids = texts [];
  required_codes = texts [];
  planned_start = none;
  planned_end = none;
  conflict_status = "PASSED";
  tech_review_status = "NONE";
  tech_reviewed_at = none;
  tech_reviewed_by = "";
  tech_review_comment = "";
  report_status = "NONE";
  report_updated_at = none;
  report_updated_by = "";
  report_revision = 0;
  report_prepared_by = "";
  report_reviewed_by = "";
  report_issued_by = "";
  status = "实施准备中";
  status_changed_at = none;
  version = 4;
  created_at = 0;
  updated_at = 0;
  updated_by = "";
}

abbrev pub store_with : ServiceItem → Store
store_with i = record {
  projects = [];
  items = i ∷ [];
  archived = [];
  revisions = [];
  packages = [];
  package_events = [];
  plans = [];
  evidence = [];
  reservations = [];
  equipment = [];
  import_bindings = [];
  events = [];
  pending_scopes = [];
}

abbrev pub event_of : EventType → String → DeliveryEvent
event_of type actor = record {
  id = "E1";
  project_id = "PJ-1";
  service_item_id = "SI-1";
  event_type = type;
  actor_user_id = actor;
  client_operation_id = "";
  captured_at = none;
  payload = ("expected_version", number 4) ∷ ("phase", text "RECTIFYING") ∷ [];
  created_at = 9;
}

abbrev started_item : ServiceItem
started_item = record item {
  status = "实施中";
  status_changed_at = some 9;
  version = 5;
  updated_at = 9;
  updated_by = "engineer";
}

abbrev started : Store
started = store_with started_item

start_accepted :
    apply_item_event platform (store_with item) item (event_of field_started "engineer") 9
    ≡ ok started
unfolding apply_item_event guard_native_scope_mutation expected_version_value get_by handle_event
    start_field write_item update_one updated_item
start_accepted = refl

apply_item_event-Evolves_example :
    Pointwise (Evolves field_started item) (store_with item).items started.items
apply_item_event-Evolves_example =
    apply_item_event-Evolves platform (store_with item) item (event_of field_started "engineer") 9
      refl start_accepted

abbrev reported : ServiceItem
reported = record item { status = "现场实施完成" }

abbrev revision : ReportRevision
revision = record {
  id = 1;
  service_item_id = "SI-1";
  subject_type = "SERVICE_ITEM";
  subject_id = "SI-1";
  revision = 0;
  status = "RECTIFYING";
  validity_status = "ACTIVE";
  correction_request_id = "";
  correction_reason = "";
  file_id = "";
  file_name = "";
  file_mime = "";
  file_size = 0;
  file_sha256 = "";
  prepared_by = "";
  prepared_at = none;
  reviewed_by = "";
  reviewed_at = none;
  issued_by = "";
  issued_at = none;
  archived_by = "";
  archived_at = none;
  invalidated_by = "";
  invalidated_at = none;
  created_at = 7;
  updated_at = 9;
}

abbrev rectified : Store
rectified =
    record (store_with (record reported {
      report_status = "RECTIFYING";
      report_updated_at = some 9;
      report_updated_by = "writer";
      version = 5;
      updated_at = 9;
      updated_by = "writer";
    })) { revisions = revision ∷ [] }

rectify_accepted :
    apply_item_event platform
      (store_with reported)
      reported
      (event_of report_status_updated "writer")
      7
    ≡ ok rectified
unfolding apply_item_event guard_native_scope_mutation expected_version_value get_by handle_event
    advance_report write_item update_one updated_item string_value trim_space to_upper equal_fold
    allowed_report_phase report_phase_rank normalize_report_phase validate_penetration_report_gate
    is_equal_protection_category lock_report_revision ensure_report_revision initial_status
    advance_report_revision advance_columns next_id
rectify_accepted = refl

abbrev rectify : DeliveryEvent
rectify = event_of report_status_updated "writer"

rectify-Run : Run platform (store_with reported) (record rectified { events = rectify ∷ [] })
rectify-Run = next reported rectify 7 rectified refl rectify_accepted done

Run-Ledger_example : Ledger (revision ∷ [])
Run-Ledger_example = Run-Ledger platform rectify-Run (record { keyed = tt; duties = tt })

Run-terminated_example :
    (item' : ServiceItem) × (item_of (record rectified { events = rectify ∷ [] }) "SI-1"
      ≡ some item')
    × (4 ≤ item'.version)
    × (reported.status ≡ terminated → item'.status ≡ terminated)
Run-terminated_example = Run-terminated platform "SI-1" rectify-Run refl

names : expected_version_value (event_of field_started "engineer").payload ≡ 4
unfolding expected_version_value get_by
names = refl

moved : started_item ≢ item
moved e = let same = ap (λ i. i.version) e in ground arith

apply_item_event-no_lost_update_example :
    apply_item_event platform started started_item (event_of field_checked_in "engineer") 9
    ≢ ok started
apply_item_event-no_lost_update_example =
    apply_item_event-no_lost_update platform (store_with item) item started started_item
      (event_of field_started "engineer") (event_of field_checked_in "engineer") 9 9 4 refl refl
      start_accepted (λ e. cc) moved names names

abbrev ready : ServiceItem
ready = record item { status = "待实施"; planned_start = some 0; planned_end = some 86400000000000 }

abbrev device : Equipment
device = record {
  id = "C1";
  resource_id = "D1";
  status = "ACTIVE";
  usage_scope = "ANY";
  valid_from = none;
  valid_until = none;
}

abbrev use_of_device : PlanResource
use_of_device = record {
  resource_type = "EQUIPMENT";
  resource_id = "D1";
  resource_name = "scanner";
  codes = [];
  valid_until = "";
  window_start = "";
  window_end = "";
  note = "";
  returned_at = "";
}

abbrev plan : ImplPlan
plan = record {
  service_item_id = "SI-1";
  planned_start = some 0;
  planned_end = some 86400000000000;
  site_plan = "";
  penetration_test_plan = "";
  auth_doc_no = "";
  auth_start = none;
  auth_end = none;
  auth_scope = "";
  test_scope = "";
  test_window = "";
  emergency_contact = "";
  rollback_plan = "";
  personnel = none;
  equipment = none;
  updated_at = 0;
  updated_by = "";
}

abbrev prepare : DeliveryEvent
prepare = record (event_of preparation_started "manager") {
  payload = ("equipment", resources (use_of_device ∷ [])) ∷ [];
}

abbrev on_day : ℕ → Reservation
on_day day = record {
  resource_id = "D1";
  use_date = day;
  service_item_id = "SI-1";
  window_start = 0;
  window_end = 1;
  created_at = 9;
}

abbrev before_preparation : Store
before_preparation = record (store_with ready) { equipment = device ∷ []; plans = plan ∷ [] }

abbrev prepared : Store
prepared = record before_preparation {
  items =
      record ready {
        status = "实施准备中";
        status_changed_at = some 9;
        version = 5;
        updated_at = 9;
        updated_by = "manager";
      }
      ∷ [];
  reservations = on_day 1 ∷ on_day 0 ∷ [];
  plans =
      record plan {
        equipment = some (resources (use_of_device ∷ []));
        updated_at = 9;
        updated_by = "manager";
      }
      ∷ [];
}

prepare_accepted : apply_item_event platform before_preparation ready prepare 9 ≡ ok prepared
unfolding apply_item_event guard_native_scope_mutation expected_version_value get_by handle_event
    start_preparation write_item update_one updated_item trim_space sync_equipment_reservations
    json_bytes delete_reservation_rows reserve_all equipment_window reserve_days lock_item_equipment
    lock_equipment_resources update_impl_plan_equipment
prepare_accepted = refl

devices_reserved :
    sync_equipment_reservations platform before_preparation ready prepare
    ≡ ok (on_day 1 ∷ on_day 0 ∷ [])
unfolding get_by trim_space sync_equipment_reservations json_bytes delete_reservation_rows
    reserve_all equipment_window reserve_days lock_item_equipment lock_equipment_resources
devices_reserved = refl

sync_equipment_reservations-Scheduled_example :
    Scheduled platform before_preparation ready prepare (on_day 1 ∷ on_day 0 ∷ [])
sync_equipment_reservations-Scheduled_example =
    sync_equipment_reservations-Scheduled platform before_preparation ready prepare devices_reserved

-- ===== src/Delivery/Projects.antt =====
-- internal/infrastructure/mysql/delivery_events.go: `applyProjectEvent` and
-- `syncProjectStatusColumn`, the part of an event that concerns the project.
use project_management.Base.{
  ℕ, suc, String, Bool, true, false, ◌&&◌, not, List, [], ◌∷◌, ◌++◌, map, Option, none, some, any,
  filter, length, if◌then◌else◌, is_empty, str_eq, trim_space, equal_fold, lookup, ◌==◌, update_one,
  update_where, Result, Check, ok, err, ◌>>=◌, ◌>>◌, refuse_if, validation, conflict, precondition,
  storage,
}
use project_management.Domain.Status.{
  ProjectStatusItem, derive_project_status, derive_project_progress,
}
use project_management.Delivery.Payload.{
  ItemInput, Value, null_value, other_number, text, number, texts, resources, files, service_items,
}
use project_management.Delivery.Schema.{
  Project, ServiceItem, DeliveryEvent, EventType, scope_change_detected, decomposition_adjusted,
  supplement_closed,
}
use project_management.Delivery.Store.{Store, project_of}
use project_management.Delivery.Gates.{ensure_no_pending_native_scope}
use project_management.Delivery.Serial.{max_sequence, service_item_id_for}

-- An object without any of the fields decodes to their zero values.
abbrev no_item : ItemInput
no_item = record {
  id = "";
  source_service_id = "";
  batch = "";
  site = "";
  site_code = "";
  category = "";
  requirement = "";
  system = "";
  system_level = "";
  system_standard = "";
  required_codes = [];
  special = "";
  test_mode = "";
  status = "";
  tech_review_status = "";
  conflict_status = "";
}

-- What `service_items` decodes to; nothing stands for an error as well, which is answered alike.
abbrev items_of : Option Value → List ItemInput
items_of none = []
items_of (some (service_items is)) = is
items_of (some (resources rs)) = map (λ _. no_item) rs
items_of (some (files fs)) = map (λ _. no_item) fs
items_of (some null_value) = []
items_of (some other_number) = []
items_of (some (text _)) = []
items_of (some (number _)) = []
items_of (some (texts _)) = []

-- The new row of a service item, with the id already completed.
abbrev new_item : Project → DeliveryEvent → String → ItemInput → ServiceItem
new_item project event id input = record {
  id = id;
  project_id = project.id;
  source_service_id = input.source_service_id;
  batch = input.batch;
  site = input.site;
  site_code = input.site_code;
  category = input.category;
  requirement = input.requirement;
  system = input.system;
  system_level = input.system_level;
  system_standard = input.system_standard;
  special = input.special;
  test_mode = input.test_mode;
  team_lead_id = "";
  project_manager_id = "";
  engineer_ids = null_value;
  equipment_ids = null_value;
  required_codes = texts input.required_codes;
  planned_start = none;
  planned_end = none;
  conflict_status = input.conflict_status;
  tech_review_status = input.tech_review_status;
  tech_reviewed_at = none;
  tech_reviewed_by = "";
  tech_review_comment = "";
  report_status = "";
  report_updated_at = none;
  report_updated_by = "";
  report_revision = 0;
  report_prepared_by = "";
  report_reviewed_by = "";
  report_issued_by = "";
  status = input.status;
  status_changed_at = some event.created_at;
  version = 1;
  created_at = event.created_at;
  updated_at = event.created_at;
  updated_by = event.actor_user_id;
}

abbrev completed_id : Project → ℕ → ItemInput → String
completed_id project sequence input =
    if is_empty (trim_space input.id) then service_item_id_for project.id sequence else input.id

-- The loop over the new items; `sequence` is `maxSequence+index+1`. The primary key is unique over the
-- archived rows too.
unfoldable pub create_items :
    Project
    → DeliveryEvent
    → List ServiceItem
    → ℕ
    → List ItemInput
    → List ServiceItem
    → Result (List ServiceItem)
create_items project event archived sequence [] rows = ok rows
create_items project event archived sequence (input ∷ inputs) rows =
    let id = completed_id project sequence input in
    refuse_if (any (λ r. str_eq r.id id) (rows ++ archived)) storage
    >> create_items project event archived (suc sequence) inputs
        (new_item project event id input ∷ rows)

abbrev of_project : String → ServiceItem → Bool
of_project id row = str_eq row.project_id id

-- An item that has left the decomposition.
abbrev is_settled : ServiceItem → Bool
is_settled row = not (str_eq row.status "待确认") && not (str_eq row.status "待复核")

-- `EventDecompositionAdjusted`
unfoldable pub adjust_decomposition :
    Store → Project → DeliveryEvent → Result (Store × (Project → Project))
adjust_decomposition store project event =
    let inputs = items_of (lookup "service_items" event.payload) in
    let olds = filter (of_project project.id) store.items in
    let archived = olds ++ store.archived in
    refuse_if (any is_settled olds) validation
    >> refuse_if (length inputs == 0) validation
    >> create_items project event archived (suc (max_sequence olds 0)) inputs
        (filter (λ r. not (of_project project.id r)) store.items)
    >>= λ rows. ok (
      record store { items = rows; archived = archived },
      λ p. record p {
        services = length inputs;
        supplement_status = "REQUIRED";
        status = "补充协议处理中";
      },
    )

-- The columns that the event writes, `none` when `updates` stays at its one entry.
unfoldable pub project_columns :
    Store → Project → DeliveryEvent → EventType → Result (Store × Option (Project → Project))
project_columns store project event scope_change_detected =
    ok (store, some (λ p. record p { supplement_status = "REQUIRED"; status = "补充协议处理中" }))
project_columns store project event decomposition_adjusted =
    adjust_decomposition store project event >>= λ (written, columns). ok (written, some columns)
project_columns store project event supplement_closed =
    refuse_if (not (equal_fold (trim_space project.supplement_status) "REQUIRED")) conflict
    >> ok (store, some (λ p. record p { supplement_status = "NONE" }))
project_columns store project event _ = ok (store, none)

abbrev is_scope_event : EventType → Bool
is_scope_event scope_change_detected = true
is_scope_event decomposition_adjusted = true
is_scope_event supplement_closed = true
is_scope_event _ = false

-- The guard of a native project.
abbrev pub guard_native : Store → Project → EventType → Check
guard_native store project type =
    if str_eq project.source_kind "NATIVE"
    then refuse_if (is_scope_event type) precondition
      >> ensure_no_pending_native_scope store project
    else ok tt

-- `id=? AND version=?`
abbrev pub is_same_project : Project → Project → Bool
is_same_project project row = str_eq row.id project.id && row.version == project.version

abbrev pub write_project :
    Project → DeliveryEvent → Store × Option (Project → Project) → Result Store
write_project project event (store, none) = ok store
write_project project event (store, some columns) =
    update_one (is_same_project project)
      (λ r. record (columns r) { version = suc r.version; updated_at = event.created_at })
      store.projects
    >>= λ rows. ok (record store { projects = rows })

-- `applyProjectEvent`
unfoldable pub apply_project_event : Store → Project → DeliveryEvent → Result Store
apply_project_event store project event =
    guard_native store project event.event_type
    >> project_columns store project event event.event_type
    >>= write_project project event

-- The columns of the items that the status is derived from.
unfoldable pub status_items : Store → String → List ProjectStatusItem
status_items store project_id =
    map (λ r. record { status = r.status; report_status = r.report_status })
      (filter (of_project project_id) store.items)

-- `syncProjectStatusColumn`
unfoldable pub sync_project_status_column : Store → String → Result Store
sync_project_status_column store project_id = elim (project_of store project_id) [
  | none ↦ err storage
  | some project ↦
      let items = status_items store project_id in
      ok (record store {
        projects =
            update_where (λ r. str_eq r.id project_id)
              (λ r. record r {
                status = derive_project_status items project.supplement_status project.status;
                progress = derive_project_progress items;
              })
              store.projects;
      })
]

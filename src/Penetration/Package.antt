-- ===== src/Penetration/Package.antt =====
-- internal/infrastructure/mysql/penetration.go: the commands on a work package, each one transaction
-- that is idempotent by its key.
use project_management.Base.{
  ℕ, suc, String, Bool, ◌&&◌, ◌||◌, not, List, [], ◌∷◌, Option, none, some, any, find,
  if◌then◌else◌, is_empty, str_eq, trim_space, ◌==◌, update_one, Result, ok, err, ◌>>=◌, ◌>>◌,
  refuse_if, conflict, not_found,
}
use project_management.Delivery.Payload.{texts}
use project_management.Delivery.Schema.{ServiceItem, WorkPackage, ReportRevision, PackageEvent}
use project_management.Delivery.Gates.{ungated}

-- The tables that the commands read and write.
pub record Desk : Type 0 where
  pub packages : List WorkPackage
  pub revisions : List ReportRevision
  pub events : List PackageEvent

-- The part of a command that all commands have.
pub record Command : Type 0 where
  pub item_id : String
  pub expected_version : ℕ
  pub idempotency_key : String
  pub event_type : String
  pub actor : String
  pub now : ℕ

-- A mutation: the revisions that it writes, and the columns of the package.
abbrev pub Mutation : Type 0
Mutation =
    List ReportRevision → WorkPackage → Result (List ReportRevision × (WorkPackage → WorkPackage))

-- `createPenetrationEvent`; its key is unique
unfoldable pub create_penetration_event : Desk → WorkPackage → Command → Result Desk
create_penetration_event desk row command =
    refuse_if (any (λ e. str_eq e.idempotency_key command.idempotency_key) desk.events) conflict
    >> ok (record desk {
      events =
          record {
            work_package_id = row.id;
            event_type = command.event_type;
            actor_user_id = command.actor;
            idempotency_key = command.idempotency_key;
            created_at = command.now;
          }
          ∷ desk.events;
    })

abbrev pub package_row : Desk → String → Option WorkPackage
package_row desk item_id = find (λ p. str_eq p.parent_service_item_id item_id) desk.packages

abbrev pub prior_event : Desk → String → Option PackageEvent
prior_event desk key = find (λ e. str_eq e.idempotency_key key) desk.events

-- `id=? AND version=?`
abbrev pub is_same_package : WorkPackage → WorkPackage → Bool
is_same_package row p = str_eq p.id row.id && p.version == row.version

unfoldable pub written_package : Command → (WorkPackage → WorkPackage) → WorkPackage → WorkPackage
written_package command columns p = record (columns p) {
  version = suc p.version;
  updated_at = command.now;
  updated_by = command.actor;
}

abbrev pub write_package :
    Desk → WorkPackage → Command → List ReportRevision × (WorkPackage → WorkPackage) → Result Desk
write_package desk row command (revisions, columns) =
    update_one (is_same_package row) (written_package command columns) desk.packages >>= λ packages.
    create_penetration_event (record desk { packages = packages; revisions = revisions }) row
      command

-- A key that is known is answered at once, if it is the same command on the same package.
abbrev pub replay : Desk → WorkPackage → Command → PackageEvent → Result Desk
replay desk row command prior =
    refuse_if (not (str_eq prior.event_type command.event_type)) conflict
    >> refuse_if (not (str_eq row.id prior.work_package_id)) conflict
    >> ok desk

abbrev pub run_mutation : Desk → WorkPackage → Command → Mutation → Result Desk
run_mutation desk row command mutate =
    refuse_if (command.expected_version == 0 || not (row.version == command.expected_version))
      conflict
    >> mutate desk.revisions row
    >>= write_package desk row command

-- `mutatePenetrationPackage`
unfoldable pub mutate_penetration_package : Desk → Command → Mutation → Result Desk
mutate_penetration_package desk command mutate = elim (package_row desk command.item_id) [
  | none ↦ err not_found
  | some row ↦ elim (prior_event desk command.idempotency_key) [
    | some prior ↦ replay desk row command prior
    | none ↦ run_mutation desk row command mutate
  ]
]

-- `ensureEmbeddedPenetrationPackage`; `id` is the generated key of the new row
unfoldable pub ensure_embedded_penetration_package :
    Desk → ServiceItem → String → Command → Result Desk
ensure_embedded_penetration_package desk item id command =
    if ungated item
      || is_empty (trim_space item.project_manager_id)
      || any (λ p. str_eq p.parent_service_item_id item.id) desk.packages
    then ok desk
    else let row : WorkPackage = record {
      id = id;
      project_id = item.project_id;
      parent_service_item_id = item.id;
      decision_status = "PENDING";
      customer_contact = "";
      communicated_at = none;
      communication_summary = "";
      decision_change_reason = "";
      planned_start = none;
      planned_end = none;
      engineer_ids = texts [];
      auth_doc_no = "";
      auth_start = none;
      auth_end = none;
      auth_scope = "";
      test_scope = "";
      test_window = "";
      emergency_contact = "";
      rollback_plan = "";
      execution_status = "NOT_STARTED";
      report_status = "NONE";
      report_revision = 0;
      version = 1;
      created_at = command.now;
      updated_at = command.now;
      updated_by = command.actor;
    } in
      create_penetration_event (record desk { packages = row ∷ desk.packages }) row command

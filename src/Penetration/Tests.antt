-- ===== src/Penetration/Tests.antt =====
-- Commands on one work package.
use project_management.Base.{◌≡◌, refl, [], ◌∷◌, none, some, ok, str_eq, trim_space, update_one}
use project_management.Delivery.Schema.{WorkPackage}
use project_management.Delivery.Payload.{texts}
use project_management.Delivery.Store.{Platform}
use project_management.Penetration.Package.{
  Desk, Command, mutate_penetration_package, create_penetration_event, written_package,
}
use project_management.Penetration.Commands.{
  PenetrationDecisionInput, decision, run_command, save_penetration_decision, decide,
}
use project_management.Penetration.Replay.{run_command-replay, run_command-Moved}
use project_management.Penetration.Laws.{Moved}

abbrev platform : Platform
platform = record {
  parse_time = λ s. some 5;
  format_time = λ t. "";
  parse_date = λ s. none;
  same_resource = str_eq;
  to_lower = λ s. s;
}

abbrev work_package : WorkPackage
work_package = record {
  id = "W1";
  project_id = "PJ-1";
  parent_service_item_id = "SI-1";
  decision_status = "PENDING";
  customer_contact = "";
  communicated_at = none;
  communication_summary = "";
  decision_change_reason = "";
  planned_start = none;
  planned_end = none;
  engineer_ids = texts [];
  auth_doc_no = "";
  auth_start = none;
  auth_end = none;
  auth_scope = "";
  test_scope = "";
  test_window = "";
  emergency_contact = "";
  rollback_plan = "";
  execution_status = "NOT_STARTED";
  report_status = "NONE";
  report_revision = 0;
  version = 1;
  created_at = 0;
  updated_at = 0;
  updated_by = "";
}

abbrev desk : Desk
desk = record { packages = work_package ∷ []; revisions = []; events = [] }

abbrev command : Command
command = record {
  item_id = "SI-1";
  expected_version = 1;
  idempotency_key = "K1";
  event_type = "";
  actor = "manager";
  now = 7;
}

abbrev input : PenetrationDecisionInput
input = record {
  decision_status = "REQUIRED";
  customer_contact = "customer";
  communicated_at = "2026-01-01T00:00:00Z";
  communication_summary = "agreed";
  change_reason = "";
}

abbrev decided_desk : Desk
decided_desk = record {
  packages =
      record work_package {
        decision_status = "REQUIRED";
        customer_contact = "customer";
        communicated_at = some 5;
        communication_summary = "agreed";
        version = 2;
        updated_at = 7;
        updated_by = "manager";
      }
      ∷ [];
  revisions = [];
  events =
      record {
        work_package_id = "W1";
        event_type = "DECISION_RECORDED";
        actor_user_id = "manager";
        idempotency_key = "K1";
        created_at = 7;
      }
      ∷ [];
}

decision_accepted : run_command platform desk command (decision input) ≡ ok decided_desk
unfolding run_command save_penetration_decision mutate_penetration_package decide
    create_penetration_event written_package update_one trim_space
decision_accepted = refl

run_command-replay_example :
    run_command platform decided_desk command (decision input) ≡ ok decided_desk
run_command-replay_example =
    run_command-replay platform desk command (decision input) decision_accepted

run_command-Moved_example : Moved desk "SI-1" "K1" decided_desk
run_command-Moved_example =
    run_command-Moved platform desk command (decision input) decision_accepted

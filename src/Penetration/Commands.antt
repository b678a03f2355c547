-- ===== src/Penetration/Commands.antt =====
-- internal/infrastructure/mysql/penetration.go and internal/domain/penetration.go: the decision, the
-- plan, the execution and the report of a work package.
use mathlib.Core.Option
use project_management.Base.{
  ℕ, String, Bool, ◌&&◌, ◌||◌, not, List, [], ◌∷◌, Option, none, some, find, if◌then◌else◌,
  is_empty, str_eq, trim_space, lookup, ◌==◌, update_one, Result, ok, err, ◌>>=◌, ◌>>◌, refuse_if,
  precondition, validation, is_some,
}
use project_management.Delivery.Payload.{texts, ReportArtifactInput}
use project_management.Delivery.Schema.{WorkPackage, ReportRevision}
use project_management.Delivery.Store.{Platform}
use project_management.Delivery.Report.{new_revision}
use project_management.Penetration.Package.{Desk, Command, Mutation, mutate_penetration_package}

pub record PenetrationDecisionInput : Type 0 where
  pub decision_status : String
  pub customer_contact : String
  pub communicated_at : String
  pub communication_summary : String
  pub change_reason : String

pub record PenetrationPlanInput : Type 0 where
  pub planned_start : String
  pub planned_end : String
  pub engineer_ids : List String
  pub auth_doc_no : String
  pub auth_start : String
  pub auth_end : String
  pub auth_scope : String
  pub test_scope : String
  pub test_window : String
  pub emergency_contact : String
  pub rollback_plan : String

pub record PenetrationExecutionInput : Type 0 where
  pub action : String
  pub customer_contact : String
  pub communicated_at : String
  pub communication_summary : String
  pub reason : String

abbrev decided : PenetrationDecisionInput → ℕ → WorkPackage → WorkPackage
decided input at p = record p {
  decision_status = input.decision_status;
  customer_contact = input.customer_contact;
  communicated_at = some at;
  communication_summary = input.communication_summary;
  decision_change_reason = trim_space input.change_reason;
}

-- The columns that a decision against the test clears.
abbrev dropped : WorkPackage → WorkPackage
dropped p = record p {
  execution_status = "CANCELLED";
  report_status = "NONE";
  planned_start = none;
  planned_end = none;
  engineer_ids = texts [];
  auth_doc_no = "";
  auth_start = none;
  auth_end = none;
  auth_scope = "";
  test_scope = "";
  test_window = "";
  emergency_contact = "";
  rollback_plan = "";
}

abbrev pub decision_columns : PenetrationDecisionInput → WorkPackage → ℕ → WorkPackage → WorkPackage
decision_columns input row at p =
    if str_eq input.decision_status "NOT_REQUIRED"
    then dropped (decided input at p)
    else if str_eq row.decision_status "NOT_REQUIRED"
    then record (decided input at p) { execution_status = "NOT_STARTED"; report_status = "NONE" }
    else decided input at p

-- The mutation of `SavePenetrationDecision`
unfoldable pub decide : Platform → PenetrationDecisionInput → Mutation
decide platform input revisions row = elim (platform.parse_time input.communicated_at) [
  | none ↦ err validation
  | some at ↦ ok (revisions, decision_columns input row at)
]

-- A time whose error is dropped: 0 stands for Go's zero time, which is not null.
abbrev time_of : Platform → String → Option ℕ
time_of platform s = some (Option.get_or (platform.parse_time s) 0)

-- The mutation of `SavePenetrationPlan`
unfoldable pub plan_package : Platform → PenetrationPlanInput → Mutation
plan_package platform input revisions row =
    refuse_if
      (not (str_eq row.decision_status "REQUIRED")
        || (not (str_eq row.execution_status "NOT_STARTED")
            && not (str_eq row.execution_status "CANCELLED")))
      precondition
    >> ok (
      revisions,
      λ p. record p {
        planned_start = time_of platform input.planned_start;
        planned_end = time_of platform input.planned_end;
        engineer_ids = texts input.engineer_ids;
        auth_doc_no = trim_space input.auth_doc_no;
        auth_start = time_of platform input.auth_start;
        auth_end = time_of platform input.auth_end;
        auth_scope = trim_space input.auth_scope;
        test_scope = trim_space input.test_scope;
        test_window = trim_space input.test_window;
        emergency_contact = trim_space input.emergency_contact;
        rollback_plan = trim_space input.rollback_plan;
        execution_status = "NOT_STARTED";
      },
    )

abbrev pub can_start : WorkPackage → Bool
can_start row =
    str_eq row.decision_status "REQUIRED"
    && str_eq row.execution_status "NOT_STARTED"
    && is_some row.planned_start
    && is_some row.auth_start

abbrev pub start_execution : Mutation
start_execution revisions row =
    refuse_if (not (can_start row)) precondition
    >> ok (revisions, λ p. record p { execution_status = "IN_PROGRESS" })

abbrev pub complete_execution : Mutation
complete_execution revisions row =
    refuse_if (not (str_eq row.execution_status "IN_PROGRESS")) precondition
    >> ok (revisions, λ p. record p { execution_status = "COMPLETED" })

abbrev pub cancel_columns : PenetrationExecutionInput → ℕ → WorkPackage → WorkPackage
cancel_columns input at p = record p {
  decision_status = "NOT_REQUIRED";
  execution_status = "CANCELLED";
  customer_contact = trim_space input.customer_contact;
  communicated_at = some at;
  communication_summary = trim_space input.communication_summary;
  decision_change_reason = trim_space input.reason;
}

abbrev pub cancel_execution : Platform → PenetrationExecutionInput → Mutation
cancel_execution platform input revisions row =
    refuse_if (str_eq row.execution_status "COMPLETED" || not (str_eq row.report_status "NONE"))
      precondition
    >> elim (platform.parse_time input.communicated_at) [
      | none ↦ err validation
      | some at ↦ ok (revisions, cancel_columns input at)
    ]

-- The mutation of `AdvancePenetrationExecution`
unfoldable pub execute : Platform → PenetrationExecutionInput → Mutation
execute platform input revisions row =
    if str_eq input.action "START"
    then start_execution revisions row
    else if str_eq input.action "COMPLETE"
    then complete_execution revisions row
    else if str_eq input.action "CANCEL"
    then cancel_execution platform input revisions row
    else err validation

abbrev package_subject : String
package_subject = "PENETRATION_WORK_PACKAGE"

abbrev of_package : WorkPackage → ReportRevision → Bool
of_package row r =
    str_eq r.subject_type package_subject
    && str_eq r.subject_id row.id
    && r.revision == row.report_revision

-- `lockPenetrationReportRevision`
abbrev pub lock_penetration_report_revision :
    WorkPackage → ℕ → List ReportRevision → ReportRevision × List ReportRevision
lock_penetration_report_revision row now revisions = elim (find (of_package row) revisions) [
  | some r ↦ (r, revisions)
  | none ↦
      let r : ReportRevision =
        new_revision revisions row.parent_service_item_id package_subject row.id row.report_revision
          now in
      (r, r ∷ revisions)
]

abbrev pub next_phases : List (String × String)
next_phases =
    ("NONE", "DRAFTING")
    ∷ ("DRAFTING", "SUBMITTED")
    ∷ ("SUBMITTED", "APPROVED")
    ∷ ("APPROVED", "ISSUED")
    ∷ ("ISSUED", "ARCHIVED")
    ∷ []

-- The guards of a report phase and the columns of the revision that it writes.
unfoldable pub report_phase_columns :
    ReportRevision → String → String → ℕ → Result (ReportRevision → ReportRevision)
report_phase_columns revision phase actor now =
    if str_eq phase "DRAFTING"
    then ok (λ r. record r { prepared_by = actor; prepared_at = some now })
    else if str_eq phase "SUBMITTED"
    then refuse_if (is_empty revision.prepared_by || is_empty (trim_space revision.file_id))
        precondition
      >> ok (λ r. r)
    else if str_eq phase "APPROVED"
    then refuse_if (is_empty revision.prepared_by || str_eq actor revision.prepared_by) precondition
      >> ok (λ r. record r { reviewed_by = actor; reviewed_at = some now })
    else if str_eq phase "ISSUED"
    then refuse_if
        (is_empty revision.reviewed_by
          || str_eq actor revision.prepared_by
          || str_eq actor revision.reviewed_by)
        precondition
      >> ok (λ r. record r { issued_by = actor; issued_at = some now })
    else if str_eq phase "ARCHIVED"
    then refuse_if (is_empty revision.issued_by) precondition
      >> ok (λ r. record r { archived_by = actor; archived_at = some now })
    else ok (λ r. r)

abbrev write_phase :
    String
    → ℕ
    → ReportRevision
    → List ReportRevision
    → (ReportRevision → ReportRevision)
    → Result (List ReportRevision × (WorkPackage → WorkPackage))
write_phase phase now revision revisions columns =
    update_one (λ r. r.id == revision.id && str_eq r.status revision.status)
      (λ r. record (columns r) { status = phase; updated_at = now }) revisions
    >>= λ rows. ok (rows, λ p. record p { report_status = phase })

-- The mutation of `AdvancePenetrationReport`
unfoldable pub advance_package_report : String → String → ℕ → Mutation
advance_package_report phase actor now revisions row =
    let next = Option.get_or (lookup row.report_status next_phases) "" in
    let locked = lock_penetration_report_revision row now revisions in
    refuse_if (not (str_eq row.execution_status "COMPLETED")) precondition
    >> refuse_if (is_empty next || not (str_eq phase next)) validation
    >> report_phase_columns locked.0 phase actor now
    >>= write_phase phase now locked.0 locked.1

-- The mutation of `RegisterPenetrationReportArtifact`
unfoldable pub register_package_artifact : ReportArtifactInput → ℕ → Mutation
register_package_artifact input now revisions row =
    let locked = lock_penetration_report_revision row now revisions in
    refuse_if (not (str_eq row.report_status "DRAFTING")) precondition
    >> update_one (λ r. r.id == locked.0.id && str_eq r.status "DRAFTING")
        (λ r. record r {
          file_id = input.file_id;
          file_name = input.file_name;
          file_mime = input.mime;
          file_size = input.size;
          file_sha256 = input.sha256;
          updated_at = now;
        })
        locked.1
    >>= λ rows. ok (rows, λ p. p)

abbrev pub typed : Command → String → Command
typed command event_type = record command { event_type = event_type }

-- The commands of the repository.
unfoldable pub save_penetration_decision :
    Platform → Desk → Command → PenetrationDecisionInput → Result Desk
save_penetration_decision platform desk command input =
    mutate_penetration_package desk (typed command "DECISION_RECORDED") (decide platform input)

unfoldable pub save_penetration_plan :
    Platform → Desk → Command → PenetrationPlanInput → Result Desk
save_penetration_plan platform desk command input =
    mutate_penetration_package desk (typed command "PLAN_SAVED") (plan_package platform input)

unfoldable pub advance_penetration_report : Desk → Command → String → Result Desk
advance_penetration_report desk command phase =
    mutate_penetration_package desk (typed command "REPORT_STATUS_UPDATED")
      (advance_package_report phase command.actor command.now)

unfoldable pub register_penetration_report_artifact :
    Desk → Command → ReportArtifactInput → Result Desk
register_penetration_report_artifact desk command input =
    mutate_penetration_package desk (typed command "REPORT_ARTIFACT_REGISTERED")
      (register_package_artifact input command.now)

append_text : String → String → String
append_text String.[] t = t
append_text (String.◌∷◌ c s) t = String.◌∷◌ c (append_text s t)

unfoldable pub advance_penetration_execution :
    Platform → Desk → Command → PenetrationExecutionInput → Result Desk
unfolding append_text
advance_penetration_execution platform desk command input =
    mutate_penetration_package desk (typed command (append_text "EXECUTION_" input.action))
      (execute platform input)

-- Any one of the commands.
pub data PackageCommand : Type 0 where
  decision : PenetrationDecisionInput → PackageCommand
  planning : PenetrationPlanInput → PackageCommand
  execution : PenetrationExecutionInput → PackageCommand
  reporting : String → PackageCommand
  filing : ReportArtifactInput → PackageCommand

unfoldable pub run_command : Platform → Desk → Command → PackageCommand → Result Desk
run_command platform desk command (decision input) =
    save_penetration_decision platform desk command input
run_command platform desk command (planning input) =
    save_penetration_plan platform desk command input
run_command platform desk command (execution input) =
    advance_penetration_execution platform desk command input
run_command platform desk command (reporting phase) = advance_penetration_report desk command phase
run_command platform desk command (filing input) =
    register_penetration_report_artifact desk command input

-- ===== src/Penetration/Replay.antt =====
-- internal/infrastructure/mysql/penetration.go: a command that is sent again changes nothing, and the
-- execution of a work package runs through its states.
use project_management.Base.{
  ℕ, ◌≡◌, refl, inl, inr, String, ◌||◌, ◌&&◌, not, Answers, guard, after, Option-cases, Bool-cases,
  ok, is_empty, str_eq, lookup, update_one, ◌==◌,
}
use mathlib.Core.Option
use project_management.Delivery.Schema.{WorkPackage}
use project_management.Delivery.Payload.{ReportArtifactInput}
use project_management.Delivery.Store.{Platform}
use project_management.Penetration.Package.{Desk, Command}
use project_management.Penetration.Commands.{
  PenetrationDecisionInput, PenetrationPlanInput, PenetrationExecutionInput, decide,
  decision_columns, plan_package, execute, can_start, advance_package_report, report_phase_columns,
  register_package_artifact, lock_penetration_report_revision, next_phases, PackageCommand,
  decision, planning, execution, reporting, filing, run_command, save_penetration_decision,
  save_penetration_plan, advance_penetration_execution, advance_penetration_report,
  register_penetration_report_artifact,
}
use project_management.Penetration.Laws.{KeepsKeys, mutate-replay, mutate-Moved, Moved}

decision_columns-keys :
    (input : PenetrationDecisionInput) (row : WorkPackage) (at : ℕ) (p : WorkPackage)
    → ((decision_columns input row at p).id ≡ p.id)
      × ((decision_columns input row at p).parent_service_item_id ≡ p.parent_service_item_id)
decision_columns-keys input row at p =
    elim (Bool-cases (str_eq input.decision_status "NOT_REQUIRED")) [
      | inl a ↦ rw a (refl, refl)
      | inr a ↦ rw a (elim (Bool-cases (str_eq row.decision_status "NOT_REQUIRED")) [
        | inl b ↦ rw b (refl, refl)
        | inr b ↦ rw b (refl, refl)
      ])
    ]

decide-KeepsKeys :
    (platform : Platform) (input : PenetrationDecisionInput) → KeepsKeys (decide platform input)
unfolding decide
decide-KeepsKeys platform input revisions row =
    elim (Option-cases (platform.parse_time input.communicated_at)) [
      | inl e ↦ rw (e, Answers) tt
      | inr (at, e) ↦ rw (e, Answers) (decision_columns-keys input row at)
    ]

plan-KeepsKeys :
    (platform : Platform) (input : PenetrationPlanInput) → KeepsKeys (plan_package platform input)
unfolding plan_package
plan-KeepsKeys platform input revisions row =
    guard _
      (not (str_eq row.decision_status "REQUIRED")
        || (not (str_eq row.execution_status "NOT_STARTED")
            && not (str_eq row.execution_status "CANCELLED")))
      _ _ λ _ p. (refl, refl)

execute-KeepsKeys :
    (platform : Platform) (input : PenetrationExecutionInput) → KeepsKeys (execute platform input)
unfolding execute
execute-KeepsKeys platform input revisions row = elim (Bool-cases (str_eq input.action "START")) [
  | inl a ↦ rw a (guard _ (not (can_start row)) _ _ λ _ p. (refl, refl))
  | inr a ↦ rw a (elim (Bool-cases (str_eq input.action "COMPLETE")) [
    | inl b ↦
        rw b (guard _ (not (str_eq row.execution_status "IN_PROGRESS")) _ _ λ _ p. (refl, refl))
    | inr b ↦ rw b (elim (Bool-cases (str_eq input.action "CANCEL")) [
      | inl c ↦ rw c (
          guard _ (str_eq row.execution_status "COMPLETED" || not (str_eq row.report_status "NONE"))
            _ _
            λ _. elim (Option-cases (platform.parse_time input.communicated_at)) [
              | inl e ↦ rw e tt
              | inr (at, e) ↦ rw e (λ p. (refl, refl))
            ])
      | inr c ↦ rw c tt
    ])
  ])
]

report-KeepsKeys :
    (phase actor : String) (now : ℕ) → KeepsKeys (advance_package_report phase actor now)
unfolding advance_package_report
report-KeepsKeys phase actor now revisions row =
    let following = Option.get_or (lookup row.report_status next_phases) "" in
    let locked = lock_penetration_report_revision row now revisions in
    guard _ (not (str_eq row.execution_status "COMPLETED")) _ _ λ _.
      guard _ (is_empty following || not (str_eq phase following)) _ _ λ _.
        after _ (report_phase_columns locked.0 phase actor now) _ λ columns _.
          after _
            (update_one (λ r. r.id == locked.0.id && str_eq r.status locked.0.status)
              (λ r. record (columns r) { status = phase; updated_at = now }) locked.1)
            _ λ _ _ p. (refl, refl)

artifact-KeepsKeys :
    (input : ReportArtifactInput) (now : ℕ) → KeepsKeys (register_package_artifact input now)
unfolding register_package_artifact
artifact-KeepsKeys input now revisions row =
    let locked = lock_penetration_report_revision row now revisions in
    guard _ (not (str_eq row.report_status "DRAFTING")) _ _
      λ _. after _ (update_one _ _ locked.1) _ λ _ _ p. (refl, refl)

-- A command that was accepted may be sent again: the answer is the same, and nothing changes.
pub run_command-replay :
    (platform : Platform) (desk : Desk) (command : Command) (kind : PackageCommand) {desk' : Desk}
    → run_command platform desk command kind ≡ ok desk'
    → run_command platform desk' command kind ≡ ok desk'
unfolding run_command save_penetration_decision save_penetration_plan advance_penetration_execution
    advance_penetration_report register_penetration_report_artifact
run_command-replay platform desk command (decision input) h =
    mutate-replay desk _ (decide platform input) (decide-KeepsKeys platform input) h
run_command-replay platform desk command (planning input) h =
    mutate-replay desk _ (plan_package platform input) (plan-KeepsKeys platform input) h
run_command-replay platform desk command (execution input) h =
    mutate-replay desk _ (execute platform input) (execute-KeepsKeys platform input) h
run_command-replay platform desk command (reporting phase) h =
    mutate-replay desk _ (advance_package_report phase command.actor command.now)
      (report-KeepsKeys phase command.actor command.now) h
run_command-replay platform desk command (filing input) h =
    mutate-replay desk _ (register_package_artifact input command.now)
      (artifact-KeepsKeys input command.now) h

-- An accepted command is on the work package of its item and changes no other row of the table: each
-- package stays as it is, or is that package and gets its next version under the same keys. Under an
-- idempotency key that no event has yet, the package of the item does get its next version.
pub run_command-Moved :
    (platform : Platform) (desk : Desk) (command : Command) (kind : PackageCommand) {desk' : Desk}
    → run_command platform desk command kind ≡ ok desk'
    → Moved desk command.item_id command.idempotency_key desk'
unfolding run_command save_penetration_decision save_penetration_plan advance_penetration_execution
    advance_penetration_report register_penetration_report_artifact
run_command-Moved platform desk command (decision input) h =
    mutate-Moved desk _ (decide platform input) (decide-KeepsKeys platform input) h
run_command-Moved platform desk command (planning input) h =
    mutate-Moved desk _ (plan_package platform input) (plan-KeepsKeys platform input) h
run_command-Moved platform desk command (execution input) h =
    mutate-Moved desk _ (execute platform input) (execute-KeepsKeys platform input) h
run_command-Moved platform desk command (reporting phase) h =
    mutate-Moved desk _ (advance_package_report phase command.actor command.now)
      (report-KeepsKeys phase command.actor command.now) h
run_command-Moved platform desk command (filing input) h =
    mutate-Moved desk _ (register_package_artifact input command.now)
      (artifact-KeepsKeys input command.now) h

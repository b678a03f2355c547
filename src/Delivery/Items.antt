-- ===== src/Delivery/Items.antt =====
-- internal/infrastructure/mysql/delivery_events.go: `applyItemEvent`.
pub mod Sound
pub mod Runs
use project_management.Base.{
  ℕ, Bool, true, false, ◌&&◌, not, if◌then◌else◌, ◌==◌, Result, ok, err, ◌>>=◌, ◌>>◌, refuse_if,
  validation, conflict,
}
use project_management.Delivery.Payload.{expected_version_value}
use project_management.Delivery.Schema.{
  ServiceItem, DeliveryEvent, EventType, contract_activated, contract_stamp_status,
  decomposition_adjusted, decomposition_returned, team_assigned, team_assignment_revoked,
  execution_team_assigned, execution_assignment_revoked, implementation_planned,
  implementation_plan_revoked, preparation_started, preparation_revoked, field_started,
  field_checked_in, field_record_submitted, field_signature_captured, rollback_requested,
  rollback_approved, rollback_rejected, rollback_withdrawn, report_correction_requested,
  report_correction_approved, report_correction_rejected, deviation_reported, deviation_reviewed,
  field_completed, special_method_reviewed, report_status_updated, equipment_returned,
  scope_change_detected, supplement_closed, automation_triggered, warning_triggered, other_event,
}
use project_management.Delivery.Store.{Store, Platform}
use project_management.Delivery.Gates.{guard_native_scope_mutation}
use project_management.Delivery.Change.{Outcome, unchanged, write_item}
use project_management.Delivery.Assignment.{
  assign_team, revoke_team, return_decomposition, assign_execution, revoke_execution,
  plan_implementation, revoke_plan, review_special_method,
}
use project_management.Delivery.Field.{
  start_preparation, revoke_preparation, start_field, record_field, check_in, complete_field,
  report_deviation, review_deviation, return_equipment,
}
use project_management.Delivery.Reporting.{
  advance_report, approve_rollback, withdraw_rollback, approve_correction,
}

-- `isAuditOnlyEvent`
abbrev pub is_audit_only_event : EventType → Bool
is_audit_only_event contract_activated = true
is_audit_only_event contract_stamp_status = true
is_audit_only_event warning_triggered = true
is_audit_only_event automation_triggered = true
is_audit_only_event rollback_requested = true
is_audit_only_event rollback_rejected = true
is_audit_only_event report_correction_requested = true
is_audit_only_event report_correction_rejected = true
is_audit_only_event _ = false

-- The `switch event.Type`.
unfoldable pub handle_event :
    Platform → Store → ServiceItem → DeliveryEvent → ℕ → EventType → Result Outcome
handle_event platform store item event now team_assigned = assign_team store item event
handle_event platform store item event now team_assignment_revoked = revoke_team store item event
handle_event platform store item event now decomposition_returned =
    return_decomposition store item event
handle_event platform store item event now execution_team_assigned =
    assign_execution store item event
handle_event platform store item event now execution_assignment_revoked =
    revoke_execution store item event
handle_event platform store item event now implementation_planned =
    plan_implementation platform store item event
handle_event platform store item event now implementation_plan_revoked =
    revoke_plan store item event
handle_event platform store item event now special_method_reviewed =
    review_special_method store item event
handle_event platform store item event now report_status_updated =
    advance_report store item event now
handle_event platform store item event now equipment_returned =
    return_equipment platform store item event
handle_event platform store item event now preparation_started =
    start_preparation platform store item event
handle_event platform store item event now preparation_revoked =
    revoke_preparation platform store item event
handle_event platform store item event now rollback_approved = approve_rollback store item event
handle_event platform store item event now rollback_withdrawn = withdraw_rollback store item event
handle_event platform store item event now report_correction_approved =
    approve_correction store item event now
handle_event platform store item event now field_started = start_field store item event
handle_event platform store item event now field_record_submitted = record_field store item event
handle_event platform store item event now field_checked_in = check_in store item event
handle_event platform store item event now field_signature_captured = record_field store item event
handle_event platform store item event now field_completed = complete_field store item event
handle_event platform store item event now deviation_reported = report_deviation store item event
handle_event platform store item event now deviation_reviewed =
    review_deviation platform store item event
handle_event platform store item event now other_type =
    if is_audit_only_event other_type then ok unchanged else err validation

-- A client that names a version is answered only while the item has it.
abbrev pub is_stale : ServiceItem → DeliveryEvent → Bool
is_stale item event =
    let expected = expected_version_value event.payload in
    not (expected == 0) && not (item.version == expected)

unfoldable pub apply_item_event : Platform → Store → ServiceItem → DeliveryEvent → ℕ → Result Store
apply_item_event platform store item event now =
    guard_native_scope_mutation store item
    >> refuse_if (is_stale item event) conflict
    >> handle_event platform store item event now event.event_type
    >>= write_item store item event

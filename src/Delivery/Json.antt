-- ===== src/Delivery/Json.antt =====
-- internal/application/delivery_contract.go: the codes of the event types, and
-- internal/infrastructure/mysql/delivery_events.go: `jsonSemanticallyEqual` on payloads.
pub mod Laws
use project_management.Base.{
  String, Bool, true, false, ◌&&◌, List, [], ◌∷◌, Option, none, some, str_eq, lookup, all, ◌==◌,
}
use project_management.Delivery.Payload.{
  PlanResource, ReportArtifactInput, ItemInput, Value, null_value, other_number, text, number,
  texts, resources, files, service_items, Payload,
}
use project_management.Delivery.Schema.{
  EventType, contract_activated, contract_stamp_status, decomposition_adjusted,
  decomposition_returned, team_assigned, team_assignment_revoked, execution_team_assigned,
  execution_assignment_revoked, implementation_planned, implementation_plan_revoked,
  preparation_started, preparation_revoked, field_started, field_checked_in, field_record_submitted,
  field_signature_captured, rollback_requested, rollback_approved, rollback_rejected,
  rollback_withdrawn, report_correction_requested, report_correction_approved,
  report_correction_rejected, deviation_reported, deviation_reviewed, field_completed,
  special_method_reviewed, report_status_updated, equipment_returned, scope_change_detected,
  supplement_closed, automation_triggered, warning_triggered, other_event,
}

-- The codes that the events are stored under.
unfoldable pub type_code : EventType → String
type_code contract_activated = "CONTRACT_ACTIVATED"
type_code contract_stamp_status = "CONTRACT_STAMP_STATUS_SYNCED"
type_code decomposition_adjusted = "DECOMPOSITION_ADJUSTED"
type_code decomposition_returned = "DECOMPOSITION_RETURNED"
type_code team_assigned = "TEAM_ASSIGNED"
type_code team_assignment_revoked = "TEAM_ASSIGNMENT_REVOKED"
type_code execution_team_assigned = "EXECUTION_TEAM_ASSIGNED"
type_code execution_assignment_revoked = "EXECUTION_ASSIGNMENT_REVOKED"
type_code implementation_planned = "IMPLEMENTATION_PLANNED"
type_code implementation_plan_revoked = "IMPLEMENTATION_PLAN_REVOKED"
type_code preparation_started = "PREPARATION_STARTED"
type_code preparation_revoked = "PREPARATION_REVOKED"
type_code field_started = "FIELD_STARTED"
type_code field_checked_in = "FIELD_CHECKED_IN"
type_code field_record_submitted = "FIELD_RECORD_SUBMITTED"
type_code field_signature_captured = "FIELD_SIGNATURE_CAPTURED"
type_code rollback_requested = "ROLLBACK_REQUESTED"
type_code rollback_approved = "ROLLBACK_APPROVED"
type_code rollback_rejected = "ROLLBACK_REJECTED"
type_code rollback_withdrawn = "ROLLBACK_WITHDRAWN"
type_code report_correction_requested = "REPORT_CORRECTION_REQUESTED"
type_code report_correction_approved = "REPORT_CORRECTION_APPROVED"
type_code report_correction_rejected = "REPORT_CORRECTION_REJECTED"
type_code deviation_reported = "DEVIATION_REPORTED"
type_code deviation_reviewed = "DEVIATION_REVIEWED"
type_code field_completed = "FIELD_COMPLETED"
type_code special_method_reviewed = "SPECIAL_METHOD_REVIEWED"
type_code report_status_updated = "REPORT_STATUS_UPDATED"
type_code equipment_returned = "EQUIPMENT_RETURNED"
type_code scope_change_detected = "SCOPE_CHANGE_DETECTED"
type_code supplement_closed = "SUPPLEMENT_CLOSED"
type_code automation_triggered = "AUTOMATION_TRIGGERED"
type_code warning_triggered = "WARNING_TRIGGERED"
type_code (other_event code) = code

abbrev pub list_eq : {A : Type 0} → (A → A → Bool) → List A → List A → Bool
list_eq same [] [] = true
list_eq same [] (y ∷ ys) = false
list_eq same (x ∷ xs) [] = false
list_eq same (x ∷ xs) (y ∷ ys) = same x y && list_eq same xs ys

abbrev pub resource_eq : PlanResource → PlanResource → Bool
resource_eq a b =
    str_eq a.resource_type b.resource_type
    && str_eq a.resource_id b.resource_id
    && str_eq a.resource_name b.resource_name
    && list_eq str_eq a.codes b.codes
    && str_eq a.valid_until b.valid_until
    && str_eq a.window_start b.window_start
    && str_eq a.window_end b.window_end
    && str_eq a.note b.note
    && str_eq a.returned_at b.returned_at

abbrev pub file_eq : ReportArtifactInput → ReportArtifactInput → Bool
file_eq a b =
    str_eq a.file_id b.file_id
    && str_eq a.file_name b.file_name
    && str_eq a.mime b.mime
    && a.size == b.size
    && str_eq a.sha256 b.sha256

abbrev pub item_eq : ItemInput → ItemInput → Bool
item_eq a b =
    str_eq a.id b.id
    && str_eq a.source_service_id b.source_service_id
    && str_eq a.batch b.batch
    && str_eq a.site b.site
    && str_eq a.site_code b.site_code
    && str_eq a.category b.category
    && str_eq a.requirement b.requirement
    && str_eq a.system b.system
    && str_eq a.system_level b.system_level
    && str_eq a.system_standard b.system_standard
    && list_eq str_eq a.required_codes b.required_codes
    && str_eq a.special b.special
    && str_eq a.test_mode b.test_mode
    && str_eq a.status b.status
    && str_eq a.tech_review_status b.tech_review_status
    && str_eq a.conflict_status b.conflict_status

-- An empty list is encoded as `[]`, whatever it is a list of. Two numbers that are neither whole nor
-- positive are not told apart.
abbrev is_empty_list : Value → Bool
is_empty_list (texts []) = true
is_empty_list (resources []) = true
is_empty_list (files []) = true
is_empty_list (service_items []) = true
is_empty_list _ = false

unfoldable pub value_eq : Value → Value → Bool
value_eq null_value null_value = true
value_eq other_number other_number = true
value_eq (text a) (text b) = str_eq a b
value_eq (number a) (number b) = a == b
value_eq (texts a) (texts b) = list_eq str_eq a b
value_eq (resources a) (resources b) = list_eq resource_eq a b
value_eq (files a) (files b) = list_eq file_eq a b
value_eq (service_items a) (service_items b) = list_eq item_eq a b
value_eq a b = is_empty_list a && is_empty_list b

abbrev pub found_eq : Option Value → Option Value → Bool
found_eq none none = true
found_eq none (some b) = false
found_eq (some a) none = false
found_eq (some a) (some b) = value_eq a b

abbrev pub keys_eq : Payload → Payload → Payload → Bool
keys_eq a b entries = all (λ entry. found_eq (lookup entry.0 a) (lookup entry.0 b)) entries

-- `jsonSemanticallyEqual` on the encodings of two payloads: the same keys with the same values.
unfoldable pub json_semantically_equal : Payload → Payload → Bool
json_semantically_equal a b = keys_eq a b a && keys_eq a b b

-- ===== src/Delivery/Schema.antt =====
-- internal/infrastructure/mysql/models.go and delivery_events.go: the rows of the tables that the
-- delivery workflow reads and writes. A time is a number, a null time is `none`.
use project_management.Base.{ℕ, String, Option}
use project_management.Delivery.Payload.{Payload, Value}

-- `serviceItemRecord`
pub record ServiceItem : Type 0 where
  pub id : String
  pub project_id : String
  pub source_service_id : String
  pub batch : String
  pub site : String
  pub site_code : String
  pub category : String
  pub requirement : String
  pub system : String
  pub system_level : String
  pub system_standard : String
  pub special : String
  pub test_mode : String
  pub team_lead_id : String
  pub project_manager_id : String
  pub engineer_ids : Value
  pub equipment_ids : Value
  pub required_codes : Value
  pub planned_start : Option ℕ
  pub planned_end : Option ℕ
  pub conflict_status : String
  pub tech_review_status : String
  pub tech_reviewed_at : Option ℕ
  pub tech_reviewed_by : String
  pub tech_review_comment : String
  pub report_status : String
  pub report_updated_at : Option ℕ
  pub report_updated_by : String
  pub report_revision : ℕ
  pub report_prepared_by : String
  pub report_reviewed_by : String
  pub report_issued_by : String
  pub status : String
  pub status_changed_at : Option ℕ
  pub version : ℕ
  pub created_at : ℕ
  pub updated_at : ℕ
  pub updated_by : String

-- `reportRevisionRecord`
pub record ReportRevision : Type 0 where
  pub id : ℕ
  pub service_item_id : String
  pub subject_type : String
  pub subject_id : String
  pub revision : ℕ
  pub status : String
  pub validity_status : String
  pub correction_request_id : String
  pub correction_reason : String
  pub file_id : String
  pub file_name : String
  pub file_mime : String
  pub file_size : ℕ
  pub file_sha256 : String
  pub prepared_by : String
  pub prepared_at : Option ℕ
  pub reviewed_by : String
  pub reviewed_at : Option ℕ
  pub issued_by : String
  pub issued_at : Option ℕ
  pub archived_by : String
  pub archived_at : Option ℕ
  pub invalidated_by : String
  pub invalidated_at : Option ℕ
  pub created_at : ℕ
  pub updated_at : ℕ

-- `penetrationWorkPackageRecord`
pub record WorkPackage : Type 0 where
  pub id : String
  pub project_id : String
  pub parent_service_item_id : String
  pub decision_status : String
  pub customer_contact : String
  pub communicated_at : Option ℕ
  pub communication_summary : String
  pub decision_change_reason : String
  pub planned_start : Option ℕ
  pub planned_end : Option ℕ
  pub engineer_ids : Value
  pub auth_doc_no : String
  pub auth_start : Option ℕ
  pub auth_end : Option ℕ
  pub auth_scope : String
  pub test_scope : String
  pub test_window : String
  pub emergency_contact : String
  pub rollback_plan : String
  pub execution_status : String
  pub report_status : String
  pub report_revision : ℕ
  pub version : ℕ
  pub created_at : ℕ
  pub updated_at : ℕ
  pub updated_by : String

-- `implPlanRecord`; its generated id is left out, nothing reads it
pub record ImplPlan : Type 0 where
  pub service_item_id : String
  pub planned_start : Option ℕ
  pub planned_end : Option ℕ
  pub site_plan : String
  pub penetration_test_plan : String
  pub auth_doc_no : String
  pub auth_start : Option ℕ
  pub auth_end : Option ℕ
  pub auth_scope : String
  pub test_scope : String
  pub test_window : String
  pub emergency_contact : String
  pub rollback_plan : String
  pub personnel : Option Value
  pub equipment : Option Value
  pub updated_at : ℕ
  pub updated_by : String

-- `evidenceFileRecord`; its generated id is left out, nothing reads it
pub record EvidenceFile : Type 0 where
  pub service_item_id : String
  pub evidence_kind : String
  pub file_id : String
  pub file_name : String
  pub file_mime : String
  pub file_size : ℕ
  pub file_sha256 : String
  pub created_by : String
  pub created_at : ℕ

-- `equipmentReservationRecord`; days are numbered
pub record Reservation : Type 0 where
  pub resource_id : String
  pub use_date : ℕ
  pub service_item_id : String
  pub window_start : ℕ
  pub window_end : ℕ
  pub created_at : ℕ

-- The types of a delivery event, the constants of internal/application/delivery_contract.go.
pub data EventType : Type 0 where
  contract_activated contract_stamp_status decomposition_adjusted decomposition_returned : EventType
  team_assigned team_assignment_revoked execution_team_assigned : EventType
  execution_assignment_revoked implementation_planned implementation_plan_revoked : EventType
  preparation_started preparation_revoked field_started field_checked_in : EventType
  field_record_submitted field_signature_captured rollback_requested rollback_approved : EventType
  rollback_rejected rollback_withdrawn report_correction_requested : EventType
  report_correction_approved report_correction_rejected deviation_reported : EventType
  deviation_reviewed field_completed special_method_reviewed report_status_updated : EventType
  equipment_returned scope_change_detected supplement_closed automation_triggered : EventType
  warning_triggered : EventType
  other_event : String → EventType

-- `deliveryEventRecord` and internal/domain/delivery.go `DeliveryEvent`
pub record DeliveryEvent : Type 0 where
  pub id : String
  pub project_id : String
  pub service_item_id : String
  pub event_type : EventType
  pub actor_user_id : String
  pub client_operation_id : String
  pub captured_at : Option ℕ
  pub payload : Payload
  pub created_at : ℕ

-- `projectRecord`, the columns that the workflow reads or writes
pub record Project : Type 0 where
  pub id : String
  pub source_kind : String
  pub source_id : String
  pub scope_version : ℕ
  pub services : ℕ
  pub supplement_status : String
  pub status : String
  pub progress : ℕ
  pub version : ℕ
  pub updated_at : ℕ

-- `capabilityRecord` of type EQUIPMENT: a device of the master list
pub record Equipment : Type 0 where
  pub id : String
  pub resource_id : String
  pub status : String
  pub usage_scope : String
  pub valid_from : Option ℕ
  pub valid_until : Option ℕ

-- `penetrationWorkPackageEventRecord`, without its generated id and its payload: nothing reads them
pub record PackageEvent : Type 0 where
  pub work_package_id : String
  pub event_type : String
  pub actor_user_id : String
  pub idempotency_key : String
  pub created_at : ℕ

-- `contractImportBindingRecord`, the columns that the workflow reads
pub record ImportBinding : Type 0 where
  pub source_application : String
  pub contract_id : String
  pub project_id : String

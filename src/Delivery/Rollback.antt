-- ===== src/Delivery/Rollback.antt =====
-- internal/infrastructure/mysql/delivery_report.go: the checks that decide a rollback or a correction
-- of a report, against the events that are stored.
use project_management.Base.{
  String, Bool, true, false, ◌&&◌, not, Option, none, some, any, find, is_empty, str_eq, Check, err,
  ◌>>◌, refuse_if, validation, forbidden, conflict, not_found,
}
use project_management.Delivery.Payload.{string_value, has_text}
use project_management.Delivery.Schema.{
  ServiceItem, DeliveryEvent, EventType, rollback_requested, rollback_approved, rollback_rejected,
  rollback_withdrawn, report_correction_requested, report_correction_approved,
  report_correction_rejected,
}
use project_management.Delivery.Store.{Store}

abbrev pub is_rollback_request : EventType → Bool
is_rollback_request rollback_requested = true
is_rollback_request _ = false

abbrev pub is_rollback_decision : EventType → Bool
is_rollback_decision rollback_approved = true
is_rollback_decision rollback_rejected = true
is_rollback_decision rollback_withdrawn = true
is_rollback_decision _ = false

abbrev pub is_correction_request : EventType → Bool
is_correction_request report_correction_requested = true
is_correction_request _ = false

abbrev pub is_correction_decision : EventType → Bool
is_correction_decision report_correction_approved = true
is_correction_decision report_correction_rejected = true
is_correction_decision _ = false

-- The request that an event names, if it belongs to the item.
abbrev pub request_of : (EventType → Bool) → Store → ServiceItem → String → Option DeliveryEvent
request_of kind store item request_id =
    find (λ e. str_eq e.id request_id && str_eq e.service_item_id item.id && kind e.event_type)
      store.events

abbrev pub is_decided : (EventType → Bool) → Store → String → Bool
is_decided decision store request_id =
    any (λ e. decision e.event_type && has_text e.payload "request_id" request_id) store.events

-- `validateRollbackApproval`
unfoldable pub validate_rollback_approval : Store → ServiceItem → DeliveryEvent → Check
validate_rollback_approval store item event =
    let request_id = string_value event.payload "request_id" in
    refuse_if (is_empty request_id) validation
    >> elim (request_of is_rollback_request store item request_id) [
      | none ↦ err not_found
      | some request ↦
          refuse_if (str_eq request.actor_user_id event.actor_user_id) forbidden
          >> refuse_if (is_empty (string_value event.payload "kind")) validation
          >> refuse_if (is_decided is_rollback_decision store request_id) conflict
    ]

-- `validateRollbackWithdrawal`
unfoldable pub validate_rollback_withdrawal : Store → ServiceItem → DeliveryEvent → Check
validate_rollback_withdrawal store item event =
    let request_id = string_value event.payload "request_id" in
    refuse_if (is_empty request_id) validation
    >> elim (request_of is_rollback_request store item request_id) [
      | none ↦ err not_found
      | some request ↦
          refuse_if (not (str_eq request.actor_user_id event.actor_user_id)) forbidden
          >> refuse_if (is_decided is_rollback_decision store request_id) conflict
    ]

-- `validateReportCorrectionApproval`
unfoldable pub validate_report_correction_approval : Store → ServiceItem → DeliveryEvent → Check
validate_report_correction_approval store item event =
    let request_id = string_value event.payload "request_id" in
    refuse_if (is_empty request_id) validation
    >> elim (request_of is_correction_request store item request_id) [
      | none ↦ err not_found
      | some request ↦
          refuse_if (str_eq request.actor_user_id event.actor_user_id) forbidden
          >> refuse_if (is_decided is_correction_decision store request_id) conflict
    ]

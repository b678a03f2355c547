-- ===== src/Delivery/Field.antt =====
-- internal/infrastructure/mysql/delivery_events.go `applyItemEvent`: preparation, field work,
-- deviations and devices.
pub mod Sound
use Prim.Native.String.{compare}
use text.Mathlib.Text.{is_lt}
use project_management.Base.{
  String, Bool, true, false, ◌&&◌, ◌||◌, not, List, [], ◌∷◌, Option, none, some, any, find,
  if◌then◌else◌, is_empty, str_eq, Result, ok, err, ◌>>=◌, ◌>>◌, refuse_if, validation,
  precondition, conflict, not_found, ltb, ◌==◌,
}
use project_management.Domain.Status.{terminated}
use project_management.Delivery.Payload.{string_value, has_text}
use project_management.Delivery.Schema.{
  ServiceItem, DeliveryEvent, EventType, deviation_reported, deviation_reviewed, field_checked_in,
  field_record_submitted, field_signature_captured,
}
use project_management.Delivery.Store.{Store, Platform}
use project_management.Delivery.Report.{ensure_report_revision}
use project_management.Delivery.Plan.{update_impl_plan_equipment, clear_impl_plan}
use project_management.Delivery.Evidence.{persist_evidence_files}
use project_management.Delivery.Equipment.{
  sync_equipment_reservations, delete_reservation_rows, mark_equipment_returned,
}
use project_management.Delivery.Gates.{validate_penetration_field_completion_gate}
use project_management.Delivery.Change.{Outcome, unchanged, changed, keep_columns, move_to}
use project_management.Delivery.Assignment.{status_is}

-- `canStartPreparation`
abbrev pub can_start_preparation : String → Bool
can_start_preparation status = str_eq status "待实施" || str_eq status "实施准备中"

-- `EventPreparationStarted`
unfoldable pub start_preparation : Platform → Store → ServiceItem → DeliveryEvent → Result Outcome
start_preparation platform store item event =
    refuse_if (not (can_start_preparation item.status)) validation
    >> sync_equipment_reservations platform store item event
    >>= λ reservations. update_impl_plan_equipment item event store.plans >>= λ plans.
        move_to (record store { reservations = reservations; plans = plans }) "实施准备中"

-- `EventPreparationRevoked`
unfoldable pub revoke_preparation : Platform → Store → ServiceItem → DeliveryEvent → Result Outcome
revoke_preparation platform store item event =
    refuse_if (not (status_is item "实施准备中")) validation
    >> move_to
        (record store {
          reservations = delete_reservation_rows platform item "" store.reservations;
          plans = clear_impl_plan item event false store.plans;
        })
        "待实施"

-- `EventFieldStarted`
unfoldable pub start_field : Store → ServiceItem → DeliveryEvent → Result Outcome
start_field store item event =
    refuse_if (not (status_is item "实施准备中")) validation >> move_to store "实施中"

-- `EventFieldRecordSubmitted` and `EventFieldSignatureCaptured`
unfoldable pub record_field : Store → ServiceItem → DeliveryEvent → Result Outcome
record_field store item event =
    refuse_if (not (status_is item "实施中")) validation
    >> persist_evidence_files item event "FIELD" store.evidence
    >>= λ evidence. ok (changed (record store { evidence = evidence }) none keep_columns)

-- `EventFieldCheckedIn`
unfoldable pub check_in : Store → ServiceItem → DeliveryEvent → Result Outcome
check_in store item event =
    refuse_if (not (status_is item "实施中")) validation >> ok (changed store none keep_columns)

abbrev is_check_in : EventType → Bool
is_check_in field_checked_in = true
is_check_in _ = false

abbrev is_record : EventType → Bool
is_record field_record_submitted = true
is_record _ = false

abbrev is_signature : EventType → Bool
is_signature field_signature_captured = true
is_signature _ = false

abbrev pub has_event : Store → String → (EventType → Bool) → Bool
has_event store item_id kind =
    any (λ e. str_eq e.service_item_id item_id && kind e.event_type) store.events

-- `missingFieldEvidence`, whether its list of missing labels is empty
abbrev pub has_field_evidence : Store → String → Bool
has_field_evidence store item_id =
    has_event store item_id is_check_in
    && has_event store item_id is_record
    && has_event store item_id is_signature

-- `EventFieldCompleted`
unfoldable pub complete_field : Store → ServiceItem → DeliveryEvent → Result Outcome
complete_field store item event =
    refuse_if (not (status_is item "实施中")) validation
    >> validate_penetration_field_completion_gate store item
    >> refuse_if
        (not (has_field_evidence store item.id)
          && is_empty (string_value event.payload "incomplete_reason"))
        precondition
    >> ok (
        changed
          (record store {
            revisions = ensure_report_revision item event.created_at store.revisions;
          })
          (some "现场实施完成") (λ r. record r { report_status = "NONE" }))

-- `EventDeviationReported`
unfoldable pub report_deviation : Store → ServiceItem → DeliveryEvent → Result Outcome
report_deviation store item event =
    refuse_if (not (status_is item "实施中")) validation
    >> persist_evidence_files item event "DEVIATION" store.evidence
    >>= λ evidence. move_to (record store { evidence = evidence }) "异常处理中"

-- `deviationReviewStatus`
unfoldable pub deviation_review_status : String → Option String
deviation_review_status decision =
    if str_eq decision "RELEASE" || str_eq decision "RETEST"
    then some "实施中"
    else if str_eq decision "TERMINATE"
    then some terminated
    else none

abbrev is_deviation_report : EventType → Bool
is_deviation_report deviation_reported = true
is_deviation_report _ = false

abbrev is_deviation_review : EventType → Bool
is_deviation_review deviation_reviewed = true
is_deviation_review _ = false

-- `created_at DESC, id DESC`: the later of two events
abbrev later : DeliveryEvent → Option DeliveryEvent → DeliveryEvent
later e none = e
later e (some last) =
    if ltb last.created_at e.created_at
      || (last.created_at == e.created_at && is_lt (compare last.id e.id))
    then e
    else last

abbrev last_event : (DeliveryEvent → Bool) → List DeliveryEvent → Option DeliveryEvent
last_event test [] = none
last_event test (e ∷ events) =
    let rest = last_event test events in if test e then some (later e rest) else rest

-- The deviation that was reported last.
abbrev pub latest_deviation : Store → String → Option DeliveryEvent
latest_deviation store item_id =
    last_event (λ e. str_eq e.service_item_id item_id && is_deviation_report e.event_type)
      store.events

abbrev pub is_reviewed : Store → String → String → Bool
is_reviewed store item_id deviation_id =
    any
      (λ e.
        str_eq e.service_item_id item_id
        && is_deviation_review e.event_type
        && has_text e.payload "deviation_id" deviation_id)
      store.events

abbrev decide_deviation : Platform → Store → ServiceItem → Option String → Result Outcome
decide_deviation platform store item none = err validation
decide_deviation platform store item (some status) =
    move_to
      (if str_eq status terminated
        then record store {
          reservations = delete_reservation_rows platform item "" store.reservations;
        }
        else store)
      status

-- `EventDeviationReviewed`: the review is of the deviation that was reported last, and a second review
-- of it changes nothing.
unfoldable pub review_deviation : Platform → Store → ServiceItem → DeliveryEvent → Result Outcome
review_deviation platform store item event =
    let deviation_id = string_value event.payload "deviation_id" in
    refuse_if (is_empty deviation_id) validation >> elim (latest_deviation store item.id) [
      | none ↦ err not_found
      | some latest ↦
          refuse_if (not (str_eq (string_value latest.payload "deviation_id") deviation_id))
            conflict
          >> (if is_reviewed store item.id deviation_id
              then ok unchanged
              else refuse_if (not (status_is item "异常处理中")) validation
                >> decide_deviation platform store item
                    (deviation_review_status (string_value event.payload "decision")))
    ]

-- `EventEquipmentReturned`
unfoldable pub return_equipment : Platform → Store → ServiceItem → DeliveryEvent → Result Outcome
return_equipment platform store item event =
    refuse_if
      (status_is item "待确认"
        || status_is item "待复核"
        || status_is item "待分配"
        || status_is item terminated)
      validation
    >> mark_equipment_returned platform store item event
    >>= λ written. ok (changed written none keep_columns)

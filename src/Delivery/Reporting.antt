-- ===== src/Delivery/Reporting.antt =====
-- internal/infrastructure/mysql/delivery_events.go `applyItemEvent`: the report, its correction and
-- the rollbacks.
pub mod Sound
use project_management.Base.{
  ℕ, suc, String, List, Bool, true, false, ◌&&◌, ◌||◌, not, Option, none, some, if◌then◌else◌,
  str_eq, to_upper, eq_ℤ, suc_ℤ, Result, ok, err, ◌>>=◌, ◌>>◌, refuse_if, validation, conflict,
}
use project_management.Domain.Phase.{report_phase_rank}
use project_management.Delivery.Payload.{string_value}
use project_management.Delivery.Schema.{ServiceItem, DeliveryEvent, ReportRevision}
use project_management.Delivery.Store.{Store}
use project_management.Delivery.Report.{
  allowed_report_phase, is_active_revision, lock_report_revision, advance_report_revision,
  rework_report_revision, invalidate_and_create_report_revision,
}
use project_management.Delivery.Gates.{validate_penetration_report_gate}
use project_management.Delivery.Rollback.{
  validate_rollback_approval, validate_rollback_withdrawal, validate_report_correction_approval,
}
use project_management.Delivery.Change.{Outcome, changed, keep_columns, move_to}
use project_management.Delivery.Assignment.{status_is}

abbrev stamped : DeliveryEvent → ServiceItem → ServiceItem
stamped event r = record r {
  report_updated_at = some event.created_at;
  report_updated_by = event.actor_user_id;
}

abbrev report_columns : String → DeliveryEvent → ServiceItem → ServiceItem
report_columns phase event r =
    let row = record (stamped event r) { report_status = phase } in
    if str_eq phase "COMPILING"
    then record row { report_prepared_by = event.actor_user_id }
    else if str_eq phase "REVIEWED"
    then record row { report_reviewed_by = event.actor_user_id }
    else if str_eq phase "ISSUED"
    then record row { report_issued_by = event.actor_user_id }
    else row

-- The locked revision stands where the item stands.
abbrev pub is_in_step : ServiceItem → ReportRevision → Bool
is_in_step item revision =
    is_active_revision revision
    && eq_ℤ (report_phase_rank revision.status) (report_phase_rank item.report_status)

abbrev pub advance_ledger :
    Store
    → ServiceItem
    → DeliveryEvent
    → String
    → ReportRevision × List ReportRevision
    → Result Outcome
advance_ledger store item event phase (revision, rows) =
    refuse_if (not (is_in_step item revision)) conflict
    >> advance_report_revision revision phase event rows
    >>= λ rows'. ok (changed (record store { revisions = rows' }) none (report_columns phase event))

-- `EventReportStatusUpdated`; `now` is the time of `lockReportRevision`
unfoldable pub advance_report : Store → ServiceItem → DeliveryEvent → ℕ → Result Outcome
advance_report store item event now =
    let phase = to_upper (string_value event.payload "phase") in
    refuse_if (not (status_is item "现场实施完成")) validation
    >> refuse_if (not (allowed_report_phase phase)) validation
    >> refuse_if
        (not (eq_ℤ (report_phase_rank phase) (suc_ℤ (report_phase_rank item.report_status))))
        validation
    >> validate_penetration_report_gate store item phase
    >> lock_report_revision item now store.revisions
    >>= advance_ledger store item event phase

abbrev can_rework : ServiceItem → Bool
can_rework item =
    status_is item "现场实施完成"
    && (str_eq item.report_status "RECTIFYING"
        || str_eq item.report_status "COMPILING"
        || str_eq item.report_status "REVIEWED")

abbrev pub rework : Store → ServiceItem → DeliveryEvent → Outcome
rework store item event =
    changed (record store { revisions = rework_report_revision item event store.revisions })
      (some "实施中")
      (λ r. record (stamped event r) {
        report_status = "NONE";
        report_revision = suc item.report_revision;
      })

-- `EventRollbackApproved`
unfoldable pub approve_rollback : Store → ServiceItem → DeliveryEvent → Result Outcome
approve_rollback store item event =
    let kind = string_value event.payload "kind" in
    validate_rollback_approval store item event
    >> (if str_eq kind "FIELD_TO_PREPARATION"
        then refuse_if (not (status_is item "实施中")) validation >> move_to store "实施准备中"
        else if str_eq kind "REPORT_TO_FIELD"
        then refuse_if (not (can_rework item)) validation >> ok (rework store item event)
        else err validation)

-- `EventRollbackWithdrawn`
unfoldable pub withdraw_rollback : Store → ServiceItem → DeliveryEvent → Result Outcome
withdraw_rollback store item event =
    validate_rollback_withdrawal store item event >> ok (changed store none keep_columns)

abbrev can_correct : ServiceItem → Bool
can_correct item =
    status_is item "现场实施完成"
    && (str_eq item.report_status "ISSUED" || str_eq item.report_status "ARCHIVED")

-- `EventReportCorrectionApproved`
unfoldable pub approve_correction : Store → ServiceItem → DeliveryEvent → ℕ → Result Outcome
approve_correction store item event now =
    validate_report_correction_approval store item event
    >> refuse_if (not (can_correct item)) validation
    >> invalidate_and_create_report_revision item event now store.revisions
    >>= λ rows. ok (
        changed (record store { revisions = rows }) none
          (λ r. record (stamped event r) {
            report_status = "NONE";
            report_revision = suc item.report_revision;
            report_prepared_by = "";
            report_reviewed_by = "";
            report_issued_by = "";
          }))

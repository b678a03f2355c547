-- ===== src/Delivery/Report.antt =====
-- internal/infrastructure/mysql/delivery_report.go and delivery.go: the ledger of report revisions
-- (pm_report_revision) of the service items.
pub mod Table
pub mod Duties
pub mod Ledger
use Prim.Native.Nat.{max}
use project_management.Base.{
  ℕ, zero, suc, ◌+◌, String, Bool, true, false, ◌||◌, ◌&&◌, not, List, [], ◌∷◌, Option, none, some,
  any, find, if◌then◌else◌, ltb, ◌==◌, is_empty, str_eq, trim_space, to_upper, update_where, Result,
  ok, err, ◌>>=◌, ◌>>◌, refuse_if, conflict, validation, precondition, storage, not_found,
  update_one, ℤ, pos, ltb_ℤ,
}
use project_management.Domain.Phase.{report_phase_rank, report_phase_none}
use project_management.Delivery.Payload.{string_value, ReportArtifactInput}
use project_management.Delivery.Schema.{ServiceItem, ReportRevision, DeliveryEvent}
use project_management.Delivery.Report.Table.{next_id}

abbrev pub service_item_subject : String
service_item_subject = "SERVICE_ITEM"

-- A row with the zero values of its columns, but for the ones that every insertion sets.
abbrev pub new_revision : List ReportRevision → String → String → String → ℕ → ℕ → ReportRevision
new_revision rows item_id subject_type subject_id revision now = record {
  id = next_id rows;
  service_item_id = item_id;
  subject_type = subject_type;
  subject_id = subject_id;
  revision = revision;
  status = report_phase_none;
  validity_status = "ACTIVE";
  correction_request_id = "";
  correction_reason = "";
  file_id = "";
  file_name = "";
  file_mime = "";
  file_size = 0;
  file_sha256 = "";
  prepared_by = "";
  prepared_at = none;
  reviewed_by = "";
  reviewed_at = none;
  issued_by = "";
  issued_at = none;
  archived_by = "";
  archived_at = none;
  invalidated_by = "";
  invalidated_at = none;
  created_at = now;
  updated_at = now;
}

-- `subject_type='SERVICE_ITEM' AND subject_id=? AND revision=?`
abbrev pub of_item : ServiceItem → ℕ → ReportRevision → Bool
of_item item revision row =
    str_eq row.subject_type service_item_subject
    && str_eq row.subject_id item.id
    && row.revision == revision

abbrev pub is_active_revision : ReportRevision → Bool
is_active_revision row = str_eq row.validity_status "ACTIVE"

-- `allowedReportPhase`
unfoldable pub allowed_report_phase : String → Bool
allowed_report_phase phase = ltb_ℤ (pos 0) (report_phase_rank phase)

-- The status that `ensureReportRevision` writes: an unknown code and `NONE` both become `NONE`.
unfoldable pub initial_status : ServiceItem → String
initial_status item =
    let status = to_upper (trim_space item.report_status) in
    if ltb_ℤ (pos 0) (report_phase_rank status) then status else report_phase_none

unfoldable pub ensure_report_revision : ServiceItem → ℕ → List ReportRevision → List ReportRevision
ensure_report_revision item now rows =
    if any (of_item item item.report_revision) rows
    then rows
    else record (new_revision rows item.id service_item_subject item.id item.report_revision now) {
      status = initial_status item;
    }
      ∷ rows

-- `lockReportRevision`; `now` is `time.Now()`
unfoldable pub lock_report_revision :
    ServiceItem → ℕ → List ReportRevision → Result (ReportRevision × List ReportRevision)
lock_report_revision item now rows =
    let rows' = ensure_report_revision item now rows in
    elim (find (of_item item item.report_revision) rows') [
      | none ↦ err not_found
      | some row ↦ ok (row, rows')
    ]

-- The guards of each phase, and the columns that a step to it writes.
abbrev pub review_columns : ReportRevision → String → ℕ → Result (ReportRevision → ReportRevision)
review_columns revision actor now =
    refuse_if (is_empty revision.prepared_by || str_eq actor revision.prepared_by) precondition
    >> refuse_if
        (is_empty (trim_space revision.file_id) || is_empty (trim_space revision.file_sha256))
        precondition
    >> ok (λ r. record r { reviewed_by = actor; reviewed_at = some now })

abbrev pub issue_columns : ReportRevision → String → ℕ → Result (ReportRevision → ReportRevision)
issue_columns revision actor now =
    refuse_if
      (is_empty revision.reviewed_by
        || str_eq actor revision.prepared_by
        || str_eq actor revision.reviewed_by)
      precondition
    >> ok (λ r. record r { issued_by = actor; issued_at = some now })

abbrev pub archive_columns : ReportRevision → String → ℕ → Result (ReportRevision → ReportRevision)
archive_columns revision actor now =
    refuse_if (is_empty revision.issued_by) precondition
    >> ok (λ r. record r { archived_by = actor; archived_at = some now })

unfoldable pub advance_columns :
    ReportRevision → String → String → ℕ → Result (ReportRevision → ReportRevision)
advance_columns revision phase actor now =
    if str_eq phase "RECTIFYING"
    then ok (λ r. r)
    else if str_eq phase "COMPILING"
    then ok (λ r. record r { prepared_by = actor; prepared_at = some now })
    else if str_eq phase "REVIEWED"
    then review_columns revision actor now
    else if str_eq phase "ISSUED"
    then issue_columns revision actor now
    else if str_eq phase "ARCHIVED"
    then archive_columns revision actor now
    else err validation

-- `id=? AND status=? AND validity_status='ACTIVE'`
abbrev pub still_at : ReportRevision → ReportRevision → Bool
still_at revision row =
    row.id == revision.id && str_eq row.status revision.status && is_active_revision row

unfoldable pub advance_report_revision :
    ReportRevision → String → DeliveryEvent → List ReportRevision → Result (List ReportRevision)
advance_report_revision revision phase event rows =
    let actor = trim_space event.actor_user_id in
    refuse_if (is_empty actor) validation
    >> advance_columns revision phase actor event.created_at
    >>= λ columns.
        update_one (still_at revision)
          (λ r. record (columns r) { status = phase; updated_at = event.created_at }) rows

-- The two writes of `invalidateAndCreateReportRevision`: the current revision becomes void, and a next
-- one is created; a next one that is there already is a duplicate key.
abbrev pub void_current :
    ReportRevision → DeliveryEvent → List ReportRevision → Result (List ReportRevision)
void_current current event rows =
    refuse_if (not (is_active_revision current)) conflict
    >> update_one (λ r. r.id == current.id && is_active_revision r)
        (λ r. record r {
          validity_status = "VOID";
          invalidated_by = event.actor_user_id;
          invalidated_at = some event.created_at;
          updated_at = event.created_at;
        })
        rows

abbrev pub next_revision : ServiceItem → DeliveryEvent → List ReportRevision → ReportRevision
next_revision item event rows =
    record (new_revision rows item.id service_item_subject item.id (suc item.report_revision)
      event.created_at) {
        correction_request_id = string_value event.payload "request_id";
        correction_reason = string_value event.payload "reason";
      }

abbrev pub create_next :
    ServiceItem → DeliveryEvent → List ReportRevision → Result (List ReportRevision)
create_next item event rows =
    refuse_if (any (of_item item (suc item.report_revision)) rows) storage
    >> ok (next_revision item event rows ∷ rows)

unfoldable pub invalidate_and_create_report_revision :
    ServiceItem → DeliveryEvent → ℕ → List ReportRevision → Result (List ReportRevision)
invalidate_and_create_report_revision item event now rows =
    lock_report_revision item now rows >>= λ (current, locked).
    void_current current event locked >>= create_next item event

-- `reworkReportRevision`
unfoldable pub rework_report_revision :
    ServiceItem → DeliveryEvent → List ReportRevision → List ReportRevision
rework_report_revision item event rows =
    let superseded =
      update_where (λ r. of_item item item.report_revision r && is_active_revision r)
        (λ r. record r { validity_status = "SUPERSEDED"; updated_at = event.created_at }) rows in
    if any (of_item item (suc item.report_revision)) superseded
    then superseded
    else new_revision superseded item.id service_item_subject item.id (suc item.report_revision)
        event.created_at
      ∷ superseded

-- The part of `RegisterReportArtifact` behind the lock of the service item.
unfoldable pub register_report_artifact :
    ServiceItem → ℕ → ReportArtifactInput → ℕ → List ReportRevision → Result (List ReportRevision)
register_report_artifact item revision input now rows =
    refuse_if
      (not (item.report_revision == revision)
        || (not (str_eq item.report_status "COMPILING") && not (str_eq item.report_status "NONE")))
      precondition
    >> update_one (λ r. of_item item revision r && is_active_revision r)
        (λ r. record r {
          file_id = input.file_id;
          file_name = input.file_name;
          file_mime = input.mime;
          file_size = input.size;
          file_sha256 = input.sha256;
          updated_at = now;
        })
        (ensure_report_revision item now rows)

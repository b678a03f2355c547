-- ===== src/Scope/Eligible.antt =====
-- internal/infrastructure/mysql/native_scope_guards.go: when a scope may be replaced as a whole.
use project_management.Base.{
  ℕ, String, Bool, true, false, ◌&&◌, ◌||◌, not, List, [], ◌∷◌, map, none, some, find, filter, any,
  if◌then◌else◌, is_empty, is_some, str_eq, ltb, ◌==◌, length, Result, ok, err, Check, ◌>>◌,
  refuse_if, precondition, storage,
}
use project_management.Delivery.Payload.{
  ItemInput, Value, null_value, texts, resources, files, service_items,
}
use project_management.Delivery.Schema.{
  Project, ServiceItem, ReportRevision, EvidenceFile, ImplPlan, DeliveryEvent, EventType,
  field_started, field_checked_in, field_record_submitted, field_signature_captured,
  field_completed, report_status_updated,
}
use project_management.Delivery.Store.{Store, project_of}
use project_management.Delivery.Gates.{ensure_no_pending_native_scope}
use project_management.Scope.{ScopeStore, NativeScope, Digest, scope_fingerprint, seen}

-- `decodeStrings`: what is no list of texts gives the text that refuses.
abbrev pub decode_strings : Value → List String
decode_strings null_value = []
decode_strings (texts values) = values
decode_strings (resources []) = []
decode_strings (files []) = []
decode_strings (service_items []) = []
decode_strings _ = "INVALID" ∷ []

-- `_ = json.Unmarshal(r.RequiredCodes, &item.RequiredCodes)`
abbrev stored_codes : Value → List String
stored_codes (texts values) = values
stored_codes _ = []

abbrev is_nonempty : List String → Bool
is_nonempty [] = false
is_nonempty (x ∷ xs) = true

-- An item that work has begun on.
abbrev pub has_begun : ServiceItem → Bool
has_begun item =
    (not (str_eq item.status "待确认") && not (str_eq item.status "待复核"))
    || not (is_empty item.team_lead_id)
    || not (is_empty item.project_manager_id)
    || is_nonempty (decode_strings item.engineer_ids)
    || is_nonempty (decode_strings item.equipment_ids)
    || is_some item.planned_start
    || is_some item.planned_end
    || ltb 0 item.report_revision
    || (not (is_empty item.report_status) && not (str_eq item.report_status "NONE"))

abbrev pub is_started : EventType → Bool
is_started field_started = true
is_started field_checked_in = true
is_started field_record_submitted = true
is_started field_signature_captured = true
is_started field_completed = true
is_started report_status_updated = true
is_started _ = false

abbrev pub of_project : String → ServiceItem → Bool
of_project id row = str_eq row.project_id id

abbrev pub is_in : List ServiceItem → String → Bool
is_in rows id = any (λ (r : ServiceItem). str_eq r.id id) rows

-- `lockNativeScopeEligible`
unfoldable pub lock_native_scope_eligible : Store → Project → Result (List ServiceItem)
lock_native_scope_eligible store project =
    let rows = filter (of_project project.id) store.items in
    refuse_if (length rows == 0) precondition
    >> refuse_if (any has_begun rows) precondition
    >> refuse_if (any (λ (r : ReportRevision). is_in rows r.service_item_id) store.revisions)
        precondition
    >> refuse_if (any (λ (e : EvidenceFile). is_in rows e.service_item_id) store.evidence)
        precondition
    >> refuse_if
        (any (λ (e : DeliveryEvent). str_eq e.project_id project.id && is_started e.event_type)
          store.events)
        precondition
    >> refuse_if
        (any
          (λ (p : ImplPlan).
            is_in rows p.service_item_id && (is_some p.planned_start || is_some p.planned_end))
          store.plans)
        precondition
    >> ok rows

-- `serviceFromRecord`, the fields that a scope has
abbrev pub service_from_record : ServiceItem → ItemInput
service_from_record row = record {
  id = row.id;
  source_service_id = row.source_service_id;
  batch = row.batch;
  site = row.site;
  site_code = row.site_code;
  category = row.category;
  requirement = row.requirement;
  system = row.system;
  system_level = row.system_level;
  system_standard = row.system_standard;
  required_codes = stored_codes row.required_codes;
  special = row.special;
  test_mode = row.test_mode;
  status = row.status;
  tech_review_status = row.tech_review_status;
  conflict_status = row.conflict_status;
}

abbrev pub is_version : String → ℕ → NativeScope → Bool
is_version project version scope = str_eq scope.project_id project && scope.version == version

-- `checkNativeScopeBaseline`
unfoldable pub check_native_scope_baseline :
    Digest → ScopeStore → Project → List ServiceItem → Check
check_native_scope_baseline digest store project active =
    elim (find (is_version project.id project.scope_version) store.scopes) [
      | none ↦ err storage
      | some baseline ↦
          refuse_if
            (not (
              str_eq (scope_fingerprint digest baseline.service_items)
                (scope_fingerprint digest (map service_from_record active))))
            precondition
    ]

abbrev confirm_native : Digest → ScopeStore → Project → Check
confirm_native digest store project =
    if is_empty project.source_kind || str_eq project.source_kind "CONTRACT"
    then ok tt
    else refuse_if (not (str_eq project.source_kind "NATIVE")) precondition
      >> ensure_no_pending_native_scope (seen store) project
      >> check_native_scope_baseline digest store project
          (filter (of_project project.id) store.delivery.items)

-- `guardNativeScopeConfirmation`
unfoldable pub guard_native_scope_confirmation : Digest → ScopeStore → String → Check
guard_native_scope_confirmation digest store id = elim (project_of store.delivery id) [
  | none ↦ err storage
  | some project ↦ confirm_native digest store project
]

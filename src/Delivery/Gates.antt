-- ===== src/Delivery/Gates.antt =====
-- internal/infrastructure/mysql/penetration.go: the gates that a penetration work package puts in
-- front of its service item, and native_scope_guards.go: the gate of a native project.
use project_management.Base.{
  String, Bool, true, false, ◌&&◌, ◌||◌, not, Option, none, some, any, if◌then◌else◌, is_empty,
  str_eq, trim_space, equal_fold, Check, ok, err, ◌>>◌, refuse_if, precondition,
}
use project_management.Delivery.Schema.{ServiceItem, WorkPackage, Project}
use project_management.Delivery.Store.{Store, project_of, package_of}

-- `strings.ReplaceAll(_, " ", "")`
pub without_spaces : String → String
without_spaces String.[] = ""
without_spaces (String.◌∷◌ c s) =
    let rest = without_spaces s in if str_eq (String.◌∷◌ c "") " " then rest else String.◌∷◌ c rest

abbrev starts_with : String → String → Bool
starts_with s String.[] = true
starts_with String.[] (String.◌∷◌ d t) = false
starts_with (String.◌∷◌ c s) (String.◌∷◌ d t) =
    str_eq (String.◌∷◌ c "") (String.◌∷◌ d "") && starts_with s t

-- `strings.Contains`
unfoldable pub contains : String → String → Bool
contains String.[] t = starts_with "" t
contains (String.◌∷◌ c s) t = starts_with (String.◌∷◌ c s) t || contains s t

-- `isEqualProtectionCategory`
unfoldable pub is_equal_protection_category : String → Bool
unfolding without_spaces contains
is_equal_protection_category category =
    let name = without_spaces (trim_space category) in contains name "等保" || contains name "等级保护"

-- An item to which the gates do not apply.
abbrev pub ungated : ServiceItem → Bool
ungated item =
    equal_fold (trim_space item.test_mode) "PENETRATION"
    || not (is_equal_protection_category item.category)

-- `penetrationFieldCompletionGate`
unfoldable pub penetration_field_completion_gate : Option WorkPackage → Check
penetration_field_completion_gate none = err precondition
penetration_field_completion_gate (some row) =
    if str_eq row.decision_status "NOT_REQUIRED"
    then ok tt
    else refuse_if
        (not (str_eq row.decision_status "REQUIRED")
          || not (str_eq row.execution_status "COMPLETED"))
        precondition

-- `validatePenetrationFieldCompletionGate`
unfoldable pub validate_penetration_field_completion_gate : Store → ServiceItem → Check
validate_penetration_field_completion_gate store item =
    if ungated item then ok tt else penetration_field_completion_gate (package_of store item.id)

-- `penetrationReportGate`
unfoldable pub penetration_report_gate : Option WorkPackage → String → Check
penetration_report_gate none parent_phase = err precondition
penetration_report_gate (some row) parent_phase =
    if str_eq row.decision_status "NOT_REQUIRED"
    then ok tt
    else refuse_if
        (str_eq parent_phase "ISSUED"
          && not (str_eq row.report_status "ISSUED")
          && not (str_eq row.report_status "ARCHIVED"))
        precondition
      >> refuse_if (str_eq parent_phase "ARCHIVED" && not (str_eq row.report_status "ARCHIVED"))
          precondition

-- `validatePenetrationReportGate`
unfoldable pub validate_penetration_report_gate : Store → ServiceItem → String → Check
validate_penetration_report_gate store item parent_phase =
    if ungated item || (not (str_eq parent_phase "ISSUED") && not (str_eq parent_phase "ARCHIVED"))
    then ok tt
    else penetration_report_gate (package_of store item.id) parent_phase

-- `ensureNoPendingNativeScope`
abbrev pub ensure_no_pending_native_scope : Store → Project → Check
ensure_no_pending_native_scope store project =
    if not (str_eq project.source_kind "NATIVE")
    then ok tt
    else refuse_if (any (str_eq project.id) store.pending_scopes) precondition

abbrev guard_project : Store → Project → Check
guard_project store project =
    if is_empty project.source_kind || str_eq project.source_kind "CONTRACT"
    then ok tt
    else refuse_if (not (str_eq project.source_kind "NATIVE")) precondition
      >> ensure_no_pending_native_scope store project

-- `guardNativeScopeMutation`: a missing project is left to the caller.
unfoldable pub guard_native_scope_mutation : Store → ServiceItem → Check
guard_native_scope_mutation store item = elim (project_of store item.project_id) [
  | none ↦ ok tt
  | some project ↦ guard_project store project
]

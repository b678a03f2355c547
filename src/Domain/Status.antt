-- ===== src/Domain/Status.antt =====
-- internal/domain/project_status.go: the project status, its report stage, progress and risk, all
-- derived from the service items.
pub mod Rank
pub mod Derive
pub mod Spec
pub mod Order
pub mod Progress
pub mod StageScan
pub mod Stage
pub mod PhaseRank
pub mod Agreement
pub mod Stored
mod Tests
use mathlib.Core.Option
use project_management.Base.{
  ℕ, zero, suc, ◌+◌, ◌-◌, ◌*◌, ◌/◌, String, Bool, true, ◌||◌, List, [], ◌∷◌, ◌++◌, map, Option,
  none, some, ltb, ◌==◌, if◌then◌else◌, is_some, not, length, filter, any, trim_space, equal_fold,
  is_empty, str_eq, lookup, ℤ, pos, negsuc, ltb_ℤ,
}
use project_management.Domain.Phase.{
  report_phase_none, report_phase_stages, report_lifecycle_rank, report_phase_code,
  report_phase_rank, is_report_phase, normalize_report_phase, ReportPhaseStage,
}

abbrev pub pending_decomposition : String
pending_decomposition = "待拆解确认"

abbrev pub pending_allocation : String
pending_allocation = "待分配"

abbrev pub pending_execution : String
pending_execution = "待实施"

abbrev pub preparing : String
preparing = "实施准备中"

abbrev pub in_progress : String
in_progress = "实施中"

abbrev pub exception : String
exception = "异常处理中"

abbrev pub field_completed : String
field_completed = "现场实施完成"

abbrev pub reporting : String
reporting = "报告编制"

abbrev pub completed : String
completed = "已完成"

abbrev pub terminated : String
terminated = "已终止"

abbrev pub supplement_required : String
supplement_required = "补充协议处理中"

-- `projectStatusNodes`; `ProjectStatusNodes` returns a copy of it.
abbrev pub project_status_nodes : List String
project_status_nodes =
    pending_decomposition ∷ pending_allocation ∷ pending_execution ∷ preparing ∷ in_progress
    ∷ exception ∷ field_completed ∷ reporting ∷ completed ∷ []

pub record ProjectStatusStage : Type 0 where
  pub rank : ℕ
  pub statuses : List String

abbrev stage : ℕ → List String → ProjectStatusStage
stage r s = record { rank = r; statuses = s }

-- `serviceItemStatusStages`; `ServiceItemStatusStages` returns a deep copy of it.
abbrev pub service_item_status_stages : List ProjectStatusStage
service_item_status_stages =
    stage 0 ("待确认" ∷ "待复核" ∷ [])
    ∷ stage 1 (pending_allocation ∷ [])
    ∷ stage 2 (pending_execution ∷ [])
    ∷ stage 3 (preparing ∷ [])
    ∷ stage 4 (in_progress ∷ [])
    ∷ stage 5 (exception ∷ [])
    ∷ stage 6 (field_completed ∷ [])
    ∷ []

abbrev ranks_of : List ProjectStatusStage → List (String × ℕ)
ranks_of [] = []
ranks_of (s ∷ stages) = map (λ status. (status, s.rank)) s.statuses ++ ranks_of stages

-- `serviceItemStatusRank`
abbrev pub service_item_status_rank : List (String × ℕ)
service_item_status_rank = ranks_of service_item_status_stages

-- `ServiceItemReportStages`
abbrev report_stage_of : ℕ → List String → List ProjectStatusStage
report_stage_of rank [] = []
report_stage_of rank statuses = stage rank statuses ∷ []

pub service_item_report_stages : List ProjectStatusStage
service_item_report_stages =
    let codes = λ (rank : ℕ).
      map (λ (s : ReportPhaseStage). s.code)
        (filter (λ s. s.lifecycle_rank == rank) report_phase_stages) in
    report_stage_of 7 (codes 7) ++ report_stage_of 8 (codes 8)

pub record ProjectStatusItem : Type 0 where
  pub status : String
  pub report_status : String

unfoldable pub is_terminated : ProjectStatusItem → Bool
is_terminated item = str_eq (trim_space item.status) terminated

abbrev report_rank : Option ℕ → ℕ
report_rank (some rank) = if ltb 6 rank then rank else 6
report_rank none = 6

-- `serviceItemLifecycleRank`
unfoldable pub service_item_lifecycle_rank : ProjectStatusItem → ℕ
service_item_lifecycle_rank item =
    let status = trim_space item.status in
    if str_eq status field_completed
    then report_rank (lookup (normalize_report_phase item.report_status) report_lifecycle_rank)
    else Option.get_or (lookup status service_item_status_rank) 0

-- The texts that `keep` picks, each once, in the order of their first occurrence: the loop of
-- `UnknownServiceItemStatuses`.
pub fresh : Option String → List String → Option String
fresh none seen = none
fresh (some text) seen = if any (str_eq text) seen then none else some text

pub collect_once :
    (ProjectStatusItem → Option String) → List ProjectStatusItem → List String → List String
unfolding fresh
collect_once keep [] seen = []
collect_once keep (item ∷ items) seen = elim (fresh (keep item) seen) [
  | none ↦ collect_once keep items seen
  | some text ↦ text ∷ collect_once keep items (text ∷ seen)
]

pub unknown_status : ProjectStatusItem → Option String
unknown_status item =
    let status = trim_space item.status in
    if str_eq status terminated
    then none
    else if is_some (lookup status service_item_status_rank)
    then none
    else some status

pub unknown_service_item_statuses : List ProjectStatusItem → List String
unknown_service_item_statuses items = collect_once unknown_status items []

-- `IsRiskProjectStatus`
unfoldable pub is_risk_project_status : String → Bool
is_risk_project_status status = str_eq exception status || str_eq terminated status

unfoldable pub is_risk_project : String → List ProjectStatusItem → Bool
is_risk_project status items =
    if is_risk_project_status status then true else any is_terminated items

-- The loop of `DeriveProjectStatus` over `lowest` and `terminated`.
pub scan_status : List ProjectStatusItem → ℕ → ℕ → ℕ × ℕ
scan_status [] lowest gone = (lowest, gone)
scan_status (item ∷ items) lowest gone =
    scan_status items
      (if is_terminated item
        then lowest
        else if ltb (service_item_lifecycle_rank item) lowest
        then service_item_lifecycle_rank item
        else lowest)
      (if is_terminated item then suc gone else gone)

-- `projectStatusNodes[i]`; that the index is in range is `Status.Derive.scan-le`.
abbrev pub node_at : List String → ℕ → String
node_at [] i = ""
node_at (s ∷ nodes) zero = s
node_at (s ∷ nodes) (suc i) = node_at nodes i

pub fallback_status : String → String
fallback_status stored =
    if is_empty (trim_space stored) then pending_decomposition else trim_space stored

pub status_of_items : List ProjectStatusItem → String
unfolding scan_status
status_of_items items =
    let (lowest, gone) = scan_status items (length project_status_nodes - 1) 0 in
    if gone == length items then terminated else node_at project_status_nodes lowest

unfoldable pub derive_project_status : List ProjectStatusItem → String → String → String
unfolding status_of_items fallback_status
derive_project_status items supplement stored =
    if equal_fold (trim_space supplement) "REQUIRED"
    then supplement_required
    else elim items [ [] ↦ fallback_status stored | i ∷ rest ↦ status_of_items (i ∷ rest) ]

-- `normalizeReportPhase` with the empty code read as `NONE`
pub phase_of : ProjectStatusItem → String
phase_of item =
    let code = normalize_report_phase item.report_status in
    if is_empty code then report_phase_none else code

-- What one round of `DeriveProjectReportStage` makes of an item: `continue`, the early `return ""`,
-- or a phase to compare.
pub data StageVerdict : Type 0 where
  skipped undecidable : StageVerdict
  at_phase : ℤ → StageVerdict

pub stage_verdict : ProjectStatusItem → StageVerdict
unfolding phase_of
stage_verdict item =
    if is_terminated item
    then skipped
    else if ltb (service_item_lifecycle_rank item) 6
    then undecidable
    else if not (is_report_phase (phase_of item))
    then undecidable
    else at_phase (report_phase_rank (phase_of item))

-- The loop over `lowestPhase` (-1 at the start) and `active`.
pub scan_stage : List ProjectStatusItem → ℤ → ℕ → Option (ℤ × ℕ)
unfolding stage_verdict
scan_stage [] lowest active = some (lowest, active)
scan_stage (item ∷ items) lowest active = elim (stage_verdict item) [
  | skipped ↦ scan_stage items lowest active
  | undecidable ↦ none
  | at_phase phase ↦
      scan_stage items (if ltb_ℤ lowest (pos 0) || ltb_ℤ phase lowest then phase else lowest)
        (suc active)
]

pub stage_code : ℤ → String
stage_code (pos phase) = report_phase_code phase
stage_code (negsuc _) = ""

unfoldable pub derive_project_report_stage : List ProjectStatusItem → String
unfolding scan_stage stage_code
derive_project_report_stage items = elim (scan_stage items (negsuc 0) 0) [
  | none ↦ ""
  | some (lowest, active) ↦ if active == 0 then "" else stage_code lowest
]

-- The loop of `DeriveProjectProgress` over `total` and `counted`.
pub scan_progress : List ProjectStatusItem → ℕ → ℕ → ℕ × ℕ
scan_progress [] total counted = (total, counted)
scan_progress (item ∷ items) total counted =
    scan_progress items
      (if is_terminated item then total else total + service_item_lifecycle_rank item)
      (if is_terminated item then counted else suc counted)

unfoldable pub derive_project_progress : List ProjectStatusItem → ℕ
unfolding scan_progress
derive_project_progress items =
    let (total, counted) = scan_progress items 0 0 in
    if counted == 0 then 0 else total * 100 / ((length project_status_nodes - 1) * counted)

-- ===== src/Domain/Status/Tests.antt =====
-- Small projects that the status, the stage and the progress are derived for.
use mathlib.Core.List.Permᴰ
use project_management.Base.{◌≡◌, ◌↔◌, ◌≤◌, refl, [], ◌∷◌, trim_space, to_upper, equal_fold}
use project_management.Domain.Phase.{report_phase_archived}
use project_management.Domain.Status.{
  ProjectStatusItem, derive_project_status, derive_project_report_stage, derive_project_progress,
  completed, in_progress, is_terminated,
}
use project_management.Domain.Status.Spec.{StatusRule, derive-iff-rule}
use project_management.Domain.Status.Order.{derive_project_status-perm}
use project_management.Domain.Status.Progress.{progress-full_iff-completed, progress-le}
use project_management.Domain.Status.Stage.{StageRule, derive-iff-StageRule}
use project_management.Domain.Status.Agreement.{stage-archived_iff-completed}

abbrev archived : ProjectStatusItem
archived = record { status = "现场实施完成"; report_status = "ARCHIVED" }

abbrev running : ProjectStatusItem
running = record { status = "实施中"; report_status = "NONE" }

derive-iff-rule_example :
    (derive_project_status (archived ∷ running ∷ []) "NONE" "" ≡ in_progress)
    ↔ StatusRule (archived ∷ running ∷ []) "NONE" "" in_progress
derive-iff-rule_example = derive-iff-rule (archived ∷ running ∷ []) "NONE" "" in_progress

derive_project_status-perm_example :
    derive_project_status (archived ∷ running ∷ []) "NONE" ""
    ≡ derive_project_status (running ∷ archived ∷ []) "NONE" ""
derive_project_status-perm_example =
    derive_project_status-perm (archived ∷ running ∷ []) (running ∷ archived ∷ []) "NONE" ""
      (Permᴰ.swap refl refl)

derive-iff-StageRule_example :
    (derive_project_report_stage (archived ∷ []) ≡ report_phase_archived)
    ↔ StageRule (archived ∷ []) report_phase_archived
derive-iff-StageRule_example = derive-iff-StageRule (archived ∷ []) report_phase_archived

progress-full_iff-completed_example :
    (derive_project_progress (archived ∷ []) ≡ 100)
    ↔ (derive_project_status (archived ∷ []) "NONE" "" ≡ completed)
unfolding is_terminated trim_space equal_fold to_upper
progress-full_iff-completed_example =
    progress-full_iff-completed (archived ∷ []) "NONE" "" refl refl

progress-le_example : derive_project_progress (archived ∷ running ∷ []) ≤ 100
progress-le_example = progress-le (archived ∷ running ∷ [])

stage-archived_iff-completed_example :
    (derive_project_report_stage (archived ∷ []) ≡ report_phase_archived)
    ↔ (derive_project_status (archived ∷ []) "NONE" "" ≡ completed)
unfolding is_terminated trim_space equal_fold to_upper
stage-archived_iff-completed_example =
    stage-archived_iff-completed (archived ∷ []) "NONE" "" refl refl

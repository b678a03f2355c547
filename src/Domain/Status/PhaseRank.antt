-- ===== src/Domain/Status/PhaseRank.antt =====
-- internal/domain/project_status.go: the report phase of an item against its lifecycle rank.
use mathlib.Core.Option
use project_management.Base.{
  ℕ, suc, ◌≤◌, ◌≡◌, refl, sym, ap, ◌∙◌, String, Bool, true, false, inl, inr, none, some, arith,
  Bool-cases, Option-cases, All, is_empty, str_eq, str_eq_iff, lookup, get_by-sound, pos,
  trim_space,
}
use project_management.Domain.Phase.{
  ReportPhaseStage, report_phase_rank, is_report_phase, normalize_report_phase,
}
use project_management.Domain.Phase.Laws.{
  normalize_report_phase_idem, row_of, by_code-row, lifecycle-row, row-RowOf, report_phase_rank-row,
  row_of_empty, report_phase_rank-none,
}
use project_management.Domain.Status.{
  ProjectStatusItem, service_item_lifecycle_rank, service_item_status_rank, phase_of, stage_verdict,
  field_completed, report_rank,
}
use project_management.Domain.Status.Rank.{rank-le}
use project_management.Domain.Status.Derive.{is_active}
use project_management.Domain.Status.StageScan.{AtPhase}

str_eq_comm : (a b : String) → str_eq a b ≡ true → str_eq b a ≡ true
str_eq_comm a b h = ground (arith, str_eq_iff a b, str_eq_iff b a)

-- Only `现场实施完成` reaches the rank 6.
early_rows :
    (status : String)
    → str_eq status field_completed ≡ false
    → All (λ e. str_eq e.0 status ≡ true → e.1 ≤ 5) service_item_status_rank
early_rows status h =
    let low : (n : ℕ) (b : Bool) → n ≤ 5 → b ≡ true → n ≤ 5 = λ n b le e. le in
    (
      low 0 _ (omega arith),
      (
        low 0 _ (omega arith),
        (
          low 1 _ (omega arith),
          (
            low 2 _ (omega arith),
            (
              low 3 _ (omega arith),
              (
                low 4 _ (omega arith),
                (
                  low 5 _ (omega arith),
                  (λ e. absurd (ground (arith, str_eq_comm field_completed status e)), tt),
                ),
              ),
            ),
          ),
        ),
      ),
    )

status_rank-early :
    (status : String)
    → str_eq status field_completed ≡ false
    → Option.get_or (lookup status service_item_status_rank) 0 ≤ 5
status_rank-early status h = elim (Option-cases (lookup status service_item_status_rank)) [
  | inl absent ↦ rw absent (omega arith)
  | inr (r, found) ↦
      rw found (
        get_by-sound str_eq (λ v. v ≤ 5) status service_item_status_rank (early_rows status h)
          found)
]

pub field_completed_of_rank :
    (item : ProjectStatusItem)
    → 6 ≤ service_item_lifecycle_rank item
    → str_eq (trim_space item.status) field_completed ≡ true
unfolding service_item_lifecycle_rank
field_completed_of_rank item h =
    elim (Bool-cases (str_eq (trim_space item.status) field_completed)) [
      | inl e ↦ e
      | inr e ↦ absurd (ground (arith, status_rank-early (trim_space item.status) e))
    ]

rank-report :
    (item : ProjectStatusItem)
    → str_eq (trim_space item.status) field_completed ≡ true
    → service_item_lifecycle_rank item
      ≡ report_rank
          (Option.map (λ s. s.lifecycle_rank) (row_of (normalize_report_phase item.report_status)))
unfolding service_item_lifecycle_rank
rank-report item h = rw (h, lifecycle-row)

is_empty-nil : (s : String) → is_empty s ≡ true → s ≡ ""
is_empty-nil String.[] h = refl
is_empty-nil (String.◌∷◌ c s) h = cc

-- The code of an item whose code is in the table.
phase_of-code :
    (item : ProjectStatusItem) (s : ReportPhaseStage)
    → row_of (normalize_report_phase item.report_status) ≡ some s
    → phase_of item ≡ normalize_report_phase item.report_status
unfolding phase_of
phase_of-code item s found =
    elim (Bool-cases (is_empty (normalize_report_phase item.report_status))) [
      | inl e ↦
          absurd (some_of_none (sym row_of_empty ∙ ap row_of (sym (is_empty-nil _ e)) ∙ found))
      | inr e ↦ rw e
    ]
  where
    some_of_none : none ≡ some s → ⊥
    some_of_none p = cc

known-rank :
    (item : ProjectStatusItem) (s : ReportPhaseStage)
    → row_of (normalize_report_phase item.report_status) ≡ some s
    → (is_report_phase (phase_of item) ≡ true) × (report_phase_rank (phase_of item) ≡ pos s.phase)
unfolding report_phase_rank is_report_phase
known-rank item s found =
    rw
      (
        phase_of-code item s found,
        normalize_report_phase_idem,
        by_code-row,
        found,
        report_phase_rank,
      )
      (refl, refl)

-- Archived items, by their verdict and by their rank.
pub archived_of_rank :
    (item : ProjectStatusItem)
    → is_active item ≡ true
    → 8 ≤ service_item_lifecycle_rank item
    → AtPhase item 5
unfolding stage_verdict
archived_of_rank item kept h =
    let done = field_completed_of_rank item (omega arith) in
    elim (Option-cases (row_of (normalize_report_phase item.report_status))) [
      | inl absent ↦ absurd (ground (arith, rank-report item done))
      | inr (s, found) ↦ ground (
        arith,
        rank-le item,
        rank-report item done,
        known-rank item s found,
        row-RowOf (normalize_report_phase item.report_status) s found,
      )
    ]

pub AtPhase-facts :
    (item : ProjectStatusItem) (n : ℕ)
    → AtPhase item n
    → (is_active item ≡ true)
      × (6 ≤ service_item_lifecycle_rank item)
      × (report_phase_rank (phase_of item) ≡ pos n)
unfolding stage_verdict
AtPhase-facts item n at = ground arith

code_of_phase :
    (item : ProjectStatusItem) (n : ℕ)
    → report_phase_rank (phase_of item) ≡ pos (suc n)
    → phase_of item ≡ normalize_report_phase item.report_status
unfolding phase_of
code_of_phase item n e = elim (Bool-cases (is_empty (normalize_report_phase item.report_status))) [
  | inl empty ↦ absurd (ground (arith, report_phase_rank-none))
  | inr full ↦ rw full
]

pub rank_of_archived :
    (item : ProjectStatusItem) → AtPhase item 5 → 8 ≤ service_item_lifecycle_rank item
rank_of_archived item at =
    let (_, late, e) = AtPhase-facts item 5 at in
    let code = code_of_phase item 4 e in
    let (s, found, p) = report_phase_rank-row (phase_of item) 5 e in
    let found' : row_of (normalize_report_phase item.report_status) ≡ some s =
      ap row_of
        (sym (ap normalize_report_phase code ∙ normalize_report_phase_idem item.report_status))
      ∙ found in
    ground (
      arith,
      rank-report item (field_completed_of_rank item late),
      row-RowOf (normalize_report_phase item.report_status) s found',
    )

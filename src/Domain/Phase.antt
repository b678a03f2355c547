-- ===== src/Domain/Phase.antt =====
-- internal/domain/project_status.go: the one table of the report phases and what is derived from it.
pub mod Laws
use mathlib.Core.Option
use project_management.Base.{
  ℕ, String, Bool, List, [], ◌∷◌, ◌++◌, map, Option, none, some, ◌==◌, if◌then◌else◌, is_some, not,
  filter, trim_space, to_upper, lookup, get_by, ℤ, pos, negsuc,
}

abbrev pub report_phase_none : String
report_phase_none = "NONE"

abbrev pub report_phase_rectifying : String
report_phase_rectifying = "RECTIFYING"

abbrev pub report_phase_compiling : String
report_phase_compiling = "COMPILING"

abbrev pub report_phase_reviewed : String
report_phase_reviewed = "REVIEWED"

abbrev pub report_phase_issued : String
report_phase_issued = "ISSUED"

abbrev pub report_phase_archived : String
report_phase_archived = "ARCHIVED"

pub record ReportPhaseStage : Type 0 where
  pub code : String
  pub phase : ℕ
  pub lifecycle_rank : ℕ

abbrev stage : String → ℕ → ℕ → ReportPhaseStage
stage c p r = record { code = c; phase = p; lifecycle_rank = r }

-- `reportPhaseStages`; `ReportPhaseStages` returns a copy of it.
abbrev pub report_phase_stages : List ReportPhaseStage
report_phase_stages =
    stage report_phase_none 0 6
    ∷ stage report_phase_rectifying 1 7
    ∷ stage report_phase_compiling 2 7
    ∷ stage report_phase_reviewed 3 7
    ∷ stage report_phase_issued 4 7
    ∷ stage report_phase_archived 5 8
    ∷ []

-- The three maps that `init` fills from the table.
abbrev pub report_phase_by_code : List (String × ReportPhaseStage)
report_phase_by_code = map (λ s. (s.code, s)) report_phase_stages

abbrev pub report_phase_code_by_phase : List (ℕ × String)
report_phase_code_by_phase = map (λ s. (s.phase, s.code)) report_phase_stages

abbrev pub report_lifecycle_rank : List (String × ℕ)
report_lifecycle_rank = map (λ s. (s.code, s.lifecycle_rank)) report_phase_stages

unfoldable pub normalize_report_phase : String → String
normalize_report_phase code = to_upper (trim_space code)

-- -1 for a code that is not in the table
unfoldable pub report_phase_rank : String → ℤ
report_phase_rank code = elim (lookup (normalize_report_phase code) report_phase_by_code) [
  | some s ↦ pos s.phase
  | none ↦ negsuc 0
]

unfoldable pub is_report_phase : String → Bool
is_report_phase code = is_some (lookup (normalize_report_phase code) report_phase_by_code)

-- A Go map gives the empty text for a missing key.
unfoldable pub report_phase_code : ℕ → String
report_phase_code phase = Option.get_or (get_by ◌==◌ phase report_phase_code_by_phase) ""

unfoldable pub report_phase_sla_codes : List String
report_phase_sla_codes = map (λ s. s.code) (filter (λ s. not (s.phase == 0)) report_phase_stages)

-- ===== src/Domain/Phase/Laws.antt =====
-- internal/domain/project_status.go: the maps derived from the table of the report phases agree.
use mathlib.Core.Option
use project_management.Base.{
  ℕ, ◌≤◌, ◌≡◌, refl, ◌∙◌, ◌↔◌, String, true, false, Option, none, some, inl, inr, arith,
  Option-cases, find_last, str_eq, str_eq_iff, get_by, trim_space, to_upper, get_by-sound,
  get_by-map, pos, negsuc, trim_space, lookup, All,
}
use project_management.Base.Text.Normal.{to_upper_idem, trim_space-to_upper, trim_space_idem}
use project_management.Domain.Phase.{
  ReportPhaseStage, report_phase_stages, report_phase_by_code, report_lifecycle_rank,
  normalize_report_phase, report_phase_rank, is_report_phase, report_phase_code, report_phase_none,
  report_phase_rectifying, report_phase_compiling, report_phase_reviewed, report_phase_issued,
  report_phase_archived,
}

-- Normalizing twice changes nothing more.
pub normalize_report_phase_idem :
    (code : String)
    → normalize_report_phase (normalize_report_phase code) ≡ normalize_report_phase code
unfolding normalize_report_phase
normalize_report_phase_idem code =
    rw (trim_space-to_upper, trim_space_idem) (to_upper_idem (trim_space code))

-- The row of a code in the table.
pub row_of : String → Option ReportPhaseStage
row_of code = find_last (λ s. str_eq s.code code) report_phase_stages

map_self : {A : Type 0} (o : Option A) → Option.map (λ a. a) o ≡ o
map_self none = refl
map_self (some a) = refl

pub by_code-row : (code : String) → lookup code report_phase_by_code ≡ row_of code
by_code-row code =
    get_by-map str_eq (λ (s : ReportPhaseStage). s.code) (λ s. s) code report_phase_stages
    ∙ map_self (find_last (λ s. str_eq s.code code) report_phase_stages)
    ∙ unfold row_of in refl

pub lifecycle-row :
    (code : String)
    → lookup code report_lifecycle_rank ≡ Option.map (λ s. s.lifecycle_rank) (row_of code)
lifecycle-row code =
    get_by-map str_eq (λ (s : ReportPhaseStage). s.code) (λ s. s.lifecycle_rank) code
      report_phase_stages
    ∙ unfold row_of in refl

-- What the table says of each of its rows, for the code that leads there.
abbrev pub RowOf : String → ReportPhaseStage → Type 0
RowOf code s =
    (report_phase_code s.phase ≡ code)
    × (s.phase ≤ 5)
    × (6 ≤ s.lifecycle_rank)
    × ((s.lifecycle_rank ≡ 8) ↔ (s.phase ≡ 5))

RowOf-entry :
    (c code : String) (p r : ℕ)
    → report_phase_code p ≡ c
    → (p ≤ 5) × (6 ≤ r)
    → ((r ≡ 8) → (p ≡ 5)) × ((p ≡ 5) → (r ≡ 8))
    → str_eq c code ≡ true
    → RowOf code (record { code = c; phase = p; lifecycle_rank = r })
RowOf-entry c code p r e b last h = (e ∙ (str_eq_iff c code).0 h, b.0, b.1, last)

rows-RowOf :
    (code : String) → All (λ e. str_eq e.0 code ≡ true → RowOf code e.1) report_phase_by_code
unfolding report_phase_code get_by
rows-RowOf code = (
  RowOf-entry report_phase_none code 0 6 refl (omega arith) (omega arith),
  (
    RowOf-entry report_phase_rectifying code 1 7 refl (omega arith) (omega arith),
    (
      RowOf-entry report_phase_compiling code 2 7 refl (omega arith) (omega arith),
      (
        RowOf-entry report_phase_reviewed code 3 7 refl (omega arith) (omega arith),
        (
          RowOf-entry report_phase_issued code 4 7 refl (omega arith) (omega arith),
          (RowOf-entry report_phase_archived code 5 8 refl (omega arith) (omega arith), tt),
        ),
      ),
    ),
  ),
)

pub row-RowOf : (code : String) (s : ReportPhaseStage) → row_of code ≡ some s → RowOf code s
row-RowOf code s e =
    get_by-sound str_eq (RowOf code) code report_phase_by_code (rows-RowOf code)
      (by_code-row code ∙ e)

pub report_phase_rank-row :
    (code : String) (n : ℕ)
    → report_phase_rank code ≡ pos n
    → (s : ReportPhaseStage) × (row_of (normalize_report_phase code) ≡ some s) × (s.phase ≡ n)
unfolding report_phase_rank
report_phase_rank-row code n e = elim (Option-cases (row_of (normalize_report_phase code))) [
  | inl absent ↦ absurd (ground (arith, by_code-row (normalize_report_phase code)))
  | inr (s, found) ↦ (s, found, ground (arith, by_code-row (normalize_report_phase code)))
]

-- A known code has a phase of 0 to 5, and the phase leads back to the code.
pub report_phase_code-rank :
    (code : String) (n : ℕ)
    → report_phase_rank code ≡ pos n
    → (report_phase_code n ≡ normalize_report_phase code) × (n ≤ 5)
report_phase_code-rank code n e =
    let (s, found, p) = report_phase_rank-row code n e in
    let facts = row-RowOf (normalize_report_phase code) s found in
    (rw (← p) facts.0, rw (← p) facts.1)

-- A code is known exactly when it has a phase of 0 or more; any other has the phase -1.
pub is_report_phase-rank :
    (code : String)
    → (is_report_phase code ≡ true → (n : ℕ) × (report_phase_rank code ≡ pos n))
      × (is_report_phase code ≡ false → report_phase_rank code ≡ negsuc 0)
unfolding is_report_phase report_phase_rank
is_report_phase-rank code =
    elim (Option-cases (lookup (normalize_report_phase code) report_phase_by_code)) [
      | inl absent ↦ rw (absent, report_phase_rank) (λ h. cc, λ h. refl)
      | inr (s, found) ↦ rw (found, report_phase_rank) (λ h. (s.phase, refl), λ h. cc)
    ]

pub row_of_empty : row_of "" ≡ none
unfolding row_of
row_of_empty = refl

pub report_phase_rank-none : report_phase_rank report_phase_none ≡ pos 0
unfolding report_phase_rank normalize_report_phase trim_space to_upper get_by
report_phase_rank-none = refl

-- ===== src/Domain/Status/Stage.antt =====
-- internal/domain/project_status.go: `DeriveProjectReportStage` against its rules.
use project_management.Base.{
  ℕ, ◌≤◌, ◌≡◌, sym, ap, subst, ◌∙◌, ◌↔◌, String, true, List, [], ◌∷◌, inl, inr, arith, Bool-cases,
  All, any, negsuc,
}
use project_management.Domain.Phase.{report_phase_code}
use project_management.Domain.Status.StageScan.{
  AtPhase, is_undecidable, AttainsPhase, IsStage, scan_undecided, scan-Starts,
}
use project_management.Domain.Status.{
  ProjectStatusItem, is_terminated, stage_verdict, derive_project_report_stage,
}

-- The rules of the report stage: there is none while an item that counts has not reached the report
-- chain or shows an unknown code, none where no item counts, and else the least phase.
pub data StageRule (items : List ProjectStatusItem) (s : String) : Type 0 where
  undecided : any is_undecidable items ≡ true → s ≡ "" → StageRule items s
  all_gone : All (λ i. is_terminated i ≡ true) items → s ≡ "" → StageRule items s
  at_stage : (n : ℕ) → IsStage items n → s ≡ report_phase_code n → StageRule items s

stage-rule : (items : List ProjectStatusItem) → StageRule items (derive_project_report_stage items)
unfolding derive_project_report_stage
stage-rule items = elim (Bool-cases (any is_undecidable items)) [
  | inl h ↦ undecided h (rw (scan_undecided items (negsuc 0) 0 h, derive_project_report_stage))
  | inr h ↦ elim (scan-Starts items h) [
    | inl gone ↦ all_gone gone.1 (rw (gone.0, derive_project_report_stage))
    | inr r ↦ at_stage r.n r.stage (ground (arith, r.result, r.counted))
  ]
]

gone-undecided :
    (items : List ProjectStatusItem) (n : ℕ)
    → All (λ i. is_terminated i ≡ true) items
    → ¬ (AttainsPhase n items)
unfolding stage_verdict
gone-undecided [] n gone at = at
gone-undecided (item ∷ items) n gone (inl at) = ground arith
gone-undecided (item ∷ items) n gone (inr at) = gone-undecided items n gone.1 at

bound-attained :
    (items : List ProjectStatusItem) (n m : ℕ)
    → All (λ i. (k : ℕ) → AtPhase i k → n ≤ k) items
    → AttainsPhase m items
    → n ≤ m
bound-attained [] n m low at = absurd at
bound-attained (item ∷ items) n m low (inl at) = low.0 m at
bound-attained (item ∷ items) n m low (inr at) = bound-attained items n m low.1 at

pub IsStage_unique :
    (items : List ProjectStatusItem) (n m : ℕ) → IsStage items n → IsStage items m → n ≡ m
IsStage_unique items n m h k = omega (
  arith,
  bound-attained items n m h.bound k.attained,
  bound-attained items m n k.bound h.attained,
)

rules_agree :
    (items : List ProjectStatusItem) {s t : String} → StageRule items s → StageRule items t → s ≡ t
rules_agree items (undecided h p) (undecided h' q) = p ∙ sym q
rules_agree items (undecided h p) (all_gone g q) = p ∙ sym q
rules_agree items (undecided h p) (at_stage n st q) = absurd (ground (arith, st.decided))
rules_agree items (all_gone g p) (undecided h q) = p ∙ sym q
rules_agree items (all_gone g p) (all_gone g' q) = p ∙ sym q
rules_agree items (all_gone g p) (at_stage n st q) = absurd (gone-undecided items n g st.attained)
rules_agree items (at_stage n st p) (undecided h q) = absurd (ground (arith, st.decided))
rules_agree items (at_stage n st p) (all_gone g q) = absurd (gone-undecided items n g st.attained)
rules_agree items (at_stage n st p) (at_stage m st' q) =
    p ∙ ap report_phase_code (IsStage_unique items n m st st') ∙ sym q

-- `DeriveProjectReportStage` returns a text exactly when the rules of the report stage give it.
pub derive-iff-StageRule :
    (items : List ProjectStatusItem) (s : String)
    → (derive_project_report_stage items ≡ s) ↔ StageRule items s
derive-iff-StageRule items s =
    (λ e. subst (StageRule items) e (stage-rule items), λ r. rules_agree items (stage-rule items) r)

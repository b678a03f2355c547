-- ===== src/Domain/Status/Agreement.antt =====
-- internal/domain/project_status.go: the report stage and the project status agree.
use project_management.Base.{
  ℕ, zero, suc, ◌≤◌, ◌≡◌, refl, subst, ◌↔◌, String, true, false, List, [], ◌∷◌, inl, inr, arith,
  Bool-cases, All, any, or_left, or_right, get_by, trim_space, equal_fold,
}
use project_management.Domain.Phase.{report_phase_archived, report_phase_code}
use project_management.Domain.Phase.Laws.{report_phase_code-rank}
use project_management.Domain.Status.{
  ProjectStatusItem, is_terminated, service_item_lifecycle_rank, phase_of, stage_verdict, skipped,
  derive_project_report_stage, derive_project_status, completed,
}
use project_management.Domain.Status.Derive.{is_active}
use project_management.Domain.Status.StageScan.{
  AtPhase, AttainsPhase, is_undecidable, verdict-cases, skipped-terminated, phase_unique,
}
use project_management.Domain.Status.Stage.{
  StageRule, undecided, all_gone, at_stage, derive-iff-StageRule,
}
use project_management.Domain.Status.PhaseRank.{AtPhase-facts, archived_of_rank, rank_of_archived}
use project_management.Domain.Status.Spec.{lagging, derive-iff-rule}
use project_management.Domain.Status.Progress.{AllDone, differ, completed-done, AllDone-Attains}

archived_of_verdict :
    (item : ProjectStatusItem)
    → is_undecidable item ≡ false
    → ((m : ℕ) → AtPhase item m → 5 ≤ m)
    → is_active item ≡ true
    → 8 ≤ service_item_lifecycle_rank item
archived_of_verdict item h low kept = elim (verdict-cases item) [
  | inl e ↦ absurd (ground (arith, skipped-terminated item e))
  | inr (inl e) ↦ absurd (ground arith)
  | inr (inr (m, at)) ↦
      let (_, _, rank) = AtPhase-facts item m at in
      let top : m ≡ 5 =
        omega (arith, low m at, (report_phase_code-rank (phase_of item) m rank).1) in
      rank_of_archived item (subst (AtPhase item) top at)
]

done_of_stage :
    (items : List ProjectStatusItem)
    → any is_undecidable items ≡ false
    → All (λ i. (m : ℕ) → AtPhase i m → 5 ≤ m) items
    → AllDone items
done_of_stage [] h low = tt
done_of_stage (item ∷ items) h low =
    (archived_of_verdict item (or_left _ _ h) low.0, done_of_stage items (or_right _ _ h) low.1)

terminated-skipped :
    (item : ProjectStatusItem) → is_terminated item ≡ true → stage_verdict item ≡ skipped
unfolding stage_verdict
terminated-skipped item e = rw e

decided_of_done :
    (items : List ProjectStatusItem) → AllDone items → any is_undecidable items ≡ false
decided_of_done [] d = refl
decided_of_done (item ∷ items) d = elim (Bool-cases (is_terminated item)) [
  | inl gone ↦ rw (terminated-skipped item gone, is_undecidable) (decided_of_done items d.1)
  | inr kept ↦
      rw (archived_of_rank item (rw kept refl) (d.0 (rw kept refl)), is_undecidable)
        (decided_of_done items d.1)
]

bound_of_done :
    (items : List ProjectStatusItem)
    → AllDone items
    → All (λ i. (m : ℕ) → AtPhase i m → 5 ≤ m) items
bound_of_done [] d = tt
bound_of_done (item ∷ items) d = (
  λ m at.
      let kept = (AtPhase-facts item m at).0 in
      omega (arith, phase_unique item m 5 at (archived_of_rank item kept (d.0 kept))),
  bound_of_done items d.1,
)

attained_of_done :
    (items : List ProjectStatusItem)
    → any is_active items ≡ true
    → AllDone items
    → AttainsPhase 5 items
attained_of_done [] h d = cc
attained_of_done (item ∷ items) h d = elim (Bool-cases (is_terminated item)) [
  | inl gone ↦ inr (attained_of_done items (rw gone at h) d.1)
  | inr kept ↦ inl (archived_of_rank item (rw kept refl) (d.0 (rw kept refl)))
]

archived_code : report_phase_archived ≡ report_phase_code 5
unfolding report_phase_code get_by
archived_code = refl

code-archived : (n : ℕ) → n ≤ 5 → report_phase_archived ≡ report_phase_code n → n ≡ 5
unfolding report_phase_code get_by
code-archived zero h e = absurd (differ _ _ refl e)
code-archived (suc zero) h e = absurd (differ _ _ refl e)
code-archived (suc (suc zero)) h e = absurd (differ _ _ refl e)
code-archived (suc (suc (suc zero))) h e = absurd (differ _ _ refl e)
code-archived (suc (suc (suc (suc zero)))) h e = absurd (differ _ _ refl e)
code-archived (suc (suc (suc (suc (suc n))))) h e = omega arith

AttainsPhase-le : (items : List ProjectStatusItem) (n : ℕ) → AttainsPhase n items → n ≤ 5
AttainsPhase-le [] n at = absurd at
AttainsPhase-le (item ∷ items) n (inl at) =
    let (_, _, rank) = AtPhase-facts item n at in (report_phase_code-rank (phase_of item) n rank).1
AttainsPhase-le (item ∷ items) n (inr at) = AttainsPhase-le items n at

gone-inactive :
    (items : List ProjectStatusItem)
    → All (λ i. is_terminated i ≡ true) items
    → any is_active items ≡ false
gone-inactive [] h = refl
gone-inactive (item ∷ items) h = ground (arith, gone-inactive items h.1)

done_of_archived :
    (items : List ProjectStatusItem)
    → any is_active items ≡ true
    → StageRule items report_phase_archived
    → AllDone items
done_of_archived items h (undecided u p) = absurd (differ _ _ refl p)
done_of_archived items h (all_gone gone p) = absurd (differ _ _ refl p)
done_of_archived items h (at_stage n st p) =
    let top = code-archived n (AttainsPhase-le items n st.attained) p in
    done_of_stage items st.decided (rw top at st.bound)

-- With an item that counts and no pending supplement, the report stage is `ARCHIVED` exactly when the
-- project status is `已完成`.
pub stage-archived_iff-completed :
    (items : List ProjectStatusItem) (supplement stored : String)
    → any is_active items ≡ true
    → equal_fold (trim_space supplement) "REQUIRED" ≡ false
    → (derive_project_report_stage items ≡ report_phase_archived)
      ↔ (derive_project_status items supplement stored ≡ completed)
stage-archived_iff-completed items supplement stored h e = (
  λ p.
      let done =
        done_of_archived items h ((derive-iff-StageRule items report_phase_archived).0 p) in
      (derive-iff-rule items supplement stored completed).1
        (lagging 8 e h (record { bound = done; attained = AllDone-Attains items h done }) refl),
  λ q.
      let done =
        completed-done items supplement stored h
          ((derive-iff-rule items supplement stored completed).0 q) in
      (derive-iff-StageRule items report_phase_archived).1 (
        at_stage 5
          (record {
            decided = decided_of_done items done;
            bound = bound_of_done items done;
            attained = attained_of_done items h done;
          })
          archived_code),
)

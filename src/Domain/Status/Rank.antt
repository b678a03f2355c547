-- ===== src/Domain/Status/Rank.antt =====
-- internal/domain/project_status.go: bounds of `serviceItemLifecycleRank`.
use mathlib.Core.Option
use project_management.Base.{
  ℕ, ◌≤◌, ◌≡◌, refl, String, Option, none, some, inl, inr, arith, Bool-cases, str_eq, lookup,
  get_by-All, trim_space,
}
use project_management.Domain.Phase.{normalize_report_phase, report_lifecycle_rank}
use project_management.Domain.Status.{
  ProjectStatusItem, service_item_lifecycle_rank, service_item_status_rank, field_completed,
  report_rank,
}

get_or_bound :
    {n d : ℕ} (o : Option ℕ) → d ≤ n → ((r : ℕ) → o ≡ some r → r ≤ n) → Option.get_or o d ≤ n
get_or_bound none h found = h
get_or_bound (some r) h found = found r refl

report_rank_bound :
    {n : ℕ} (o : Option ℕ) → 6 ≤ n → ((r : ℕ) → o ≡ some r → r ≤ n) → report_rank o ≤ n
report_rank_bound none h found = h
report_rank_bound (some r) h found = ground (arith, found r refl)

status_rank_bound : (status : String) → Option.get_or (lookup status service_item_status_rank) 0 ≤ 6
status_rank_bound status =
    get_or_bound (lookup status service_item_status_rank) (omega arith)
      (λ r e. get_by-All str_eq (λ v. v ≤ 6) status service_item_status_rank (omega arith) e)

report_rank-lookup_bound : (code : String) → report_rank (lookup code report_lifecycle_rank) ≤ 8
report_rank-lookup_bound code =
    report_rank_bound (lookup code report_lifecycle_rank) (omega arith)
      (λ r e. get_by-All str_eq (λ v. v ≤ 8) code report_lifecycle_rank (omega arith) e)

pub report_rank-ge : (o : Option ℕ) → 6 ≤ report_rank o
report_rank-ge none = omega arith
report_rank-ge (some r) = ground arith

-- No item is ranked past the last node.
pub rank-le : (item : ProjectStatusItem) → service_item_lifecycle_rank item ≤ 8
unfolding service_item_lifecycle_rank
rank-le item = elim (Bool-cases (str_eq (trim_space item.status) field_completed)) [
  | inl done ↦ rw done (report_rank-lookup_bound (normalize_report_phase item.report_status))
  | inr open_item ↦ rw open_item (omega (arith, status_rank_bound (trim_space item.status)))
]

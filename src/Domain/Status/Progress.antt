-- ===== src/Domain/Status/Progress.antt =====
-- internal/domain/project_status.go: `DeriveProjectProgress`, and how it agrees with the status.
use native.Mathlib.Nat.{div-le_of_le-mul, div-eq_of_eq-mul_left, le-div_iff_mul-le}
use project_management.Base.{
  ℕ, zero, suc, ◌+◌, ◌*◌, ◌/◌, ◌≤◌, ◌<◌, ◌≡◌, refl, sym, ◌∙◌, ◌≢◌, ◌↔◌, String, true, false, List,
  [], ◌∷◌, inl, inr, arith, Bool-cases, All, any, if◌then◌else◌, equal_fold, trim_space, str_eq,
  str_eq_iff, ◌==◌,
}
use project_management.Domain.Status.{
  ProjectStatusItem, is_terminated, service_item_lifecycle_rank, derive_project_status,
  derive_project_progress, scan_progress, project_status_nodes, node_at, completed,
}
use project_management.Domain.Status.Rank.{rank-le}
use project_management.Domain.Status.Derive.{is_active, Attains}
use project_management.Domain.Status.Spec.{
  StatusRule, in_supplement, without_items, abandoned, lagging, derive-iff-rule,
}

-- The sum of the ranks that count, and how many they are.
abbrev pub rank_sum : List ProjectStatusItem → ℕ
rank_sum [] = 0
rank_sum (item ∷ items) =
    if is_terminated item then rank_sum items else service_item_lifecycle_rank item + rank_sum items

abbrev pub count_active : List ProjectStatusItem → ℕ
count_active [] = 0
count_active (item ∷ items) =
    if is_terminated item then count_active items else suc (count_active items)

scan_progress-sums :
    (items : List ProjectStatusItem) (t c : ℕ)
    → scan_progress items t c ≡ (t + rank_sum items, c + count_active items)
unfolding scan_progress
scan_progress-sums [] t c = ground arith
scan_progress-sums (item ∷ items) t c = ground (
  arith,
  scan_progress-sums items (if is_terminated item then t else t + service_item_lifecycle_rank item)
      (if is_terminated item then c else suc c),
)

rank_sum-le : (items : List ProjectStatusItem) → rank_sum items ≤ 8 * count_active items
rank_sum-le [] = omega arith
rank_sum-le (item ∷ items) = ground (arith, rank_sum-le items, rank-le item)

-- The average, as a percentage of the last rank.
pub progress-eq :
    (items : List ProjectStatusItem)
    → 0 < count_active items
    → derive_project_progress items ≡ rank_sum items * 100 / (8 * count_active items)
unfolding derive_project_progress
progress-eq items h = ground (arith, scan_progress-sums items 0 0)

progress-zero :
    (items : List ProjectStatusItem) → count_active items ≡ 0 → derive_project_progress items ≡ 0
unfolding derive_project_progress
progress-zero items h = ground (arith, scan_progress-sums items 0 0)

pub percent-le : (t c : ℕ) → t ≤ 8 * c → t * 100 / (8 * c) ≤ 100
percent-le t c h = div-le_of_le-mul (8 * c) (omega arith)

percent_full : (t c : ℕ) → 0 < c → t ≤ 8 * c → (t * 100 / (8 * c) ≡ 100) ↔ (t ≡ 8 * c)
percent_full t c pos h = (
  λ e. omega (
    arith,
    (le-div_iff_mul-le {k = 8 * c} {x = 100} {y = t * 100} (omega arith)).0 (omega arith),
  ),
  λ e. div-eq_of_eq-mul_left {n = 8 * c} (omega arith) (omega arith),
)

abbrev pub AllDone : List ProjectStatusItem → Type 0
AllDone = All (λ i. is_active i ≡ true → 8 ≤ service_item_lifecycle_rank i)

sum-full :
    (items : List ProjectStatusItem) → rank_sum items ≡ 8 * count_active items → AllDone items
sum-full [] e = tt
sum-full (item ∷ items) e = (
  λ h. ground (arith, rank_sum-le items, rank-le item),
  sum-full items (ground (arith, rank_sum-le items, rank-le item)),
)

full-sum :
    (items : List ProjectStatusItem) → AllDone items → rank_sum items ≡ 8 * count_active items
full-sum [] h = refl
full-sum (item ∷ items) h = ground (arith, full-sum items h.1, rank-le item, h.0)

Attains-le : (items : List ProjectStatusItem) (r : ℕ) → Attains r items → r ≤ 8
Attains-le [] r h = absurd h
Attains-le (item ∷ items) r (inl (kept, e)) = omega (arith, rank-le item)
Attains-le (item ∷ items) r (inr h) = Attains-le items r h

-- The nodes are different texts: only the last one is `已完成`.
pub differ : (a b : String) → str_eq a b ≡ false → a ≢ b
differ a b h e = ground (arith, str_eq_iff a b)

node-completed : (r : ℕ) → r ≤ 8 → completed ≡ node_at project_status_nodes r → r ≡ 8
node-completed zero h e = absurd (differ _ _ refl e)
node-completed (suc zero) h e = absurd (differ _ _ refl e)
node-completed (suc (suc zero)) h e = absurd (differ _ _ refl e)
node-completed (suc (suc (suc zero))) h e = absurd (differ _ _ refl e)
node-completed (suc (suc (suc (suc zero)))) h e = absurd (differ _ _ refl e)
node-completed (suc (suc (suc (suc (suc zero))))) h e = absurd (differ _ _ refl e)
node-completed (suc (suc (suc (suc (suc (suc zero)))))) h e = absurd (differ _ _ refl e)
node-completed (suc (suc (suc (suc (suc (suc (suc zero))))))) h e = absurd (differ _ _ refl e)
node-completed (suc (suc (suc (suc (suc (suc (suc (suc r)))))))) h e = omega arith

active-count :
    (items : List ProjectStatusItem) → any is_active items ≡ true → 0 < count_active items
active-count [] h = cc
active-count (item ∷ items) h = ground (arith, active-count items)

pub completed-done :
    (items : List ProjectStatusItem) (supplement stored : String)
    → any is_active items ≡ true
    → StatusRule items supplement stored completed
    → AllDone items
completed-done items supplement stored h (in_supplement e p) = absurd (differ _ _ refl p)
completed-done items supplement stored h (without_items e nil p) = cc
completed-done items supplement stored h (abandoned e ne h' p) = cc
completed-done items supplement stored h (lagging r e h' low p) =
    let top = node-completed r (Attains-le items r low.attained) p in rw top at low.bound

pub AllDone-Attains :
    (items : List ProjectStatusItem) → any is_active items ≡ true → AllDone items → Attains 8 items
AllDone-Attains [] h d = cc
AllDone-Attains (item ∷ items) h d = elim (Bool-cases (is_terminated item)) [
  | inl gone ↦ inr (AllDone-Attains items (rw gone at h) d.1)
  | inr kept ↦ inl (rw kept refl, omega (arith, rank-le item, d.0 (rw kept refl)))
]

-- While some item counts and no supplement is pending, the progress is 100 exactly when the project
-- status is `已完成`.
pub progress-full_iff-completed :
    (items : List ProjectStatusItem) (supplement stored : String)
    → any is_active items ≡ true
    → equal_fold (trim_space supplement) "REQUIRED" ≡ false
    → (derive_project_progress items ≡ 100)
      ↔ (derive_project_status items supplement stored ≡ completed)
progress-full_iff-completed items supplement stored h e =
    let pos = active-count items h in
    let full = percent_full (rank_sum items) (count_active items) pos (rank_sum-le items) in
    let rule = derive-iff-rule items supplement stored completed in
    (
      λ p.
          let done = sum-full items (full.0 (sym (progress-eq items pos) ∙ p)) in
          rule.1
            (lagging 8 e h (record { bound = done; attained = AllDone-Attains items h done }) refl),
      λ q.
          progress-eq items pos
          ∙ full.1 (full-sum items (completed-done items supplement stored h (rule.0 q))),
    )

-- The progress is a percentage, whatever the items are.
pub progress-le : (items : List ProjectStatusItem) → derive_project_progress items ≤ 100
progress-le items = elim (Bool-cases (count_active items == 0)) [
  | inl gone ↦ rw (progress-zero items (ground arith)) (omega arith)
  | inr some_left ↦
      rw (progress-eq items (ground arith))
        (percent-le (rank_sum items) (count_active items) (rank_sum-le items))
]
